-- ===== src/Base/Text.antt =====
-- The conversions of printf that the source uses, and the digits that it reads.
use Prim.Native.Nat.{ℕ, zero, suc, ◌+◌, ◌-◌, ◌/◌, ◌%◌, ◌≤◌, ◌<◌}
use mathlib.Core.Path.{◌≡◌}
use mathlib.Core.Bool.{Bool, ◌&&◌}
use mathlib.Core.List.{List, [], ◌∷◌, ◌++◌}
use native.Mathlib.Omega.{arith}
use native.Mathlib.Decide.{dec_lt}
use libsdi.Base.Tests.{leb, ltb, if◌then◌else◌}
use libsdi.Base.Lists.{
  All, length, take, replicate, length-append, length-take, length-replicate, All-append, All-take,
  All-replicate,
}

unfoldable pub is_digit : ℕ → Bool
is_digit c = leb b'0' c && leb c b'9'

-- The decimal digits of a number of at most `fuel` digits.
unfoldable pub digits : ℕ → ℕ → List ℕ
digits zero n = []
digits (suc fuel) n =
    let front = digits fuel (n / 10) in
    if ltb n 10 then (b'0' + n) ∷ [] else front ++ (b'0' + n % 10) ∷ []

-- `%u`: an unsigned number of at most 32 bits has ten digits.
unfoldable pub decimal : ℕ → List ℕ
decimal n = digits 10 n

-- `%0<width>u`
unfoldable pub zero_pad : ℕ → ℕ → List ℕ
zero_pad width n = replicate (width - length (decimal n)) b'0' ++ decimal n

-- `%-<width>.<width>s`
unfoldable pub pad_right : ℕ → List ℕ → List ℕ
pad_right width text = take width text ++ replicate (width - length text) b' '

digits_one : (f n : ℕ) → n < 10 → digits (suc f) n ≡ (b'0' + n) ∷ []
unfolding digits
digits_one f n h = ground arith

digits_more : (f n : ℕ) → 10 ≤ n → digits (suc f) n ≡ digits f (n / 10) ++ (b'0' + n % 10) ∷ []
unfolding digits
digits_more f n h = ground arith

pub decimal_one : (n : ℕ) → n < 10 → decimal n ≡ (b'0' + n) ∷ []
unfolding decimal
decimal_one n h = digits_one 9 n h

pub decimal_two : (n : ℕ) → 10 ≤ n → n < 100 → decimal n ≡ (b'0' + n / 10) ∷ (b'0' + n % 10) ∷ []
unfolding decimal
decimal_two n h k = rw (digits_more 9 n h, digits_one 8 (n / 10) (omega arith))

pub decimal_three :
    (n : ℕ)
    → 100 ≤ n
    → n < 1000
    → decimal n ≡ (b'0' + n / 100) ∷ (b'0' + n / 10 % 10) ∷ (b'0' + n % 10) ∷ []
unfolding decimal
decimal_three n h k = ground (
  arith,
  digits_more 9 n (omega arith),
  digits_more 8 (n / 10) (omega arith),
  digits_one 7 (n / 10 / 10) (omega arith),
)

pub zero_pad_two : (n : ℕ) → n < 100 → zero_pad 2 n ≡ (b'0' + n / 10) ∷ (b'0' + n % 10) ∷ []
unfolding zero_pad
zero_pad_two n h = elim (dec_lt n 10) [
  | yes p ↦ rw (decimal_one n p) (ground arith)
  | no p ↦ rw (decimal_two n (omega arith) h)
]

pub zero_pad_three :
    (n : ℕ)
    → n < 1000
    → zero_pad 3 n ≡ (b'0' + n / 100) ∷ (b'0' + n / 10 % 10) ∷ (b'0' + n % 10) ∷ []
unfolding zero_pad
zero_pad_three n h = elim (dec_lt n 10) [
  | yes p ↦ rw (decimal_one n p) (ground arith)
  | no p ↦ elim (dec_lt n 100) [
    | yes q ↦ rw (decimal_two n (omega arith) q) (ground arith)
    | no q ↦ rw (decimal_three n (omega arith) h)
  ]
]

pub length-pad_right : (width : ℕ) (text : List ℕ) → length (pad_right width text) ≡ width
unfolding pad_right
length-pad_right width text =
    let spaces : List ℕ = replicate (width - length text) b' ' in
    omega (
      arith,
      length-append (take width text) spaces,
      length-take width text,
      length-replicate {A = ℕ} (width - length text) b' ',
    )

pub All-pad_right :
    (P : ℕ → Type 0) (width : ℕ) (text : List ℕ)
    → P b' '
    → All P text
    → All P (pad_right width text)
unfolding pad_right
All-pad_right P width text space h =
    All-append P (take width text) (replicate (width - length text) b' ') (All-take P width text h)
      (All-replicate P (width - length text) b' ' space)

pub length-decimal : (n : ℕ) → n < 1000 → 1 ≤ length (decimal n) × (length (decimal n) ≤ 3)
length-decimal n h = elim (dec_lt n 10) [
  | yes p ↦ rw (decimal_one n p) (omega arith, omega arith)
  | no p ↦ elim (dec_lt n 100) [
    | yes q ↦ rw (decimal_two n (omega arith) q) (omega arith, omega arith)
    | no q ↦ rw (decimal_three n (omega arith) h) (omega arith, omega arith)
  ]
]
