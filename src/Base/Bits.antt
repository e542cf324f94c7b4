-- ===== src/Base/Bits.antt =====
-- The bit operations of C on words: the lowest digit, and the laws of `^`, `&` and `|` that follow.
use Prim.Native.Nat.{ℕ, zero, suc, ◌+◌, ◌*◌, ◌/◌, ◌%◌, ◌^◌, ◌≤◌, ◌<◌, min}
use Prim.Native.Nat.{bit_and, bit_or, bit_xor, digits, differ}
use Prim.Native.Nat.{bit_and-bitwise, bit_xor-bitwise}
use mathlib.Core.Path.{◌≡◌, refl, ap, ◌∙◌}
use mathlib.Core.Bool.{Bool, true, ◌&&◌}
use native.Mathlib.Omega.{arith}
use native.Mathlib.Nat.{pow-suc}
use libsdi.Base.Tests.{◌==◌, ==_iff}

-- The count of digits to go does not matter once it reaches the first number.
module _ (z : ℕ → ℕ) (f : ℕ → ℕ → ℕ) where
  digits_enough : (n m a b : ℕ) → a ≤ n → a ≤ m → digits z f n a b ≡ digits z f m a b
  digits_enough (suc n) (suc m) zero b p q = refl
  digits_enough (suc n) zero zero b p q = refl
  digits_enough zero (suc m) zero b p q = refl
  digits_enough zero zero a b p q = refl
  digits_enough (suc n) zero (suc a) b p q = absurd (omega arith)
  digits_enough zero (suc m) (suc a) b p q = absurd (omega arith)
  digits_enough (suc n) (suc m) (suc a) b p q =
      rw (digits_enough n m (suc a / 2) (b / 2) (omega arith) (omega arith))

  digits_half :
      (a b : ℕ) → digits z f a (suc a / 2) (b / 2) ≡ digits z f (suc a / 2) (suc a / 2) (b / 2)
  digits_half a b = digits_enough a (suc a / 2) (suc a / 2) (b / 2) (omega arith) (omega arith)

differ_bits : (a b : ℕ) → a < 2 → b < 2 → differ a b ≡ (a + b) % 2
differ_bits zero zero p q = refl
differ_bits zero (suc zero) p q = refl
differ_bits (suc zero) zero p q = refl
differ_bits (suc zero) (suc zero) p q = refl
differ_bits (suc (suc a)) b p q = absurd (omega arith)
differ_bits a (suc (suc b)) p q = absurd (omega arith)

pub xor_step : (a b : ℕ) → bit_xor a b ≡ bit_xor (a / 2) (b / 2) * 2 + (a + b) % 2
xor_step zero b = omega (arith, bit_xor-bitwise 0 b, bit_xor-bitwise 0 (b / 2))
xor_step (suc a) b = omega (
  arith,
  bit_xor-bitwise (suc a) b,
  bit_xor-bitwise (suc a / 2) (b / 2),
  digits_half (λ b. b) differ a b,
  differ_bits (suc a % 2) (b % 2) (omega arith) (omega arith),
)

pub and_step : (a b : ℕ) → bit_and a b ≡ bit_and (a / 2) (b / 2) * 2 + min (a % 2) (b % 2)
and_step zero b = omega (arith, bit_and-bitwise 0 b, bit_and-bitwise 0 (b / 2))
and_step (suc a) b =
    let low = bit_and-bitwise (suc a / 2) (b / 2) in
    let same = digits_half (λ b. 0) min a b in omega (arith, low, same, bit_and-bitwise (suc a) b)

-- `^` on words of `k` bits.
pub xor-lt : (k a b : ℕ) → a < 2 ^ k → b < 2 ^ k → bit_xor a b < 2 ^ k
xor-lt zero zero zero p q = omega arith
xor-lt zero (suc a) b p q = absurd (omega arith)
xor-lt zero a (suc b) p q = absurd (omega arith)
xor-lt (suc k) a b p q = omega (
  arith,
  xor_step a b,
  pow-suc 2 k,
  xor-lt k (a / 2) (b / 2) (omega (arith, pow-suc 2 k)) (omega (arith, pow-suc 2 k)),
)

-- The digits of an exclusive or.
pub xor_half : (a b : ℕ) → bit_xor a b / 2 ≡ bit_xor (a / 2) (b / 2)
xor_half a b = omega (arith, xor_step a b)

pub xor_low : (a b : ℕ) → bit_xor a b % 2 ≡ (a + b) % 2
xor_low a b = omega (arith, xor_step a b)

half-lt : (k a : ℕ) → a < 2 ^ suc k → a / 2 < 2 ^ k
half-lt k a p = omega (arith, pow-suc 2 k)

pub xor_comm : (k a b : ℕ) → a < 2 ^ k → b < 2 ^ k → bit_xor a b ≡ bit_xor b a
xor_comm zero zero zero p q = refl
xor_comm zero (suc a) b p q = absurd (omega arith)
xor_comm zero a (suc b) p q = absurd (omega arith)
xor_comm (suc k) a b p q =
    omega (
      arith,
      xor_step a b,
      xor_step b a,
      xor_comm k (a / 2) (b / 2) (half-lt k a p) (half-lt k b q),
    )

pub xor_assoc :
    (k a b c : ℕ)
    → a < 2 ^ k
    → b < 2 ^ k
    → c < 2 ^ k
    → bit_xor (bit_xor a b) c ≡ bit_xor a (bit_xor b c)
xor_assoc zero zero zero zero p q r = refl
xor_assoc zero (suc a) b c p q r = absurd (omega arith)
xor_assoc zero a (suc b) c p q r = absurd (omega arith)
xor_assoc zero a b (suc c) p q r = absurd (omega arith)
xor_assoc (suc k) a b c p q r = omega (
  arith,
  xor_step (bit_xor a b) c,
  xor_step a (bit_xor b c),
  xor_low a b,
  xor_low b c,
  ap (λ (t : ℕ). bit_xor t (c / 2)) (xor_half a b),
  ap (λ (t : ℕ). bit_xor (a / 2) t) (xor_half b c),
  xor_assoc k (a / 2) (b / 2) (c / 2) (half-lt k a p) (half-lt k b q) (half-lt k c r),
)

pub xor_self : (k a : ℕ) → a < 2 ^ k → bit_xor a a ≡ 0
xor_self zero zero p = refl
xor_self zero (suc a) p = absurd (omega arith)
xor_self (suc k) a p = omega (arith, xor_step a a, xor_self k (a / 2) (half-lt k a p))

pub xor-zero : (k a : ℕ) → a < 2 ^ k → bit_xor a 0 ≡ a
xor-zero zero zero p = refl
xor-zero zero (suc a) p = absurd (omega arith)
xor-zero (suc k) a p = omega (arith, xor_step a 0, xor-zero k (a / 2) (half-lt k a p))

pub xor_cancel : (k a b : ℕ) → a < 2 ^ k → b < 2 ^ k → bit_xor (bit_xor a b) b ≡ a
xor_cancel k a b p q =
    xor_assoc k a b b p q q ∙ ap (λ (t : ℕ). bit_xor a t) (xor_self k b q) ∙ xor-zero k a p

-- The masks of no bit and of the lowest bit.
pub and-zero : (k a : ℕ) → a < 2 ^ k → bit_and a 0 ≡ 0
and-zero zero zero p = refl
and-zero zero (suc a) p = absurd (omega arith)
and-zero (suc k) a p = omega (arith, and_step a 0, and-zero k (a / 2) (half-lt k a p))

and-zero_upto : (n a : ℕ) → a ≤ n → bit_and a 0 ≡ 0
and-zero_upto n zero h = refl
and-zero_upto zero (suc a) h = absurd (omega arith)
and-zero_upto (suc n) (suc a) h =
    omega (arith, and_step (suc a) 0, and-zero_upto n (suc a / 2) (omega arith))

-- A mask of `k` bits leaves `k` bits.
pub and-lt : (k a b : ℕ) → b < 2 ^ k → bit_and a b < 2 ^ k
and-lt zero a zero h = omega (arith, and-zero_upto a a (omega arith))
and-lt zero a (suc b) h = absurd (omega arith)
and-lt (suc k) a b h =
    omega (arith, and_step a b, pow-suc 2 k, and-lt k (a / 2) (b / 2) (half-lt k b h))

pub and-one : (k a : ℕ) → a < 2 ^ suc k → bit_and a 1 ≡ a % 2
and-one k a p = omega (arith, and_step a 1, and-zero k (a / 2) (half-lt k a p))

-- A property of every number of a small range, by evaluation.
unfoldable pub holds_below : (ℕ → Bool) → ℕ → Bool
holds_below p zero = true
holds_below p (suc n) = holds_below p n && p n

-- A table that holds is a theorem.
pub read_table : (p : ℕ → Bool) (n : ℕ) → holds_below p n ≡ true → (x : ℕ) → x < n → p x ≡ true
unfolding holds_below
read_table p (suc n) h x lt = ground (arith, read_table p n _ x)
read_table p zero h x lt = absurd (omega arith)

or_table : holds_below (λ x. bit_or 0x40 x == 64 + x) 64 ≡ true
unfolding holds_below
or_table = refl

-- The constant bit of a printed CRC character lies above its six bits.
pub or_0x40 : (x : ℕ) → x < 64 → bit_or 0x40 x ≡ 64 + x
or_0x40 x h = (==_iff _ _).0 (read_table _ 64 or_table x h)

-- The mask of the lowest six bits.
pub and-0x3f : (k a : ℕ) → a < 2 ^ (k + 6) → bit_and a 0x3F ≡ a % 64
and-0x3f k a p = omega (
  arith,
  and_step a 63,
  and_step (a / 2) 31,
  and_step (a / 2 / 2) 15,
  and_step (a / 2 / 2 / 2) 7,
  and_step (a / 2 / 2 / 2 / 2) 3,
  and_step (a / 2 / 2 / 2 / 2 / 2) 1,
  and-zero (k + 6) (a / 2 / 2 / 2 / 2 / 2 / 2) (omega arith),
)
