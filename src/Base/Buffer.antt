-- ===== src/Base/Buffer.antt =====
-- Character arrays of a fixed size, as lists of bytes, and what the source uses of <string.h> and
-- <stdio.h> on them. An access outside the array is a fault (`none`).
use Prim.Native.Nat.{ℕ, zero, suc, ◌+◌, ◌-◌, ◌≤◌, ◌<◌}
use mathlib.Core.Path.{◌≡◌, refl, ap, ◌∙◌}
use mathlib.Core.Logic.{◌≢◌, inl, inr}
use mathlib.Core.Option.{Option, none, some}
use mathlib.Core.Option
use mathlib.Core.List.{List, [], ◌∷◌, ◌++◌, append_assoc}
use native.Mathlib.Omega.{arith}
use libsdi.Base.Tests.{◌==◌, leb, if◌then◌else◌, Option-cases, Bool-cases}
use libsdi.Base.Lists.{
  All, length, get_or, take, drop, length-append, length-take, length-drop, take_all, take-append,
}
use libsdi.Base.Fault.{◌>>◌, check}

-- `buf[i]`, for an index that the code has compared with the size.
abbrev pub byte_at : List ℕ → ℕ → ℕ
byte_at buf i = get_or buf i 0

-- The array with the bytes from `pos` on replaced.
abbrev pub overwrite : List ℕ → ℕ → List ℕ → List ℕ
overwrite buf pos bytes = take pos buf ++ (bytes ++ drop (pos + length bytes) buf)

-- A write of all of `bytes` at `pos`.
unfoldable pub store : List ℕ → ℕ → List ℕ → Option (List ℕ)
store buf pos bytes =
    check (leb (pos + length bytes) (length buf)) >> some (overwrite buf pos bytes)

-- `strlen(buf)`: without a NUL it runs past the array.
unfoldable pub strlen : List ℕ → Option ℕ
strlen [] = none
strlen (c ∷ cs) = if c == 0 then some 0 else Option.map suc (strlen cs)

-- `snprintf(buf, sizeof(buf), ...)` of a text: cut to the size, with a NUL behind it.
unfoldable pub snprintf : List ℕ → List ℕ → List ℕ
snprintf buf text = overwrite buf 0 (take (length buf - 1) text ++ 0 ∷ [])

abbrev pub NoNul : List ℕ → Type 0
NoNul = All (λ c. c ≢ 0)

pub length-overwrite :
    (buf : List ℕ) (pos : ℕ) (bytes : List ℕ)
    → pos + length bytes ≤ length buf
    → length (overwrite buf pos bytes) ≡ length buf
length-overwrite buf pos bytes h = omega (
  arith,
  length-append (take pos buf) (bytes ++ drop (pos + length bytes) buf),
  length-append bytes (drop (pos + length bytes) buf),
  length-take pos buf,
  length-drop (pos + length bytes) buf,
)

pub store_fits :
    (buf : List ℕ) (pos : ℕ) (bytes : List ℕ)
    → pos + length bytes ≤ length buf
    → store buf pos bytes ≡ some (overwrite buf pos bytes)
unfolding store
store_fits buf pos bytes h = ground arith

pub store_fault :
    (buf : List ℕ) (pos : ℕ) (bytes : List ℕ)
    → length buf < pos + length bytes
    → store buf pos bytes ≡ none
unfolding store
store_fault buf pos bytes h = ground arith

-- A stored write was in range.
pub store-eq-some :
    (buf : List ℕ) (pos : ℕ) (bytes : List ℕ) {out : List ℕ}
    → store buf pos bytes ≡ some out
    → (pos + length bytes ≤ length buf) × (out ≡ overwrite buf pos bytes)
unfolding store
store-eq-some buf pos bytes h = ground arith

-- The text in front of the first NUL.
pub strlen-append :
    (text rest : List ℕ) → NoNul text → strlen (text ++ 0 ∷ rest) ≡ some (length text)
unfolding strlen
strlen-append [] rest h = refl
strlen-append (c ∷ text) rest h = ground (arith, strlen-append text rest h.1)

pub strlen_sound :
    (buf : List ℕ) (n : ℕ) → strlen buf ≡ some n → (n < length buf) × NoNul (take n buf)
unfolding strlen
strlen_sound [] n h = cc
strlen_sound (c ∷ buf) zero h = (omega arith, tt)
strlen_sound (c ∷ buf) (suc n) h = elim (Option-cases (strlen buf)) [
  | inl e ↦ ground arith
  | inr (m, e) ↦ ground (arith, strlen_sound buf n)
]

pub strlen-split :
    (buf : List ℕ) (n : ℕ) → strlen buf ≡ some n → (rest : List ℕ) × (buf ≡ take n buf ++ 0 ∷ rest)
unfolding strlen
strlen-split [] n h = cc
strlen-split (c ∷ buf) n h = elim (Bool-cases (c == 0)) [
  | inl e ↦ let none_left : n ≡ 0 = ground arith in (buf, rw none_left (ground arith))
  | inr e ↦ elim (Option-cases (strlen buf)) [
    | inl f ↦ ground arith
    | inr (m, f) ↦
        let (rest, shape) = strlen-split buf m f in
        let one : n ≡ suc m = ground arith in (rest, rw one (ap (◌∷◌ c) shape))
  ]
]

pub snprintf_fits :
    (buf text : List ℕ)
    → length text < length buf
    → snprintf buf text ≡ text ++ 0 ∷ drop (length text + 1) buf
unfolding snprintf
snprintf_fits buf text h = rw (take_all (length buf - 1) text (omega arith)) (
    append_assoc text (0 ∷ []) _
    ∙ ap (λ (k : ℕ). text ++ 0 ∷ drop k buf) (omega (arith, length-append text (0 ∷ []))))

pub length-snprintf : (buf text : List ℕ) → 0 < length buf → length (snprintf buf text) ≡ length buf
unfolding snprintf
length-snprintf buf text h =
    let cut = take (length buf - 1) text in
    length-overwrite buf 0 (cut ++ 0 ∷ [])
      (omega (arith, length-append cut (0 ∷ []), length-take (length buf - 1) text))

-- A write at the end of a prefix.
pub splice :
    (front rest bytes : List ℕ) (buf : List ℕ) (pos : ℕ)
    → buf ≡ front ++ rest
    → pos ≡ length front
    → overwrite buf pos bytes ≡ front ++ (bytes ++ drop (pos + length bytes) buf)
splice front rest bytes buf pos e h =
    ap (λ t. t ++ (bytes ++ drop (pos + length bytes) buf))
      (ap (take pos) e ∙ take-append pos front rest h)
