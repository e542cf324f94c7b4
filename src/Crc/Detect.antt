-- ===== src/Crc/Detect.antt =====
-- What the CRC of sdi12_crc16 detects.
use libsdi.Base.{
  ℕ, ◌+◌, ◌≡◌, ◌≢◌, refl, sym, ap, ◌∙◌, List, [], ◌∷◌, ◌++◌, arith, All, length, take_all,
  length-append,
}
use libsdi.Crc.{crc_loop, crc16}
use libsdi.Crc.Step.{
  IsWord, IsByte, crc_bits-IsWord, crc_bits-injective, xor_byte-IsWord, xor_byte-injective,
  byte-injective,
}

pub crc_loop-IsWord :
    (bytes : List ℕ) (c : ℕ) → IsWord c → All IsByte bytes → IsWord (crc_loop c bytes)
unfolding crc_loop
crc_loop-IsWord [] c h hs = h
crc_loop-IsWord (b ∷ bytes) c h hs =
    crc_loop-IsWord bytes _ (crc_bits-IsWord _ (xor_byte-IsWord c b h hs.0)) hs.1

crc_loop-append : (xs ys : List ℕ) (c : ℕ) → crc_loop c (xs ++ ys) ≡ crc_loop (crc_loop c xs) ys
unfolding crc_loop
crc_loop-append [] ys c = refl
crc_loop-append (x ∷ xs) ys c = crc_loop-append xs ys _

-- A difference in the register survives the bytes that follow.
crc_loop-injective :
    (bytes : List ℕ) (c d : ℕ)
    → IsWord c
    → IsWord d
    → All IsByte bytes
    → crc_loop c bytes ≡ crc_loop d bytes
    → c ≡ d
unfolding crc_loop
crc_loop-injective [] c d hc hd hs e = e
crc_loop-injective (b ∷ bytes) c d hc hd hs e =
    let hx = xor_byte-IsWord c b hc hs.0 in
    let hy = xor_byte-IsWord d b hd hs.0 in
    xor_byte-injective c d b hc hd hs.0 (
      crc_bits-injective _ _ hx hy
        (crc_loop-injective bytes _ _ (crc_bits-IsWord _ hx) (crc_bits-IsWord _ hy) hs.1 e))

-- The CRC of a whole text.
pub crc16_all : (bytes : List ℕ) (n : ℕ) → n ≡ length bytes → crc16 bytes n ≡ crc_loop 0 bytes
unfolding crc16
crc16_all bytes n e = ap (crc_loop 0) (take_all n bytes (omega arith))

pub crc_loop_one_byte :
    (front back : List ℕ) (a b : ℕ)
    → All IsByte front
    → All IsByte back
    → IsByte a
    → IsByte b
    → crc_loop 0 (front ++ a ∷ back) ≡ crc_loop 0 (front ++ b ∷ back)
    → a ≡ b
unfolding crc_loop
crc_loop_one_byte front back a b hf hk ha hb e =
    let c = crc_loop 0 front in
    let hc = crc_loop-IsWord front 0 (omega arith) hf in
    let hx = xor_byte-IsWord c a hc ha in
    let hy = xor_byte-IsWord c b hc hb in
    let same = sym (crc_loop-append front (a ∷ back) 0) ∙ e ∙ crc_loop-append front (b ∷ back) 0 in
    byte-injective c a b hc ha hb (
      crc_bits-injective _ _ hx hy
        (crc_loop-injective back _ _ (crc_bits-IsWord _ hx) (crc_bits-IsWord _ hy) hk same))

-- Messages of bytes that differ in exactly one byte have different CRCs.
pub crc16_one_byte :
    (front back : List ℕ) (a b n : ℕ)
    → All IsByte front
    → All IsByte back
    → IsByte a
    → IsByte b
    → n ≡ length front + length (a ∷ back)
    → a ≢ b
    → crc16 (front ++ a ∷ back) n ≢ crc16 (front ++ b ∷ back) n
crc16_one_byte front back a b n hf hk ha hb hn ne = λ e. ne (
    crc_loop_one_byte front back a b hf hk ha hb (
      sym (crc16_all _ n (omega (arith, length-append front (a ∷ back))))
      ∙ e
      ∙ crc16_all _ n (omega (arith, length-append front (b ∷ back)))))
