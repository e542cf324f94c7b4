-- ===== src/Crc/Step.antt =====
-- One step of the CRC register (sdi12_crc16): it stays a 16-bit word, and no step loses information.
use libsdi.Base.{
  ℕ, zero, suc, ◌+◌, ◌*◌, ◌/◌, ◌^◌, ◌<◌, bit_xor, ◌≡◌, refl, sym, ap, ◌∙◌, Bool, true, arith, leb,
  ◌==◌, ==_iff, if◌then◌else◌,
}
use libsdi.Base.Bits.{xor-lt, holds_below, read_table, xor_cancel, xor_comm}
use libsdi.Crc.{crc_bit, crc_bits}

abbrev pub IsWord : ℕ → Type 0
IsWord c = c < 2 ^ 16

abbrev pub IsByte : ℕ → Type 0
IsByte c = c < 2 ^ 8

pub crc_bit-IsWord : (c : ℕ) → IsWord c → IsWord (crc_bit c)
unfolding crc_bit
crc_bit-IsWord c h = ground (arith, xor-lt 16 (c / 2) 0xA001 (omega arith) (omega arith))

pub crc_bits-IsWord : (c : ℕ) → IsWord c → IsWord (crc_bits c)
unfolding crc_bits
crc_bits-IsWord c h = search (h, crc_bit-IsWord) depth 10

-- The round backwards: the top bit tells whether the polynomial was added.
uncrc_bit : ℕ → ℕ
uncrc_bit c = if leb 0x8000 c then bit_xor c 0xA001 * 2 + 1 else c * 2

abbrev undone : ℕ → Bool
undone c = uncrc_bit (crc_bit c) == c

undone_table : holds_below undone (2 ^ 16) ≡ true
unfolding holds_below uncrc_bit crc_bit
undone_table = refl

uncrc_bit-crc_bit : (c : ℕ) → IsWord c → uncrc_bit (crc_bit c) ≡ c
uncrc_bit-crc_bit c h = (==_iff _ _).0 (read_table undone (2 ^ 16) undone_table c h)

crc_bit-injective : (c d : ℕ) → IsWord c → IsWord d → crc_bit c ≡ crc_bit d → c ≡ d
crc_bit-injective c d hc hd e =
    sym (uncrc_bit-crc_bit c hc) ∙ ap uncrc_bit e ∙ uncrc_bit-crc_bit d hd

-- The register after `n` rounds.
rounds : ℕ → ℕ → ℕ
rounds zero c = c
rounds (suc n) c = rounds n (crc_bit c)

rounds-injective : (n c d : ℕ) → IsWord c → IsWord d → rounds n c ≡ rounds n d → c ≡ d
unfolding rounds
rounds-injective zero c d hc hd e = e
rounds-injective (suc n) c d hc hd e =
    crc_bit-injective c d hc hd
      (rounds-injective n (crc_bit c) (crc_bit d) (crc_bit-IsWord c hc) (crc_bit-IsWord d hd) e)

crc_bits-rounds : (c : ℕ) → crc_bits c ≡ rounds 8 c
unfolding crc_bits rounds
crc_bits-rounds c = refl

-- The eight rounds map different registers to different registers.
pub crc_bits-injective : (c d : ℕ) → IsWord c → IsWord d → crc_bits c ≡ crc_bits d → c ≡ d
crc_bits-injective c d hc hd e =
    rounds-injective 8 c d hc hd (sym (crc_bits-rounds c) ∙ e ∙ crc_bits-rounds d)

pub xor_byte-IsWord : (c b : ℕ) → IsWord c → IsByte b → IsWord (bit_xor c b)
xor_byte-IsWord c b hc hb = xor-lt 16 c b hc (omega arith)

-- A byte is mixed in without loss: of the register, and of the byte.
pub xor_byte-injective :
    (c d b : ℕ) → IsWord c → IsWord d → IsByte b → bit_xor c b ≡ bit_xor d b → c ≡ d
xor_byte-injective c d b hc hd hb e =
    sym (xor_cancel 16 c b hc (omega arith))
    ∙ ap (λ (t : ℕ). bit_xor t b) e
    ∙ xor_cancel 16 d b hd (omega arith)

pub byte-injective :
    (c a b : ℕ) → IsWord c → IsByte a → IsByte b → bit_xor c a ≡ bit_xor c b → a ≡ b
byte-injective c a b hc ha hb e = ground (
  arith,
  xor_comm 16 c a hc (omega arith),
  xor_comm 16 c b hc (omega arith),
  xor_cancel 16 a c (omega arith) hc,
  xor_cancel 16 b c (omega arith) hc,
)
