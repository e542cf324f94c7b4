-- ===== src/Crc/Encode.antt =====
-- sdi12_crc_encode_ascii: three printable characters that determine the CRC.
use libsdi.Base.{ℕ, ◌+◌, ◌*◌, ◌/◌, ◌%◌, ◌^◌, ◌≤◌, ◌≡◌, ◌≢◌, sym, ap, ◌∙◌, List, [], ◌∷◌, arith, All}
use libsdi.Base.Buffer.{byte_at}
use libsdi.Base.Bits.{or_0x40, and-0x3f}
use libsdi.Crc.{crc_encode_ascii}
use libsdi.Crc.Step.{IsWord}

-- The characters are the three base-64 digits of the CRC, above 0x40.
pub crc_encode_ascii_lem :
    (c : ℕ)
    → IsWord c
    → crc_encode_ascii c ≡ (64 + c / 4096) ∷ (64 + c / 64 % 64) ∷ (64 + c % 64) ∷ []
unfolding crc_encode_ascii
crc_encode_ascii_lem c h = ground (
  arith,
  or_0x40 (c / 2 ^ 12) (omega arith),
  and-0x3f 10 c (omega arith),
  and-0x3f 10 (c / 2 ^ 6) (omega arith),
  or_0x40 (c / 2 ^ 6 % 64) (omega arith),
  or_0x40 (c % 64) (omega arith),
)

-- The characters of a 16-bit CRC lie between '@' (0x40) and 0x7F.
crc_encode_ascii-printable :
    (c : ℕ) → IsWord c → All (λ x. (0x40 ≤ x) × (x ≤ 0x7F)) (crc_encode_ascii c)
crc_encode_ascii-printable c h = rw (crc_encode_ascii_lem c h) (omega arith)

abbrev decode : List ℕ → ℕ
decode x = byte_at x 0 % 64 * 4096 + byte_at x 1 % 64 * 64 + byte_at x 2 % 64

decode-encode : (c : ℕ) → IsWord c → decode (crc_encode_ascii c) ≡ c
decode-encode c h = rw (crc_encode_ascii_lem c h) (omega arith)

-- Different 16-bit CRCs have different texts.
crc_encode_ascii-injective :
    (c d : ℕ) → IsWord c → IsWord d → c ≢ d → crc_encode_ascii c ≢ crc_encode_ascii d
crc_encode_ascii-injective c d hc hd ne =
    λ e. ne (sym (decode-encode c hc) ∙ ap decode e ∙ decode-encode d hd)
