-- ===== src/Crc/Examples.antt =====
-- sdi12_crc.c on concrete responses: `0+3.14` and its frame, the example of the SDI-12
-- specification.
use libsdi.Base.{
  ℕ, ◌+◌, ◌≡◌, refl, true, false, List, [], ◌∷◌, ◌++◌, some, arith, codes, take, replicate,
}
use libsdi.Base.Buffer.{store, strlen}
use libsdi.Protocol.{ok}
use libsdi.Crc.{
  crc_bit, crc_bits, crc_loop, crc16, crc_encode_ascii, crlf, strip_crlf, insert_crc, crc_append,
  crc_verify,
}
use libsdi.Crc.RoundTrip.{frame, crc_verify-crc_append, crc_verify_one_byte}

-- An array of 16 bytes that holds `0+3.14`, CR and LF.
abbrev line : List ℕ
line = codes "0+3.14" ++ (crlf ++ replicate 8 0)

abbrev framed : List ℕ
framed = codes "0+3.14" ++ (codes "OqZ" ++ (crlf ++ 0 ∷ replicate 4 0))

line_append : crc_append line 16 ≡ some (ok, framed)
unfolding crc_append crc_encode_ascii crc16 crc_loop crc_bits crc_bit strlen strip_crlf insert_crc
    store
line_append = refl

line-strlen : strlen line ≡ some 8
unfolding strlen
line-strlen = refl

line_stripped : strip_crlf line 8 ≡ 6
unfolding strip_crlf
line_stripped = refl

crc_verify-crc_append_example :
    (take (strip_crlf line 8) framed ≡ take (strip_crlf line 8) line)
    × (strlen framed ≡ some (strip_crlf line 8 + 5))
    × (crc_verify framed (strip_crlf line 8 + 5) ≡ true)
crc_verify-crc_append_example =
    crc_verify-crc_append line framed 8 16 (omega arith) (omega arith) line-strlen
      (omega (arith, line_stripped)) line_append

-- `0+3.14` with the `3` turned into a `2`.
crc_verify_one_byte_example :
    crc_verify
      (frame
        (codes "0+" ++ b'2' ∷ codes ".14")
        (crc_encode_ascii (crc16 (codes "0+" ++ b'3' ∷ codes ".14") 6))
        (0 ∷ []))
      11
    ≡ false
crc_verify_one_byte_example =
    crc_verify_one_byte (codes "0+") (codes ".14") (0 ∷ []) b'3' b'2' (omega arith) (omega arith)
      (omega arith) (omega arith) (omega arith)
