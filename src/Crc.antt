-- ===== src/Crc.antt =====
-- sdi12_crc.c: CRC-16-IBM, its three-character text, and appending and verifying it.
pub mod Step
pub mod Encode
pub mod Detect
pub mod RoundTrip
mod Examples
use libsdi.Base.{
  ℕ, ◌+◌, ◌-◌, ◌/◌, ◌%◌, ◌^◌, bit_and, bit_or, bit_xor, Bool, true, false, ◌&&◌, List, [], ◌∷◌,
  ◌++◌, Option, none, some, ltb, leb, ◌==◌, if◌then◌else◌, take, length, ◌>>=◌, ◌>>◌, check,
}
use libsdi.Base.Buffer.{byte_at, store, strlen}
use libsdi.Protocol.{Err, ok, err_buffer_overflow}

-- One round of the inner loop of sdi12_crc16.
unfoldable pub crc_bit : ℕ → ℕ
crc_bit crc = if bit_and crc 0x0001 == 0 then crc / 2 else bit_xor (crc / 2) 0xA001

-- The eight rounds of the inner loop.
unfoldable pub crc_bits : ℕ → ℕ
crc_bits crc = crc_bit (crc_bit (crc_bit (crc_bit (crc_bit (crc_bit (crc_bit (crc_bit crc)))))))

-- The outer loop, over the bytes that are left.
unfoldable pub crc_loop : ℕ → List ℕ → ℕ
crc_loop crc [] = crc
crc_loop crc (byte ∷ rest) = crc_loop (crc_bits (bit_xor crc byte)) rest

unfoldable pub crc16 : List ℕ → ℕ → ℕ
crc16 bytes len = crc_loop 0x0000 (take len bytes)

-- The three characters of sdi12_crc_encode_ascii; the NUL behind them is written by the callers.
unfoldable pub crc_encode_ascii : ℕ → List ℕ
crc_encode_ascii crc =
    (bit_or 0x40 (crc / 2 ^ 12) % 256)
    ∷ (bit_or 0x40 (bit_and (crc / 2 ^ 6) 0x3F) % 256)
    ∷ (bit_or 0x40 (bit_and crc 0x3F) % 256)
    ∷ []

abbrev pub crlf : List ℕ
crlf = 0x0D ∷ 0x0A ∷ []

-- Where the data ends: in front of a CR and LF that close the first `len` bytes.
unfoldable pub strip_crlf : List ℕ → ℕ → ℕ
strip_crlf buf len =
    if leb 2 len && (byte_at buf (len - 2) == 0x0D && byte_at buf (len - 1) == 0x0A)
    then len - 2
    else len

-- The common end of both append functions: the room, the CRC, and the six bytes written.
unfoldable pub insert_crc : List ℕ → ℕ → ℕ → Option (Err × List ℕ)
insert_crc buf data_end buflen =
    if ltb buflen (data_end + 3 + 2 + 1) then some (err_buffer_overflow, buf) else do
      let encoded = crc_encode_ascii (crc16 buf data_end)
      out ← store buf data_end (encoded ++ (crlf ++ 0 ∷ []))
      some (ok, out)

-- sdi12_crc_append, on the array `buf` that is said to have `buflen` bytes.
unfoldable pub crc_append : List ℕ → ℕ → Option (Err × List ℕ)
unfolding strip_crlf insert_crc
crc_append buf buflen = do slen ← strlen buf; insert_crc buf (strip_crlf buf slen) buflen

-- sdi12_crc_append_n: the caller's `data_len` bytes must be in the array.
unfoldable pub crc_append_n : List ℕ → ℕ → ℕ → Option (Err × List ℕ)
unfolding strip_crlf insert_crc
crc_append_n buf data_len buflen = do
  check (leb data_len (length buf))
  insert_crc buf (strip_crlf buf data_len) buflen

-- The last byte is dropped if it is `c`.
unfoldable pub drop_last : ℕ → List ℕ → ℕ → ℕ
drop_last c buf end = if ltb 0 end && byte_at buf (end - 1) == c then end - 1 else end

-- sdi12_crc_verify
unfoldable pub crc_verify : List ℕ → ℕ → Bool
unfolding drop_last
crc_verify buf len =
    if ltb len 6
    then false
    else let end = drop_last 0x0D buf (drop_last 0x0A buf len) in
      if ltb end 3
      then false
      else let data_end = end - 3 in
        let expected = crc_encode_ascii (crc16 buf data_end) in
        byte_at buf data_end == byte_at expected 0
        && (byte_at buf (data_end + 1) == byte_at expected 1
            && byte_at buf (data_end + 2) == byte_at expected 2)
