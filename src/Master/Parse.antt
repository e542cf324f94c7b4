-- ===== src/Master/Parse.antt =====
-- sdi12_master.c: trim_crlf, parse_digits and sdi12_master_parse_meas_response, whose `resp_str`
-- is the memory of the response from its first byte on.
use libsdi.Base.{
  ℕ, zero, suc, ◌+◌, ◌-◌, ◌*◌, ◌%◌, ◌^◌, not, ◌||◌, List, [], ◌∷◌, Option, some, ltb, ◌==◌, drop,
  if◌then◌else◌, ◌>>=◌,
}
use libsdi.Base.Buffer.{byte_at, store}
use libsdi.Base.Text.{is_digit}
use libsdi.Protocol.{
  Err, ok, err_invalid_command, MeasType, standard, concurrent, highvol_ascii, highvol_binary,
  verification, continuous,
}

-- The array with the CR and LF at the end of its first `len` bytes turned into NULs, and the length
-- in front of them.
unfoldable pub trim_crlf : List ℕ → ℕ → Option (List ℕ × ℕ)
trim_crlf buf zero = some (buf, 0)
trim_crlf buf (suc len) =
    let trimmed = store buf len (0 ∷ []) >>= λ buf'. trim_crlf buf' len in
    if byte_at buf len == 0x0D || byte_at buf len == 0x0A then trimmed else some (buf, suc len)

-- The digits that are consumed, at most `max`, and the number, a `uint32_t`, behind `acc`.
unfoldable pub digits_loop : ℕ → List ℕ → ℕ → ℕ × ℕ
digits_loop zero s acc = (0, acc)
digits_loop (suc max) [] acc = (0, acc)
digits_loop (suc max) (c ∷ s) acc =
    let rest = digits_loop max s ((acc * 10 + (c - b'0')) % 2 ^ 32) in
    if is_digit c then (suc rest.0, rest.1) else (0, acc)

unfoldable pub parse_digits : ℕ → List ℕ → ℕ × ℕ
parse_digits max s = digits_loop max s 0

-- sdi12_meas_response_t
pub record MeasResponse : Type 0 where
  pub address : ℕ
  pub wait_seconds : ℕ
  pub value_count : ℕ
  pub type : MeasType

-- The digits of the count.
unfoldable pub count_width : MeasType → ℕ
count_width standard = 1
count_width verification = 1
count_width concurrent = 2
count_width continuous = 2
count_width highvol_ascii = 3
count_width highvol_binary = 3

-- sdi12_master_parse_meas_response: its code, and the structure as far as it was filled.
unfoldable pub parse_meas_response : List ℕ → ℕ → MeasType → Err × MeasResponse
parse_meas_response resp_str len type =
    let blank : MeasResponse = record {
      address = 0;
      wait_seconds = 0;
      value_count = 0;
      type = standard;
    } in
    let named = record blank { address = byte_at resp_str 0 } in
    let ttt = parse_digits 3 (drop 1 resp_str) in
    let timed = record named { wait_seconds = ttt.1 % 2 ^ 16 } in
    let count = parse_digits (count_width type) (drop 4 resp_str) in
    if ltb len 5
    then (err_invalid_command, blank)
    else if not (ttt.0 == 3)
    then (err_invalid_command, named)
    else if not (count.0 == count_width type)
    then (err_invalid_command, timed)
    else (ok, record timed { value_count = count.1 % 2 ^ 16 })

-- The end of sdi12_master_start_measurement: the response is trimmed and parsed.
unfoldable pub read_announcement : List ℕ → ℕ → MeasType → Option (Err × MeasResponse)
read_announcement buf resp_len type = do
  trimmed ← trim_crlf buf resp_len
  some (parse_meas_response trimmed.0 trimmed.1 type)
