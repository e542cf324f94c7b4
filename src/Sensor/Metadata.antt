-- ===== src/Sensor/Metadata.antt =====
-- sdi12_sensor.c: handle_identify_measurement. `cmd` is the memory of the command, which ends in a
-- NUL behind its last byte; its first `len` bytes are the command without the `!`.
use libsdi.Base.{
  ℕ, suc, ◌+◌, ◌-◌, ◌*◌, ◌^◌, Bool, true, false, ◌&&◌, ◌||◌, List, [], ◌∷◌, ◌++◌, Option, none,
  some, codes, ltb, leb, ◌==◌, length, take, drop, get_elem?, if◌then◌else◌, ◌>>=◌,
}
use mathlib.Core.Option
use libsdi.Base.Buffer.{byte_at, snprintf, store, strlen}
use libsdi.Base.Text.{zero_pad, is_digit}
use libsdi.Crc.{crlf, crc_append}
use libsdi.Protocol.{ok, err_invalid_command, standard, concurrent, max_params, max_response_len}
use libsdi.Sensor.Types.{Param, Sensor, Run}
use libsdi.Sensor.Groups.{count_group, collect_group_indices}
use libsdi.Sensor.Reply.{send_response, reply}
use libsdi.Sensor.Measure.{count_text, reply_address}

-- The group that a command names at `pos`: a digit from `low` to `9` inside the command, else 0.
unfoldable pub group_digit : ℕ → List ℕ → ℕ → ℕ → ℕ
group_digit low cmd len pos =
    let c = byte_at cmd pos in if ltb pos len && (leb low c && leb c b'9') then c - b'0' else 0

-- memchr
unfoldable pub find_byte : ℕ → List ℕ → Option ℕ
find_byte c [] = none
find_byte c (x ∷ xs) = if x == c then some 0 else Option.map suc (find_byte c xs)

unfoldable pub has_byte : ℕ → List ℕ → Bool
has_byte c [] = false
has_byte c (x ∷ xs) = x == c || has_byte c xs

-- The number behind the underscore, an `int`: a larger one is undefined behaviour.
unfoldable pub param_number : ℕ → List ℕ → Option ℕ
param_number acc [] = some acc
param_number acc (c ∷ cs) =
    let value = acc * 10 + (c - b'0') in
    let rest = param_number value cs in
    if is_digit c then (if leb (2 ^ 31) value then none else rest) else some acc

-- The group of a metadata request whose underscore is at `underscore`.
unfoldable pub metadata_group : List ℕ → ℕ → ℕ
metadata_group cmd underscore =
    let subcmd = byte_at cmd 2 in
    let after_mc = if byte_at cmd 3 == b'C' then 4 else 3 in
    if subcmd == b'M' || subcmd == b'C'
    then group_digit b'1' cmd underscore after_mc
    else if subcmd == b'R' && is_digit (byte_at cmd 3)
    then byte_at cmd 3 - b'0'
    else 0

unfoldable pub metadata_text : ℕ → Param → List ℕ
metadata_text address p = address ∷ b',' ∷ (p.shef ++ b',' ∷ (p.units ++ b';' ∷ []))

-- The end of the line behind the text in the array.
unfoldable pub end_line : Bool → List ℕ → Option (List ℕ)
end_line true buf = do (err, buf') ← crc_append buf max_response_len; some buf'
end_line false buf = do slen ← strlen buf; store buf slen (crlf ++ 0 ∷ [])

module _ {F W : Type 0} where
  unfoldable pub reply_param : Bool → Param → Sensor F W → Run F W
  reply_param crc p s = do
    buf ← end_line crc (snprintf s.resp_buf (metadata_text s.address p))
    s' ← send_response (record s { crc_requested = crc; resp_buf = buf })
    some (ok, s')

  -- The parameter at a position of the collected indices.
  unfoldable pub reply_indexed : List ℕ → ℕ → Bool → Sensor F W → Run F W
  reply_indexed indices pos crc s = do
    idx ← get_elem? indices pos
    p ← get_elem? s.params idx
    reply_param crc p s

  -- The answer to a request for the metadata of parameter `num`, counted from 1.
  unfoldable pub reply_metadata : ℕ → ℕ → Bool → Sensor F W → Run F W
  reply_metadata num group crc s =
      let indices = collect_group_indices s.params group max_params in
      if leb 1 num && leb num (length indices)
      then reply_indexed indices (num - 1) crc s
      else reply_address crc s

  unfoldable pub identify_param : List ℕ → ℕ → Sensor F W → Run F W
  identify_param cmd underscore s = do
    num ← param_number 0 (drop (underscore + 1) cmd)
    let crc = has_byte b'C' (take (underscore - 2) (drop 2 cmd))
    reply_metadata num (metadata_group cmd underscore) crc s

  -- The summary that each subcommand is answered with, behind the address.
  unfoldable pub summary : List ℕ → ℕ → Sensor F W → List ℕ
  summary cmd len s =
      let subcmd = byte_at cmd 2 in
      let digit_pos = if ltb 3 len && byte_at cmd 3 == b'C' then 4 else 3 in
      let group = group_digit b'1' cmd len digit_pos in
      if subcmd == b'M'
      then codes "000" ++ (count_text standard (count_group s.params group) ++ crlf)
      else if subcmd == b'C'
      then codes "000" ++ (count_text concurrent (count_group s.params group) ++ crlf)
      else if subcmd == b'V'
      then codes "000" ++ (count_text standard (count_group s.params 0) ++ crlf)
      else if subcmd == b'H'
      then (if ltb 3 len && (byte_at cmd 3 == b'A' || byte_at cmd 3 == b'B')
          then codes "000" ++ (zero_pad 3 (count_group s.params 0) ++ crlf)
          else codes "000000" ++ crlf)
      else if subcmd == b'R'
      then codes "000"
        ++ (count_text concurrent (count_group s.params (group_digit b'0' cmd len 3)) ++ crlf)
      else codes "0000" ++ crlf

  unfoldable pub identify_at : Option ℕ → List ℕ → ℕ → Sensor F W → Run F W
  identify_at none cmd len s = reply (s.address ∷ summary cmd len s) s
  identify_at (some k) cmd len s = identify_param cmd (2 + k) s

  unfoldable pub handle_identify_measurement : List ℕ → ℕ → Sensor F W → Run F W
  handle_identify_measurement cmd len s =
      if ltb len 3
      then some (err_invalid_command, s)
      else identify_at (find_byte b'_' (drop 2 (take len cmd))) cmd len s
