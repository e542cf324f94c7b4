-- ===== src/Sensor/Process.antt =====
-- sdi12_sensor.c: extended commands, change of address, and sdi12_sensor_process.
-- `cmd` is the memory of the command, of which the first `len` bytes are the command.
use libsdi.Base.{
  ℕ, ◌+◌, ◌-◌, ◌*◌, ◌%◌, ◌^◌, Bool, true, false, not, ◌&&◌, ◌||◌, List, [], ◌∷◌, ◌++◌, Option, some,
  ltb, leb, ◌==◌, length, take, drop, if◌then◌else◌, ◌>>=◌,
}
use libsdi.Base.Buffer.{byte_at, store, strlen}
use libsdi.Base.Text.{is_digit}
use libsdi.Crc.{crlf}
use libsdi.Protocol.{
  Err, ok, err_invalid_command, err_invalid_address, err_not_addressed, State, ready, measuring_c,
  standard, concurrent, verification, highvol_ascii, highvol_binary, max_response_len,
  valid_address,
}
use libsdi.Sensor.Types.{Floats, Xcmd, Sensor, saved, Run}
use libsdi.Sensor.Reply.{
  send_response, reply, handle_acknowledge, handle_identify, handle_highvol_stub,
}
use libsdi.Sensor.Measure.{handle_measurement}
use libsdi.Sensor.Data.{handle_send_data, handle_send_binary_data, handle_continuous}
use libsdi.Sensor.Metadata.{group_digit, handle_identify_measurement}

unfoldable pub starts_with : List ℕ → List ℕ → Bool
starts_with [] text = true
starts_with (p ∷ ps) [] = false
starts_with (p ∷ ps) (c ∷ cs) = p == c && starts_with ps cs

-- CR and LF behind an answer of `slen` characters that does not end in them, where there is room.
unfoldable pub close_line : List ℕ → ℕ → Option (List ℕ)
close_line buf slen =
    if ltb slen 2 || (not (byte_at buf (slen - 2) == 0x0D) || not (byte_at buf (slen - 1) == 0x0A))
    then (if ltb (slen + 2) max_response_len then store buf slen (crlf ++ 0 ∷ []) else some buf)
    else some buf

-- The digits of a page number from index `i` of the command on, in a `uint16_t`.
unfoldable pub page_number : ℕ → List ℕ → ℕ
page_number page [] = page
page_number page (c ∷ cs) =
    let rest = page_number ((page * 10 + (c - b'0')) % 2 ^ 16) cs in
    if is_digit c then rest else page

module _ {F W : Type 0} where
  -- What follows the handler of an extended command.
  unfoldable pub finish_xcmd : Err → Sensor F W → Run F W
  finish_xcmd ok s = do
    slen ← strlen s.resp_buf
    buf ← close_line s.resp_buf slen
    s' ← send_response (record s { resp_buf = buf })
    some (ok, s')
  finish_xcmd err s = some (err, s)

  unfoldable pub run_xcmd : Xcmd W → List ℕ → Sensor F W → Run F W
  run_xcmd x xcmd_str s = do
    buf ← store s.resp_buf 0 (s.address ∷ 0 ∷ [])
    let called = x.handler xcmd_str buf s.world
    finish_xcmd called.0.0 (record s { resp_buf = called.0.1; world = called.1 })

  -- The search for the first active prefix that the command has.
  unfoldable pub xcmd_loop : List (Xcmd W) → List ℕ → ℕ → Sensor F W → Run F W
  xcmd_loop [] xcmd_str xcmd_len s = reply (s.address ∷ crlf) s
  xcmd_loop (x ∷ xs) xcmd_str xcmd_len s =
      let rest = xcmd_loop xs xcmd_str xcmd_len s in
      if x.active && (leb (length x.prefix) xcmd_len && starts_with x.prefix xcmd_str)
      then run_xcmd x xcmd_str s
      else rest

  unfoldable pub handle_extended : List ℕ → ℕ → Sensor F W → Run F W
  handle_extended cmd len s = xcmd_loop s.xcmds (drop 2 cmd) (len - 2) s

  unfoldable pub handle_change_address : ℕ → Sensor F W → Run F W
  handle_change_address new_addr s =
      if not (valid_address new_addr)
      then some (err_invalid_address, s)
      else reply (new_addr ∷ crlf) (record s {
        address = new_addr;
        trace = if s.cb.save_address then s.trace ++ saved new_addr ∷ [] else s.trace;
      })

  -- A command for this sensor ends a concurrent measurement.
  unfoldable pub abort_concurrent : State → Sensor F W → Sensor F W
  abort_concurrent measuring_c s = record s {
    state = ready;
    data_available = false;
    data_cache = [];
  }
  abort_concurrent _ s = s

module _ {F W : Type 0} where
  unfoldable pub dispatch_highvol : List ℕ → ℕ → Sensor F W → Run F W
  dispatch_highvol cmd cmdlen s =
      let crc = ltb 3 cmdlen && byte_at cmd 3 == b'C' in
      if leb 3 cmdlen && byte_at cmd 2 == b'A'
      then handle_measurement 0 crc highvol_ascii s
      else if leb 3 cmdlen && byte_at cmd 2 == b'B'
      then handle_measurement 0 crc highvol_binary s
      else handle_highvol_stub s

-- The length of a command without its `!`.
unfoldable pub strip_bang : List ℕ → ℕ → ℕ
strip_bang cmd len = if byte_at cmd (len - 1) == b'!' then len - 1 else len

-- isprint, in the C locale.
unfoldable pub is_print : ℕ → Bool
is_print c = leb 0x20 c && leb c 0x7E

module _ {F W : Type 0} (fl : Floats F) where
  unfoldable pub dispatch_data : List ℕ → ℕ → Sensor F W → Run F W
  dispatch_data cmd cmdlen s =
      if leb 3 cmdlen
      then (if byte_at cmd 2 == b'B'
          then handle_send_binary_data (page_number 0 (drop 3 (take cmdlen cmd))) s
          else let page = page_number 0 (drop 2 (take cmdlen cmd)) in
            handle_send_data fl (if ltb 255 page then 255 else page) s)
      else some (err_invalid_command, s)

  -- The switch on the second character.
  unfoldable pub dispatch : List ℕ → ℕ → Sensor F W → Run F W
  dispatch cmd cmdlen s =
      let c = byte_at cmd 1 in
      let crc = ltb 2 cmdlen && byte_at cmd 2 == b'C' in
      let digit_pos = if crc then 3 else 2 in
      if c == b'I'
      then (if cmdlen == 2 then handle_identify s else handle_identify_measurement cmd cmdlen s)
      else if c == b'M'
      then handle_measurement (group_digit b'1' cmd cmdlen digit_pos) crc standard s
      else if c == b'C'
      then handle_measurement (group_digit b'1' cmd cmdlen digit_pos) crc concurrent s
      else if c == b'D'
      then dispatch_data cmd cmdlen s
      else if c == b'R'
      then handle_continuous fl (group_digit b'0' cmd cmdlen digit_pos) crc s
      else if c == b'V'
      then handle_measurement 0 false verification s
      else if c == b'A'
      then (if leb 3 cmdlen && is_print (byte_at cmd 2)
          then handle_change_address (byte_at cmd 2) s
          else some (err_invalid_address, s))
      else if c == b'H'
      then dispatch_highvol cmd cmdlen s
      else if c == b'X'
      then handle_extended cmd cmdlen s
      else some (err_invalid_command, s)

  -- sdi12_sensor_process behind the test of the length: `cmdlen` is the length without the `!`.
  unfoldable pub process_command : List ℕ → ℕ → Sensor F W → Run F W
  process_command cmd cmdlen s =
      let is_query = cmdlen == 1 && byte_at cmd 0 == b'?' in
      let is_addressed = byte_at cmd 0 == s.address in
      if not is_addressed && not is_query
      then some (err_not_addressed, s)
      else let s' = if is_addressed then abort_concurrent s.state s else s in
        if cmdlen == 1 then handle_acknowledge s' else dispatch cmd cmdlen s'

  unfoldable pub process : List ℕ → ℕ → Sensor F W → Run F W
  process cmd len s =
      if len == 0
      then some (err_invalid_command, s)
      else let s' = record s { resp_len = 0 } in
        if strip_bang cmd len == 0
        then some (err_invalid_command, s')
        else process_command cmd (strip_bang cmd len) s'
