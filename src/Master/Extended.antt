-- ===== src/Master/Extended.antt =====
-- sdi12_master.c: sdi12_master_extended, sdi12_master_extended_multiline and
-- sdi12_master_get_hv_data. `out` is the caller's array, and `*resp_len` or `*raw_len` the room
-- that the caller says it has.
use libsdi.Base.{
  ℕ, zero, suc, ◌+◌, ◌-◌, ◌%◌, ◌^◌, Bool, true, false, not, List, [], ◌∷◌, ◌++◌, Option, none, some,
  ltb, min, take, drop, if◌then◌else◌, ◌>>=◌,
}
use libsdi.Base.Buffer.{store}
use libsdi.Base.Text.{decimal}
use libsdi.Protocol.{Err, ok, err_invalid_address, err_parse_failed, valid_address}
use libsdi.Master.Parse.{trim_crlf}
use libsdi.Master.Bus.{
  Master, cmd_max_chars, response_timeout_ms, send_command, recv_response, after_send, transact,
}
use libsdi.Master.Commands.{cut_to}

-- SDI12_MULTILINE_GAP_MS
abbrev pub multiline_gap_ms : ℕ
multiline_gap_ms = 150

-- The command of an extended request.
unfoldable pub extended_command : ℕ → List ℕ → List ℕ
extended_command addr xcmd = cut_to (cmd_max_chars + 4) (addr ∷ b'X' ∷ (xcmd ++ b'!' ∷ []))

-- What a caller gets back: its array, and how many bytes of it are the response.
pub record Received : Type 0 where
  pub out : List ℕ
  pub total : ℕ
  pub lines : ℕ

module _ {W : Type 0} where
  unfoldable pub copied :
      List ℕ → ℕ → Err × Master W → Option ((Err × Option (List ℕ × ℕ)) × Master W)
  copied out room (ok, m) = do
    let len = min m.resp_len room
    out' ← store out 0 (take len m.resp_buf)
    some ((ok, some (out', len)), m)
  copied out room (err, m) = some ((err, none), m)

  -- sdi12_master_extended: the code, and the array and `*resp_len` where they are written.
  unfoldable pub extended :
      ℕ → List ℕ → List ℕ → ℕ → ℕ → Master W → Option ((Err × Option (List ℕ × ℕ)) × Master W)
  unfolding extended_command
  extended addr xcmd out room timeout_ms m =
      if not (valid_address addr)
      then some ((err_invalid_address, none), m)
      else transact (extended_command addr xcmd) timeout_ms m >>= copied out room

  -- The bytes of a line that are left room for, behind those of the lines before.
  unfoldable pub add_line : ℕ → Received → Master W → Option Received
  add_line size r m = do
    let copy = if ltb size (r.total + m.resp_len) then size - r.total else m.resp_len
    out ← store r.out r.total (take copy m.resp_buf)
    some (record { out = out; total = r.total + copy; lines = (r.lines + 1) % 2 ^ 8 })

  -- Whether the loop goes on, and what it has.
  unfoldable pub line_received :
      ℕ → Received → Err × Master W → Option (Bool × (Received × Master W))
  line_received size r (ok, m) = do r' ← add_line size r m; some (true, (r', m))
  line_received size r (err, m) = some (false, (r, m))

  -- A round of the loop with its test.
  unfoldable pub line_round : ℕ → Received → Master W → Option (Bool × (Received × Master W))
  unfolding line_received
  line_round size r m =
      let received = recv_response multiline_gap_ms m >>= line_received size r in
      if ltb r.total size then received else some (false, (r, m))

  -- The loop; `none` is out of fuel, or an access outside an array.
  unfoldable pub line_loop : ℕ → ℕ → Received → Master W → Option (Received × Master W)
  unfolding line_round
  line_loop zero size r m = none
  line_loop (suc fuel) size r m = do
    (more, (r', m')) ← line_round size r m
    let rest = line_loop fuel size r' m'
    if more then rest else some (r', m')

  -- The first line and the loop: every round behind it adds a byte or is the last.
  unfoldable pub collect_lines :
      List ℕ → ℕ → Err × Master W → Option ((Err × Option Received) × Master W)
  unfolding add_line
  collect_lines out size (ok, m) = do
    let start : Received = record { out = out; total = 0; lines = 0 }
    let added = add_line size start m
    first ← (if ltb 0 m.resp_len then added else some start)
    done ← line_loop (suc size) size first m
    some ((ok, some done.0), done.1)
  collect_lines out size (err, m) = some ((err, none), m)

  -- sdi12_master_extended_multiline: the code, and what is written.
  unfoldable pub extended_multiline :
      ℕ → List ℕ → List ℕ → ℕ → ℕ → Master W → Option ((Err × Option Received) × Master W)
  unfolding extended_command collect_lines
  extended_multiline addr xcmd out size timeout_ms m =
      if not (valid_address addr) then some ((err_invalid_address, none), m) else (do
        sent ← send_command (extended_command addr xcmd) m
        received ← after_send timeout_ms sent
        collect_lines out size received)

  unfoldable pub raw_copied :
      List ℕ → ℕ → Err × Master W → Option ((Err × Option (List ℕ × ℕ)) × Master W)
  raw_copied out room (ok, m) = do
    trimmed ← trim_crlf m.resp_buf m.resp_len
    let m' = record m { resp_buf = trimmed.0 }
    let data_len = min (trimmed.1 - 1) room
    let copy = store out 0 (take data_len (drop 1 trimmed.0)) >>= λ out'.
        some ((ok, some (out', data_len)), m')
    if ltb trimmed.1 1 then some ((err_parse_failed, none), m') else copy
  raw_copied out room (err, m) = some ((err, none), m)

  -- sdi12_master_get_hv_data
  unfoldable pub get_hv_data :
      ℕ → ℕ → List ℕ → ℕ → Master W → Option ((Err × Option (List ℕ × ℕ)) × Master W)
  get_hv_data addr page out room m =
      let cmd = cut_to 12 (addr ∷ b'D' ∷ (decimal page ++ b'!' ∷ [])) in
      if not (valid_address addr)
      then some ((err_invalid_address, none), m)
      else transact cmd response_timeout_ms m >>= raw_copied out room
