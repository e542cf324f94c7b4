-- ===== src/Master/Commands.antt =====
-- sdi12_master.c: the measurement commands, sdi12_master_wait_service_request and
-- sdi12_master_identify_measurement. The pointers that the functions are given are not NULL.
use libsdi.Base.{
  ℕ, ◌+◌, ◌-◌, Bool, false, not, List, [], ◌∷◌, ◌++◌, Option, none, some, ltb, take, if◌then◌else◌,
  ◌>>=◌,
}
use libsdi.Base.Text.{decimal}
use libsdi.Protocol.{
  Err, ok, err_invalid_address, err_invalid_command, err_timeout, MeasType, standard, concurrent,
  highvol_ascii, highvol_binary, verification, continuous, valid_address,
}
use libsdi.Master.Parse.{trim_crlf, MeasResponse, parse_meas_response}
use libsdi.Master.Bus.{
  Master, cmd_max_chars, response_timeout_ms, recv_response, transact, trimmed_starts,
}

-- `snprintf(cmd, sizeof(cmd), ...)`: the string in a local array of that size.
abbrev pub cut_to : ℕ → List ℕ → List ℕ
cut_to size text = take (size - 1) text

-- The letters of a measurement, its group if it is not 0, and the end of the command.
unfoldable pub grouped : ℕ → List ℕ → ℕ → List ℕ
grouped addr letters group =
    if ltb 0 group
    then addr ∷ (letters ++ (decimal group ++ b'!' ∷ []))
    else addr ∷ (letters ++ b'!' ∷ [])

-- The switch of sdi12_master_start_measurement.
unfoldable pub measure_command : ℕ → MeasType → ℕ → Bool → Option (List ℕ)
unfolding grouped
measure_command addr standard group crc =
    some (cut_to 16 (grouped addr (if crc then b'M' ∷ b'C' ∷ [] else b'M' ∷ []) group))
measure_command addr concurrent group crc =
    some (cut_to 16 (grouped addr (if crc then b'C' ∷ b'C' ∷ [] else b'C' ∷ []) group))
measure_command addr verification group crc = some (cut_to 16 (addr ∷ b'V' ∷ b'!' ∷ []))
measure_command addr highvol_ascii group crc = some (
    cut_to 16
      (if crc then addr ∷ b'H' ∷ b'A' ∷ b'C' ∷ b'!' ∷ [] else addr ∷ b'H' ∷ b'A' ∷ b'!' ∷ []))
measure_command addr highvol_binary group crc = some (
    cut_to 16
      (if crc then addr ∷ b'H' ∷ b'B' ∷ b'C' ∷ b'!' ∷ [] else addr ∷ b'H' ∷ b'B' ∷ b'!' ∷ []))
measure_command addr continuous group crc = none

module _ {W : Type 0} where
  -- The response trimmed and parsed.
  unfoldable pub announced_by :
      MeasType → Err × Master W → Option ((Err × Option MeasResponse) × Master W)
  announced_by type (ok, m) = do
    trimmed ← trim_crlf m.resp_buf m.resp_len
    let parsed = parse_meas_response trimmed.0 trimmed.1 type
    some ((parsed.0, some parsed.1), record m { resp_buf = trimmed.0 })
  announced_by type (err, m) = some ((err, none), m)

  unfoldable pub send_measure :
      Option (List ℕ) → MeasType → Master W → Option ((Err × Option MeasResponse) × Master W)
  send_measure none type m = some ((err_invalid_command, none), m)
  send_measure (some cmd) type m = transact cmd response_timeout_ms m >>= announced_by type

  -- sdi12_master_start_measurement: the code, and `*resp` where it is written.
  unfoldable pub start_measurement :
      ℕ → MeasType → ℕ → Bool → Master W → Option ((Err × Option MeasResponse) × Master W)
  unfolding send_measure
  start_measurement addr type group crc m =
      if not (valid_address addr)
      then some ((err_invalid_address, none), m)
      else send_measure (measure_command addr type group crc) type m

  -- sdi12_master_verify
  unfoldable pub verify : ℕ → Master W → Option ((Err × Option MeasResponse) × Master W)
  verify addr m = start_measurement addr verification 0 false m

  unfoldable pub serviced : ℕ → Err × Master W → Option (Err × Master W)
  serviced addr (ok, m) = do
    found ← trimmed_starts addr m
    some (if found.0 then ok else err_timeout, found.1)
  serviced addr (err, m) = some (err, m)

  -- sdi12_master_wait_service_request
  unfoldable pub wait_service_request : ℕ → ℕ → Master W → Option (Err × Master W)
  wait_service_request addr timeout_ms m = recv_response timeout_ms m >>= serviced addr

  -- sdi12_master_identify_measurement
  unfoldable pub identify_measurement :
      ℕ → List ℕ → MeasType → Master W → Option ((Err × Option MeasResponse) × Master W)
  identify_measurement addr cmd_body type m =
      let cmd = cut_to (cmd_max_chars + 4) (addr ∷ b'I' ∷ (cmd_body ++ b'!' ∷ [])) in
      if not (valid_address addr)
      then some ((err_invalid_address, none), m)
      else transact cmd response_timeout_ms m >>= announced_by type
