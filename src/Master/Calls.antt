-- ===== src/Master/Calls.antt =====
-- The calls of the interface of sdi12_master.h, one after another.
use libsdi.Base.{
  ℕ, ◌+◌, ◌≤◌, ◌≡◌, Bool, false, List, [], ◌∷◌, ◌++◌, Option, none, some, All, length,
  if◌then◌else◌, ◌>>=◌,
}
use libsdi.Base.Text.{decimal, zero_pad}
use libsdi.Protocol.{Err, MeasType, verification}
use libsdi.Master.Bus.{
  Master, cmd_max_chars, break_sent, delayed, marking_ms, transact, send_break, acknowledge,
  change_address,
}
use libsdi.Master.Setup.{query_address, identify}
use libsdi.Master.Commands.{
  cut_to, measure_command, start_measurement, verify, wait_service_request, identify_measurement,
}
use libsdi.Master.Values.{get_data, read_continuous}
use libsdi.Master.Metadata.{identify_parameter}
use libsdi.Master.Extended.{extended_command, extended, extended_multiline, get_hv_data}
use libsdi.Master.Binary.{BinaryOut, get_hv_binary_data}
use libsdi.Master.Safe.Binary.{HasRoom}
pub mod Safe
mod Examples

-- A call with its arguments: an array of the caller is its bytes and the room that the caller says.
pub data Call : Type 0 where
  break_call query_address_call : Call
  transact_call : (cmd : List ℕ) (timeout_ms : ℕ) → Call
  acknowledge_call identify_call verify_call : (addr : ℕ) → Call
  change_address_call : (old_addr new_addr : ℕ) → Call
  start_measurement_call : (addr : ℕ) (type : MeasType) (group : ℕ) (crc : Bool) → Call
  wait_service_request_call : (addr timeout_ms : ℕ) → Call
  get_data_call continuous_call : (addr index : ℕ) (crc : Bool) → Call
  identify_measurement_call : (addr : ℕ) (cmd_body : List ℕ) (type : MeasType) → Call
  identify_parameter_call : (addr : ℕ) (cmd_body : List ℕ) (param_num : ℕ) → Call
  extended_call extended_multiline_call :
      (addr : ℕ) (xcmd out : List ℕ) (room timeout_ms : ℕ) → Call
  get_hv_data_call : (addr page : ℕ) (out : List ℕ) (room : ℕ) → Call
  get_hv_binary_data_call : (addr page : ℕ) (out : BinaryOut) → Call

-- What the caller of a call has to see to: the room that it says is there, and the command that is
-- sent is one of `C`.
abbrev pub Allowed : (List ℕ → Type 0) → Call → Type 0
Allowed C break_call = Unit {0}
Allowed C query_address_call = C (b'?' ∷ b'!' ∷ [])
Allowed C (transact_call cmd timeout_ms) = C cmd
Allowed C (acknowledge_call addr) = C (addr ∷ b'!' ∷ [])
Allowed C (identify_call addr) = C (addr ∷ b'I' ∷ b'!' ∷ [])
Allowed C (verify_call addr) =
    (cmd : List ℕ) → measure_command addr verification 0 false ≡ some cmd → C cmd
Allowed C (change_address_call old_addr new_addr) = C (old_addr ∷ b'A' ∷ new_addr ∷ b'!' ∷ [])
Allowed C (start_measurement_call addr type group crc) =
    (cmd : List ℕ) → measure_command addr type group crc ≡ some cmd → C cmd
Allowed C (wait_service_request_call addr timeout_ms) = Unit {0}
Allowed C (get_data_call addr index crc) = C (cut_to 8 (addr ∷ b'D' ∷ (decimal index ++ b'!' ∷ [])))
Allowed C (continuous_call addr index crc) =
    let tail = decimal index ++ b'!' ∷ [] in
    C (cut_to 8 (if crc then addr ∷ b'R' ∷ b'C' ∷ tail else addr ∷ b'R' ∷ tail))
Allowed C (identify_measurement_call addr cmd_body type) =
    C (cut_to (cmd_max_chars + 4) (addr ∷ b'I' ∷ (cmd_body ++ b'!' ∷ [])))
Allowed C (identify_parameter_call addr cmd_body param_num) = C (
    cut_to (cmd_max_chars + 4)
      (addr ∷ b'I' ∷ (cmd_body ++ b'_' ∷ (zero_pad 3 param_num ++ b'!' ∷ []))))
Allowed C (extended_call addr xcmd out room timeout_ms) =
    (room ≤ length out) × C (extended_command addr xcmd)
Allowed C (extended_multiline_call addr xcmd out room timeout_ms) =
    (room ≤ length out) × C (extended_command addr xcmd)
Allowed C (get_hv_data_call addr page out room) =
    (room ≤ length out) × C (cut_to 12 (addr ∷ b'D' ∷ (decimal page ++ b'!' ∷ [])))
Allowed C (get_hv_binary_data_call addr page out) =
    HasRoom out × C (cut_to 16 (addr ∷ b'D' ∷ b'B' ∷ (decimal page ++ b'!' ∷ [])))

module _ {W : Type 0} where
  -- The code of a call, without what it returns beside.
  abbrev pub coded : {A : Type 0} → Option ((Err × A) × Master W) → Option (Err × Master W)
  coded none = none
  coded (some (r, m)) = some (r.0, m)

  module _ {F : Type 0} (strtod : List ℕ → F) where
    unfoldable pub run_call : Call → Master W → Option (Err × Master W)
    run_call break_call m = some (send_break m)
    run_call query_address_call m = coded (query_address m)
    run_call (transact_call cmd timeout_ms) m = transact cmd timeout_ms m
    run_call (acknowledge_call addr) m = coded (acknowledge addr m)
    run_call (identify_call addr) m = coded (identify addr m)
    run_call (verify_call addr) m = coded (verify addr m)
    run_call (change_address_call old_addr new_addr) m = change_address old_addr new_addr m
    run_call (start_measurement_call addr type group crc) m =
        coded (start_measurement addr type group crc m)
    run_call (wait_service_request_call addr timeout_ms) m = wait_service_request addr timeout_ms m
    run_call (get_data_call addr index crc) m = coded (get_data strtod addr index crc m)
    run_call (continuous_call addr index crc) m = coded (read_continuous strtod addr index crc m)
    run_call (identify_measurement_call addr cmd_body type) m =
        coded (identify_measurement addr cmd_body type m)
    run_call (identify_parameter_call addr cmd_body param_num) m =
        coded (identify_parameter addr cmd_body param_num m)
    run_call (extended_call addr xcmd out room timeout_ms) m =
        coded (extended addr xcmd out room timeout_ms m)
    run_call (extended_multiline_call addr xcmd out room timeout_ms) m =
        coded (extended_multiline addr xcmd out room timeout_ms m)
    run_call (get_hv_data_call addr page out room) m = coded (get_hv_data addr page out room m)
    run_call (get_hv_binary_data_call addr page out) m = coded (get_hv_binary_data addr page out m)

    -- The calls in their order, and their codes.
    unfoldable pub run_calls : List Call → Master W → Option (List Err × Master W)
    run_calls [] m = some ([], m)
    run_calls (call ∷ calls) m = do
      first ← run_call call m
      rest ← run_calls calls first.1
      some (first.0 ∷ rest.0, rest.1)
