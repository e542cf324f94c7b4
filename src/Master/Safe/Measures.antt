-- ===== src/Master/Safe/Measures.antt =====
-- sdi12_master.c: the measurement, data and metadata commands, on any answer.
use libsdi.Base.{
  ℕ, ◌+◌, ◌-◌, ◌≡◌, ◌≢◌, refl, Bool, not, List, [], ◌∷◌, ◌++◌, Option, none, some, arith,
  length-drop, ltb, if◌then◌else◌, ◌>>=◌, Bool-cases, inl, inr, drop,
}
use libsdi.Base.Text.{decimal, zero_pad}
use libsdi.Protocol.{Err, ok, err_invalid_address, MeasType, valid_address}
use libsdi.Master.Bus.{Master, cmd_max_chars, response_timeout_ms, transact, trimmed_starts}
use libsdi.Master.Commands.{
  cut_to, measure_command, announced_by, send_measure, start_measurement, serviced,
  wait_service_request, identify_measurement,
}
use libsdi.Master.Values.{parsed_data, read_data, get_data, read_continuous, max_values}
use libsdi.Master.Numbers.{parse_data_values-ends}
use libsdi.Master.Metadata.{described, identify_parameter}
use libsdi.Master.Safe.{Guarded, Safe, Stays-refl, recv_response-Outcome, transact-Outcome}
use libsdi.Master.Safe.Replies.{Leaves, Trims, asks-Safe, unless-Safe}

module _ {W : Type 0} (P : W → Type 0) (C : List ℕ → Type 0) where
  announced_by-Trims : (type : MeasType) (m : Master W) → Trims P C m (announced_by type (ok, m))
  unfolding announced_by
  announced_by-Trims type m buf n e same few = rw e refl

  announced_by_failed :
      (type : MeasType) (e : Err) (m : Master W) → e ≢ ok → Leaves P C (announced_by type (e, m)) m
  unfolding announced_by
  announced_by_failed type ok m ne = absurd (ne refl)
  announced_by_failed type _ m ne = refl

  send_measure-Safe :
      (cmd : Option (List ℕ)) (type : MeasType) (m : Master W)
      → Guarded P C m
      → ((text : List ℕ) → cmd ≡ some text → C text)
      → Safe P C m (send_measure cmd type m)
  unfolding send_measure
  send_measure-Safe none type m g c = (_, m, refl, Stays-refl P C m g)
  send_measure-Safe (some cmd) type m g c =
      asks-Safe P C m _ (announced_by type) g (announced_by-Trims type) (announced_by_failed type)
        (transact-Outcome P C cmd _ m g (c cmd refl))

  pub start_measurement-Safe :
      (addr : ℕ) (type : MeasType) (group : ℕ) (crc : Bool) (m : Master W)
      → Guarded P C m
      → ((cmd : List ℕ) → measure_command addr type group crc ≡ some cmd → C cmd)
      → Safe P C m (start_measurement addr type group crc m)
  unfolding start_measurement
  start_measurement-Safe addr type group crc m g c =
      unless-Safe P C (not (valid_address addr)) _ m _ g
        (send_measure-Safe (measure_command addr type group crc) type m g c)

  serviced-Trims : (addr : ℕ) (m : Master W) → Trims P C m (serviced addr (ok, m))
  unfolding serviced trimmed_starts
  serviced-Trims addr m buf n e same few = rw e refl

  serviced_failed :
      (addr : ℕ) (e : Err) (m : Master W) → e ≢ ok → Leaves P C (serviced addr (e, m)) m
  unfolding serviced
  serviced_failed addr ok m ne = absurd (ne refl)
  serviced_failed addr _ m ne = refl

  pub wait_service_request-Safe :
      (addr timeout : ℕ) (m : Master W)
      → Guarded P C m
      → Safe P C m (wait_service_request addr timeout m)
  unfolding wait_service_request
  wait_service_request-Safe addr timeout m g =
      asks-Safe P C m _ (serviced addr) g (serviced-Trims addr) (serviced_failed addr)
        (recv_response-Outcome P C timeout m g)

  pub identify_measurement-Safe :
      (addr : ℕ) (cmd_body : List ℕ) (type : MeasType) (m : Master W)
      → Guarded P C m
      → C (cut_to (cmd_max_chars + 4) (addr ∷ b'I' ∷ (cmd_body ++ b'!' ∷ [])))
      → Safe P C m (identify_measurement addr cmd_body type m)
  unfolding identify_measurement
  identify_measurement-Safe addr cmd_body type m g c =
      unless-Safe P C (not (valid_address addr)) _ m _ g (
        asks-Safe P C m _ (announced_by type) g (announced_by-Trims type) (announced_by_failed type)
          (transact-Outcome P C _ _ m g c))

  described-Trims : (addr : ℕ) (m : Master W) → Trims P C m (described addr (ok, m))
  unfolding described
  described-Trims addr m buf n e same few = rw e refl

  described_failed :
      (addr : ℕ) (e : Err) (m : Master W) → e ≢ ok → Leaves P C (described addr (e, m)) m
  unfolding described
  described_failed addr ok m ne = absurd (ne refl)
  described_failed addr _ m ne = refl

  pub identify_parameter-Safe :
      (addr : ℕ) (cmd_body : List ℕ) (param_num : ℕ) (m : Master W)
      → Guarded P C m
      → C (
          cut_to
            (cmd_max_chars + 4)
            (addr ∷ b'I' ∷ (cmd_body ++ b'_' ∷ (zero_pad 3 param_num ++ b'!' ∷ []))))
      → Safe P C m (identify_parameter addr cmd_body param_num m)
  unfolding identify_parameter
  identify_parameter-Safe addr cmd_body param_num m g c =
      unless-Safe P C (not (valid_address addr)) _ m _ g (
        asks-Safe P C m _ (described addr) g (described-Trims addr) (described_failed addr)
          (transact-Outcome P C _ _ m g c))

  module _ {F : Type 0} (strtod : List ℕ → F) where
    read_data-Trims : (crc : Bool) (m : Master W) → Trims P C m (read_data strtod crc (ok, m))
    unfolding read_data parsed_data
    read_data-Trims crc m buf n e same few = elim (Bool-cases (ltb n 1)) [
      | inl short ↦ rw (e, short) refl
      | inr long ↦
          let (vs, values, le) =
            parse_data_values-ends strtod (drop 1 buf) (n - 1) max_values crc
              (omega (arith, length-drop 1 buf, same)) in
          rw (e, long, values) refl
    ]

    read_data_failed :
        (crc : Bool) (e : Err) (m : Master W) → e ≢ ok → Leaves P C (read_data strtod crc (e, m)) m
    unfolding read_data
    read_data_failed crc ok m ne = absurd (ne refl)
    read_data_failed crc _ m ne = refl

    -- A request of data by a command `cmd`.
    data-Safe :
        (addr : ℕ) (cmd : List ℕ) (crc : Bool) (m : Master W)
        → Guarded P C m
        → C cmd
        → Safe P C m (
            if not (valid_address addr)
            then some ((err_invalid_address, none), m)
            else transact cmd response_timeout_ms m >>= read_data strtod crc)
    data-Safe addr cmd crc m g c = unless-Safe P C (not (valid_address addr)) _ m _ g (
        asks-Safe P C m _ (read_data strtod crc) g (read_data-Trims crc) (read_data_failed crc)
          (transact-Outcome P C cmd _ m g c))

    pub get_data-Safe :
        (addr page : ℕ) (crc : Bool) (m : Master W)
        → Guarded P C m
        → C (cut_to 8 (addr ∷ b'D' ∷ (decimal page ++ b'!' ∷ [])))
        → Safe P C m (get_data strtod addr page crc m)
    unfolding get_data
    get_data-Safe addr page crc m g c = data-Safe addr _ crc m g c

    pub read_continuous-Safe :
        (addr index : ℕ) (crc : Bool) (m : Master W)
        → Guarded P C m
        → let tail = decimal index ++ b'!' ∷ [] in
          C (cut_to 8 (if crc then addr ∷ b'R' ∷ b'C' ∷ tail else addr ∷ b'R' ∷ tail))
          → Safe P C m (read_continuous strtod addr index crc m)
    unfolding read_continuous
    read_continuous-Safe addr index crc m g c = data-Safe addr _ crc m g c
