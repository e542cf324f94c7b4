-- ===== src/Session/Waiting.antt =====
-- The start of a measurement that takes its time: sdi12_master_start_measurement against
-- handle_measurement.
use libsdi.Base.{
  ℕ, min, ◌≤◌, ◌<◌, ◌≡◌, ◌≢◌, refl, subst, ap, ◌∙◌, Bool, List, [], ◌∷◌, ◌++◌, append-nil, some,
  drop_all, arith, length, length-append,
}
use libsdi.Base.Text.{zero_pad}
use libsdi.Crc.{crlf}
use libsdi.Protocol.{ok, MeasType, standard, continuous, max_params}
use libsdi.Sensor.Types.{Floats, Sensor, Event, sent}
use libsdi.Sensor.Groups.{count_group}
use libsdi.Sensor.Counting.{count_group-le}
use libsdi.Sensor.Measure.{count_text}
use libsdi.Sensor.MeasureAnswers.{
  count_text-IsText, zero_pad_three-IsText, handle_measurement-Answers,
}
use libsdi.Sensor.Waiting.{running_state, handle_measurement-Waits}
use libsdi.Sensor.Valid.{IsValid, Answer, Returns}
use libsdi.Master.RoundTrip.{announced}
use libsdi.Master.Bus.{Master, response_timeout_ms}
use libsdi.Master.Transact.{SameBus}
use libsdi.Master.Commands.{measure_command, start_measurement}
use libsdi.Master.Announced.{start_measurement_lem}
use libsdi.Master.Dispatch.{asked_group, asked_crc, prepared, process-measure_command}
use libsdi.Session.Wired.{IsWired, wired-IsMaster, wired_answer}
use libsdi.Session.Measure.{prepared_same}
use libsdi.Session.{Wire, bytes_of, after_run, wire_send}

-- The line of a sensor whose values are ready after `t` seconds.
abbrev waiting_line : ℕ → MeasType → ℕ → ℕ → List ℕ
waiting_line a type t n = a ∷ (zero_pad 3 (min t 999) ++ (count_text type n ++ crlf))

waiting_line-fits :
    (a : ℕ) (type : MeasType) (t n : ℕ) → n ≤ max_params → length (waiting_line a type t n) ≤ 85
waiting_line-fits a type t n h = omega (
  arith,
  (zero_pad_three-IsText (min t 999) (omega arith)).0,
  (count_text-IsText type n h).0,
  length-append (zero_pad 3 (min t 999)) (count_text type n ++ crlf),
  length-append (count_text type n) crlf,
)

module _ {F V : Type 0} (fl : Floats F) where
  -- A sensor that measures for a command of that type and CRC flag.
  pub record Pending (s : Sensor F V) (type : MeasType) (crc : Bool) (s' : Sensor F V)
      : Type 0 where
    pub valid : IsValid fl s'
    pub type_kept : s'.pending_meas_type ≡ type
    pub crc_kept : s'.crc_requested ≡ crc
    pub address : s'.address ≡ s.address
    pub callbacks : s'.cb ≡ s.cb
    pub state : s'.state ≡ running_state type

  sensor_waits :
      (type : MeasType) (group : ℕ) (crc : Bool) (cmd : List ℕ) (f : ℕ → MeasType → V → ℕ × V)
      (wire : Wire F V)
      → let s = wire.sensor in
        let g = asked_group type group in
        let n = count_group s.params g in
        let t = (f g type s.world).0 in
        IsValid fl s
        → type ≢ continuous
        → group ≤ 9
        → s.cb.start_measurement ≡ some f
        → 0 < t
        → 0 < n
        → measure_command s.address type group crc ≡ some cmd
        → (s' : Sensor F V) × Pending s type (asked_crc type crc) s'
          × (wire_send fl cmd wire
              ≡ record wire { sensor = s'; incoming = waiting_line s.address type t n })
  unfolding wire_send after_run bytes_of
  sensor_waits type group crc cmd f wire v ne small callback later some_values c =
      let s = wire.sensor in
      let s₀ = record s { trace = [] } in
      let g = asked_group type group in
      let b = asked_crc type crc in
      let arrives = process-measure_command fl s₀ type group crc cmd (0 ∷ []) small c in
      let (v₁, nolen, quiet, same_cb, same_params, same_world, same_address) =
        prepared_same fl s.state (record s₀ { resp_len = 0 }) v refl in
      let p = prepared fl s₀ in
      let (s', done, says) =
        handle_measurement-Waits fl g b type p f v₁ nolen ne
          (ap (λ cb. cb.start_measurement) same_cb ∙ callback) (rw same_world later)
          (rw same_params some_values) in
      let (v', answer) =
        subst (λ run. Returns run (λ e t. IsValid fl t × Answer p.trace e t)) done
          (handle_measurement-Answers fl g b type p ne v₁ nolen) in
      let line : ℕ → ℕ → ℕ → List ℕ = λ a t n. waiting_line a type t n in
      let text : s'.trace
          ≡ sent (line s.address (f g type s.world).0 (count_group s.params g)) ∷ [] =
        says.sends
        ∙ ap
            (λ (t : List Event).
              t ++ sent (line p.address (f g type p.world).0 (count_group p.params g)) ∷ [])
            quiet
        ∙ ap (λ (a : ℕ). sent (line a (f g type p.world).0 (count_group p.params g)) ∷ [])
            same_address
        ∙ ap (λ ps. sent (line s.address (f g type p.world).0 (count_group ps g)) ∷ []) same_params
        ∙ ap (λ (w : V). sent (line s.address (f g type w).0 (count_group s.params g)) ∷ [])
            same_world in
      let heard =
        ap bytes_of text
        ∙ append-nil (line s.address (f g type s.world).0 (count_group s.params g)) in
      (
        s',
        record {
          valid = v';
          type_kept = says.type_kept;
          crc_kept = says.crc_kept;
          address = says.address ∙ same_address;
          callbacks = says.callbacks ∙ same_cb;
          state = says.state;
        },
        rw (arrives, done) (ap (λ (b : List ℕ). record wire { sensor = s'; incoming = b }) heard),
      )

  -- The start of a measurement that takes its time, with the world that it leaves.
  pub start_waiting :
      (m : Master (Wire F V)) (type : MeasType) (group : ℕ) (crc : Bool) (cmd : List ℕ)
      (f : ℕ → MeasType → V → ℕ × V)
      → let s = m.world.sensor in
        let g = asked_group type group in
        let n = count_group s.params g in
        let t = (f g type s.world).0 in
        IsWired fl m
        → IsValid fl s
        → type ≢ continuous
        → group ≤ 9
        → s.cb.start_measurement ≡ some f
        → 0 < t
        → 0 < n
        → measure_command s.address type group crc ≡ some cmd
        → (m' : Master (Wire F V)) × (s' : Sensor F V) × (start_measurement s.address type group crc
              m
            ≡ some (
              (
                ok,
                some (record {
                  address = s.address;
                  wait_seconds = min t 999;
                  value_count = announced type n;
                  type = standard;
                }),
              ),
              m',
            ))
          × Pending s type (asked_crc type crc) s'
          × (m'.world ≡ record m.world { sensor = s'; incoming = [] })
          × SameBus m m'
  start_waiting m type group crc cmd f h v ne small callback later some_values c =
      let s = m.world.sensor in
      let g = asked_group type group in
      let n = count_group s.params g in
      let t = (f g type s.world).0 in
      let (s', pending, sent_so) =
        sensor_waits type group crc cmd f m.world v ne small callback later some_values c in
      let few : n ≤ max_params = count_group-le s.params g v.0.params_fit in
      let line = waiting_line s.address type t n in
      let fits = waiting_line-fits s.address type t n few in
      let received = wired_answer fl m h cmd response_timeout_ms s' line sent_so fits in
      let (m', done, world, bus) =
        start_measurement_lem s.address type group crc (min t 999) n m cmd v.0.address_valid
          (omega arith) few ne (wired-IsMaster fl m h) c (ap (λ r. r.0) received) in
      (
        m',
        s',
        done,
        pending,
        world
            ∙ ap (λ r. r.1) received
            ∙ ap (λ (b : List ℕ). record m.world { sensor = s'; incoming = b })
                (drop_all 85 line fits),
        bus,
      )
