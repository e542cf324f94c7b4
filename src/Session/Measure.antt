-- ===== src/Session/Measure.antt =====
-- A measurement: sdi12_master_start_measurement against handle_measurement.
use libsdi.Base.{
  ℕ, ◌≤◌, ◌<◌, ◌≡◌, ◌≢◌, refl, subst, sym, ap, ◌∙◌, Bool, true, List, [], ◌∷◌, ◌++◌, append-nil,
  none, some, arith, codes, length, length-append,
}
use libsdi.Base.Text.{zero_pad, decimal, digits}
use libsdi.Crc.{crlf}
use libsdi.Protocol.{ok, State, measuring_c, data_ready, MeasType, standard, continuous, max_params}
use libsdi.Sensor.Types.{Floats, Value, Sensor, Event, sent}
use libsdi.Sensor.Valid.{IsValid, Answer, Returns}
use libsdi.Sensor.Groups.{count_group, collect_group_indices, read_values}
use libsdi.Sensor.Counting.{positions, count_group-le}
use libsdi.Sensor.GroupValues.{read_each, read_values-positions}
use libsdi.Sensor.Measure.{count_text}
use libsdi.Sensor.MeasureAnswers.{count_text-IsText, handle_measurement-Answers}
use libsdi.Sensor.Announce.{handle_measurement-announces}
use libsdi.Sensor.Process.{abort_concurrent}
use libsdi.Master.RoundTrip.{announced}
use libsdi.Master.Bus.{Master, response_timeout_ms}
use libsdi.Master.Transact.{SameBus}
use libsdi.Master.Commands.{measure_command, start_measurement}
use libsdi.Master.Announced.{start_measurement_lem}
use libsdi.Master.Dispatch.{asked_group, asked_crc, prepared, process-measure_command}
use libsdi.Session.Wired.{IsWired, wired-IsMaster, wired_answer}
use libsdi.Session.{Wire, bytes_of, after_run, wire_send}

-- The line of a sensor whose values are ready at once.
abbrev announcement : ℕ → MeasType → ℕ → List ℕ
announcement a type n = a ∷ (codes "000" ++ (count_text type n ++ crlf))

announcement-fits :
    (a : ℕ) (type : MeasType) (n : ℕ) → n ≤ max_params → length (announcement a type n) ≤ 85
announcement-fits a type n h =
    omega (arith, (count_text-IsText type n h).0, length-append (count_text type n) crlf)

announcement_padded :
    (a : ℕ) (type : MeasType) (n : ℕ)
    → announcement a type n ≡ a ∷ (zero_pad 3 0 ++ (count_text type n ++ crlf))
unfolding zero_pad decimal digits
announcement_padded a type n = refl

module _ {F V : Type 0} (fl : Floats F) where
  -- What the sensor is like when it has executed a command that a data recorder sent.
  pub prepared_same :
      (state : State) (s : Sensor F V)
      → IsValid fl s
      → s.resp_len ≡ 0
      → let s' = abort_concurrent state s in
        IsValid fl s'
        × (s'.resp_len ≡ 0)
        × (s'.trace ≡ s.trace)
        × (s'.cb ≡ s.cb)
        × (s'.params ≡ s.params)
        × (s'.world ≡ s.world)
        × (s'.address ≡ s.address)
  unfolding abort_concurrent
  prepared_same measuring_c s (config, buffer, cache) nolen =
      ((config, buffer, omega arith), nolen, refl, refl, refl, refl, refl)
  prepared_same _ s v nolen = (v, nolen, refl, refl, refl, refl, refl)

  -- What a sensor that has measured has become, and what it has put on the line.
  pub record Measured (n address : ℕ) (type : MeasType) (crc : Bool) (cache : List (Value F))
      (s : Sensor F V) : Type 0 where
    pub valid : IsValid fl s
    pub values : length s.data_cache ≡ n
    pub state : s.state ≡ data_ready
    pub available : s.data_available ≡ true
    pub type_kept : s.pending_meas_type ≡ type
    pub crc_kept : s.crc_requested ≡ crc
    pub address_kept : s.address ≡ address
    pub cache_is : s.data_cache ≡ cache

  -- What the callback reads for a group.
  abbrev pub readings : Sensor F V → ℕ → List (Value F)
  readings s group = read_each s.cb.read_param (positions group 0 s.params) s.world

  -- What a well-formed sensor has become that has executed a measurement command.
  abbrev pub AfterMeasure : Sensor F V → MeasType → ℕ → Bool → Sensor F V → Type 0
  AfterMeasure s type group crc =
      let g = asked_group type group in
      Measured (count_group s.params g) s.address type (asked_crc type crc) (readings s g)

  sensor_answers :
      (type : MeasType) (group : ℕ) (crc : Bool) (cmd : List ℕ) (read : ℕ → V → Value F × V)
      (wire : Wire F V)
      → let s = wire.sensor in
        let n = count_group s.params (asked_group type group) in
        IsValid fl s
        → type ≢ continuous
        → group ≤ 9
        → s.cb.start_measurement ≡ none
        → s.cb.read_param ≡ some read
        → 0 < n
        → measure_command s.address type group crc ≡ some cmd
        → (s' : Sensor F V) × AfterMeasure s type group crc s'
          × (wire_send fl cmd wire
              ≡ record wire { sensor = s'; incoming = announcement s.address type n })
  unfolding wire_send after_run bytes_of
  sensor_answers type group crc cmd read wire v ne small sync reading some_values c =
      let s = wire.sensor in
      let s₀ = record s { trace = [] } in
      let g = asked_group type group in
      let b = asked_crc type crc in
      let arrives = process-measure_command fl s₀ type group crc cmd (0 ∷ []) small c in
      let (v₁, nolen, quiet, same_cb, same_params, same_world, same_address) =
        prepared_same s.state (record s₀ { resp_len = 0 }) v refl in
      let p = prepared fl s₀ in
      let (s', done, says) =
        handle_measurement-announces fl g b type p read v₁ nolen
          (ap (λ cb. cb.start_measurement) same_cb ∙ sync)
          (ap (λ cb. cb.read_param) same_cb ∙ reading) (rw same_params some_values) in
      let (v', answer) =
        subst (λ run. Returns run (λ e t. IsValid fl t × Answer p.trace e t)) done
          (handle_measurement-Answers fl g b type p ne v₁ nolen) in
      let line : ℕ → ℕ → List ℕ = λ a n. announcement a type n in
      let text : s'.trace ≡ sent (line s.address (count_group s.params g)) ∷ [] =
        says.sends
        ∙ ap (λ (t : List Event). t ++ sent (line p.address (count_group p.params g)) ∷ []) quiet
        ∙ ap (λ (a : ℕ). sent (line a (count_group p.params g)) ∷ []) same_address
        ∙ ap (λ ps. sent (line s.address (count_group ps g)) ∷ []) same_params in
      let heard : bytes_of s'.trace ≡ line s.address (count_group s.params g) =
        ap bytes_of text ∙ append-nil (line s.address (count_group s.params g)) in
      (
        s',
        record {
          valid = v';
          values = says.reads ∙ ap (λ ps. count_group ps g) same_params;
          state = says.state;
          available = says.available;
          type_kept = says.type_kept;
          crc_kept = says.crc_kept;
          address_kept = says.address ∙ same_address;
          cache_is =
              says.cache
              ∙ ap
                  (λ cb.
                    (read_values cb.read_param (collect_group_indices p.params g max_params)
                      p.world).0)
                  same_cb
              ∙ ap
                  (λ ps.
                    (read_values s.cb.read_param (collect_group_indices ps g max_params) p.world).0)
                  same_params
              ∙ ap
                  (λ (w : V).
                    (read_values s.cb.read_param (collect_group_indices s.params g max_params) w).0)
                  same_world
              ∙ read_values-positions s.cb.read_param s.params g s.world v.0.params_fit;
        },
        rw (arrives, done) (ap (λ (b : List ℕ). record wire { sensor = s'; incoming = b }) heard),
      )

  -- On a bus with a well-formed sensor that has a read_param and no start_measurement callback, a
  -- data recorder with arrays of their sizes that starts a measurement, not a continuous one, of a
  -- group of at most 9 that has active parameters, so that a command is built, gets SDI12_OK, the
  -- sensor's address, a time of 0 and the number of the group's active parameters, cut to 9 for a
  -- standard measurement or a verification. The sensor, still well-formed, keeps its address, is
  -- data-ready with the type and the CRC flag of the command, and holds one value for every active
  -- parameter of the group, also beyond those 9: what its callback returns for them, one after the
  -- other, in their order. The data recorder keeps its callbacks and the sizes of its arrays.
  pub start_measurement_session :
      (m : Master (Wire F V)) (type : MeasType) (group : ℕ) (crc : Bool) (cmd : List ℕ)
      (read : ℕ → V → Value F × V)
      → let s = m.world.sensor in
        let n = count_group s.params (asked_group type group) in
        IsWired fl m
        → IsValid fl s
        → type ≢ continuous
        → group ≤ 9
        → s.cb.start_measurement ≡ none
        → s.cb.read_param ≡ some read
        → 0 < n
        → measure_command s.address type group crc ≡ some cmd
        → (m' : Master (Wire F V)) × (start_measurement s.address type group crc m
            ≡ some (
              (
                ok,
                some (record {
                  address = s.address;
                  wait_seconds = 0;
                  value_count = announced type n;
                  type = standard;
                }),
              ),
              m',
            ))
          × AfterMeasure s type group crc m'.world.sensor
          × SameBus m m'
  start_measurement_session m type group crc cmd read h v ne small sync reading some_values c =
      let s = m.world.sensor in
      let n = count_group s.params (asked_group type group) in
      let (s', measured, sent_so) =
        sensor_answers type group crc cmd read m.world v ne small sync reading some_values c in
      let few : n ≤ max_params = count_group-le s.params (asked_group type group) v.0.params_fit in
      let received =
        wired_answer fl m h cmd response_timeout_ms s' (announcement s.address type n) sent_so
          (announcement-fits s.address type n few) in
      let (m', done, world, bus) =
        start_measurement_lem s.address type group crc 0 n m cmd v.0.address_valid (omega arith) few
          ne (wired-IsMaster fl m h) c
          (ap (λ r. r.0) received ∙ announcement_padded s.address type n) in
      (
        m',
        done,
        subst (λ (w : Wire F V). AfterMeasure s type group crc w.sensor)
            (sym (world ∙ ap (λ r. r.1) received)) measured,
        bus,
      )
