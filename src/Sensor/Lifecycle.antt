-- ===== src/Sensor/Lifecycle.antt =====
-- sdi12_sensor.c: sdi12_sensor_measurement_done and sdi12_sensor_break, on the states of a sensor.
use libsdi.Base.{
  ℕ, ◌≤◌, ◌≡◌, refl, sym, Bool, true, false, List, [], ◌∷◌, ◌++◌, append-nil, min, some, All,
  All-take, arith, length, length-take, take, drop, ltb, leb, if◌then◌else◌,
}
use libsdi.Base.Buffer.{snprintf_fits, NoNul}
use libsdi.Crc.{crlf}
use libsdi.Protocol.{ok, State, standby, ready, measuring, measuring_c, data_ready, max_params}
use libsdi.Sensor.Types.{Floats, Value, Sensor, Event, sent, service_requested}
use libsdi.Sensor.Api.{request_service, finish_measuring, measurement_done, abandon, break}
use libsdi.Sensor.Valid.{IsPrintable, IsValid}
use libsdi.Sensor.Answer.{cons-IsText, line-IsBuffer, send_string}

-- The state after the end of a measurement.
abbrev pub done_state : State → State
done_state measuring = data_ready
done_state measuring_c = data_ready
done_state st = st

-- Whether a measurement runs.
abbrev pub is_measuring : State → Bool
is_measuring measuring = true
is_measuring measuring_c = true
is_measuring st = false

-- The service request that a state owes, by the callback if there is one.
abbrev pub service_events : State → Bool → ℕ → List Event
service_events measuring callback address =
    (if callback then service_requested else sent (address ∷ crlf)) ∷ []
service_events st callback address = []

module _ {F W : Type 0} (fl : Floats F) where
  -- What sdi12_sensor_measurement_done leaves.
  pub record Done (values : List (Value F)) (s s' : Sensor F W) : Type 0 where
    pub valid : IsValid fl s'
    pub state : s'.state ≡ done_state s.state
    pub events : s'.trace ≡ s.trace ++ service_events s.state s.cb.service_request s.address
    pub cache : s'.data_cache ≡ values
    pub available : s'.data_available ≡ true
    pub kept :
        (s'.address ≡ s.address)
        × (s'.pending_meas_type ≡ s.pending_meas_type)
        × (s'.crc_requested ≡ s.crc_requested)

  request_service_lem :
      (s : Sensor F W)
      → IsValid fl s
      → s.resp_len ≡ 0
      → request_service s
        ≡ some (record s {
          resp_buf = s.address ∷ (crlf ++ 0 ∷ drop 4 s.resp_buf);
          trace = s.trace ++ service_events measuring s.cb.service_request s.address;
        })
  unfolding request_service
  request_service_lem s (config, buffer, cache) nolen =
      let text = s.address ∷ crlf in
      let rest = drop 4 s.resp_buf in
      let nonul : NoNul text =
        (cons-IsText s.address 2 crlf config.address_valid (omega arith)).1 in
      let shown = snprintf_fits s.resp_buf text (omega (arith, buffer.0)) in
      let out =
        send_string (record s { resp_buf = text ++ 0 ∷ rest }) text rest config.sends nolen refl
          nonul in
      rw (shown, out) (ground arith)

  finish_measuring-Done :
      (st : State) (s : Sensor F W)
      → IsValid fl s
      → s.resp_len ≡ 0
      → s.data_available ≡ true
      → s.state ≡ st
      → (s' : Sensor F W) × (finish_measuring st s ≡ some (ok, s')) × Done s.data_cache s s'
  unfolding finish_measuring
  finish_measuring-Done measuring s (config, buffer, cache) nolen av same =
      let text = s.address ∷ crlf in
      let shown =
        line-IsBuffer text s.resp_buf
          (cons-IsText s.address 80 crlf config.address_valid (omega arith)) buffer in
      rw (request_service_lem s (config, buffer, cache) nolen) (
        _,
        refl,
        record {
          valid = (config, shown, cache);
          state = rw same refl;
          events = rw same refl;
          cache = refl;
          available = av;
          kept = (refl, refl, refl);
        },
      )
  finish_measuring-Done measuring_c s v nolen av same = (
    _,
    refl,
    record {
      valid = v;
      state = rw same refl;
      events = rw same (sym (append-nil s.trace));
      cache = refl;
      available = av;
      kept = (refl, refl, refl);
    },
  )
  finish_measuring-Done standby s v nolen av same = (
    s,
    refl,
    record {
      valid = v;
      state = rw same refl;
      events = rw same (sym (append-nil s.trace));
      cache = refl;
      available = av;
      kept = (refl, refl, refl);
    },
  )
  finish_measuring-Done ready s v nolen av same = (
    s,
    refl,
    record {
      valid = v;
      state = rw same refl;
      events = rw same (sym (append-nil s.trace));
      cache = refl;
      available = av;
      kept = (refl, refl, refl);
    },
  )
  finish_measuring-Done data_ready s v nolen av same = (
    s,
    refl,
    record {
      valid = v;
      state = rw same refl;
      events = rw same (sym (append-nil s.trace));
      cache = refl;
      available = av;
      kept = (refl, refl, refl);
    },
  )

  -- sdi12_sensor_measurement_done, in a well-formed sensor and on at least `count` printable
  -- values, always succeeds and keeps the sensor well-formed: the first 20 at most become the
  -- cache, a sensor that measures gets into the data-ready state, and a service request is made
  -- exactly after a standard measurement, by the callback or else by the address on the bus. The
  -- address, the type and the CRC flag of the measurement are kept.
  pub measurement_done-Done :
      (values : List (Value F)) (count : ℕ) (s : Sensor F W)
      → IsValid fl s
      → All (IsPrintable fl) values
      → count ≤ length values
      → (s' : Sensor F W) × (measurement_done values count s ≡ some (ok, s'))
        × Done (take (min count max_params) values) s s'
  unfolding measurement_done
  measurement_done-Done values count s (config, buffer, cache) printable h =
      let n = if ltb max_params count then max_params else count in
      let few : n ≡ min count max_params = ground arith in
      let inside : leb n (length values) ≡ true = ground arith in
      let kept = take n values in
      let set : Sensor F W = record s { data_cache = kept; data_available = true; resp_len = 0 } in
      let v : IsValid fl set = (
        config,
        buffer,
        (omega (arith, few, length-take n values), All-take (IsPrintable fl) n values printable),
      ) in
      let (s', e, d) = finish_measuring-Done s.state set v refl refl refl in
      rw (inside, sym few)
        (
          s',
          e,
          record {
            valid = d.valid;
            state = d.state;
            events = d.events;
            cache = d.cache;
            available = d.available;
            kept = d.kept;
          },
        )

  abandon-IsValid :
      (st : State) (s : Sensor F W)
      → IsValid fl s
      → let s' = abandon st s in
        IsValid fl s'
        × (s'.trace ≡ s.trace)
        × (s'.data_available ≡ (if is_measuring st then false else s.data_available))
        × (s'.data_cache ≡ (if is_measuring st then [] else s.data_cache))
  unfolding abandon
  abandon-IsValid standby s v = (v, refl, refl, refl)
  abandon-IsValid ready s v = (v, refl, refl, refl)
  abandon-IsValid measuring s (config, buffer, cache) =
      ((config, buffer, omega arith), refl, refl, refl)
  abandon-IsValid measuring_c s (config, buffer, cache) =
      ((config, buffer, omega arith), refl, refl, refl)
  abandon-IsValid data_ready s v = (v, refl, refl, refl)

  -- A break in any state of a well-formed sensor leaves it well-formed and in the ready state and
  -- sends nothing; the data is dropped exactly if a measurement runs, and kept else.
  pub break-IsValid :
      (s : Sensor F W)
      → IsValid fl s
      → let s' = break s in
        (s'.state ≡ ready)
        × IsValid fl s'
        × (s'.trace ≡ s.trace)
        × (s'.data_available ≡ (if is_measuring s.state then false else s.data_available))
        × (s'.data_cache ≡ (if is_measuring s.state then [] else s.data_cache))
  unfolding break
  break-IsValid s v =
      let (v', sends_none, available, cache) = abandon-IsValid s.state s v in
      (refl, v', sends_none, available, cache)
