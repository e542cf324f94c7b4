-- ===== src/Session/Service.antt =====
-- A measurement that takes its time, the service request at its end, and its data:
-- sdi12_sensor_measurement_done against sdi12_master_wait_service_request and sdi12_master_get_data.
use libsdi.Base.{
  ℕ, min, ◌≤◌, ◌<◌, ◌≡◌, ◌≢◌, subst, sym, ap, ◌∙◌, Bool, true, false, List, [], ◌∷◌, ◌++◌, some,
  map, take, length, All, All-take,
}
use libsdi.Crc.{crlf}
use libsdi.Protocol.{
  ok, State, measuring, measuring_c, data_ready, MeasType, standard, max_params, m_values_max_chars,
  valid_address,
}
use libsdi.Sensor.Types.{Floats, Value, Sensor, sent}
use libsdi.Sensor.Pages.{value_text}
use libsdi.Sensor.FirstPage.{texts}
use libsdi.Sensor.Groups.{count_group}
use libsdi.Sensor.Api.{measurement_done}
use libsdi.Sensor.Lifecycle.{done_state, service_events, measurement_done-Done}
use libsdi.Sensor.Valid.{IsValid, IsPrintable}
use libsdi.Master.Bus.{Master}
use libsdi.Master.Commands.{measure_command, start_measurement, wait_service_request}
use libsdi.Master.Service.{wait_service_request_lem}
use libsdi.Master.Values.{get_data}
use libsdi.Master.Readings.{IsReading}
use libsdi.Session.Wired.{IsWired, wired-IsMaster, SameBus-IsWired}
use libsdi.Session.Reading.{reading}
use libsdi.Session.Data.{HasPage, get_data_session}
use libsdi.Session.System.{on_line}
use libsdi.Session.Waiting.{Pending, start_waiting}
use libsdi.Session.{Wire, bytes_of, wire_recv}

module _ {F V : Type 0} (fl : Floats F) where
  -- A sensor whose standard measurement has ended with these values.
  record Ended (crc : Bool) (address : ℕ) (kept : List (Value F)) (s : Sensor F V) : Type 0 where
    valid : IsValid fl s
    idle : s.state ≢ measuring_c
    page : length (texts fl kept) ≤ m_values_max_chars → HasPage fl crc s
    cache : s.data_cache ≡ kept
    at : s.address ≡ address

  -- The sensor in which a standard measurement is done, and what it puts on the line.
  measurement_ends :
      (crc : Bool) (values : List (Value F)) (count : ℕ) (s s₁ : Sensor F V)
      → Pending fl s standard crc s₁
      → s.cb.service_request ≡ false
      → All (IsPrintable fl) values
      → count ≤ length values
      → (s₂ : Sensor F V) × (measurement_done values count (record s₁ { trace = [] })
          ≡ some (ok, s₂))
        × Ended crc s.address (take (min count max_params) values) s₂
        × (bytes_of s₂.trace ≡ s.address ∷ crlf)
  unfolding bytes_of
  measurement_ends crc values count s s₁ h quiet printable few =
      let (s₂, done, d) =
        measurement_done-Done fl values count (record s₁ { trace = [] }) h.valid printable few in
      let running = h.state in
      let (address, type, flag) = d.kept in
      let events : s₂.trace ≡ sent (s.address ∷ crlf) ∷ [] =
        d.events
        ∙ ap (λ (st : State). service_events st s₁.cb.service_request s₁.address) running
        ∙ ap (λ cb. service_events measuring cb.service_request s₁.address) h.callbacks
        ∙ ap (λ (b : Bool). service_events measuring b s₁.address) quiet
        ∙ ap (λ (a : ℕ). sent (a ∷ crlf) ∷ []) h.address in
      (
        s₂,
        done,
        record {
          valid = d.valid;
          idle = λ e.
              let clash : data_ready ≡ measuring_c = sym (d.state ∙ ap done_state running) ∙ e in
              cc;
          page = λ fits. record {
            available = d.available;
            asked = flag ∙ h.crc_kept;
            type = type ∙ h.type_kept;
            fits = subst (λ vs. length (texts fl vs) ≤ m_values_max_chars) (sym d.cache) fits;
          };
          cache = d.cache;
          at = address ∙ h.address;
        },
        ap bytes_of events,
      )

  on_line-IsWired :
      (m : Master (Wire F V)) (s : Sensor F V) → IsWired fl m → IsWired fl (on_line m s)
  on_line-IsWired m s h = record {
    sends = h.sends;
    receives = h.receives;
    commands = h.commands;
    responses = h.responses;
  }

  -- The service request arrives, and the sensor is still there.
  request_arrives :
      (a timeout : ℕ) (m : Master (Wire F V))
      → valid_address a ≡ true
      → IsWired fl m
      → m.world.incoming ≡ a ∷ crlf
      → (m' : Master (Wire F V)) × (wait_service_request a timeout m ≡ some (ok, m'))
        × (m'.world.sensor ≡ m.world.sensor)
        × IsWired fl m'
  unfolding wire_recv
  request_arrives a timeout m valid h e =
      let heard =
        ap (λ (r : ℕ → ℕ → Wire F V → List ℕ × Wire F V). r 85 timeout m.world) h.receives in
      let (m', done, world, bus) =
        wait_service_request_lem a timeout m valid (wired-IsMaster fl m h)
          (ap (λ r. r.0) heard ∙ ap (take 85) e) in
      (
        m',
        done,
        ap (λ (w : Wire F V). w.sensor) (world ∙ ap (λ r. r.1) heard),
        SameBus-IsWired fl m m' h bus,
      )

  -- What a data recorder gets that asks for page 0.
  abbrev Gets :
      (List ℕ → F) → Bool → Master (Wire F V) → Master (Wire F V) → ℕ → List (Value F) → Type 0
  Gets strtod crc m m' a vs =
      get_data strtod a 0 crc m
      ≡ some ((ok, some (record { address = a; values = map (reading fl strtod) vs })), m')

  -- The data of a measurement that has ended.
  Ended-get_data :
      (strtod : List ℕ → F) (crc : Bool) (m : Master (Wire F V)) (a : ℕ) (kept : List (Value F))
      → IsWired fl m
      → Ended crc a kept m.world.sensor
      → All (λ v. IsReading (value_text fl v)) kept
      → length (texts fl kept) ≤ m_values_max_chars
      → (m' : Master (Wire F V)) × Gets strtod crc m m' a kept
  Ended-get_data strtod crc m a kept h e numbers fits =
      let (m', got) =
        get_data_session fl strtod crc m h e.valid e.idle (e.page fits)
          (subst (λ vs. All (λ v. IsReading (value_text fl v)) vs) (sym e.cache) numbers) in
      (
        m',
        subst (λ (a : ℕ). Gets strtod crc m m' a kept) e.at
            (subst (λ vs. Gets strtod crc m m' m.world.sensor.address vs) e.cache got),
      )

  -- On a bus with a well-formed sensor whose start_measurement callback needs a time and that has
  -- no service_request callback, a data recorder with arrays of their sizes starts a standard
  -- measurement, with or without a CRC, of a group of at most 9 that has active parameters, so
  -- that a command is built. It gets SDI12_OK, the sensor's address, the time, cut to 999, and the
  -- number of the group's active parameters, cut to 9. When the application of the sensor then has
  -- the measurement done with `count` values or more, that are printable, print to a sign with
  -- digits and points behind it, and of which the first `count`, at most 20, print to at most 35
  -- characters together, the data recorder's wait for a service request returns SDI12_OK, and its
  -- request of page 0 in the same way SDI12_OK, the sensor's address, and for each of these first
  -- values, in their order, the number that strtod makes of its text, a plus and the number or a
  -- minus and its negation, and as decimals the number of characters behind the point of that
  -- text.
  pub service_session :
      (strtod : List ℕ → F) (crc : Bool) (m : Master (Wire F V)) (group timeout : ℕ) (cmd : List ℕ)
      (f : ℕ → MeasType → V → ℕ × V) (values : List (Value F)) (count : ℕ)
      → let s = m.world.sensor in
        let n = count_group s.params group in
        let t = (f group standard s.world).0 in
        let kept = take (min count max_params) values in
        IsWired fl m
        → IsValid fl s
        → group ≤ 9
        → s.cb.start_measurement ≡ some f
        → s.cb.service_request ≡ false
        → 0 < t
        → 0 < n
        → measure_command s.address standard group crc ≡ some cmd
        → All (IsPrintable fl) values
        → All (λ v. IsReading (value_text fl v)) values
        → count ≤ length values
        → length (texts fl kept) ≤ m_values_max_chars
        → (m₁ : Master (Wire F V)) × (s₂ : Sensor F V) × (m₂ : Master (Wire F V)) × (m₃ : Master
            (Wire F V))
          × (start_measurement s.address standard group crc m
              ≡ some (
                (
                  ok,
                  some (record {
                    address = s.address;
                    wait_seconds = min t 999;
                    value_count = min n 9;
                    type = standard;
                  }),
                ),
                m₁,
              ))
          × (measurement_done values count (record m₁.world.sensor { trace = [] }) ≡ some (ok, s₂))
          × (wait_service_request s.address timeout (on_line m₁ s₂) ≡ some (ok, m₂))
          × (get_data strtod s.address 0 crc m₂
              ≡ some (
                (ok, some (record { address = s.address; values = map (reading fl strtod) kept })),
                m₃,
              ))
  service_session strtod crc m group timeout cmd f values count h v small callback quiet later
        some_values c printable numbers few page =
      let s = m.world.sensor in
      let kept = take (min count max_params) values in
      let (m₁, s₁, started, pending, world, bus) =
        start_waiting fl m standard group crc cmd f h v (λ e. cc) small callback later some_values
          c in
      let here : s₁ ≡ m₁.world.sensor = sym (ap (λ (w : Wire F V). w.sensor) world) in
      let pending₁ = subst (λ (t : Sensor F V). Pending fl s standard crc t) here pending in
      let (s₂, done, ended, text) =
        measurement_ends crc values count s m₁.world.sensor pending₁ quiet printable few in
      let line : (on_line m₁ s₂).world.incoming ≡ s.address ∷ crlf =
        ap (λ (b : List ℕ). b ++ bytes_of s₂.trace) (ap (λ (w : Wire F V). w.incoming) world)
        ∙ text in
      let wired₁ = on_line-IsWired m₁ s₂ (SameBus-IsWired fl m m₁ h bus) in
      let (m₂, heard, same, wired₂) =
        request_arrives s.address timeout (on_line m₁ s₂) v.0.address_valid wired₁ line in
      let (m₃, got) =
        Ended-get_data strtod crc m₂ s.address kept wired₂
          (subst (λ (t : Sensor F V). Ended crc s.address kept t) (sym same) ended)
          (All-take (λ v. IsReading (value_text fl v)) (min count max_params) values numbers)
          page in
      (m₁, s₂, m₂, m₃, started, done, heard, got)
