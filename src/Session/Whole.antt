-- ===== src/Session/Whole.antt =====
-- A measurement and its data, one after the other.
use libsdi.Base.{
  ℕ, min, ◌*◌, ◌≤◌, ◌<◌, ◌≡◌, ◌≢◌, subst, sym, ap, ◌∙◌, Bool, List, [], ◌∷◌, none, some, map, arith,
  length, length-append, All,
}
use libsdi.Protocol.{ok, measuring_c, data_ready, standard, value_max_chars}
use libsdi.Sensor.Types.{Floats, Value, Sensor}
use libsdi.Sensor.Pages.{value_text}
use libsdi.Sensor.FirstPage.{texts}
use libsdi.Sensor.Groups.{count_group}
use libsdi.Sensor.Counting.{positions}
use libsdi.Sensor.GroupValues.{read_each}
use libsdi.Sensor.Valid.{IsValid, IsPrintable}
use libsdi.Master.Parse.{MeasResponse}
use libsdi.Master.Bus.{Master}
use libsdi.Master.Commands.{measure_command, start_measurement}
use libsdi.Master.Values.{get_data}
use libsdi.Master.Readings.{IsReading}
use libsdi.Session.Wired.{IsWired, SameBus-IsWired}
use libsdi.Session.Measure.{readings, AfterMeasure, start_measurement_session}
use libsdi.Session.Reading.{reading}
use libsdi.Session.Data.{HasPage, get_data_session}
use libsdi.Session.{Wire}

module _ {F : Type 0} (fl : Floats F) where
  length-texts_le :
      (vs : List (Value F))
      → All (IsPrintable fl) vs
      → length (texts fl vs) ≤ value_max_chars * length vs
  length-texts_le [] h = omega arith
  length-texts_le (v ∷ vs) h =
      omega (arith, h.0.0, length-texts_le vs h.1, length-append (value_text fl v) (texts fl vs))

module _ {F V : Type 0} (fl : Floats F) where
  read_each-IsReading :
      (read : ℕ → V → Value F × V) (is : List ℕ) (w : V)
      → ((i : ℕ) (w : V) → IsReading (value_text fl (read i w).0))
      → All (λ v. IsReading (value_text fl v)) (read_each (some read) is w)
  read_each-IsReading read [] w h = tt
  read_each-IsReading read (i ∷ is) w h = (h i w, read_each-IsReading read is (read i w).1 h)

  -- What is read of a group with a callback that is set.
  readings-IsReading :
      (s : Sensor F V) (group : ℕ) (read : ℕ → V → Value F × V)
      → s.cb.read_param ≡ some read
      → ((i : ℕ) (w : V) → IsReading (value_text fl (read i w).0))
      → All (λ v. IsReading (value_text fl v)) (readings fl s group)
  readings-IsReading s group read e h =
      rw e (read_each-IsReading read (positions group 0 s.params) s.world h)

  -- A measured sensor with at most three values has them on one page.
  measured-HasPage :
      (crc : Bool) (s s' : Sensor F V) (group : ℕ)
      → AfterMeasure fl s standard group crc s'
      → count_group s.params group ≤ 3
      → HasPage fl crc s'
  measured-HasPage crc s s' group h few =
      let (config, buffer, cache) = h.valid in
      record {
        available = h.available;
        asked = h.crc_kept;
        type = h.type_kept;
        fits = omega (arith, length-texts_le fl s'.data_cache cache.1, h.values, few);
      }

  -- On a bus with a well-formed sensor that has no start_measurement callback, and whose
  -- read_param callback returns values that print to a sign with digits and points behind it, a
  -- data recorder with arrays of their sizes that starts a standard measurement, with or without a
  -- CRC, of a group of at most 9 that has one to three active parameters, so that a command is
  -- built, and then asks for page 0 in the same way, gets SDI12_OK both times: first the sensor's
  -- address, a time of 0 and the number of the group's active parameters, and then the address
  -- and, for each value that the callback returns for the group's active parameters in their
  -- order, the number that strtod makes of the value's text, a plus and the number or a minus and
  -- its negation, and as decimals the number of characters behind the point of that text.
  pub measurement_session :
      (strtod : List ℕ → F) (crc : Bool) (m : Master (Wire F V)) (group : ℕ) (cmd : List ℕ)
      (read : ℕ → V → Value F × V)
      → let s = m.world.sensor in
        let n = count_group s.params group in
        IsWired fl m
        → IsValid fl s
        → group ≤ 9
        → s.cb.start_measurement ≡ none
        → s.cb.read_param ≡ some read
        → ((i : ℕ) (w : V) → IsReading (value_text fl (read i w).0))
        → 0 < n
        → n ≤ 3
        → measure_command s.address standard group crc ≡ some cmd
        → (m₁ : Master (Wire F V)) × (m₂ : Master (Wire F V)) × (start_measurement s.address
              standard group crc m
            ≡ some (
              (
                ok,
                some (record {
                  address = s.address;
                  wait_seconds = 0;
                  value_count = n;
                  type = standard;
                }),
              ),
              m₁,
            ))
          × (get_data strtod s.address 0 crc m₁
              ≡ some (
                (
                  ok,
                  some (record {
                    address = s.address;
                    values = map (reading fl strtod) (readings fl s group);
                  }),
                ),
                m₂,
              ))
  measurement_session strtod crc m group cmd read h v small sync reading numbers low high c =
      let s = m.world.sensor in
      let (m₁, started, after, bus) =
        start_measurement_session fl m standard group crc cmd read h v (λ e. cc) small sync reading
          low c in
      let plain =
        subst (λ vs. All (λ v. IsReading (value_text fl v)) vs) (sym after.cache_is)
          (readings-IsReading s group read reading numbers) in
      let idle : m₁.world.sensor.state ≢ measuring_c =
        λ e. let clash : data_ready ≡ measuring_c = sym after.state ∙ e in cc in
      let (m₂, got) =
        get_data_session fl strtod crc m₁ (SameBus-IsWired fl m m₁ h bus) after.valid idle
          (measured-HasPage crc s m₁.world.sensor group after high) plain in
      let said : ℕ → MeasResponse =
        λ k. record { address = s.address; wait_seconds = 0; value_count = k; type = standard } in
      let nine : min (count_group s.params group) 9 ≡ count_group s.params group =
        omega (arith, high) in
      (
        m₁,
        m₂,
        started ∙ ap (λ k. some ((ok, some (said k)), m₁)) nine,
        rw (after.address_kept, after.cache_is) at got,
      )
