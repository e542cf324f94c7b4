-- ===== src/Session/ServiceExamples.antt =====
-- The sample sensor `0` with a measurement that takes two seconds.
use libsdi.Base.{
  ℕ, min, ◌∷◌, ◌++◌, ◌≡◌, List, [], map, refl, true, false, some, arith, replicate, codes,
}
use libsdi.Base.Text.{zero_pad, decimal, digits, is_digit}
use libsdi.Protocol.{ok, standard, ready}
use libsdi.Sensor.Types.{Sensor}
use libsdi.Sensor.Pages.{value_text}
use libsdi.Sensor.Groups.{count_group, count_loop, in_group}
use libsdi.Sensor.Valid.{IsValid}
use libsdi.Sensor.Measure.{count_text, handle_measurement}
use libsdi.Sensor.Waiting.{Waits, handle_measurement-Waits}
use libsdi.Crc.{crlf}
use libsdi.Sensor.Api.{measurement_done}
use libsdi.Sensor.Sample.{floats, seven, callbacks, sensor, sensor-IsValid, seven-IsPrintable}
use libsdi.Master.Bus.{Master}
use libsdi.Master.Commands.{grouped, measure_command, start_measurement, wait_service_request}
use libsdi.Master.Values.{get_data}
use libsdi.Master.Readings.{IsReading}
use libsdi.Session.Wired.{IsWired}
use libsdi.Session.System.{on_line}
use libsdi.Session.Reading.{reading}
use libsdi.Session.Service.{service_session}
use libsdi.Session.{Wire, wire_send, wire_recv}

abbrev slow_sensor : Sensor ℕ ℕ
slow_sensor = record (sensor ready (seven ∷ [])) {
  cb = record callbacks { start_measurement = some (λ group type w. (2, w)) };
}

slow_sensor-IsValid : IsValid floats slow_sensor
slow_sensor-IsValid =
    let (config, buffer, cache) = sensor-IsValid ready in
    (
      record {
        address_valid = config.address_valid;
        ident_valid = config.ident_valid;
        sends = refl;
        read_ok = config.read_ok;
        binary_ok = tt;
        params_fit = config.params_fit;
        params_valid = config.params_valid;
        xcmds_fit = config.xcmds_fit;
        xcmds_valid = tt;
      },
      buffer,
      cache,
    )

abbrev recorder : Master (Wire ℕ ℕ)
recorder = record {
  send = wire_send floats;
  recv = wire_recv;
  cmd_buf = replicate 24 0;
  resp_buf = replicate 86 0;
  resp_len = 0;
  world = record { sensor = slow_sensor; incoming = []; faulted = false };
  trace = [];
}

recorder-IsWired : IsWired floats recorder
recorder-IsWired = record { sends = refl; receives = refl; commands = refl; responses = refl }

command : measure_command b'0' standard 0 true ≡ some (codes "0MC!")
unfolding measure_command grouped
command = refl

two_values : count_group slow_sensor.params 0 ≡ 2
unfolding count_group count_loop in_group
two_values = refl

-- The first character of a text, for a conversion.
abbrev first : List ℕ → ℕ
first [] = 0
first (c ∷ cs) = c

seven-IsReading : IsReading (value_text floats seven)
unfolding value_text decimal digits is_digit
seven-IsReading = (refl, omega arith, (refl, tt))

service_session_example :
    (m₁ : Master (Wire ℕ ℕ)) × (s₂ : Sensor ℕ ℕ) × (m₂ : Master (Wire ℕ ℕ)) × (m₃ : Master
      (Wire ℕ ℕ))
    × (start_measurement b'0' standard 0 true recorder
        ≡ some (
          (
            ok,
            some (record {
              address = b'0';
              wait_seconds = 2;
              value_count = min (count_group slow_sensor.params 0) 9;
              type = standard;
            }),
          ),
          m₁,
        ))
    × (measurement_done (seven ∷ seven ∷ []) 2 (record m₁.world.sensor { trace = [] })
        ≡ some (ok, s₂))
    × (wait_service_request b'0' 2000 (on_line m₁ s₂) ≡ some (ok, m₂))
    × (get_data first b'0' 0 true m₂
        ≡ some (
          (
            ok,
            some (record {
              address = b'0';
              values = map (reading floats first) (seven ∷ seven ∷ []);
            }),
          ),
          m₃,
        ))
unfolding value_text decimal digits
service_session_example =
    service_session floats first true recorder 0 2000 (codes "0MC!") (λ group type w. (2, w))
      (seven ∷ seven ∷ []) 2 recorder-IsWired slow_sensor-IsValid (omega arith) refl refl
      (omega arith) (omega (arith, two_values)) command (seven-IsPrintable, (seven-IsPrintable, tt))
      (seven-IsReading, (seven-IsReading, tt)) (omega arith) (omega arith)

handle_measurement-Waits_example :
    (s' : Sensor ℕ ℕ) × (handle_measurement 0 false standard slow_sensor ≡ some (ok, s'))
    × Waits
        (b'0' ∷ (zero_pad 3 2 ++ (count_text standard (count_group slow_sensor.params 0) ++ crlf)))
        false
        standard
        slow_sensor
        s'
handle_measurement-Waits_example =
    handle_measurement-Waits floats 0 false standard slow_sensor (λ group type w. (2, w))
      slow_sensor-IsValid refl (λ e. cc) refl (omega arith) (omega (arith, two_values))
