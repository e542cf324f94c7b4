-- ===== src/Session/Examples.antt =====
-- The sample sensor `0` and a data recorder on one bus.
use libsdi.Base.{
  List, map, ℕ, ◌+◌, ◌∷◌, ◌≤◌, ◌≡◌, refl, true, false, [], some, arith, replicate, codes,
}
use libsdi.Base.Text.{decimal, digits, is_digit}
use libsdi.Protocol.{ok, standard, ready, valid_address}
use libsdi.Sensor.Pages.{value_text}
use libsdi.Sensor.Groups.{count_group, count_loop, in_group}
use libsdi.Sensor.Sample.{floats, seven, sensor, sensor-IsValid}
use libsdi.Master.RoundTrip.{announced}
use libsdi.Master.Bus.{Master, acknowledge, change_address}
use libsdi.Master.Setup.{identify}
use libsdi.Master.Identify.{padded}
use libsdi.Session.Rename.{Renamed}
use libsdi.Session.Commission.{change_address_session}
use libsdi.Master.Transact.{SameBus}
use libsdi.Master.Commands.{grouped, measure_command, start_measurement}
use libsdi.Master.Dispatch.{asked_group}
use libsdi.Master.Values.{get_data}
use libsdi.Session.Reading.{reading}
use libsdi.Session.Data.{HasPage, get_data_session}
use libsdi.Session.Whole.{measurement_session}
use libsdi.Session.{Wire, wire_send, wire_recv}
use libsdi.Master.Readings.{IsReading}
use libsdi.Session.Wired.{IsWired}
use libsdi.Session.Measure.{readings, AfterMeasure, start_measurement_session}

abbrev recorder : Master (Wire ℕ ℕ)
recorder = record {
  send = wire_send floats;
  recv = wire_recv;
  cmd_buf = replicate 24 0;
  resp_buf = replicate 86 0;
  resp_len = 0;
  world = record { sensor = sensor ready (seven ∷ []); incoming = []; faulted = false };
  trace = [];
}

recorder-IsWired : IsWired floats recorder
recorder-IsWired = record { sends = refl; receives = refl; commands = refl; responses = refl }

crc_command : measure_command b'0' standard 0 true ≡ some (codes "0MC!")
unfolding measure_command grouped
crc_command = refl

command : measure_command b'0' standard 0 false ≡ some (codes "0M!")
unfolding measure_command grouped
command = refl

two_values : count_group recorder.world.sensor.params (asked_group standard 0) ≡ 2
unfolding count_group count_loop in_group
two_values = refl

start_measurement_session_example :
    (m' : Master (Wire ℕ ℕ)) × (start_measurement b'0' standard 0 false recorder
      ≡ some (
        (
          ok,
          some (record {
            address = b'0';
            wait_seconds = 0;
            value_count = announced standard (count_group recorder.world.sensor.params 0);
            type = standard;
          }),
        ),
        m',
      ))
    × AfterMeasure floats recorder.world.sensor standard 0 false m'.world.sensor
    × SameBus recorder m'
start_measurement_session_example =
    start_measurement_session floats recorder standard 0 false (codes "0M!") (λ i w. (seven, w + 1))
      recorder-IsWired (sensor-IsValid ready) (λ e. cc) (omega arith) refl refl
      (omega (arith, two_values)) command

-- The first character of a text, for a conversion.
abbrev first : List ℕ → ℕ
first [] = 0
first (c ∷ cs) = c

page : HasPage floats false recorder.world.sensor
unfolding value_text decimal digits
page = record { available = refl; asked = refl; type = refl; fits = omega arith }

get_data_session_example :
    (m' : Master (Wire ℕ ℕ)) × (get_data first b'0' 0 false recorder
      ≡ some (
        (ok, some (record { address = b'0'; values = map (reading floats first) (seven ∷ []) })),
        m',
      ))
unfolding value_text decimal digits is_digit
get_data_session_example =
    get_data_session floats first false recorder recorder-IsWired (sensor-IsValid ready) (λ e. cc)
      page ((refl, omega arith, (refl, tt)), tt)

seven-IsReading : IsReading (value_text floats seven)
unfolding value_text decimal digits is_digit
seven-IsReading = (refl, omega arith, (refl, tt))

few_values : count_group recorder.world.sensor.params 0 ≤ 3
few_values = omega (arith, two_values)

measurement_session_example :
    let s = recorder.world.sensor in
    (m₁ : Master (Wire ℕ ℕ)) × (m₂ : Master (Wire ℕ ℕ)) × (start_measurement b'0' standard 0 true
        recorder
      ≡ some (
        (
          ok,
          some (record {
            address = b'0';
            wait_seconds = 0;
            value_count = count_group s.params 0;
            type = standard;
          }),
        ),
        m₁,
      ))
    × (get_data first b'0' 0 true m₁
        ≡ some (
          (
            ok,
            some (record {
              address = b'0';
              values = map (reading floats first) (readings floats s 0);
            }),
          ),
          m₂,
        ))
measurement_session_example =
    measurement_session floats first true recorder 0 (codes "0MC!") (λ i w. (seven, w + 1))
      recorder-IsWired (sensor-IsValid ready) (omega arith) refl refl (λ i w. seven-IsReading)
      (omega (arith, two_values)) few_values crc_command

one_valid : valid_address b'1' ≡ true
unfolding valid_address
one_valid = refl

change_address_session_example :
    let s = recorder.world.sensor in
    (m₁ : Master (Wire ℕ ℕ)) × (change_address b'0' b'1' recorder ≡ some (ok, m₁))
    × Renamed floats b'1' s m₁.world.sensor
    × ((m₂ : Master (Wire ℕ ℕ)) × (identify b'1' m₁ ≡ some ((ok, some (padded s.ident)), m₂)))
    × ((m₂ : Master (Wire ℕ ℕ)) × (acknowledge b'0' m₁ ≡ some ((ok, some false), m₂)))
change_address_session_example =
    change_address_session floats recorder b'1' recorder-IsWired (sensor-IsValid ready)
      (omega arith) one_valid (omega arith)
