-- ===== src/Master/AnswerExamples.antt =====
-- sdi12_master.c on the answers of the sample sensor `0`.
use libsdi.Base.{
  ℕ, ◌≤◌, ◌≡◌, refl, true, List, [], ◌∷◌, ◌++◌, some, map, arith, length, length-take, take,
  replicate, codes,
}
use libsdi.Base.Text.{decimal, digits, zero_pad, pad_right, is_digit}
use libsdi.Crc.{crlf}
use libsdi.Protocol.{ok, standard, valid_address, ready}
use libsdi.Sensor.Types.{Value}
use libsdi.Sensor.Reply.{identification}
use libsdi.Sensor.Measure.{count_text, handle_measurement}
use libsdi.Sensor.Metadata.{metadata_text}
use libsdi.Sensor.Process.{process}
use libsdi.Sensor.Sample.{floats, ident, param, sensor, ident-IsIdent}
use libsdi.Master.Bus.{Master}
use libsdi.Master.Transact.{IsMaster, SameBus}
use libsdi.Master.Setup.{MasterCallbacks, master_init, identify}
use libsdi.Master.Startup.{Started, master_init-Started}
use libsdi.Master.Identify.{padded, identify_lem}
use libsdi.Master.Commands.{grouped, measure_command, start_measurement}
use libsdi.Master.RoundTrip.{announced}
use libsdi.Master.Announced.{start_measurement_lem}
use libsdi.Master.Dispatch.{prepared, process-measure_command}
use libsdi.Master.Values.{read_value, parse_data_values, get_data}
use libsdi.Master.Numbers.{parse_data_values-ends}
use libsdi.Master.Readings.{IsReading, get_data_lem}
use libsdi.Master.Metadata.{identify_parameter}
use libsdi.Master.Describe.{identify_parameter_lem}

-- A bus on which every command is answered by the same bytes.
abbrev answering : List ℕ → Master ℕ
answering answer = record {
  send = λ bytes w. w;
  recv = λ room timeout w. (take room answer, w);
  cmd_buf = replicate 24 0;
  resp_buf = replicate 86 0;
  resp_len = 0;
  world = 0;
  trace = [];
}

answering-IsMaster : (answer : List ℕ) → IsMaster (answering answer)
answering-IsMaster answer = record {
  commands = refl;
  responses = refl;
  within = λ room timeout w. omega (arith, length-take room answer);
}

zero_valid : valid_address b'0' ≡ true
unfolding valid_address
zero_valid = refl

abbrev id_line : List ℕ
id_line = identification (sensor ready [])

id_line-short : take 85 id_line ≡ id_line
unfolding identification pad_right
id_line-short = refl

identify_lem_example :
    (m' : Master ℕ) × (identify b'0' (answering id_line) ≡ some ((ok, some (padded ident)), m'))
identify_lem_example =
    identify_lem (sensor ready []) (answering id_line) zero_valid ident-IsIdent (omega arith)
      (answering-IsMaster id_line) id_line-short

command : measure_command b'0' standard 1 true ≡ some (codes "0MC1!")
unfolding measure_command grouped decimal digits
command = refl

abbrev announcement : List ℕ
announcement = b'0' ∷ (zero_pad 3 2 ++ (count_text standard 3 ++ crlf))

announcement-short : take 85 announcement ≡ announcement
unfolding zero_pad count_text decimal digits
announcement-short = refl

start_measurement_lem_example :
    (m' : Master ℕ) × (start_measurement b'0' standard 1 true (answering announcement)
      ≡ some (
        (
          ok,
          some (record {
            address = b'0';
            wait_seconds = 2;
            value_count = announced standard 3;
            type = standard;
          }),
        ),
        m',
      ))
    × (m'.world ≡ 0)
    × SameBus (answering announcement) m'
start_measurement_lem_example =
    start_measurement_lem b'0' standard 1 true 2 3 (answering announcement) (codes "0MC1!")
      zero_valid (omega arith) (omega arith) (λ e. cc) (answering-IsMaster announcement) command
      announcement-short

process-measure_command_example :
    process floats (codes "0MC1!" ++ 0 ∷ []) 5 (sensor ready [])
    ≡ handle_measurement 1 true standard (prepared floats (sensor ready []))
process-measure_command_example =
    process-measure_command floats (sensor ready []) standard 1 true (codes "0MC1!") (0 ∷ [])
      (omega arith) command

-- The first character of a text, for a conversion.
abbrev first : List ℕ → ℕ
first [] = 0
first (c ∷ cs) = c

parse_data_values-ends_example :
    (vs : List (Value ℕ)) × (parse_data_values first (codes "+1 -x.5") 7 2 true ≡ some (ok, vs))
    × (length vs ≤ 2)
parse_data_values-ends_example =
    parse_data_values-ends first (codes "+1 -x.5") 7 2 true (omega arith)

abbrev readings : List (List ℕ)
readings = codes "+1.5" ∷ codes "-20" ∷ []

readings-fit : IsReading (codes "+1.5") × IsReading (codes "-20")
unfolding is_digit
readings-fit =
    ((refl, omega arith, (refl, (refl, (refl, tt)))), (refl, omega arith, (refl, (refl, tt))))

get_data_lem_example :
    (m' : Master ℕ) × (get_data first b'0' 0 true (answering (codes "0+1.5-20xyz" ++ crlf))
      ≡ some ((ok, some (record { address = b'0'; values = map (read_value first) readings })), m'))
get_data_lem_example =
    get_data_lem first b'0' 0 true readings (codes "xyz") (answering (codes "0+1.5-20xyz" ++ crlf))
      zero_valid (omega arith) (answering-IsMaster (codes "0+1.5-20xyz" ++ crlf))
      (readings-fit.0, (readings-fit.1, tt)) (omega arith) refl (omega arith) refl

abbrev described_line : List ℕ
described_line = (metadata_text b'0' param ++ []) ++ crlf

described-short : take 85 described_line ≡ described_line
unfolding metadata_text
described-short = refl

identify_parameter_lem_example :
    (m' : Master ℕ) × (identify_parameter b'0' (codes "M") 1 (answering described_line)
      ≡ some ((ok, some (record { address = b'0'; shef = codes "TA"; units = codes "C" })), m'))
identify_parameter_lem_example =
    identify_parameter_lem b'0' 1 (codes "M") [] param (answering described_line) zero_valid
      (omega arith) (omega arith) (omega arith) (omega arith) tt (answering-IsMaster described_line)
      described-short

abbrev master_callbacks : MasterCallbacks ℕ
master_callbacks = record {
  send = some (λ bytes w. w);
  recv = some (λ room timeout w. (take room (b'0' ∷ crlf), w));
  set_direction = true;
  send_break = true;
  delay = true;
}

master_init-Started_example : Started true 5 (master_init (some master_callbacks) 5)
master_init-Started_example =
    master_init-Started master_callbacks 5
      (λ room timeout w. omega (arith, length-take room (b'0' ∷ crlf)))
