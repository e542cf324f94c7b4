-- ===== src/Sensor/Sample.antt =====
-- A small sensor for the tests: address `0`, two parameters in group 0, readings of 7.
use libsdi.Base.{All, List, [], arith, codes, false, none, refl, replicate, some, true, ℕ, ◌+◌, ◌∷◌}
use libsdi.Base.Text.{decimal, digits}
use libsdi.Crc.Step.{IsByte}
use libsdi.Protocol.{standard, State, valid_address}
use libsdi.Sensor.Types.{Floats, Value, Ident, Callbacks, Param, Sensor}
use libsdi.Sensor.Pages.{value_text}
use libsdi.Sensor.Valid.{IsIdent, IsPrintable, IsConfig, IsValid}

-- Readings that are whole and not negative.
abbrev pub floats : Floats ℕ
floats = record {
  nonneg = λ x. true;
  neg = λ x. x;
  print_fixed = λ d x. decimal x;
  print_trunc = decimal;
}

abbrev pub seven : Value ℕ
seven = record { value = 7; decimals = 0 }

abbrev pub ident : Ident
ident = record {
  vendor = codes "ACME";
  model = codes "T1";
  firmware_version = codes "1.0";
  serial = codes "42";
}

-- The world is the number of readings made.
abbrev pub callbacks : Callbacks ℕ ℕ
callbacks = record {
  send_response = true;
  set_direction = true;
  read_param = some (λ i w. (seven, w + 1));
  save_address = true;
  load_address = none;
  start_measurement = none;
  service_request = false;
  format_binary_page = none;
}

abbrev pub param : Param
param = record { shef = codes "TA"; units = codes "C"; group = 0; decimals = 0; active = true }

abbrev pub sensor : State → List (Value ℕ) → Sensor ℕ ℕ
sensor state cache = record {
  address = b'0';
  ident = ident;
  cb = callbacks;
  params = param ∷ param ∷ [];
  xcmds = [];
  state = state;
  pending_meas_type = standard;
  pending_meas_group = 0;
  crc_requested = false;
  data_cache = cache;
  data_available = true;
  resp_buf = replicate 82 0;
  resp_len = 0;
  world = 0;
  trace = [];
}

pub seven-IsPrintable : IsPrintable floats seven
unfolding value_text decimal digits
seven-IsPrintable = omega arith

pub ident-IsIdent : IsIdent ident
ident-IsIdent = omega arith

pub zeros : All IsByte (replicate 82 0)
zeros = omega arith

pub config : IsConfig {F = ℕ} {W = ℕ} floats b'0' ident callbacks (param ∷ param ∷ []) []
unfolding valid_address
config = record {
  address_valid = refl;
  ident_valid = ident-IsIdent;
  sends = refl;
  read_ok = λ i w. seven-IsPrintable;
  binary_ok = tt;
  params_fit = omega arith;
  params_valid = omega arith;
  xcmds_fit = omega arith;
  xcmds_valid = tt;
}

pub sensor-IsValid : (state : State) → IsValid floats (sensor state (seven ∷ []))
sensor-IsValid state = (config, (refl, zeros), (omega arith, (seven-IsPrintable, tt)))
