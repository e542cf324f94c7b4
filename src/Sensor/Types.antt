-- ===== src/Sensor/Types.antt =====
-- sdi12_sensor.h and the structures of sdi12.h: what a sensor is made of. `F` is the C type
-- `float` and `W` the world behind `user_data`, which the callbacks read and change. A NULL
-- callback is `none`, or `false` where the model only records that it is called. A character array
-- that holds a string is its text; an array with its count is the used part.
use libsdi.Base.{ℕ, Bool, List, Option}
use libsdi.Protocol.{MeasType, State, Err}

-- What the C library and the FPU do with a `float`.
pub record Floats (F : Type 0) : Type 0 where
  -- `x >= 0.0f`
  pub nonneg : F → Bool
  -- `-x`
  pub neg : F → F
  -- `%.*f` of `(double)x`, at a number of decimals
  pub print_fixed : ℕ → F → List ℕ
  -- `%lu` of `(unsigned long)x`
  pub print_trunc : F → List ℕ

-- sdi12_value_t
pub record Value (F : Type 0) : Type 0 where
  pub value : F
  pub decimals : ℕ

-- sdi12_ident_t
pub record Ident : Type 0 where
  pub vendor : List ℕ
  pub model : List ℕ
  pub firmware_version : List ℕ
  pub serial : List ℕ

-- sdi12_sensor_callbacks_t
pub record Callbacks (F W : Type 0) : Type 0 where
  pub send_response : Bool
  pub set_direction : Bool
  pub read_param : Option (ℕ → W → Value F × W)
  pub save_address : Bool
  pub load_address : Option (W → ℕ × W)
  pub start_measurement : Option (ℕ → MeasType → W → ℕ × W)
  pub service_request : Bool
  -- from the page, the cached values and the array: the count returned, and the array
  pub format_binary_page : Option (ℕ → List (Value F) → List ℕ → W → (ℕ × List ℕ) × W)

-- sdi12_param_reg_t
pub record Param : Type 0 where
  pub shef : List ℕ
  pub units : List ℕ
  pub group : ℕ
  pub decimals : ℕ
  pub active : Bool

-- sdi12_xcmd_reg_t: the handler is given what follows the `X`, and the response array.
pub record Xcmd (W : Type 0) : Type 0 where
  pub prefix : List ℕ
  pub handler : List ℕ → List ℕ → W → (Err × List ℕ) × W
  pub active : Bool

-- The calls of the callbacks that only act: send_response, save_address, service_request.
pub data Event : Type 0 where
  sent : List ℕ → Event
  saved : ℕ → Event
  service_requested : Event

-- sdi12_sensor_ctx_t, with the world and the calls made so far.
pub record Sensor (F W : Type 0) : Type 0 where
  pub address : ℕ
  pub ident : Ident
  pub cb : Callbacks F W
  pub params : List Param
  pub xcmds : List (Xcmd W)
  pub state : State
  pub pending_meas_type : MeasType
  pub pending_meas_group : ℕ
  pub crc_requested : Bool
  pub data_cache : List (Value F)
  pub data_available : Bool
  pub resp_buf : List ℕ
  pub resp_len : ℕ
  pub world : W
  pub trace : List Event

-- What a handler returns: its code and the sensor after it; `none` is an access outside an array.
abbrev pub Run : Type 0 → Type 0 → Type 0
Run F W = Option (Err × Sensor F W)
