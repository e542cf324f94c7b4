-- ===== src/Sensor/Api.antt =====
-- sdi12_sensor.c: sdi12_sensor_init, the registrations, sdi12_sensor_measurement_done and
-- sdi12_sensor_break. A NULL `ident` or `callbacks` is `none`; the context itself is not NULL.
use libsdi.Base.{
  ℕ, Bool, true, false, not, ◌||◌, List, [], ◌∷◌, ◌++◌, Option, none, some, ltb, leb, length, take,
  replicate, if◌then◌else◌, ◌>>=◌, ◌>>◌, check,
}
use libsdi.Base.Buffer.{snprintf}
use libsdi.Crc.{crlf}
use libsdi.Protocol.{
  Err, ok, err_invalid_command, err_invalid_address, err_callback_missing, err_param_limit, State,
  ready, measuring, measuring_c, data_ready, standard, max_params, max_xcmds, max_meas_groups,
  max_response_len, valid_address,
}
use libsdi.Sensor.Types.{Value, Ident, Callbacks, Param, Xcmd, Sensor, service_requested, Run}
use libsdi.Sensor.Groups.{count_group}
use libsdi.Sensor.Reply.{send_response}

unfoldable pub is_set {ℓ} : {A : Type ℓ} → Option A → Bool
is_set none = false
is_set (some a) = true

module _ {F W : Type 0} where
  -- The context of sdi12_sensor_init after the `memset` and the four assignments.
  unfoldable pub fresh : ℕ → Ident → Callbacks F W → W → Sensor F W
  fresh address ident cb w = record {
    address = address;
    ident = ident;
    cb = cb;
    params = [];
    xcmds = [];
    state = ready;
    pending_meas_type = standard;
    pending_meas_group = 0;
    crc_requested = false;
    data_cache = [];
    data_available = false;
    resp_buf = replicate max_response_len 0;
    resp_len = 0;
    world = w;
    trace = [];
  }

  unfoldable pub restore_address : Option (W → ℕ × W) → Sensor F W → Sensor F W
  restore_address none s = s
  restore_address (some load) s =
      let loaded = load s.world in
      record s {
        address = if valid_address loaded.0 then loaded.0 else s.address;
        world = loaded.1;
      }

  -- The new context, or `none` where the old one is left alone.
  unfoldable pub init : ℕ → Option Ident → Option (Callbacks F W) → W → Err × Option (Sensor F W)
  unfolding fresh restore_address
  init address none callbacks w = (err_callback_missing, none)
  init address (some ident) none w = (err_callback_missing, none)
  init address (some ident) (some cb) w =
      if not cb.send_response || (not cb.set_direction || not (is_set cb.read_param))
      then (err_callback_missing, none)
      else if not (valid_address address)
      then (err_invalid_address, none)
      else (ok, some (restore_address cb.load_address (fresh address ident cb w)))

  unfoldable pub register_param :
      ℕ → Option (List ℕ) → Option (List ℕ) → ℕ → Sensor F W → Err × Sensor F W
  register_param group none units decimals s = (err_invalid_command, s)
  register_param group (some shef) none decimals s = (err_invalid_command, s)
  register_param group (some shef) (some units) decimals s =
      if leb max_params (length s.params)
      then (err_param_limit, s)
      else if leb max_meas_groups group
      then (err_invalid_command, s)
      else let p : Param = record {
        shef = take 3 shef;
        units = take 20 units;
        group = group;
        decimals = decimals;
        active = true;
      } in
        (ok, record s { params = s.params ++ p ∷ [] })

  unfoldable pub register_xcmd :
      Option (List ℕ)
      → Option (List ℕ → List ℕ → W → (Err × List ℕ) × W)
      → Sensor F W
      → Err × Sensor F W
  register_xcmd none handler s = (err_invalid_command, s)
  register_xcmd (some prefix) none s = (err_invalid_command, s)
  register_xcmd (some prefix) (some handler) s =
      if leb max_xcmds (length s.xcmds)
      then (err_param_limit, s)
      else let x : Xcmd W = record { prefix = take 15 prefix; handler = handler; active = true } in
        (ok, record s { xcmds = s.xcmds ++ x ∷ [] })

  -- The service request of sdi12_sensor_measurement_done: the callback, or the address on the bus.
  unfoldable pub request_service : Sensor F W → Option (Sensor F W)
  request_service s =
      let shown = record s { resp_buf = snprintf s.resp_buf (s.address ∷ crlf) } in
      if s.cb.service_request
      then some (record shown { trace = s.trace ++ service_requested ∷ [] })
      else send_response shown

  unfoldable pub finish_measuring : State → Sensor F W → Run F W
  unfolding request_service
  finish_measuring measuring s = do
    s' ← request_service s
    some (ok, record s' { state = data_ready })
  finish_measuring measuring_c s = some (ok, record s { state = data_ready })
  finish_measuring _ s = some (ok, s)

  unfoldable pub measurement_done : List (Value F) → ℕ → Sensor F W → Run F W
  unfolding finish_measuring
  measurement_done values count s = do
    let n = if ltb max_params count then max_params else count
    check (leb n (length values))
    finish_measuring s.state
        (record s { data_cache = take n values; data_available = true; resp_len = 0 })

  unfoldable pub abandon : State → Sensor F W → Sensor F W
  abandon measuring s = record s { data_available = false; data_cache = [] }
  abandon measuring_c s = record s { data_available = false; data_cache = [] }
  abandon _ s = s

  -- sdi12_sensor_break
  unfoldable pub break : Sensor F W → Sensor F W
  unfolding abandon
  break s = record (abandon s.state s) { state = ready }

  unfoldable pub group_count : Sensor F W → ℕ → ℕ
  group_count s group = count_group s.params group
