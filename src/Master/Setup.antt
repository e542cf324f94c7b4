-- ===== src/Master/Setup.antt =====
-- sdi12_master.c: sdi12_master_init, sdi12_master_query_address and sdi12_master_identify. The
-- pointers that the functions are given to write through are not NULL.
use libsdi.Base.{
  ℕ, ◌+◌, ◌-◌, Bool, true, false, not, ◌&&◌, List, [], ◌∷◌, Option, none, some, ltb, leb, min, take,
  drop, replicate, if◌then◌else◌, ◌>>=◌,
}
use libsdi.Base.Buffer.{byte_at}
use libsdi.Protocol.{
  Err, ok, err_invalid_address, err_invalid_command, err_callback_missing, valid_address,
}
use libsdi.Sensor.Types.{Ident}
use libsdi.Master.Parse.{trim_crlf}
use libsdi.Master.Bus.{Master, cmd_max_chars, response_timeout_ms, transact}

-- SDI12_ID_VENDOR_LEN, SDI12_ID_MODEL_LEN, SDI12_ID_FWVER_LEN, SDI12_ID_SERIAL_MAXLEN
abbrev pub id_vendor_len : ℕ
id_vendor_len = 8

abbrev pub id_model_len : ℕ
id_model_len = 6

abbrev pub id_fwver_len : ℕ
id_fwver_len = 3

abbrev pub id_serial_maxlen : ℕ
id_serial_maxlen = 13

-- sdi12_master_callbacks_t: of the callbacks that only act, whether they are set.
pub record MasterCallbacks (W : Type 0) : Type 0 where
  pub send : Option (List ℕ → W → W)
  pub recv : Option (ℕ → ℕ → W → List ℕ × W)
  pub set_direction : Bool
  pub send_break : Bool
  pub delay : Bool

module _ {W : Type 0} where
  -- The context after the `memset` and the copy of the callbacks.
  unfoldable pub fresh_master : (List ℕ → W → W) → (ℕ → ℕ → W → List ℕ × W) → W → Master W
  fresh_master send recv w = record {
    send = send;
    recv = recv;
    cmd_buf = replicate (cmd_max_chars + 4) 0;
    resp_buf = replicate 86 0;
    resp_len = 0;
    world = w;
    trace = [];
  }

  unfoldable pub init_bound :
      Option (List ℕ → W → W) → Option (ℕ → ℕ → W → List ℕ × W) → Bool → W → Err × Option (Master W)
  init_bound (some send) (some recv) true w = (ok, some (fresh_master send recv w))
  init_bound (some send) (some recv) false w = (err_callback_missing, none)
  init_bound (some send) none others w = (err_callback_missing, none)
  init_bound none recv others w = (err_callback_missing, none)

  -- sdi12_master_init: the code, and the new context, or `none` where the old one is left alone.
  unfoldable pub master_init : Option (MasterCallbacks W) → W → Err × Option (Master W)
  master_init none w = (err_callback_missing, none)
  master_init (some cb) w =
      init_bound cb.send cb.recv (cb.set_direction && (cb.send_break && cb.delay)) w

  unfoldable pub queried : Err × Master W → Option ((Err × Option ℕ) × Master W)
  queried (ok, m) = do
    trimmed ← trim_crlf m.resp_buf m.resp_len
    let m' = record m { resp_buf = trimmed.0 }
    let first = byte_at trimmed.0 0
    some (
        if leb 1 trimmed.1 && valid_address first
        then ((ok, some first), m')
        else ((err_invalid_address, none), m'))
  queried (err, m) = some ((err, none), m)

  -- sdi12_master_query_address: the code, and `*addr` where it is written.
  unfoldable pub query_address : Master W → Option ((Err × Option ℕ) × Master W)
  query_address m = transact (b'?' ∷ b'!' ∷ []) response_timeout_ms m >>= queried

-- The fields of an identification of `len` bytes. A field holds its text, without the NUL behind it.
unfoldable pub parse_ident : List ℕ → ℕ → Ident
parse_ident buf len = record {
  vendor = take id_vendor_len (drop 3 buf);
  model = take id_model_len (drop 11 buf);
  firmware_version = take id_fwver_len (drop 17 buf);
  serial = if ltb 20 len then take (min (len - 20) id_serial_maxlen) (drop 20 buf) else [];
}

module _ {W : Type 0} where
  unfoldable pub identified : Err × Master W → Option ((Err × Option Ident) × Master W)
  unfolding parse_ident
  identified (ok, m) = do
    trimmed ← trim_crlf m.resp_buf m.resp_len
    let m' = record m { resp_buf = trimmed.0 }
    some (
        if ltb trimmed.1 20
        then ((err_invalid_command, none), m')
        else ((ok, some (parse_ident trimmed.0 trimmed.1)), m'))
  identified (err, m) = some ((err, none), m)

  -- sdi12_master_identify: the code, and `*ident` where it is written.
  unfoldable pub identify : ℕ → Master W → Option ((Err × Option Ident) × Master W)
  identify addr m =
      if not (valid_address addr)
      then some ((err_invalid_address, none), m)
      else transact (addr ∷ b'I' ∷ b'!' ∷ []) response_timeout_ms m >>= identified
