-- ===== src/Easy.antt =====
-- sdi12_easy.h: the macros that set a sensor and a data recorder up, and the CRC helpers. The
-- variables that a DEFINE macro declares are the arguments of the SETUP macro. The other macros
-- are calls of the functions of the same name.
use libsdi.Base.{
  ℕ, ◌+◌, Bool, true, false, List, [], ◌∷◌, ◌++◌, Option, none, some, ◌==◌, length, take, replicate,
  if◌then◌else◌, ◌>>=◌,
}
use libsdi.Base.Buffer.{overwrite, strlen}
use libsdi.Crc.{crc_append, crc_verify}
use libsdi.Protocol.{Err, standard}
use libsdi.Sensor.Types.{Value, Ident, Callbacks, Sensor}
use libsdi.Sensor.Api.{init}
use libsdi.Master.Parse.{MeasResponse}
use libsdi.Master.Bus.{Master}
use libsdi.Master.Setup.{id_vendor_len, id_model_len, id_fwver_len, id_serial_maxlen, master_init}
use libsdi.Master.Commands.{start_measurement}
pub mod Identity
mod Examples

-- The string in an array: what stands in front of the first NUL.
unfoldable pub c_string : List ℕ → List ℕ
c_string [] = []
c_string (c ∷ cs) = let rest = c_string cs in if c == 0 then [] else c ∷ rest

-- An array of `len + 1` spaces that is ended by a NUL, with a text copied in front.
unfoldable pub padded_field : ℕ → List ℕ → List ℕ
padded_field len text =
    let spaces = overwrite (replicate (len + 1) b' ') len (0 ∷ []) in
    overwrite spaces 0 (take len text)

-- The array of the serial number: strncpy fills what the text leaves with NULs.
unfoldable pub serial_field : List ℕ → List ℕ
serial_field serial =
    let spaces = overwrite (replicate (id_serial_maxlen + 1) b' ') 0 (0 ∷ []) in
    let copied = take id_serial_maxlen (serial ++ replicate id_serial_maxlen 0) in
    overwrite (overwrite spaces 0 copied) id_serial_maxlen (0 ∷ [])

-- The identity that the SETUP macros build.
unfoldable pub easy_ident : List ℕ → List ℕ → List ℕ → List ℕ → Ident
unfolding c_string padded_field serial_field
easy_ident vendor model fwver serial = record {
  vendor = c_string (padded_field id_vendor_len vendor);
  model = c_string (padded_field id_model_len model);
  firmware_version = c_string (padded_field id_fwver_len fwver);
  serial = c_string (serial_field serial);
}

module _ {F W : Type 0} where
  -- The callbacks that SDI12_SENSOR_SETUP sets.
  unfoldable pub easy_callbacks : Bool → Bool → Option (ℕ → W → Value F × W) → Callbacks F W
  easy_callbacks send dir read = record {
    send_response = send;
    set_direction = dir;
    read_param = read;
    save_address = false;
    load_address = none;
    start_measurement = none;
    service_request = false;
    format_binary_page = none;
  }

  -- SDI12_SENSOR_SETUP
  unfoldable pub sensor_setup :
      ℕ
      → List ℕ
      → List ℕ
      → List ℕ
      → List ℕ
      → Bool
      → Bool
      → Option (ℕ → W → Value F × W)
      → W
      → Err × Option (Sensor F W)
  unfolding easy_ident easy_callbacks
  sensor_setup addr vendor model fwver serial send dir read w =
      init addr (some (easy_ident vendor model fwver serial)) (some (easy_callbacks send dir read))
        w

  -- SDI12_SENSOR_SETUP_WITH_STORAGE
  unfoldable pub sensor_setup_with_storage :
      ℕ
      → List ℕ
      → List ℕ
      → List ℕ
      → List ℕ
      → Bool
      → Bool
      → Option (ℕ → W → Value F × W)
      → Bool
      → Option (W → ℕ × W)
      → W
      → Err × Option (Sensor F W)
  unfolding easy_ident easy_callbacks
  sensor_setup_with_storage addr vendor model fwver serial send dir read save load w =
      let cb = record (easy_callbacks send dir read) { save_address = save; load_address = load } in
      init addr (some (easy_ident vendor model fwver serial)) (some cb) w

module _ {W : Type 0} where
  -- SDI12_MASTER_SETUP
  unfoldable pub master_setup :
      Option (List ℕ → W → W)
      → Option (ℕ → ℕ → W → List ℕ × W)
      → Bool
      → Bool
      → Bool
      → W
      → Err × Option (Master W)
  master_setup send recv dir brk dly w =
      master_init
        (some
          (record { send = send; recv = recv; set_direction = dir; send_break = brk; delay = dly }))
        w

  -- SDI12_MASTER_MEASURE and SDI12_MASTER_MEASURE_CRC
  unfoldable pub easy_measure : ℕ → Master W → Option ((Err × Option MeasResponse) × Master W)
  easy_measure addr m = start_measurement addr standard 0 false m

  unfoldable pub easy_measure_crc : ℕ → Master W → Option ((Err × Option MeasResponse) × Master W)
  easy_measure_crc addr m = start_measurement addr standard 0 true m

-- SDI12_CRC_APPEND on an array, whose `sizeof` is its length.
unfoldable pub easy_crc_append : List ℕ → Option (Err × List ℕ)
easy_crc_append buf = crc_append buf (length buf)

-- SDI12_CRC_VERIFY
unfoldable pub easy_crc_verify : List ℕ → Option Bool
easy_crc_verify buf = do len ← strlen buf; some (crc_verify buf len)
