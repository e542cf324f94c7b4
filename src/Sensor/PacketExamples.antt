-- ===== src/Sensor/PacketExamples.antt =====
-- sdi12_sensor.c on a sensor that sends two bytes of type 2 in a binary packet.
use libsdi.Base.{ℕ, ◌≡◌, refl, List, [], ◌∷◌, some, arith}
use libsdi.Base.Buffer.{overwrite}
use libsdi.Protocol.{ok, ready}
use libsdi.Sensor.Types.{Value, Sensor, sent}
use libsdi.Sensor.Valid.{IsConfig, IsValid, BinaryOk}
use libsdi.Sensor.CrcLine.{overwrite-IsBuffer}
use libsdi.Sensor.Data.{tmpbuf_of, handle_send_binary_data}
use libsdi.Sensor.Packets.{packet, handle_send_binary_data-sends}
use libsdi.Sensor.Sample.{
  floats, seven, ident, callbacks, param, sensor, config, zeros, seven-IsPrintable,
}

abbrev format : ℕ → List (Value ℕ) → List ℕ → ℕ → (ℕ × List ℕ) × ℕ
format page vs buf w = ((3, overwrite buf 1 (2 ∷ 7 ∷ 9 ∷ [])), w)

format-BinaryOk : BinaryOk {F = ℕ} (some format)
format-BinaryOk page vs [] w b = absurd (omega (arith, b.0))
format-BinaryOk page vs (x ∷ buf) w b = (
  omega arith,
  overwrite-IsBuffer (x ∷ buf) (2 ∷ 7 ∷ 9 ∷ []) 1 b (omega arith) (omega (arith, b.0)),
  refl,
)

abbrev binary_sensor : Sensor ℕ ℕ
binary_sensor = record (sensor ready (seven ∷ [])) {
  cb = record callbacks { format_binary_page = some format };
}

binary_sensor-IsValid : IsValid floats binary_sensor
binary_sensor-IsValid =
    let binary : IsConfig floats b'0' ident binary_sensor.cb (param ∷ param ∷ []) [] = record {
      address_valid = config.address_valid;
      ident_valid = config.ident_valid;
      sends = refl;
      read_ok = config.read_ok;
      binary_ok = format-BinaryOk;
      params_fit = config.params_fit;
      params_valid = config.params_valid;
      xcmds_fit = config.xcmds_fit;
      xcmds_valid = tt;
    } in
    (binary, (refl, zeros), (omega arith, (seven-IsPrintable, tt)))

handle_send_binary_data-sends_example :
    (s' : Sensor ℕ ℕ) × (handle_send_binary_data 0 binary_sensor ≡ some (ok, s'))
    × (s'.trace ≡ sent (packet b'0' 2 (7 ∷ 9 ∷ [])) ∷ [])
unfolding tmpbuf_of
handle_send_binary_data-sends_example =
    handle_send_binary_data-sends floats 0 binary_sensor binary_sensor-IsValid
