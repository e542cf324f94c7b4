-- ===== src/Session/PacketExamples.antt =====
-- The sample sensor `0` with binary data.
use libsdi.Base.{
  ℕ, ◌∷◌, ◌≡◌, List, [], refl, true, false, some, arith, length-drop, drop, replicate, All-drop,
}
use libsdi.Base.Buffer.{byte_at}
use libsdi.Crc.Step.{IsByte}
use libsdi.Protocol.{ready}
use libsdi.Sensor.Types.{Value, Sensor}
use libsdi.Sensor.Data.{tmpbuf_of}
use libsdi.Sensor.BinaryAnswers.{byte_at-IsByte}
use libsdi.Sensor.Valid.{BinaryOk, IsValid}
use libsdi.Sensor.Sample.{floats, seven, callbacks, sensor, sensor-IsValid}
use libsdi.Master.Bus.{Master}
use libsdi.Master.Binary.{BinaryOut, get_hv_binary_data}
use libsdi.Master.Packets.{verdict}
use libsdi.Session.Wired.{IsWired}
use libsdi.Session.Packet.{packet_session}
use libsdi.Session.{Wire, wire_send, wire_recv}

-- The type 1, and the bytes 1 and 2.
abbrev two_bytes : ℕ → List (Value ℕ) → List ℕ → ℕ → (ℕ × List ℕ) × ℕ
two_bytes page values buf w = ((3, byte_at buf 0 ∷ 1 ∷ 1 ∷ 2 ∷ drop 4 buf), w)

two_bytes-BinaryOk : BinaryOk (some two_bytes)
two_bytes-BinaryOk page values buf w (size, bytes) = (
  omega arith,
  (
    omega (arith, length-drop 4 buf, size),
    (
      byte_at-IsByte 0 buf bytes,
      (omega arith, (omega arith, (omega arith, All-drop IsByte 4 buf bytes))),
    ),
  ),
  refl,
)

abbrev binary_sensor : Sensor ℕ ℕ
binary_sensor = record (sensor ready (seven ∷ [])) {
  cb = record callbacks { format_binary_page = some two_bytes };
}

binary_sensor-IsValid : IsValid floats binary_sensor
binary_sensor-IsValid =
    let (config, buffer, cache) = sensor-IsValid ready in
    (
      record {
        address_valid = config.address_valid;
        ident_valid = config.ident_valid;
        sends = refl;
        read_ok = config.read_ok;
        binary_ok = two_bytes-BinaryOk;
        params_fit = config.params_fit;
        params_valid = config.params_valid;
        xcmds_fit = config.xcmds_fit;
        xcmds_valid = tt;
      },
      buffer,
      cache,
    )

abbrev recorder : Master (Wire ℕ ℕ)
recorder = record {
  send = wire_send floats;
  recv = wire_recv;
  cmd_buf = replicate 24 0;
  resp_buf = replicate 86 0;
  resp_len = 0;
  world = record { sensor = binary_sensor; incoming = []; faulted = false };
  trace = [];
}

recorder-IsWired : IsWired floats recorder
recorder-IsWired = record { sends = refl; receives = refl; commands = refl; responses = refl }

abbrev memory : BinaryOut
memory = record { out_type = 0; out_payload = replicate 75 0; out_len = 75 }

packet_session_example :
    (m' : Master (Wire ℕ ℕ)) × (m'.world.incoming ≡ [])
    × (get_hv_binary_data b'0' 12 memory recorder ≡ some (verdict true 1 (1 ∷ 2 ∷ []) memory, m'))
unfolding tmpbuf_of
packet_session_example =
    packet_session floats recorder 12 two_bytes memory recorder-IsWired (omega arith)
      binary_sensor-IsValid (λ e. cc) refl refl (omega arith) (omega arith)
