-- ===== src/Session/System.antt =====
-- The system as it runs: the calls of the data recorder, those of the application of the sensor, and
-- noise on the line, in any order.
use libsdi.Base.{
  ℕ, ◌≤◌, ◌≡◌, true, false, List, [], ◌∷◌, ◌++◌, Option, none, some, All, length, take,
}
use libsdi.Base.Buffer.{byte_at, NoNul}
use libsdi.Crc.Step.{IsByte}
use libsdi.Protocol.{Err, ok}
use libsdi.Sensor.Types.{Floats, Value, Ident, Callbacks, Sensor}
use libsdi.Sensor.Api.{init, register_param, register_xcmd, measurement_done, break}
use libsdi.Sensor.Valid.{IsIdent, IsXcmd, IsPrintable, ReadOk, BinaryOk}
use libsdi.Sensor.CommandAnswers.{NumberFits}
use libsdi.Sensor.Process.{strip_bang}
use libsdi.Master.Bus.{Master}
use libsdi.Master.Setup.{master_init}
use libsdi.Master.Calls.{Call, Allowed, run_call}
use libsdi.Session.{Wire, bytes_of, wire_send, wire_recv}
pub mod Safe
mod Examples

-- A command that a sensor may be given: if it identifies a parameter, its number fits an `int`.
abbrev pub Processable : List ℕ → Type 0
Processable cmd =
    let text = cmd ++ 0 ∷ [] in
    byte_at text 1 ≡ b'I' → NumberFits text (strip_bang text (length cmd))

module _ {F V : Type 0} where
  -- The sensor after a call of its application, and what it has put on the line.
  abbrev pub on_line : Master (Wire F V) → Sensor F V → Master (Wire F V)
  on_line m s = record m {
    world = record m.world { sensor = s; incoming = m.world.incoming ++ bytes_of s.trace };
  }

  module _ (fl : Floats F) (strtod : List ℕ → F) where
    pub data Step (m m' : Master (Wire F V)) : Type 0 where
      -- A call of the data recorder.
      called :
          (call : Call) (e : Err)
          → Allowed Processable call
          → run_call strtod call m ≡ some (e, m')
          → Step m m'
      -- sdi12_sensor_measurement_done
      measured :
          (values : List (Value F)) (count : ℕ) (e : Err) (s : Sensor F V)
          → All (IsPrintable fl) values
          → count ≤ length values
          → measurement_done values count (record m.world.sensor { trace = [] }) ≡ some (e, s)
          → m' ≡ on_line m s
          → Step m m'
      -- sdi12_sensor_break
      broken :
          m' ≡ record m { world = record m.world { sensor = break m.world.sensor } } → Step m m'
      -- sdi12_sensor_register_param
      registered :
          (group decimals : ℕ) (shef units : List ℕ)
          → NoNul shef × All IsByte shef
          → NoNul units × All IsByte units
          → m' ≡ record m {
            world = record m.world {
              sensor = (register_param group (some shef) (some units) decimals m.world.sensor).1;
            };
          }
          → Step m m'
      -- sdi12_sensor_register_xcmd
      extended_by :
          (prefix : List ℕ) (handler : List ℕ → List ℕ → V → (Err × List ℕ) × V)
          → IsXcmd (record { prefix = take 15 prefix; handler = handler; active = true })
          → m' ≡ record m {
            world = record m.world {
              sensor = (register_xcmd (some prefix) (some handler) m.world.sensor).1;
            };
          }
          → Step m m'
      -- Other bytes on the line.
      noise :
          (bytes : List ℕ)
          → m' ≡ record m { world = record m.world { incoming = bytes } }
          → Step m m'

    -- The states that the system gets into from its initialisation on.
    pub data Reach : Master (Wire F V) → Type 0 where
      start :
          (address : ℕ) (ident : Ident) (cb : Callbacks F V) (v : V) (s : Sensor F V)
          (m : Master (Wire F V))
          → IsIdent ident
          → ReadOk fl cb.read_param
          → BinaryOk cb.format_binary_page
          → init address (some ident) (some cb) v ≡ (ok, some s)
          → master_init
              (some (record {
                send = some (wire_send fl);
                recv = some wire_recv;
                set_direction = true;
                send_break = true;
                delay = true;
              }))
              (record { sensor = s; incoming = []; faulted = false })
            ≡ (ok, some m)
          → Reach m
      later : {m m' : Master (Wire F V)} → Reach m → Step m m' → Reach m'
