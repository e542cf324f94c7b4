-- ===== src/Session.antt =====
-- A data recorder (sdi12_master.c) and a sensor (sdi12_sensor.c) on one bus.
use libsdi.Base.{ℕ, Bool, true, List, [], ◌∷◌, ◌++◌, Option, none, some, length, take, drop}
use libsdi.Protocol.{Err}
use libsdi.Sensor.Types.{Floats, Event, sent, saved, service_requested, Sensor, Run}
use libsdi.Sensor.Process.{process}
pub mod Wired
pub mod Measure
pub mod Reading
pub mod Page
pub mod Data
pub mod Whole
pub mod System
pub mod Rename
pub mod Commission
pub mod Requests
pub mod Packet
pub mod Waiting
pub mod Service
mod Examples
mod PacketExamples
mod ServiceExamples

-- The sensor, the bytes on the line that the data recorder has not received yet, and whether the
-- sensor has made an access outside an array.
pub record Wire (F V : Type 0) : Type 0 where
  pub sensor : Sensor F V
  pub incoming : List ℕ
  pub faulted : Bool

-- The bytes that the calls of a sensor put on the line.
unfoldable pub bytes_of : List Event → List ℕ
bytes_of [] = []
bytes_of (sent text ∷ events) = text ++ bytes_of events
bytes_of (saved address ∷ events) = bytes_of events
bytes_of (service_requested ∷ events) = bytes_of events

module _ {F V : Type 0} where
  unfoldable pub after_run : Wire F V → Run F V → Wire F V
  after_run wire none = record wire { faulted = true }
  after_run wire (some (e, s)) = record wire { sensor = s; incoming = bytes_of s.trace }

  -- The command, with a NUL behind it, is processed by the sensor, and its answer is on the line.
  unfoldable pub wire_send : Floats F → List ℕ → Wire F V → Wire F V
  unfolding after_run
  wire_send fl cmd wire =
      after_run wire (process fl (cmd ++ 0 ∷ []) (length cmd) (record wire.sensor { trace = [] }))

  -- As many bytes as there is room for, whatever the time-out.
  unfoldable pub wire_recv : ℕ → ℕ → Wire F V → List ℕ × Wire F V
  wire_recv room timeout wire =
      (take room wire.incoming, record wire { incoming = drop room wire.incoming })
