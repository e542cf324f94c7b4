-- ===== src/Master.antt =====
-- sdi12_master.c: the data recorder, its transactions and its parser of measurement announcements.
pub mod Parse
pub mod Bus
pub mod Transact
pub mod Safe
pub mod Setup
pub mod Startup
pub mod Commands
pub mod Values
pub mod Metadata
pub mod Extended
pub mod Calls
pub mod Binary
pub mod Exchange
pub mod Trim
pub mod Line
pub mod Service
pub mod Announced
pub mod Dispatch
pub mod Numbers
pub mod Readings
pub mod Describe
pub mod Lines
pub mod Gather
pub mod Multiline
pub mod Stream
pub mod Packets
pub mod PacketRoundTrip
pub mod Identify
pub mod RoundTrip
mod Examples
mod AnswerExamples
mod StreamExamples
