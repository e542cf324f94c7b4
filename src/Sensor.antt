-- ===== src/Sensor.antt =====
-- sdi12_sensor.h and sdi12_sensor.c: the sensor, one module for each group of handlers.
pub mod Types
pub mod Groups
pub mod Reply
pub mod Pages
pub mod Measure
pub mod Data
pub mod Metadata
pub mod Process
pub mod Api
pub mod Valid
pub mod Answer
pub mod Counting
pub mod GroupValues
pub mod MeasureAnswers
pub mod CrcLine
pub mod PageAnswers
pub mod Placed
pub mod BinaryAnswers
pub mod Packets
pub mod DataAnswers
pub mod LineEnd
pub mod XcmdAnswers
pub mod CommandAnswers
pub mod ProcessAnswers
pub mod ApiValid
pub mod Lifecycle
pub mod PageContents
pub mod FirstPage
pub mod FullPage
pub mod Announce
pub mod Waiting
pub mod Sample
mod Examples
mod PacketExamples
