-- ===== src/Lib.antt =====
-- libsdi12, an SDI-12 library in C: the CRC engine, the sensor, the data recorder and the macros
-- around them, as a shallow embedding.
--
-- The program. sdi12.h holds the limits, the enumerations and the test of an address. sdi12_crc.c
-- computes CRC-16-IBM, appends it to a response as three characters, and verifies it. sdi12_sensor.c
-- is the sensor: the application initialises a context (sdi12_sensor_ctx_t), registers parameters and
-- extended commands, and passes every command of the bus to sdi12_sensor_process, which selects a
-- handler, formats the answer in the context's array of 82 bytes and sends it by a callback.
-- sdi12_sensor_measurement_done and sdi12_sensor_break are called by the application's interrupts.
-- sdi12_master.c is the data recorder: a command is built in a local array, sent by a callback, its
-- answer received into the context's array of 86 bytes, trimmed and parsed; binary packets are read
-- piece by piece. sdi12_easy.h wraps both in macros that build the identity and the callbacks.
--
-- The files. A name of the C code keeps its name here, without the prefix sdi12_ or sdi12_sensor_.
--   Base              shared names; Base/Buffer: character arrays, and strlen and snprintf on them;
--                     Base/Text: conversions of printf; Base/Bits: bitwise arithmetic
--   Protocol          sdi12.h
--   Crc               sdi12_crc.c, whole; proofs in Crc/Step, Crc/Encode, Crc/Detect, Crc/RoundTrip
--   Sensor/Types      the structures of sdi12_sensor.h
--   Sensor/Groups     count_group, collect_group_indices, read_group_sync
--   Sensor/Reply      send_response, handle_acknowledge, handle_identify, handle_highvol_stub
--   Sensor/Pages      format_value, format_data_page
--   Sensor/Measure    handle_measurement
--   Sensor/Data       handle_send_data, handle_send_binary_data, handle_continuous
--   Sensor/Metadata   handle_identify_measurement
--   Sensor/Process    handle_extended, handle_change_address, sdi12_sensor_process
--   Sensor/Api        sdi12_sensor_init, register_param, register_xcmd, measurement_done, break
--   Sensor/Packets    the packet of binary data, a specification of what Sensor/Data sends
--   Master/Parse      sdi12_master.c: trim_crlf, parse_digits, parse_meas_response
--   Master/Bus        send_command, recv_response, transact, send_break, acknowledge, change_address
--   Master/Setup      sdi12_master_init, query_address, identify; proofs in Master/Startup and
--                     Master/Identify
--   Master/Commands   start_measurement, verify, wait_service_request, identify_measurement; proofs in
--                     Master/Announced, and with the sensor in Master/Dispatch
--   Master/Values     parse_data_values, get_data, continuous (read_continuous); proofs in
--                     Master/Numbers and Master/Readings
--   Master/Metadata   identify_param (identify_parameter); proofs in Master/Describe
--   Master/Extended   extended, extended_multiline, get_hv_data; proofs in Master/Lines, Master/Gather
--                     and Master/Multiline
--   Master/Binary     recv_exact, get_hv_binary_data, bintype_size; proofs in Master/Stream,
--                     Master/Packets and Master/PacketRoundTrip
--   Master/Transact   the well-formed data recorder and its transactions; Master/Exchange, Master/Line,
--                     Master/Trim and Master/RoundTrip: answers of one line
--   Master/Calls      the calls of sdi12_master.h one after another; Master/Safe and the files below
--                     it: every call on any answer, and Master/Calls/Safe: every sequence of them
--   Easy              sdi12_easy.h: the SETUP macros, two measurement macros and the CRC helpers; proofs
--                     in Easy/Identity
--   Session           a data recorder and a sensor on one bus, a specification; Session/Measure,
--                     Session/Data and Session/Whole: a measurement, its data, and both in turn,
--                     from the recorder to the sensor and back; Session/Reading: what is to be
--                     read of a value; Session/Page: a page with its CRC; Session/Wired: the bus
--                     as callbacks; Session/Waiting and Session/Service: a measurement that takes
--                     its time, its service request and its data; Session/Requests and
--                     Session/Packet: pages of binary data; Session/Rename and Session/Commission:
--                     a change of address, identification and presence; Session/System: all that
--                     can happen to both, as a step relation
--   Sensor/Valid      the well-formed sensor and what is expected of the callbacks; the other files
--                     of Sensor/ hold proofs, Sensor/Sample is a sensor for the tests, and the files
--                     named Examples run the code on small inputs
--
-- How code becomes definitions. A handler takes the context and returns its code and the context
-- after it, or `none` where the C code would access memory outside an array; so a theorem that a run
-- is `some` is memory safety. An array that the code indexes is a list of bytes; a string that it
-- only reads is its text, and an array with its count is the used part. The callbacks are fields of
-- the context that read and change a world `W`; those that only act (send_response, save_address,
-- service_request) are recorded in the trace, in order. A `float` is a type `F` with its comparison,
-- its negation and its two conversions by printf as parameters (`Floats`), and strtod as another.
-- A uint8_t or uint16_t keeps its wrap (`% 2 ^ 8`, `% 2 ^ 16`), and an overflow of an int is
-- `none`. A NULL context and a NULL command are not modelled; the other NULL arguments of the
-- sensor, and callbacks that are not set, are `none`. The data recorder's send and recv are
-- functions on the world; set_direction, send_break and delay are recorded in its trace. What the
-- data recorder writes through a pointer is returned, as `none` where it is left alone. A local
-- array with a command is the string in it.
--
-- Bounds and fuel. Most loops run over a list. The digits of a number are printed with ten rounds,
-- enough for 32 bits. Three loops of the data recorder have fuel: the values of a response, where a
-- round consumes a character and the fuel is their number; recv_exact and the lines of an extended
-- response, where a round receives at least a byte and the fuel is the number of bytes that there is
-- room for. Out of fuel is `none`. The contracts of the callbacks that the theorems assume are
-- ReadOk (a value prints to at most 9 characters), BinaryOk (at most 76 bytes, which is what fits
-- beside the address, the CRC and the terminator), IsXcmd (a string behind the address), IsMaster
-- (recv writes no more than the room it is told) and IsStream (recv hands out the bytes that are to
-- come in their order, at least one if there is one).
--
-- Not modelled: the macros of sdi12_easy.h that only declare variables or rename a call, the values
-- that the handlers of the application compute, timing on the wire, and the examples, tests and
-- packaging.
pub mod Base
pub mod Protocol
pub mod Crc
pub mod Sensor
pub mod Master
pub mod Easy
pub mod Session
