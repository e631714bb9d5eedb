-- ===== src/Lib.antt =====
-- sartoriuslib: a driver for Sartorius balances over a serial port. A balance speaks one of two protocols: xBPI, binary
-- frames with a length byte and a checksum, or SBI, lines of ASCII text that may also arrive unasked (autoprint). A
-- session (devices/session.py) owns the client of the active protocol; a command passes the gates of the session, is
-- encoded by its variant for that protocol, goes through the protocol's client to the transport, and its reply is
-- validated and decoded on the way back. All paths below are under src/sartoriuslib/.
--
-- What models what:
--   Prelude/, Errors/      numbers, lists, bytes, dictionaries; the exception classes of errors.py by their bases, results,
--                          and actions, which return a result and the state that is left, also beside an error
--   Registry/Units         registry/units.py
--   Registry/Modes, Registry/Parameters   registry/modes.py and registry/parameters.py
--   Xbpi/Types             protocol/xbpi/types.py
--   Xbpi/Framing           protocol/xbpi/framing.py: `checksum`, `build_command`, `parse_frame`
--   Xbpi/Tlv               protocol/xbpi/tlv.py: `encode_tlv`, `decode_tlv`, `parse_tlv_sequence`
--   Xbpi/Tables, Xbpi/Units, Xbpi/Parser   protocol/xbpi/tables.py, units.py and parser.py, with the same function names
--   Xbpi/Client            protocol/xbpi/client.py: `execute` over any transport
--   Transport              transport/base.py as a record of operations, with the law that `read_exact` returns as many
--                          bytes as were asked for
--   Transport/Fake         transport/fake.py, each operation on the record of its fields; it fills the interface
--   Sbi/Types, Sbi/Lines   protocol/sbi/types.py, framing.py, and `parse_reply` of parser.py
--   Sbi/Client             protocol/sbi/client.py: the queue of pending lines, sniffing and exchanges
--   Devices                commands/base.py, devices/capability.py, devices/kind.py, protocol/base.py
--   Devices/Session        devices/session.py: the state and its changes; Gates, Dispatch, Cache and Raw hold the gates,
--                          the execution of a command over either protocol, `cached_execute`, and the raw calls
--   Devices/Balance        devices/balance.py: `configure_protocol` with its rollback; Writes holds the calls that change the
--                          device for good, Parameters the table of parameters; Devices/Models is devices/models.py
--   Commands               commands/: tare.py and system.py, and in Parameters, Readings, Records and Identity the others
--   Manager                manager.py: the registry of balances; Ports opens a balance on a shared port and releases ports,
--                          Lifecycle is `add`, `remove` and `close`, Dispatch the concurrent `_dispatch` as a step relation
--   Detect                 protocol/detect.py: `detect_protocol` with its sniff and its two probes
--   Streaming              streaming/sample.py and what a source of polls returns; Streaming/Recorder is recorder.py, Streaming/
--                          PollSource poll_source.py, Streaming/Session stream_session.py
--   Sinks                  sinks/: Rows is `sample_to_row` with `as_dict` of devices/models.py, Schema is _schema.py, Pipe the
--                          interface of a sink and `pipe`, and Memory, Csv and Jsonl the sinks of these names
--   Examples               concrete runs
-- A child module named for a fact holds the theorems on its parent.
--
-- Conventions. A byte is a number; where a fact needs numbers below 256 it says so. A Python `int` that may be negative is
-- a ℤ. Objects are records, and a method that changes one takes and returns it; a session and its transport are one
-- state, `Link`, since both clients hold the same transport. A client holds its lock over each exchange, so an exchange is one
-- action; a session holds none, and where an operation has several exchanges (`cached_execute` reads the counter and then
-- runs the command), the model is of calls between which no other caller comes. An exception is its class; messages and contexts are left out, but for the results of a poll in Streaming, which
-- carry the message and the protocol that a row shows.
--
-- Fuel and bounds. `parse_tlv_sequence` runs on fuel, one round for each byte and one more: each round but the last passes
-- a tag and a value, and the loop returns on every body. Loops that end by the clock (`detect_autoprint`,
-- `refresh_autoprint_state`, `read_sbi_autoprint_reading`, the sniff of `detect_protocol`) take the number of rounds that
-- start before the deadline, and the theorems hold for every number. The recorder runs on a list of rounds, each with what
-- the clocks show, what the poll returns and what the consumer takes; a finite run with more rounds than slots ends.
--
-- Not modelled: time, but for the ticks of the recorder's clock; the package anyserial with the serial transport,
-- which clients use through the interface; the regular expressions of the SBI line parser, a parameter `SbiCodec` of
-- the clients that use it; the texts that identify a balance, and the other calls of the facade; the aliases of units
-- and modes; the sinks that call a database package; the rounding of floats, and the cancellation of a recording;
-- discovery, the synchronous facade and the command line.
pub mod Prelude
pub mod Errors
pub mod Commands
pub mod Manager
pub mod Registry
pub mod Xbpi
pub mod Transport
pub mod Sbi
pub mod Sinks
pub mod Streaming
pub mod Devices
pub mod Detect
pub mod Examples
