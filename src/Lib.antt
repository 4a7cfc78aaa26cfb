-- ===== src/Lib.antt =====
-- Mesh Chat: an engine (core/), which opens a room on a transport, lets the host approve joiners, and
-- links every pair of members directly, with chat and files on the links, and its window (ui/).
--
-- Parts, files and the source they are about:
-- Error: core/src/lib.rs. The error type, its messages, results.
-- Text, RoomCode: core/src/roomcode.rs. Texts are lists of code points; Text has what the source uses
--   of Rust's chars, strings and numbers.
-- Transport: core/src/transport/mod.rs. Transport.Bluetooth has the text forms of addresses and
--   Transport.Rfcomm the sockets of core/src/transport/bluetooth_windows.rs, Transport.Lan those of
--   core/src/transport/lan.rs. What the operating system answers is a record of functions.
-- Codec: core/src/codec.rs. A stream is the list of what its calls will meet (Codec.Stream).
-- RateLimit: core/src/ratelimit.rs. Instants are milliseconds; the clock is an argument.
-- Protocol: core/src/protocol.rs. The JSON form of a message is an interface (`Json`) with the
--   round trip that serde_json documents; random bytes, the clock and the local time are arguments.
-- Names: sanitize_name and normalize_code of core/src/mesh.rs, safe_file_name of core/src/files.rs.
-- Crypto: core/src/crypto.rs. The Noise library is an interface (`Noise`) with states for the handshake
--   and the cipher; what theorems need of it are the laws `Paired` and `Agrees`. A call ends with
--   `none` only if the fuel of Codec ran out, which Codec.Writing and Codec.Frames exclude.
-- History: core/src/history.rs. The date formatter, the JSON writer and the disk are arguments.
-- Node: `State`, `Node` and `Event` of core/src/mesh.rs and the state of core/src/files.rs, as one
--   record. A handler is a function of the node, and a fallible one returns its result with the node.
--   What a node does to the outside (events, payloads for a link, closed links, started threads) is
--   appended to its log `out`. The outside is `Env`: what links and the disk answer, the digest and
--   the size texts.
-- Files: core/src/files.rs, incoming transfers; Files.Answering has the user's answer to an offer,
--   Files.Outgoing what a sender prepares, Files.Streaming the sender's thread. Mesh.Transfer follows a
--   file from that thread to the recipient's disk.
-- Mesh: core/src/mesh.rs. Mesh.Rooms has host, join and await_welcome, Mesh.Rooms.Attempts
--   dialling; Mesh.Admission has inbound calls, Mesh.Admission.Answering approval, Mesh.Accepting the accepting thread; Mesh itself has the links that are up, chat and teardown.
-- Ui: ui/src/main.rs. The shared state and the window's properties are one record; Ui.Rows has the
--   list models, Ui.Events the events, Ui.Pump the timer, Ui.Callbacks the callbacks, Ui.Session any
--   sequence of all these. Dialogs, clipboard and the display of times and sizes are arguments.
-- Samples: values for the runs, which each part has in its Runs file.
--
-- How they interact: Mesh calls RoomCode for codes, RateLimit for inbound calls, Protocol for each
-- payload, History for the transcript and Files for messages about files; Files and Mesh send through
-- Node. A handler that waits (for a reply, the roster or the next read of a file) takes what the other
-- threads do meanwhile as functions of the node, and Mesh.Reachable puts all of them together: a run
-- is any sequence of handlers, with runs in their waits. Ui calls the node and takes the events that
-- the node told from a queue; its worker threads answer through a second queue.
--
-- Bounds and fuel: read_loop and write_loop run on fuel, one more than the entries of the stream, and
-- every round but the last takes an entry, so this fuel is enough. Other loops recurse on their
-- lists. Counters of u64 and u32 in a transfer wrap; the number of join requests is not bounded, since
-- 2^64 of them are not made. A handler is one step between its waits: the source's locks are held for
-- less, but each of its critical sections is a part of such a step.
--
-- Not modelled: the operating system's part of a socket (the bytes of a stream are Codec.Stream's),
-- human_size (floating point), the layout of the window (ui/ui/app.slint; its declared properties and
-- rows are in Ui), and the build files. A progress is the exact quotient in place of a float. Locks
-- are never poisoned in the model.
pub mod Prelude
pub mod Error
pub mod Text
pub mod Transport
pub mod Ui
pub mod Codec
pub mod Crypto
pub mod RateLimit
pub mod RoomCode
pub mod Protocol
pub mod Names
pub mod History
pub mod Node
pub mod Files
pub mod Mesh
pub mod Samples
