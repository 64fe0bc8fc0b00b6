-- ===== src/Lib.antt =====
-- Verification of lavalink-rs, a Lavalink v4 server: the track codec, the audio ring with its
-- position and statistics, the HTTP reader behind it, the outbound message queue, the state of a
-- player with its actor, and the sessions with their registry.
--
-- A client stores encoded tracks (crates/protocol/src/encoded_track.rs), written with the Java
-- primitives of crates/protocol/src/java_io.rs, and sends them back. A pump decodes a track into the
-- ring of crates/server/src/audio/ring.rs, from which the voice mixer reads bytes every 20 ms; the
-- reading side advances the position that clients see and counts the frames sent and missed. A
-- player's actor keeps its state in a `PlayerModel`, answers requests, engine reports and voice
-- updates one at a time, and sends its events to the `Sink` of its session. A session that is cut off
-- waits in the registry with its sink held back until it is claimed or swept.
--
-- Files:
-- Prelude: the shared names, tests and list lemmas; Prelude/Int has the signed machine integers
--   with their wrap-around, Prelude/Bits the bit fields, and Prelude/Assoc maps as lists of entries.
-- Outcome: Rust's `Result`, with a third case for code that would panic or for fuel that
--   has run out. Unicode: `str` as a list
--   of scalar values, and UTF-16.
-- ModifiedUtf8 and JavaIo: crates/protocol/src/java_io.rs. `DataInput` is the bytes and an offset,
--   `DataOutput` the bytes; every operation has its function's name (`take` is `take_bytes`).
-- EncodedTrack: crates/protocol/src/encoded_track.rs. The base64 crate is a parameter, with the
--   round trip that its documentation promises.
-- FrameCounters and Ring: crates/server/src/audio/ring.rs. One state holds what the lock and the
--   atomics hold, one function is one critical section, and sequences of calls of both ends stand
--   for the interleavings. The clock is an argument, and so is the place where a `VecDeque` splits
--   its contents. Samples are bit patterns, since the ring only moves them.
-- Sink: crates/server/src/sink.rs with `Message` of crates/protocol/src/message.rs, the outbound
--   queue of one session. The state is `Inner`; `close` is `close_sink`. The `BTreeMap` is a list in
--   the order of its keys. Queue is about the essential lane, Coalesce about the snapshots, Delivery
--   about messages sent in a row.
-- PlayerModel: crates/server/src/player/state.rs with the wire types of
--   crates/protocol/src/player.rs, what the actor of one player knows.
-- Omissible and Event: crates/protocol/src/omissible.rs, and the events of
--   crates/protocol/src/message.rs with `Exception` of crates/protocol/src/load_result.rs.
-- Actor: crates/server/src/player/actor.rs with the engine's interface of
--   crates/server/src/audio/mod.rs. `Actor` is `PlayerActor`, with the calls of the engine and the
--   messages for the sink as lists; Patch has `apply_patch` by its parts, Arms the other handlers
--   and `run` as a function of the list of what `select!` found ready. History says which messages
--   a client may get in which order, Settled, SettledPatch, SettledRun and Run what the turns keep,
--   Generations and Stale which engine generations are heard, Reports, NoReplace and Delivery what
--   single requests and reports come to.
-- Session: crates/server/src/session.rs. Session.antt has `Session`, Registry `SessionRegistry`;
--   `open` is `open_session`, `get`, `state`, `all`, `voice` and `destroy` are `get_session`,
--   `state_of`, `all_sessions`, `voice_of` and `destroy_session`. Keys and Prelude/Assoc are about the
--   maps, Resume, Waiting, Sweep, Fresh and Players about single operations, Lifecycle, Invariant and
--   Reachable about the registry through any number of them. The outbound queues are those of Sink,
--   and the candidates for an id, the clock and `Instant::checked_add` are arguments.
-- Stream: the HTTP reader of crates/server/src/audio/stream.rs. Stream.antt has the reader of one
--   response and `connect`, Read has `read` (`source_read`) and `seek` (`source_seek`). The network is
--   a parameter: what is answered to each request, and what each reading of the interrupt flag gives. Contiguous,
--   Faithful, Reads and Calls are about the bytes that come out, Ends about the loops.
--
-- Every function is structurally recursive. Only `source_read` and its inner loop `retry` have fuel:
-- three reconnects in a row are allowed, so five iterations are enough. Integers are natural numbers
-- with the wrap-around written out; `usize` is taken as 64 bits and only the frame counters come near
-- it.
-- Not modelled: audio decoding, filters and resampling (floating point), the network sources
-- but for the HTTP reader, the HTTP and WebSocket servers and the voice driver, which are calls of third-party crates for the
-- most part.
pub mod Prelude
pub mod Outcome
pub mod Unicode
pub mod ModifiedUtf8
pub mod JavaIo
pub mod EncodedTrack
pub mod FrameCounters
pub mod Ring
pub mod Sink
pub mod PlayerModel
pub mod Event
pub mod Omissible
pub mod Actor
pub mod Session
pub mod Stream
