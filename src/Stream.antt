-- ===== src/Stream.antt =====
-- The HTTP reader with reconnects: `HttpMediaSource` of crates/server/src/audio/stream.rs, with
-- `accepts_ranges` of crates/server/src/audio/source/http.rs. The network is a parameter: what the
-- server answers to the n-th request, and what the n-th reading of the interrupt flag gives.
-- The texts of errors are left out, and what `total_length` reads from the headers is a field of the
-- response.
pub mod Read
pub mod Contiguous
pub mod Faithful
pub mod Reads
pub mod Calls
pub mod Ends
mod Tests
use lavalink_rs.Outcome.{ok, err, Outcome}
use lavalink_rs.Prelude.{
  ℕ, ◌+◌, ◌-◌, ◌%◌, ◌^◌, min, Bool, false, not, ◌&&◌, ◌||◌, Option, none, some, List, [], ◌∷◌, ltb,
  leb, ◌==◌, if◌then◌else◌, length, take, drop,
}

-- What the body of a response gives, with the time at which it does; then the body ends.
pub data Chunk : Type 0 where
  chunk : List ℕ → ℕ → Chunk
  chunk_error : Chunk

pub record Response : Type 0 where
  pub status : ℕ
  pub accept_bytes : Bool
  pub total_length : Option ℕ
  pub chunks : List Chunk
  pub arrived : ℕ

pub record Network : Type 0 where
  pub respond : ℕ → ℕ → Option Response
  pub is_interrupted : ℕ → Bool

pub data SourceError : Type 0 where
  not_found : SourceError
  unplayable : SourceError
  remote : ℕ → SourceError
  io_failure : SourceError
  internal : SourceError

pub data ReadError : Type 0 where
  stalled : ReadError
  body_failed : ReadError
  command_pending : ReadError
  reconnect_failed : SourceError → ReadError
  unsupported : ReadError

pub record ResponseReader : Type 0 where
  pub rest : List Chunk
  pub leftover : List ℕ
  pub leftover_pos : ℕ
  pub window_bytes : ℕ
  pub window_start : ℕ

-- `requests` counts the requests that were made, and `flag_reads` how often the interrupt flag was
-- read.
pub record HttpMediaSource : Type 0 where
  pub length_known : Option ℕ
  pub seekable : Bool
  pub position : ℕ
  pub reader : Option ResponseReader
  pub reconnect_attempts : ℕ
  pub read_timeout : ℕ
  pub requests : ℕ
  pub flag_reads : ℕ

abbrev pub max_reconnect_attempts : ℕ
max_reconnect_attempts = 3

abbrev pub min_window_bytes : ℕ
min_window_bytes = 256

unfoldable pub new_reader : Response → ResponseReader
new_reader response = record {
  rest = response.chunks;
  leftover = [];
  leftover_pos = 0;
  window_bytes = 0;
  window_start = response.arrived;
}

-- The end of `read`: from what was received.
unfoldable pub hand_out : ℕ → ResponseReader → Outcome ReadError (List ℕ) × ResponseReader
hand_out size r =
    let available = drop r.leftover_pos r.leftover in
    let n = min (length available) size in
    (ok (take n available), record r { leftover_pos = r.leftover_pos + n })

-- The floor under the throughput, once a chunk is in.
unfoldable pub check_window :
    ℕ → ℕ → ℕ → ResponseReader → Outcome ReadError (List ℕ) × ResponseReader
unfolding hand_out
check_window size timeout now r =
    if ltb (now - r.window_start) timeout
    then hand_out size r
    else if ltb r.window_bytes min_window_bytes
    then (err stalled, r)
    else hand_out size (record r { window_start = now; window_bytes = 0 })

unfoldable pub next_chunk :
    ℕ → ℕ → List Chunk → ResponseReader → Outcome ReadError (List ℕ) × ResponseReader
unfolding check_window
next_chunk size timeout [] r = (ok [], r)
next_chunk size timeout (chunk_error ∷ cs) r = (err body_failed, record r { rest = cs })
next_chunk size timeout (chunk bytes now ∷ cs) r = check_window size timeout now (record r {
  rest = cs;
  leftover = bytes;
  leftover_pos = 0;
  window_bytes = (r.window_bytes + length bytes) % 2 ^ 64;
})

unfoldable pub reader_read : ℕ → ℕ → ResponseReader → Outcome ReadError (List ℕ) × ResponseReader
unfolding next_chunk hand_out
reader_read size timeout r =
    if leb (length r.leftover) r.leftover_pos
    then next_chunk size timeout r.rest r
    else hand_out size r

-- `StatusCode::is_success`.
unfoldable pub is_success : ℕ → Bool
is_success status = leb 200 status && ltb status 300

unfoldable pub status_error : ℕ → SourceError
status_error status = if (status == 404) || (status == 410) then not_found else remote status

unfoldable pub accepts_ranges : Response → Bool
accepts_ranges response = (response.status == 206) || response.accept_bytes

unfoldable pub past_known_end : ℕ → Option ℕ → Bool
past_known_end offset none = false
past_known_end offset (some length) = leb length offset

unfoldable pub lengths_differ : Option ℕ → Option ℕ → Bool
lengths_differ (some expected) (some actual) = not (expected == actual)
lengths_differ (some expected) none = false
lengths_differ none actual = false

unfoldable pub length_after : Option ℕ → Response → Option ℕ
length_after none response = response.total_length
length_after (some length) response = some length

-- `connect`, once a response is there.
unfoldable pub accept :
    ℕ → Option Response → HttpMediaSource → Outcome SourceError (Unit {0}) × HttpMediaSource
unfolding past_known_end is_success status_error lengths_differ length_after new_reader
    accepts_ranges
accept offset none s = (err io_failure, s)
accept offset (some response) s =
    let ranged = record s { seekable = accepts_ranges response } in
    if ltb 0 offset && ((response.status == 416) && past_known_end offset s.length_known)
    then (ok tt, record s { position = offset; reader = none })
    else if not (is_success response.status)
    then (err (status_error response.status), s)
    else if ltb 0 offset && not (response.status == 206)
    then (err unplayable, s)
    else if ltb 0 offset && lengths_differ s.length_known response.total_length
    then (err unplayable, ranged)
    else (
      ok tt,
      record ranged {
        length_known = length_after s.length_known response;
        position = offset;
        reader = some (new_reader response);
      },
    )

unfoldable pub connect :
    Network → ℕ → HttpMediaSource → Outcome SourceError (Unit {0}) × HttpMediaSource
unfolding accept
connect net offset s =
    accept offset (net.respond s.requests offset) (record s { requests = s.requests + 1 })
