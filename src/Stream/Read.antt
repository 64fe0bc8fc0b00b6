-- ===== src/Stream/Read.antt =====
-- `Read` and `Seek` of `HttpMediaSource`: crates/server/src/audio/stream.rs.
use lavalink_rs.Outcome.{stuck, ok, err, Outcome}
use lavalink_rs.Stream.{
  ResponseReader, max_reconnect_attempts, unsupported, reconnect_failed, command_pending,
  SourceError, ReadError, reader_read, connect, Network, HttpMediaSource,
}
use mathlib.Core.Option
use lavalink_rs.Prelude.{
  ℕ, zero, suc, ◌+◌, ◌-◌, ◌%◌, ◌^◌, min, false, not, ◌||◌, Option, none, some, List, [], leb, ◌==◌,
  if◌then◌else◌, length,
}
use lavalink_rs.Prelude.Int.{ℤ, pos, negsuc}

-- What an iteration of a loop comes to: a result, or `none` to go round again.
abbrev pub Turn : Type 0 → Type 0
Turn A = Option (Outcome ReadError A)

-- A result ends the loop; otherwise the rest of it decides.
abbrev pub end_or_go_on :
    {A : Type 0}
    → Turn A
    → HttpMediaSource
    → Outcome ReadError A × HttpMediaSource
    → Outcome ReadError A × HttpMediaSource
end_or_go_on (some r) s rest = (r, s)
end_or_go_on none s rest = rest

-- After a reconnect: done, or the error to go on with.
unfoldable pub reconnected :
    ReadError → Outcome SourceError (Unit {0}) → Turn (Unit {0}) × ReadError
reconnected error (ok u) = (some (ok u), error)
reconnected error (err e) = (none, reconnect_failed e)
reconnected error stuck = (some stuck, error)

-- One iteration of the inner loop of `read`: reconnect at the position that was reached, if that is
-- still allowed.
unfoldable pub retry_step :
    Network → ReadError → HttpMediaSource → (Turn (Unit {0}) × ReadError) × HttpMediaSource
unfolding connect reconnected
retry_step net error s =
    if not s.seekable || leb max_reconnect_attempts s.reconnect_attempts
    then ((some (err error), error), s)
    else (let asked = record s { flag_reads = s.flag_reads + 1 } in
        if net.is_interrupted s.flag_reads
        then ((some (err command_pending), error), asked)
        else (let (result, s') =
              connect net s.position
                (record asked { reconnect_attempts = s.reconnect_attempts + 1 }) in
            (reconnected error result, s')))

-- The inner loop. The first argument is fuel.
unfoldable pub retry :
    ℕ → Network → ReadError → HttpMediaSource → Outcome ReadError (Unit {0}) × HttpMediaSource
unfolding retry_step
retry zero net error s = (stuck, s)
retry (suc fuel) net error s =
    let (result, s') = retry_step net error s in
    let rest = retry fuel net result.1 s' in end_or_go_on result.0 s' rest

unfoldable pub after_retry :
    Outcome ReadError (Unit {0}) → HttpMediaSource → Turn (List ℕ) × HttpMediaSource
after_retry (ok u) s = (none, s)
after_retry (err e) s = (some (err e), s)
after_retry stuck s = (some stuck, s)

unfoldable pub after_read :
    Network → Outcome ReadError (List ℕ) → HttpMediaSource → Turn (List ℕ) × HttpMediaSource
unfolding retry after_retry
after_read net (ok bytes) s = (
  some (ok bytes),
  record s { position = (s.position + length bytes) % 2 ^ 64; reconnect_attempts = 0 },
)
after_read net (err error) s =
    let asked = record s { flag_reads = s.flag_reads + 1 } in
    if net.is_interrupted s.flag_reads
    then (some (err command_pending), asked)
    else (let (result, s') = retry (max_reconnect_attempts + 1) net error asked in
        after_retry result s')
after_read net stuck s = (some stuck, s)

-- One iteration of the outer loop of `read`.
unfoldable pub read_step :
    Network → ℕ → Option ResponseReader → HttpMediaSource → Turn (List ℕ) × HttpMediaSource
unfolding reader_read after_read
read_step net size none s = (some (ok []), s)
read_step net size (some r) s =
    let (result, r') = reader_read size s.read_timeout r in
    after_read net result (record s { reader = some r' })

-- `read` of at most `size` bytes. The first argument is fuel.
unfoldable pub source_read :
    ℕ → Network → ℕ → HttpMediaSource → Outcome ReadError (List ℕ) × HttpMediaSource
unfolding read_step
source_read zero net size s = (stuck, s)
source_read (suc fuel) net size s =
    let (result, s') = read_step net size s.reader s in
    let rest = source_read fuel net size s' in end_or_go_on result s' rest

-- `u64::saturating_add_signed`.
unfoldable pub saturating_add_signed : ℕ → ℤ → ℕ
saturating_add_signed n (pos d) = min (n + d) (2 ^ 64 - 1)
saturating_add_signed n (negsuc d) = n - suc d

pub data SeekFrom : Type 0 where
  from_start : ℕ → SeekFrom
  from_current : ℤ → SeekFrom
  from_end : ℤ → SeekFrom

unfoldable pub seek_target : SeekFrom → HttpMediaSource → Option ℕ
unfolding saturating_add_signed
seek_target (from_start offset) s = some offset
seek_target (from_current delta) s = some (saturating_add_signed s.position delta)
seek_target (from_end delta) s =
    Option.map (λ (length : ℕ). saturating_add_signed length delta) s.length_known

unfoldable pub sought : Outcome SourceError (Unit {0}) → ℕ → Outcome ReadError ℕ
sought (ok u) target = ok target
sought (err e) target = err (reconnect_failed e)
sought stuck target = stuck

unfoldable pub seek_to :
    Network → Option ℕ → HttpMediaSource → Outcome ReadError ℕ × HttpMediaSource
unfolding connect sought
seek_to net none s = (err unsupported, s)
seek_to net (some target) s =
    if target == s.position
    then (ok target, s)
    else if not s.seekable
    then (err unsupported, s)
    else (let (result, s') = connect net target s in (sought result target, s'))

unfoldable pub source_seek :
    Network → SeekFrom → HttpMediaSource → Outcome ReadError ℕ × HttpMediaSource
unfolding seek_target seek_to
source_seek net from s = seek_to net (seek_target from s) s

-- `open_with_timeouts`, past the set-up of the client.
unfoldable pub open_source : Network → ℕ → Outcome SourceError (Unit {0}) × HttpMediaSource
unfolding connect
open_source net read_timeout = connect net 0 (record {
  length_known = none;
  seekable = false;
  position = 0;
  reader = none;
  reconnect_attempts = 0;
  read_timeout = read_timeout;
  requests = 0;
  flag_reads = 0;
})
