-- ===== src/Ring.antt =====
-- The ring of crates/server/src/audio/ring.rs: `Shared`, `RingWriter` and `RingReader`. A sample is
-- the 32-bit pattern of its `f32`. The lock and the atomics are fields of one state, and an
-- operation is one step on it; the reader's clock is an argument. A call that blocks returns by
-- what it finds when it is woken, so the state at that time is an argument too.
pub mod Bytes
pub mod Read
pub mod Stream
pub mod Position
pub mod Seek
mod Tests
use lavalink_rs.FrameCounters.{frame_samples, FrameCounters, record_sent_at, record_nulled_at}
use lavalink_rs.Prelude.Int.{◌+ℤ◌, wrap_i64, pos, negsuc, ℤ, eqb_ℤ}
use lavalink_rs.Prelude.{
  ℕ, zero, suc, ◌-◌, ◌*◌, ◌/◌, ◌%◌, min, max, Bool, true, false, not, List, [], ◌∷◌, ◌++◌, ltb, leb,
  ◌==◌, if◌then◌else◌, length, take, drop, replicate,
}

-- What Rust's `/` and `%` by a positive divisor, and `*` by one, do on `i64`.
abbrev pub negated : ℕ → ℤ
negated zero = pos 0
negated (suc n) = negsuc n

unfoldable pub div_i64 : ℤ → ℕ → ℤ
div_i64 (pos n) d = pos (n / d)
div_i64 (negsuc n) d = negated (suc n / d)

unfoldable pub rem_i64 : ℤ → ℕ → ℤ
rem_i64 (pos n) d = pos (n % d)
rem_i64 (negsuc n) d = negated (suc n % d)

unfoldable pub mul_i64 : ℤ → ℕ → ℤ
mul_i64 (pos n) d = wrap_i64 (pos (n * d))
mul_i64 (negsuc n) d = wrap_i64 (negated (suc n * d))

abbrev pub sample_rate : ℕ
sample_rate = 48000

abbrev pub channels : ℕ
channels = 2

pub record Shared : Type 0 where
  pub buffer : List ℕ
  pub capacity : ℕ
  pub finished : Bool
  pub closed : Bool
  pub consumed_frames : ℤ
  pub remainder_samples : ℤ
  pub base_position_ms : ℤ
  pub position_ms : ℤ
  pub owns_position : Bool
  pub frames : FrameCounters
  pub pending_seek_ms : ℤ

unfoldable pub refresh_position : Shared → Shared
refresh_position s =
    if not s.owns_position
    then s
    else if not (eqb_ℤ s.pending_seek_ms (negsuc 0))
    then record s { position_ms = s.pending_seek_ms }
    else let elapsed_ms = div_i64 (mul_i64 s.consumed_frames 1000) sample_rate in
      record s { position_ms = wrap_i64 (s.base_position_ms +ℤ elapsed_ms) }

unfoldable pub clear_pending_seek : ℤ → Shared → Shared
clear_pending_seek position s =
    if eqb_ℤ s.pending_seek_ms position then record s { pending_seek_ms = negsuc 0 } else s

unfoldable pub advance_frames : ℤ → Shared → Shared
advance_frames samples s =
    let total = wrap_i64 (s.remainder_samples +ℤ samples) in
    record s {
      consumed_frames = wrap_i64 (s.consumed_frames +ℤ div_i64 total channels);
      remainder_samples = rem_i64 total channels;
    }

-- `channel`: the reader begins with no leftover.
unfoldable pub channel : ℕ → ℤ → FrameCounters → Shared
channel buffer_ms position frames = record {
  buffer = [];
  capacity = sample_rate * max buffer_ms 20 / 1000 * channels;
  finished = false;
  closed = false;
  consumed_frames = pos 0;
  remainder_samples = pos 0;
  base_position_ms = pos 0;
  position_ms = position;
  owns_position = true;
  frames = frames;
  pending_seek_ms = negsuc 0;
}

-- `RingWriter::try_write`: how many samples were written, and whether the ring is closed.
unfoldable pub try_write : List ℕ → Shared → (ℕ × Bool) × Shared
try_write samples s =
    if s.closed
    then ((0, true), s)
    else let room = s.capacity - length s.buffer in
      let n = min room (length samples) in
      ((n, false), record s { buffer = s.buffer ++ take n samples })

-- `wait_for_space`: `later` is the ring when the wait is over.
unfoldable pub wait_for_space : Shared → Shared → Bool
wait_for_space now later =
    if now.closed
    then false
    else if ltb (length now.buffer) now.capacity
    then true
    else not later.closed

unfoldable pub wait_for_drain : Shared → Shared → Bool
wait_for_drain now later = if length now.buffer == 0 then true else length later.buffer == 0

unfoldable pub finish : Shared → Shared
finish s = record s { finished = true }

unfoldable pub detach_position : Shared → Shared
detach_position s = record s { owns_position = false }

unfoldable pub reset : ℤ → Shared → Shared
unfolding refresh_position clear_pending_seek
reset position s = refresh_position (
    clear_pending_seek position (record s {
      buffer = [];
      finished = false;
      consumed_frames = pos 0;
      remainder_samples = pos 0;
      base_position_ms = position;
    }))

unfoldable pub begin_seek : ℤ → Shared → Shared
begin_seek position s = record s { pending_seek_ms = position }

unfoldable pub cancel_seek : ℤ → Shared → Shared
unfolding clear_pending_seek
cancel_seek position s = clear_pending_seek position s

unfoldable pub close : Shared → Shared
close s = record s { closed = true }

-- `RingReader`, with the ring it reads.
pub record RingReader : Type 0 where
  pub shared : Shared
  pub leftover : List ℕ

abbrev pub new_reader : Shared → RingReader
new_reader s = record { shared = s; leftover = [] }

-- `f32::to_le_bytes`.
unfoldable pub to_le_bytes : ℕ → List ℕ
to_le_bytes w = w % 256 ∷ w / 256 % 256 ∷ w / 65536 % 256 ∷ w / 16777216 % 256 ∷ []

-- The loop over `as_chunks_mut::<4>` of `out` zipped with `source`.
unfoldable pub copy_samples : List ℕ → List ℕ → List ℕ
unfolding to_le_bytes
copy_samples (sample ∷ source) (a ∷ b ∷ c ∷ d ∷ out) = to_le_bytes sample ++ copy_samples source out
copy_samples source out = out

-- `out[..k].copy_from_slice(..)`.
abbrev pub overwrite : List ℕ → List ℕ → List ℕ
overwrite bytes out = bytes ++ drop (length bytes) out

-- What `read` returns: the bytes written, `out` after the call, and the reader.
pub record ReadResult : Type 0 where
  pub written : ℕ
  pub out : List ℕ
  pub reader : RingReader

abbrev pub wanted_samples : List ℕ → ℕ
wanted_samples out = max (length out / 4) 1

unfoldable pub read_leftover : List ℕ → RingReader → ReadResult
read_leftover out r =
    let n = min (length r.leftover) (length out) in
    record {
      written = n;
      out = overwrite (take n r.leftover) out;
      reader = record r { leftover = drop n r.leftover };
    }

-- The bytes of one sample, as many as `out` has room for; the others wait in `leftover`.
abbrev pub read_split : List ℕ → List ℕ → Shared → List ℕ → ReadResult
read_split bytes out s leftover =
    let written = min (length bytes) (length out) in
    record {
      written = written;
      out = overwrite (take written bytes) out;
      reader = record { shared = s; leftover = leftover ++ drop written bytes };
    }

unfoldable pub read_silence : ℤ → List ℕ → RingReader → ReadResult
unfolding refresh_position advance_frames record_nulled_at
read_silence now_ms out r =
    let silence_samples = min (wanted_samples out) frame_samples in
    let s = refresh_position (advance_frames (pos silence_samples) r.shared) in
    let s' = record s { frames = record_nulled_at silence_samples now_ms s.frames } in
    if leb 4 (length out)
    then record {
      written = silence_samples * 4;
      out = overwrite (replicate (silence_samples * 4) 0) out;
      reader = record r { shared = s' };
    }
    else read_split (replicate 4 0) out s' r.leftover

-- `out` after the loop over the two slices that `as_slices` gives, the first of them `head` long.
unfoldable pub copy_slices : ℕ → ℕ → List ℕ → List ℕ → List ℕ
unfolding copy_samples
copy_slices head n buffer out =
    let front = take head buffer in
    let back = drop head buffer in
    let from_front = min n (length front) in
    let out' = copy_samples (take from_front front) out in
    let written = length (take from_front front) * 4 in
    take written out' ++ copy_samples (take (n - from_front) back) (drop written out')

-- The bookkeeping for `n` samples that have left the buffer.
abbrev pub sent : ℕ → ℤ → Shared → Shared
sent n now_ms s =
    let s' = refresh_position (advance_frames (pos n) s) in
    record s' { frames = record_sent_at n now_ms s'.frames }

unfoldable pub read_samples : ℤ → ℕ → List ℕ → RingReader → ReadResult
unfolding copy_slices to_le_bytes refresh_position advance_frames record_sent_at
read_samples now_ms head out r =
    let n = min (wanted_samples out) (length r.shared.buffer) in
    if leb 4 (length out)
    then record {
      written = n * 4;
      out = copy_slices head n r.shared.buffer out;
      reader = record r {
        shared = sent n now_ms (record r.shared { buffer = drop n r.shared.buffer });
      };
    }
    else pop_front now_ms n out r r.shared.buffer
  where
    pop_front : ℤ → ℕ → List ℕ → RingReader → List ℕ → ReadResult
    pop_front now_ms n out r [] = record { written = 0; out = out; reader = r }
    pop_front now_ms n out r (sample ∷ rest) =
        read_split (to_le_bytes sample) out (sent n now_ms (record r.shared { buffer = rest }))
          r.leftover

unfoldable pub read : ℤ → ℕ → List ℕ → RingReader → ReadResult
unfolding read_leftover read_silence read_samples
read now_ms head out r =
    if length out == 0
    then record { written = 0; out = out; reader = r }
    else if not (length r.leftover == 0)
    then read_leftover out r
    else if r.shared.closed
    then record { written = 0; out = out; reader = r }
    else if length r.shared.buffer == 0
    then (if r.shared.finished
        then record { written = 0; out = out; reader = r }
        else read_silence now_ms out r)
    else read_samples now_ms head out r
