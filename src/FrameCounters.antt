-- ===== src/FrameCounters.antt =====
-- `FrameCounters` and `MinuteBucket` of crates/server/src/audio/ring.rs. The clock, which the code
-- reads itself, is the argument `now_ms`. The two atomics of a bucket are its two fields.
pub mod Minute
pub mod Counts
pub mod Report
mod Tests
use lavalink_rs.Prelude.{
  ℕ, zero, suc, ◌+◌, ◌-◌, ◌*◌, ◌/◌, ◌%◌, ◌^◌, ◌≤◌, ◌<◌, min, max, bit_and, bit_or, ◌≡◌, refl, sym,
  ap, ap₂, ◌∙◌, subst, ◌≢◌, ◌↔◌, ◌⊎◌, inl, inr, Bool, true, false, not, ◌&&◌, ◌||◌, Option, none,
  some, List, [], ◌∷◌, ◌++◌, map, append-nil, append_assoc, arith, ltb, leb, ◌==◌, if◌then◌else◌,
  ltb→lt, lt→ltb, not_lt→ltb, leb→le, ==_iff, ==_refl, Bool-cases, Option-cases, length, get_elem?,
  take, drop, replicate, All, length-append, length-take, length-drop, length-replicate,
  take-append-drop, take-append, drop-append, take_of_le, drop_of_le, All-append, get_elem?-append,
  get_elem?-eq-none, get_elem?_lt, get_elem?-All,
}
use lavalink_rs.Prelude.Int.{ℤ, pos, negsuc, ◌-ℤ◌, ltb_ℤ, eqb_ℤ}

abbrev pub frame_samples : ℕ
frame_samples = 48000 / 50 * 2

abbrev pub minute_ms : ℕ
minute_ms = 60000

abbrev pub acceptable_track_switch_ms : ℤ
acceptable_track_switch_ms = pos 100

abbrev pub i64_max : ℤ
i64_max = pos (2 ^ 63 - 1)

abbrev pub i64_min : ℤ
i64_min = negsuc (2 ^ 63 - 1)

abbrev pub never : ℤ
never = i64_max

-- `div_euclid(MINUTE_MS)` and `rem_euclid(2)`.
unfoldable pub minute_of : ℤ → ℤ
minute_of (pos n) = pos (n / minute_ms)
minute_of (negsuc n) = negsuc (n / minute_ms)

unfoldable pub parity : ℤ → ℕ
parity (pos n) = n % 2
parity (negsuc n) = 1 - n % 2

-- The saturating operations of `i64`.
unfoldable pub saturate : ℤ → ℤ
saturate z = if ltb_ℤ i64_max z then i64_max else if ltb_ℤ z i64_min then i64_min else z

unfoldable pub saturating_sub : ℤ → ℤ → ℤ
unfolding saturate ◌-ℤ◌
saturating_sub a b = saturate (a -ℤ b)

unfoldable pub saturating_minutes : ℤ → ℤ
unfolding saturate
saturating_minutes (pos n) = saturate (pos (n * minute_ms))
saturating_minutes (negsuc n) = saturate (negsuc (n * minute_ms + (minute_ms - 1)))

-- Sent frames are in the high half of `frames`, nulled frames in the low half.
pub record MinuteBucket : Type 0 where
  pub minute : ℤ
  pub frames : ℕ

abbrev pub empty_bucket : MinuteBucket
empty_bucket = record { minute = negsuc 0; frames = 0 }

-- `minutes[0]` and `minutes[1]` are `even` and `odd`.
pub record FrameCounters : Type 0 where
  pub even : MinuteBucket
  pub odd : MinuteBucket
  pub sent_remainder : ℕ
  pub nulled_remainder : ℕ
  pub playing_since_ms : ℤ
  pub last_track_started_ms : ℤ
  pub last_track_ended_ms : ℤ

unfoldable pub default_counters : FrameCounters
default_counters = record {
  even = empty_bucket;
  odd = empty_bucket;
  sent_remainder = 0;
  nulled_remainder = 0;
  playing_since_ms = never;
  last_track_started_ms = pos ((2 ^ 63 - 1) / 2);
  last_track_ended_ms = never;
}

-- The bucket of a minute, as `&self.minutes[minute.rem_euclid(2)]`, and a write through it.
unfoldable pub bucket_of : ℤ → FrameCounters → MinuteBucket
unfolding parity
bucket_of minute c = if parity minute == 0 then c.even else c.odd

unfoldable pub set_bucket : ℤ → MinuteBucket → FrameCounters → FrameCounters
unfolding parity
set_bucket minute b c = if parity minute == 0 then record c { even = b } else record c { odd = b }

-- A bucket of an older minute is emptied for this one.
unfoldable pub rotated : ℤ → MinuteBucket → MinuteBucket
rotated minute b = if not (eqb_ℤ b.minute minute) then record { minute = minute; frames = 0 } else b

-- `minute(now_ms)`: rotates; the bucket it returns is then `bucket_of (minute_of now_ms)`.
unfoldable pub rotate : ℤ → FrameCounters → FrameCounters
unfolding rotated
rotate now_ms c =
    let minute = minute_of now_ms in set_bucket minute (rotated minute (bucket_of minute c)) c

-- `minute(now_ms).frames.fetch_add(n)`, which wraps at 2^64.
unfoldable pub add_frames : ℕ → ℤ → FrameCounters → FrameCounters
add_frames n now_ms c =
    let minute = minute_of now_ms in
    let b = rotated minute (bucket_of minute c) in
    set_bucket minute (record b { frames = (b.frames + n) % 2 ^ 64 }) c

unfoldable pub record_sent_frames_at : ℕ → ℤ → FrameCounters → FrameCounters
unfolding add_frames
record_sent_frames_at frames now_ms c = add_frames (frames * 2 ^ 32 % 2 ^ 64) now_ms c

-- `record`, which loads one of the two remainders, counts, and stores it again.
unfoldable pub record_total : ℕ → ℤ → Bool → FrameCounters → FrameCounters
record_total total now_ms sent c =
    let frames = total / frame_samples in
    if ltb frames (2 ^ 32)
    then add_frames (if sent then frames * 2 ^ 32 % 2 ^ 64 else frames) now_ms c
    else c

unfoldable pub record_sent_at : ℕ → ℤ → FrameCounters → FrameCounters
unfolding record_total
record_sent_at samples now_ms c =
    let total = (c.sent_remainder + samples) % 2 ^ 64 in
    record (record_total total now_ms true c) { sent_remainder = total % frame_samples }

unfoldable pub record_nulled_at : ℕ → ℤ → FrameCounters → FrameCounters
unfolding record_total
record_nulled_at samples now_ms c =
    let total = (c.nulled_remainder + samples) % 2 ^ 64 in
    record (record_total total now_ms false c) { nulled_remainder = total % frame_samples }

unfoldable pub unpack_frames : ℕ → ℕ × ℕ
unpack_frames frames = (frames / 2 ^ 32 % 2 ^ 32, frames % 2 ^ 32)

unfoldable pub playback_started_at : ℤ → FrameCounters → FrameCounters
unfolding saturating_sub
playback_started_at now_ms c =
    let started = record c { last_track_started_ms = now_ms } in
    if eqb_ℤ c.playing_since_ms never
      || (not (eqb_ℤ c.last_track_ended_ms never)
          && ltb_ℤ acceptable_track_switch_ms (saturating_sub now_ms c.last_track_ended_ms))
    then record started { playing_since_ms = now_ms; last_track_ended_ms = never }
    else started

unfoldable pub track_started_at : ℤ → FrameCounters → FrameCounters
unfolding playback_started_at
track_started_at now_ms c = playback_started_at now_ms c

unfoldable pub track_ended_at : ℤ → FrameCounters → FrameCounters
track_ended_at now_ms c = record c { last_track_ended_ms = now_ms }

unfoldable pub paused_at : Bool → ℤ → FrameCounters → FrameCounters
unfolding track_ended_at playback_started_at
paused_at paused now_ms c = if paused then track_ended_at now_ms c else playback_started_at now_ms c

unfoldable pub is_data_usable_at : ℤ → FrameCounters → Bool
unfolding saturating_sub saturating_minutes
is_data_usable_at now_ms c =
    if not (eqb_ℤ c.last_track_ended_ms never)
      && ltb_ℤ acceptable_track_switch_ms
          (saturating_sub c.last_track_started_ms c.last_track_ended_ms)
    then false
    else ltb_ℤ c.playing_since_ms (saturating_minutes (minute_of now_ms -ℤ pos 1))

-- `stats_at`: what it returns, and the counters after its rotation.
unfoldable pub stats_at : ℤ → FrameCounters → (ℕ × ℕ × Bool) × FrameCounters
stats_at now_ms c =
    let c' = rotate now_ms c in
    let previous_minute = minute_of now_ms -ℤ pos 1 in
    let previous = bucket_of previous_minute c' in
    let frames : ℕ = if eqb_ℤ previous.minute previous_minute then previous.frames else 0 in
    let (sent, nulled) = unpack_frames frames in ((sent, nulled, is_data_usable_at now_ms c'), c')

-- `take`: reads and empties the current minute.
unfoldable pub take_frames : ℤ → FrameCounters → (ℕ × ℕ) × FrameCounters
take_frames now_ms c =
    let minute = minute_of now_ms in
    let b = rotated minute (bucket_of minute c) in
    (unpack_frames b.frames, set_bucket minute (record b { frames = 0 }) c)
