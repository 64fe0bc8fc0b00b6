-- ===== src/FrameCounters/Counts.antt =====
-- What is counted: every sample once, whole frames in the buckets and the rest carried on.
use lavalink_rs.FrameCounters.Minute.{
  rotated_minute, rotated_id, bucket_of-set_bucket, sent_frames, nulled_frames, current,
}
use lavalink_rs.FrameCounters.{
  record_nulled_at, record_total, set_bucket, record_sent_at, MinuteBucket, bucket_of, minute_of,
  frame_samples, add_frames, FrameCounters,
}
use lavalink_rs.Prelude.{
  ltb, if_ind, ℕ, ◌+◌, ◌*◌, ◌/◌, ◌%◌, ◌^◌, ◌<◌, ◌≡◌, refl, ◌∙◌, Bool, true, false, arith,
  if◌then◌else◌, lt→ltb,
}
use lavalink_rs.Prelude.Int.{ℤ}

-- Frames that a minute has counted, in samples, with the carried remainder.
abbrev pub sent_samples : ℤ → FrameCounters → ℕ
sent_samples m c = sent_frames m c * frame_samples + c.sent_remainder

abbrev pub nulled_samples : ℤ → FrameCounters → ℕ
nulled_samples m c = nulled_frames m c * frame_samples + c.nulled_remainder

-- The packed pair of counts stays within 64 bits.
abbrev pub Packed : ℤ → FrameCounters → Type 0
Packed m c = (current m c).frames < 2 ^ 64

-- The bucket of `m` after `fetch_add(n)`.
abbrev counted : ℕ → ℤ → FrameCounters → MinuteBucket
counted n m c = record (current m c) { frames = ((current m c).frames + n) % 2 ^ 64 }

current-add_frames :
    (n : ℕ) (now m : ℤ) (c : FrameCounters)
    → minute_of now ≡ m
    → current m (add_frames n now c) ≡ counted n m c
unfolding current add_frames
current-add_frames n now m c e =
    rw (e, bucket_of-set_bucket m (counted n m c) c)
      (rotated_id m (counted n m c) (rotated_minute m (bucket_of m c)))

remainders-add_frames :
    (n : ℕ) (now : ℤ) (c : FrameCounters)
    → ((add_frames n now c).sent_remainder ≡ c.sent_remainder)
      × ((add_frames n now c).nulled_remainder ≡ c.nulled_remainder)
unfolding add_frames set_bucket
remainders-add_frames n now c = ground arith

-- What `fetch_add` adds.
abbrev added : ℕ → Bool → ℕ
added frames sent = if sent then frames * 2 ^ 32 % 2 ^ 64 else frames

pub remainders-record_total :
    (total : ℕ) (now : ℤ) (sent : Bool) (c : FrameCounters)
    → ((record_total total now sent c).sent_remainder ≡ c.sent_remainder)
      × ((record_total total now sent c).nulled_remainder ≡ c.nulled_remainder)
unfolding record_total
remainders-record_total total now sent c =
    if_ind
      (λ (x : FrameCounters).
        (x.sent_remainder ≡ c.sent_remainder) × (x.nulled_remainder ≡ c.nulled_remainder))
      (ltb (total / frame_samples) (2 ^ 32)) _ _
      (λ _. remainders-add_frames (added (total / frame_samples) sent) now c) (λ _. (refl, refl))

-- The sums of the packed counts.
sent_sum :
    (f n : ℕ)
    → f < 2 ^ 64
    → f / 2 ^ 32 % 2 ^ 32 + n < 2 ^ 32
    → (f + n * 2 ^ 32 % 2 ^ 64) % 2 ^ 64 / 2 ^ 32 % 2 ^ 32 ≡ f / 2 ^ 32 % 2 ^ 32 + n
sent_sum f n h fits = omega arith

sent_sum_nulled :
    (f n : ℕ)
    → f < 2 ^ 64
    → f / 2 ^ 32 % 2 ^ 32 + n < 2 ^ 32
    → (f + n * 2 ^ 32 % 2 ^ 64) % 2 ^ 64 % 2 ^ 32 ≡ f % 2 ^ 32
sent_sum_nulled f n h fits = omega arith

nulled_sum :
    (f n : ℕ) → f < 2 ^ 64 → f % 2 ^ 32 + n < 2 ^ 32 → (f + n) % 2 ^ 64 % 2 ^ 32 ≡ f % 2 ^ 32 + n
nulled_sum f n h fits = omega arith

nulled_sum_sent :
    (f n : ℕ)
    → f < 2 ^ 64
    → f % 2 ^ 32 + n < 2 ^ 32
    → (f + n) % 2 ^ 64 / 2 ^ 32 % 2 ^ 32 ≡ f / 2 ^ 32 % 2 ^ 32
nulled_sum_sent f n h fits = omega arith

-- `record` with a remainder and samples that stay in range.
total_lt :
    (s r n : ℕ)
    → s * frame_samples + r + n < 2 ^ 32 * frame_samples
    → s + (r + n) % 2 ^ 64 / frame_samples < 2 ^ 32
total_lt s r n h = omega arith

total_split :
    (s r n : ℕ)
    → s * frame_samples + r + n < 2 ^ 32 * frame_samples
    → (s + (r + n) % 2 ^ 64 / frame_samples) * frame_samples + (r + n) % 2 ^ 64 % frame_samples
      ≡ s * frame_samples + r + n
total_split s r n h = omega arith

-- The remainders are no part of a bucket.
current-remainders :
    (m : ℤ) (r s : ℕ) (c : FrameCounters)
    → current m (record c { sent_remainder = r; nulled_remainder = s }) ≡ current m c
unfolding current bucket_of
current-remainders m r s c = refl

record_total-eq :
    (total : ℕ) (now : ℤ) (sent : Bool) (c : FrameCounters)
    → total / frame_samples < 2 ^ 32
    → record_total total now sent c ≡ add_frames (added (total / frame_samples) sent) now c
unfolding record_total
record_total-eq total now sent c h = rw (lt→ltb (total / frame_samples) (2 ^ 32) h)

-- One call of `record_sent`, within the range of the counters.
pub sent_step :
    (samples : ℕ) (now m : ℤ) (c : FrameCounters)
    → minute_of now ≡ m
    → Packed m c
    → sent_samples m c + samples < 2 ^ 32 * frame_samples
    → let c' = record_sent_at samples now c in
      (sent_samples m c' ≡ sent_samples m c + samples)
      × (nulled_samples m c' ≡ nulled_samples m c)
      × Packed m c'
unfolding sent_frames nulled_frames
sent_step samples now m c e packed fits =
    unfold record_sent_at in
    rw (record_total-eq total now true c (omega arith), after, other)
      (omega arith, rw (sent_sum_nulled f n packed lt), omega arith)
  where
    total : ℕ
    total = (c.sent_remainder + samples) % 2 ^ 64

    n : ℕ
    n = total / frame_samples

    f : ℕ
    f = (current m c).frames

    after :
        current m (record (add_frames (n * 2 ^ 32 % 2 ^ 64) now c) {
          sent_remainder = total % frame_samples;
        })
        ≡ counted (n * 2 ^ 32 % 2 ^ 64) m c
    after =
        current-remainders m (total % frame_samples)
          (add_frames (n * 2 ^ 32 % 2 ^ 64) now c).nulled_remainder
          (add_frames (n * 2 ^ 32 % 2 ^ 64) now c)
        ∙ current-add_frames (n * 2 ^ 32 % 2 ^ 64) now m c e

    other : (add_frames (n * 2 ^ 32 % 2 ^ 64) now c).nulled_remainder ≡ c.nulled_remainder
    other = (remainders-add_frames (n * 2 ^ 32 % 2 ^ 64) now c).1

    lt : f / 2 ^ 32 % 2 ^ 32 + n < 2 ^ 32
    lt = total_lt _ _ _ (omega arith)

-- As `sent_step`, for `record_nulled`.
pub nulled_step :
    (samples : ℕ) (now m : ℤ) (c : FrameCounters)
    → minute_of now ≡ m
    → Packed m c
    → nulled_samples m c + samples < 2 ^ 32 * frame_samples
    → let c' = record_nulled_at samples now c in
      (sent_samples m c' ≡ sent_samples m c)
      × (nulled_samples m c' ≡ nulled_samples m c + samples)
      × Packed m c'
unfolding sent_frames nulled_frames
nulled_step samples now m c e packed fits =
    unfold record_nulled_at in
    rw (record_total-eq total now false c (omega arith), after, other)
      (rw (nulled_sum_sent f n packed lt), omega arith, omega arith)
  where
    total : ℕ
    total = (c.nulled_remainder + samples) % 2 ^ 64

    n : ℕ
    n = total / frame_samples

    f : ℕ
    f = (current m c).frames

    after :
        current m (record (add_frames n now c) { nulled_remainder = total % frame_samples })
        ≡ counted n m c
    after =
        current-remainders m (add_frames n now c).sent_remainder (total % frame_samples)
          (add_frames n now c)
        ∙ current-add_frames n now m c e

    other : (add_frames n now c).sent_remainder ≡ c.sent_remainder
    other = (remainders-add_frames n now c).0

    lt : f % 2 ^ 32 + n < 2 ^ 32
    lt = total_lt _ _ _ (omega arith)
