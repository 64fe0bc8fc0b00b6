-- ===== src/FrameCounters/Report.antt =====
-- What `stats_at` reports: the counts of the minute before.
use lavalink_rs.FrameCounters.Minute.{
  rotated_frames, bucket_of-set_bucket_prev, current, nulled_frames, sent_frames,
}
use lavalink_rs.FrameCounters.Counts.{
  remainders-record_total, nulled_step, sent_step, nulled_samples, sent_samples, Packed,
}
use lavalink_rs.Prelude.Int.{pos, ◌-ℤ◌, ℤ}
use lavalink_rs.FrameCounters.{
  rotated, set_bucket, bucket_of, unpack_frames, rotate, stats_at, frame_samples, record_nulled_at,
  record_sent_at, minute_of, FrameCounters,
}
use lavalink_rs.Prelude.{
  ◌%◌, if_ind, ℕ, ◌+◌, ◌*◌, ◌^◌, ◌<◌, ◌≡◌, refl, sym, Bool, true, false, List, [], ◌∷◌, arith,
  if◌then◌else◌, All,
}

-- One call of `record_sent` or of `record_nulled`.
pub record Recording : Type 0 where
  pub now_ms : ℤ
  pub is_sent : Bool
  pub samples : ℕ

unfoldable pub recorded : List Recording → FrameCounters → FrameCounters
recorded [] c = c
recorded (r ∷ rs) c = recorded rs (
    if r.is_sent
    then record_sent_at r.samples r.now_ms c
    else record_nulled_at r.samples r.now_ms c)

-- The samples of one kind in a list of calls.
unfoldable pub samples_of : Bool → List Recording → ℕ
samples_of kind [] = 0
samples_of kind (r ∷ rs) =
    (if r.is_sent then (if kind then r.samples else 0) else (if kind then 0 else r.samples))
    + samples_of kind rs

-- The two kinds of call at once.
step :
    (kind : Bool) (now : ℤ) (n : ℕ) (m : ℤ) (c : FrameCounters)
    → minute_of now ≡ m
    → Packed m c
    → sent_samples m c + (if kind then n else 0) < 2 ^ 32 * frame_samples
    → nulled_samples m c + (if kind then 0 else n) < 2 ^ 32 * frame_samples
    → let c' = if kind then record_sent_at n now c else record_nulled_at n now c in
      (sent_samples m c' ≡ sent_samples m c + (if kind then n else 0))
      × (nulled_samples m c' ≡ nulled_samples m c + (if kind then 0 else n))
      × Packed m c'
step true now n m c e packed fits_sent fits_nulled =
    let (sent, nulled, packed') = sent_step n now m c e packed fits_sent in
    (sent, omega arith, packed')
step false now n m c e packed fits_sent fits_nulled =
    let (sent, nulled, packed') = nulled_step n now m c e packed fits_nulled in
    (omega arith, nulled, packed')

abbrev after : Recording → FrameCounters → FrameCounters
after r c =
    if r.is_sent then record_sent_at r.samples r.now_ms c else record_nulled_at r.samples r.now_ms c

recorded_run :
    (m : ℤ) (rs : List Recording) (c : FrameCounters)
    → All (λ (r : Recording). minute_of r.now_ms ≡ m) rs
    → Packed m c
    → sent_samples m c + samples_of true rs < 2 ^ 32 * frame_samples
    → nulled_samples m c + samples_of false rs < 2 ^ 32 * frame_samples
    → (sent_samples m (recorded rs c) ≡ sent_samples m c + samples_of true rs)
      × (nulled_samples m (recorded rs c) ≡ nulled_samples m c + samples_of false rs)
unfolding recorded samples_of
recorded_run m [] c all packed fits_sent fits_nulled = (omega arith, omega arith)
recorded_run m (r ∷ rs) c all packed fits_sent fits_nulled =
    let (sent, nulled, packed') =
      step r.is_sent r.now_ms r.samples m c all.0 packed (omega arith) (omega arith) in
    let (sent_all, nulled_all) =
      recorded_run m rs (after r c) all.1 packed' (omega arith) (omega arith) in
    (omega arith, omega arith)

-- Less than a frame of each kind is carried on.
abbrev pub IsCarried : FrameCounters → Type 0
IsCarried c = (c.sent_remainder < frame_samples) × (c.nulled_remainder < frame_samples)

after-IsCarried : (r : Recording) (c : FrameCounters) → IsCarried c → IsCarried (after r c)
unfolding record_sent_at record_nulled_at
after-IsCarried r c (sent, nulled) =
    if_ind IsCarried r.is_sent _ _
      (λ _.
        let total = (c.sent_remainder + r.samples) % 2 ^ 64 in
        (omega arith, omega (arith, (remainders-record_total total r.now_ms true c).1, nulled)))
      (λ _.
        let total = (c.nulled_remainder + r.samples) % 2 ^ 64 in
        (omega (arith, (remainders-record_total total r.now_ms false c).0, sent), omega arith))

recorded-IsCarried :
    (rs : List Recording) (c : FrameCounters) → IsCarried c → IsCarried (recorded rs c)
unfolding recorded
recorded-IsCarried [] c h = h
recorded-IsCarried (r ∷ rs) c h = recorded-IsCarried rs (after r c) (after-IsCarried r c h)

-- The minute that `stats_at` reads is not touched by its rotation.
stats_previous :
    (now m : ℤ) (c : FrameCounters)
    → minute_of now -ℤ pos 1 ≡ m
    → ((stats_at now c).0.0 ≡ sent_frames m c) × ((stats_at now c).0.1 ≡ nulled_frames m c)
unfolding stats_at rotate unpack_frames sent_frames nulled_frames current
stats_previous now m c e =
    rw (sym e, rotated_frames (minute_of now -ℤ pos 1) (bucket_of (minute_of now -ℤ pos 1) c), kept)
      (refl, refl)
  where
    kept :
        bucket_of
          (minute_of now -ℤ pos 1)
          (set_bucket (minute_of now) (rotated (minute_of now) (bucket_of (minute_of now) c)) c)
        ≡ bucket_of (minute_of now -ℤ pos 1) c
    kept = bucket_of-set_bucket_prev (minute_of now) _ c

-- The report of `stats_at` in the minute after `m`, when from counters that carry less than a frame
-- of each kind, and have 64 bits for the packed counts of `m`, only the calls `rs` were made, all in
-- the minute `m`, with fewer samples than 2^32 frames of each kind in it: every sample of `m` is in
-- the reported whole frames or in the carried remainder, which is again less than a frame, so that
-- no whole frame is held back.
pub stats_at-recorded :
    (now m : ℤ) (rs : List Recording) (c : FrameCounters)
    → minute_of now -ℤ pos 1 ≡ m
    → All (λ (r : Recording). minute_of r.now_ms ≡ m) rs
    → Packed m c
    → IsCarried c
    → sent_samples m c + samples_of true rs < 2 ^ 32 * frame_samples
    → nulled_samples m c + samples_of false rs < 2 ^ 32 * frame_samples
    → let c' = recorded rs c in
      let report = (stats_at now c').0 in
      (report.0 * frame_samples + c'.sent_remainder ≡ sent_samples m c + samples_of true rs)
      × (report.1 * frame_samples + c'.nulled_remainder ≡ nulled_samples m c + samples_of false rs)
      × (c'.sent_remainder < frame_samples)
      × (c'.nulled_remainder < frame_samples)
stats_at-recorded now m rs c e all packed carried fits_sent fits_nulled =
    let (sent, nulled) = stats_previous now m (recorded rs c) e in
    let (sent_all, nulled_all) = recorded_run m rs c all packed fits_sent fits_nulled in
    let (sent_left, nulled_left) = recorded-IsCarried rs c carried in
    (omega arith, omega arith, sent_left, nulled_left)
