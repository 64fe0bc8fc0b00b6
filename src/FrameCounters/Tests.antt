-- ===== src/FrameCounters/Tests.antt =====
-- The counters on concrete calls, and the instances of the theorems.
use lavalink_rs.FrameCounters.Minute.{current, nulled_frames, sent_frames}
use lavalink_rs.Prelude.Int.{pos}
use lavalink_rs.FrameCounters.{
  saturate, saturating_sub, saturating_minutes, is_data_usable_at, unpack_frames, parity, minute_of,
  bucket_of, set_bucket, rotated, rotate, add_frames, record_total, record_nulled_at,
  record_sent_at, frame_samples, stats_at, default_counters,
}
use lavalink_rs.FrameCounters.Report.{samples_of, stats_at-recorded, recorded, Recording}
use lavalink_rs.Prelude.Int.{◌-ℤ◌}
use lavalink_rs.Prelude.{◌<◌, ◌+◌, ◌*◌, ◌≡◌, refl, true, false, List, [], ◌∷◌, arith}

calls : List Recording
calls =
    record { now_ms = pos 60000; is_sent = true; samples = 2000 }
    ∷ record { now_ms = pos 60020; is_sent = false; samples = 1919 }
    ∷ record { now_ms = pos 119999; is_sent = true; samples = 1840 }
    ∷ []

report : (stats_at (pos 120000) (recorded calls default_counters)).0 ≡ (2, 0, false)
unfolding stats_at recorded default_counters record_sent_at record_nulled_at record_total add_frames
    rotate rotated set_bucket bucket_of minute_of parity unpack_frames is_data_usable_at
    saturating_minutes saturating_sub saturate ◌-ℤ◌ calls
report = refl

stats_at-recorded_example :
    let c' = recorded calls default_counters in
    let report = (stats_at (pos 120000) c').0 in
    (report.0 * frame_samples + c'.sent_remainder ≡ 3840)
    × (report.1 * frame_samples + c'.nulled_remainder ≡ 1919)
    × (c'.sent_remainder < frame_samples)
    × (c'.nulled_remainder < frame_samples)
unfolding default_counters sent_frames nulled_frames current rotated bucket_of samples_of calls
    minute_of parity ◌-ℤ◌
stats_at-recorded_example =
    stats_at-recorded (pos 120000) (pos 1) calls default_counters refl (refl, (refl, (refl, tt)))
      (omega arith) (omega arith, omega arith) (omega arith) (omega arith)
