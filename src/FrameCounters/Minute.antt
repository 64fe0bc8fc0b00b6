-- ===== src/FrameCounters/Minute.antt =====
-- The two buckets: which one a minute uses, and what a rotation leaves alone.
use lavalink_rs.FrameCounters.{set_bucket, rotated, parity, bucket_of, MinuteBucket, FrameCounters}
use lavalink_rs.Prelude.{
  ℕ, ◌/◌, ◌%◌, ◌^◌, ◌≤◌, ◌≡◌, ◌≢◌, inl, inr, true, arith, if◌then◌else◌, Bool-cases,
}
use lavalink_rs.Prelude.Int.{ℤ, pos, negsuc, ◌-ℤ◌, eqb_ℤ}

pub eqb_ℤ_refl : (a : ℤ) → eqb_ℤ a a ≡ true
eqb_ℤ_refl a = ground arith

pub eqb_ℤ→eq : (a b : ℤ) → eqb_ℤ a b ≡ true → a ≡ b
eqb_ℤ→eq (pos m) (pos n) h = ground arith
eqb_ℤ→eq (pos m) (negsuc n) h = ground arith
eqb_ℤ→eq (negsuc m) (pos n) h = ground arith
eqb_ℤ→eq (negsuc m) (negsuc n) h = ground arith

pub bucket_of-set_bucket :
    (m : ℤ) (b : MinuteBucket) (c : FrameCounters) → bucket_of m (set_bucket m b c) ≡ b
unfolding bucket_of set_bucket
bucket_of-set_bucket m b c = ground arith

-- Neighbouring minutes use different buckets.
parity_prev : (m : ℤ) → parity (m -ℤ pos 1) ≢ parity m
unfolding parity ◌-ℤ◌
parity_prev (pos n) = ground arith
parity_prev (negsuc n) = ground arith

parity-le : (m : ℤ) → parity m ≤ 1
unfolding parity
parity-le (pos n) = omega arith
parity-le (negsuc n) = omega arith

pub bucket_of-set_bucket_prev :
    (m : ℤ) (b : MinuteBucket) (c : FrameCounters)
    → bucket_of (m -ℤ pos 1) (set_bucket m b c) ≡ bucket_of (m -ℤ pos 1) c
bucket_of-set_bucket_prev m b c =
    unfold bucket_of set_bucket in
    ground (arith, parity_prev m, parity-le m, parity-le (m -ℤ pos 1))

pub rotated_minute : (m : ℤ) (b : MinuteBucket) → (rotated m b).minute ≡ m
unfolding rotated
rotated_minute m b = elim (Bool-cases (eqb_ℤ b.minute m)) [
  | inl e ↦ rw e (eqb_ℤ→eq b.minute m e)
  | inr e ↦ rw e
]

pub rotated_id : (m : ℤ) (b : MinuteBucket) → b.minute ≡ m → rotated m b ≡ b
unfolding rotated
rotated_id m b e = rw (same)
  where
    same : eqb_ℤ b.minute m ≡ true
    same = rw e (eqb_ℤ_refl m)

pub rotated_frames :
    (m : ℤ) (b : MinuteBucket) → (rotated m b).frames ≡ (if eqb_ℤ b.minute m then b.frames else 0)
unfolding rotated
rotated_frames m b = ground arith

-- The bucket that a minute counts in, once it is rotated to that minute.
unfoldable pub current : ℤ → FrameCounters → MinuteBucket
current m c = rotated m (bucket_of m c)

unfoldable pub sent_frames : ℤ → FrameCounters → ℕ
sent_frames m c = (current m c).frames / 2 ^ 32 % 2 ^ 32

unfoldable pub nulled_frames : ℤ → FrameCounters → ℕ
nulled_frames m c = (current m c).frames % 2 ^ 32
