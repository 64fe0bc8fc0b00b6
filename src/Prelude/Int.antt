-- ===== src/Prelude/Int.antt =====
-- Signed integers over the native numbers, and the wrap-around of the 32- and 64-bit signed types
-- of Rust in a release build (`[profile.release]` of Cargo.toml leaves overflow checks off).
use lavalink_rs.Prelude.Tests.{ltb, leb, if◌then◌else◌, lt→ltb, not_lt→ltb}
use native.Mathlib.Decide.{dec_lt}
use Prim.Native.Nat.{ℕ, suc, ◌+◌, ◌-◌, ◌%◌, ◌^◌, ◌≤◌, ◌<◌}
use mathlib.Core.Path.{◌≡◌}
use mathlib.Core.Bool.{Bool, true, false, ◌||◌}
use native.Mathlib.Omega.{arith}

-- `negsuc n` is -(n + 1).
pub data ℤ : Type 0 where
  pos : ℕ → ℤ
  negsuc : ℕ → ℤ

abbrev pub pos_part : ℤ → ℕ
pos_part (pos n) = n
pos_part (negsuc n) = 0

abbrev pub neg_part : ℤ → ℕ
neg_part (pos n) = 0
neg_part (negsuc n) = suc n

abbrev pub sub_ℕ : ℕ → ℕ → ℤ
sub_ℕ a b = if leb b a then pos (a - b) else negsuc (b - a - 1)

infixl 65 ◌+ℤ◌ ◌-ℤ◌
infix 50 ◌≤ℤ◌ ◌<ℤ◌
unfoldable pub ◌+ℤ◌ : ℤ → ℤ → ℤ
a +ℤ b = sub_ℕ (pos_part a + pos_part b) (neg_part a + neg_part b)

unfoldable pub ◌-ℤ◌ : ℤ → ℤ → ℤ
a -ℤ b = sub_ℕ (pos_part a + neg_part b) (neg_part a + pos_part b)

abbrev pub ◌≤ℤ◌ : ℤ → ℤ → Type 0
a ≤ℤ b = pos_part a + neg_part b ≤ pos_part b + neg_part a

abbrev pub ◌<ℤ◌ : ℤ → ℤ → Type 0
a <ℤ b = pos_part a + neg_part b < pos_part b + neg_part a

abbrev pub ltb_ℤ : ℤ → ℤ → Bool
ltb_ℤ a b = ltb (pos_part a + neg_part b) (pos_part b + neg_part a)

abbrev pub eqb_ℤ : ℤ → ℤ → Bool
eqb_ℤ a b = if (ltb_ℤ a b || ltb_ℤ b a) then false else true

-- The bit pattern of a 64-bit signed integer, and the integer of a bit pattern.
unfoldable pub to_u64 : ℤ → ℕ
to_u64 (pos n) = n % 2 ^ 64
to_u64 (negsuc n) = 2 ^ 64 - 1 - n % 2 ^ 64

unfoldable pub from_u64 : ℕ → ℤ
from_u64 w = if ltb w (2 ^ 63) then pos w else negsuc (2 ^ 64 - 1 - w)

-- What a 64-bit signed result is stored as.
unfoldable pub wrap_i64 : ℤ → ℤ
unfolding to_u64 from_u64
wrap_i64 z = from_u64 (to_u64 z)

pub data IsI64 : ℤ → Type 0 where
  nonneg : (n : ℕ) → n < 2 ^ 63 → IsI64 (pos n)
  negative : (n : ℕ) → n < 2 ^ 63 → IsI64 (negsuc n)

pub from_u64-to_u64 : (z : ℤ) → IsI64 z → from_u64 (to_u64 z) ≡ z
unfolding to_u64 from_u64
from_u64-to_u64 (pos m) (nonneg n h) = ground arith
from_u64-to_u64 (negsuc m) (negative n h) = ground arith

pub to_u64-lt : (z : ℤ) → to_u64 z < 2 ^ 64
unfolding to_u64
to_u64-lt (pos n) = omega arith
to_u64-lt (negsuc n) = omega arith

pub wrap_i64_id : (z : ℤ) → IsI64 z → wrap_i64 z ≡ z
unfolding wrap_i64
wrap_i64_id z h = from_u64-to_u64 z h

-- The same for 32 bits.
unfoldable pub to_u32 : ℤ → ℕ
to_u32 (pos n) = n % 2 ^ 32
to_u32 (negsuc n) = 2 ^ 32 - 1 - n % 2 ^ 32

unfoldable pub from_u32 : ℕ → ℤ
from_u32 w = if ltb w (2 ^ 31) then pos w else negsuc (2 ^ 32 - 1 - w)

pub to_u32-from_u32 : (w : ℕ) → w < 2 ^ 32 → to_u32 (from_u32 w) ≡ w
unfolding to_u32 from_u32
to_u32-from_u32 w h = ground arith

pub from_u64-IsI64 : (w : ℕ) → w < 2 ^ 64 → IsI64 (from_u64 w)
unfolding from_u64
from_u64-IsI64 w h = elim (dec_lt w (2 ^ 63)) [
  | yes p ↦ rw (lt→ltb w (2 ^ 63) p) (nonneg w p)
  | no p ↦ rw (not_lt→ltb w (2 ^ 63) p) (negative (2 ^ 64 - 1 - w) (omega arith))
]
