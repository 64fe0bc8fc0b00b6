-- ===== src/Prelude/Bits.antt =====
-- `&` with a low mask and `|` of disjoint fields, as arithmetic; and checks over all bytes.
use Prim.Native.Nat.{
  ℕ, zero, suc, ◌+◌, ◌-◌, ◌*◌, ◌/◌, ◌%◌, ◌^◌, ◌≤◌, ◌<◌, min, max, bit_and, bit_or, digits,
  bit_and-bitwise, bit_or-bitwise,
}
use mathlib.Core.Path.{◌≡◌, refl, ap}
use mathlib.Core.Bool.{Bool, true, ◌&&◌}
use native.Mathlib.Omega.{arith}
use native.Mathlib.Nat.{pow-suc, one-le-pow}

-- A test that every number under a limit passes.
unfoldable pub passes_below : (ℕ → Bool) → ℕ → Bool
passes_below test zero = true
passes_below test (suc limit) = passes_below test limit && test limit

pub passes_below_lem :
    (test : ℕ → Bool) (limit i : ℕ) → i < limit → passes_below test limit ≡ true → test i ≡ true
unfolding passes_below
passes_below_lem test zero i small all = absurd (omega arith)
passes_below_lem test (suc limit) i small all = ground (arith, passes_below_lem test limit i)

-- The count of digits to go does not matter once it covers the first number.
enough_digits :
    (z : ℕ → ℕ) (f : ℕ → ℕ → ℕ) (big small a b : ℕ)
    → a ≤ small
    → small ≤ big
    → digits z f big a b ≡ digits z f small a b
enough_digits z f zero zero a b p q = refl
enough_digits z f zero (suc small) a b p q = absurd (omega arith)
enough_digits z f (suc big) zero zero b p q = refl
enough_digits z f (suc big) zero (suc a) b p q = absurd (omega arith)
enough_digits z f (suc big) (suc small) zero b p q = refl
enough_digits z f (suc big) (suc small) (suc a) b p q =
    ap (λ d. d * 2 + f (suc a % 2) (b % 2))
      (enough_digits z f big small (suc a / 2) (b / 2) (omega arith) (omega arith))

or_low : (a b : ℕ) → bit_or a b ≡ bit_or (a / 2) (b / 2) * 2 + max (a % 2) (b % 2)
or_low zero b = omega (arith, bit_or-bitwise 0 b, bit_or-bitwise 0 (b / 2))
or_low (suc a) b = omega (
  arith,
  bit_or-bitwise (suc a) b,
  bit_or-bitwise (suc a / 2) (b / 2),
  enough_digits (λ y. y) max a (suc a / 2) (suc a / 2) (b / 2) (omega arith) (omega arith),
)

and_low : (a b : ℕ) → bit_and a b ≡ bit_and (a / 2) (b / 2) * 2 + min (a % 2) (b % 2)
and_low zero b = omega (arith, bit_and-bitwise 0 b, bit_and-bitwise 0 (b / 2))
and_low (suc a) b = omega (
  arith,
  bit_and-bitwise (suc a) b,
  bit_and-bitwise (suc a / 2) (b / 2),
  enough_digits (λ y. 0) min a (suc a / 2) (suc a / 2) (b / 2) (omega arith) (omega arith),
)

-- Below a bound, since the step goes from `a / 2` to `a`.
or_zero_below : (n a : ℕ) → a ≤ n → bit_or a 0 ≡ a
or_zero_below n zero h = refl
or_zero_below zero (suc a) h = absurd (omega arith)
or_zero_below (suc n) (suc a) h =
    omega (arith, or_low (suc a) 0, or_zero_below n (suc a / 2) (omega arith))

and_zero_below : (n a : ℕ) → a ≤ n → bit_and a 0 ≡ 0
and_zero_below n zero h = refl
and_zero_below zero (suc a) h = absurd (omega arith)
and_zero_below (suc n) (suc a) h =
    omega (arith, and_low (suc a) 0, and_zero_below n (suc a / 2) (omega arith))

double_field : (hi k : ℕ) → hi * 2 ^ suc k ≡ 2 * (hi * 2 ^ k)
double_field hi k = omega (arith, ap (λ (t : ℕ). hi * t) (pow-suc 2 k))

-- A high field over a low one that fits under it.
pub or_fields : (k hi lo : ℕ) → lo < 2 ^ k → bit_or (hi * 2 ^ k) lo ≡ hi * 2 ^ k + lo
or_fields zero hi lo fits = ground (arith, or_zero_below hi hi)
or_fields (suc k) hi lo fits = ground (
  arith,
  or_low (hi * 2 ^ suc k) lo,
  double_field hi k,
  pow-suc 2 k,
  or_fields k hi (lo / 2) (omega (arith, pow-suc 2 k)),
)

and_low_field : (k hi lo : ℕ) → lo < 2 ^ k → bit_and (hi * 2 ^ k + lo) (2 ^ k - 1) ≡ lo
and_low_field zero hi lo fits = ground (arith, and_zero_below (hi * 1 + lo) (hi * 1 + lo))
and_low_field (suc k) hi lo fits = ground (
  arith,
  and_low (hi * 2 ^ suc k + lo) (2 ^ suc k - 1),
  double_field hi k,
  pow-suc 2 k,
  one-le-pow k 2,
  and_low_field k hi (lo / 2) (omega (arith, pow-suc 2 k)),
)

-- `a & ((1 << k) - 1)` is a remainder.
pub and_mask : (k a : ℕ) → bit_and a (2 ^ k - 1) ≡ a % 2 ^ k
and_mask k a = ground (arith, one-le-pow k 2, and_low_field k (a / 2 ^ k) (a % 2 ^ k))

-- The same with the low field first.
pub or_fields_low : (k hi lo : ℕ) → lo < 2 ^ k → bit_or lo (hi * 2 ^ k) ≡ hi * 2 ^ k + lo
or_fields_low zero hi zero fits = omega (arith, bit_or-bitwise 0 (hi * 2 ^ 0))
or_fields_low zero hi (suc lo) fits = absurd (omega arith)
or_fields_low (suc k) hi lo fits = ground (
  arith,
  or_low lo (hi * 2 ^ suc k),
  double_field hi k,
  pow-suc 2 k,
  or_fields_low k hi (lo / 2) (omega (arith, pow-suc 2 k)),
)
