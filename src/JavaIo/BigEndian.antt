-- ===== src/JavaIo/BigEndian.antt =====
-- `to_be_bytes` and `from_be_bytes` of Rust's integers, at every width.
use lavalink_rs.Prelude.{
  ℕ, zero, suc, ◌+◌, ◌*◌, ◌/◌, ◌%◌, ◌^◌, ◌≤◌, ◌<◌, ◌≡◌, refl, List, [], ◌∷◌, ◌++◌, arith, length,
  All, length-append,
}
use native.Mathlib.Nat.{pow-suc}

-- The lowest `k` bytes, the highest of them first.
unfoldable pub to_be_bytes : ℕ → ℕ → List ℕ
to_be_bytes zero w = []
to_be_bytes (suc k) w = to_be_bytes k (w / 256) ++ (w % 256 ∷ [])

unfoldable pub be_from : ℕ → List ℕ → ℕ
be_from acc [] = acc
be_from acc (b ∷ bs) = be_from (acc * 256 + b) bs

unfoldable pub from_be_bytes : List ℕ → ℕ
unfolding be_from
from_be_bytes bs = be_from 0 bs

pub length-to_be_bytes : (k w : ℕ) → length (to_be_bytes k w) ≡ k
unfolding to_be_bytes
length-to_be_bytes zero w = refl
length-to_be_bytes (suc k) w =
    omega (
      arith,
      length-append (to_be_bytes k (w / 256)) (w % 256 ∷ []),
      length-to_be_bytes k (w / 256),
    )

be_from-append :
    (acc : ℕ) (bs : List ℕ) (b : ℕ) → be_from acc (bs ++ (b ∷ [])) ≡ be_from acc bs * 256 + b
unfolding be_from
be_from-append acc [] b = refl
be_from-append acc (c ∷ bs) b = be_from-append (acc * 256 + c) bs b

pub from_be_bytes-to_be_bytes : (k w : ℕ) → w < 256 ^ k → from_be_bytes (to_be_bytes k w) ≡ w
unfolding from_be_bytes to_be_bytes
from_be_bytes-to_be_bytes zero w h = omega arith
from_be_bytes-to_be_bytes (suc k) w h = omega (
  arith,
  be_from-append 0 (to_be_bytes k (w / 256)) (w % 256),
  from_be_bytes-to_be_bytes k (w / 256) (omega (arith, pow-suc 256 k)),
)

scaled : (x b : ℕ) → b < 256 → b * x ≤ 255 * x
scaled x b h = grind arith

carry : (acc b r x y : ℕ) → b < 256 → r < (acc * 256 + b + 1) * x → y ≡ x * 256 → r < (acc + 1) * y
carry acc b r x y h p e = rw e (omega (arith, scaled x b h))

be_from-lt :
    (bs : List ℕ) (acc : ℕ) → All (λ b. b < 256) bs → be_from acc bs < (acc + 1) * 256 ^ length bs
unfolding be_from
be_from-lt [] acc h = omega arith
be_from-lt (b ∷ bs) acc (hb, hs) =
    carry acc b _ (256 ^ length bs) _ hb (be_from-lt bs (acc * 256 + b) hs)
      (pow-suc 256 (length bs))

pub from_be_bytes-lt : (bs : List ℕ) → All (λ b. b < 256) bs → from_be_bytes bs < 256 ^ length bs
unfolding from_be_bytes
from_be_bytes-lt bs h = omega (arith, be_from-lt bs 0 h)

pub from_be_bytes_single : (b : ℕ) → from_be_bytes (b ∷ []) ≡ b
unfolding from_be_bytes
from_be_bytes_single b = omega arith
