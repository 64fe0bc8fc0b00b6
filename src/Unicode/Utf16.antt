-- ===== src/Unicode/Utf16.antt =====
-- `from_utf16_lossy` loses nothing of what `encode_utf16` wrote.
use lavalink_rs.Prelude.{
  ℕ, ◌+◌, ◌-◌, ◌*◌, ◌/◌, ◌%◌, ◌<◌, ◌≡◌, refl, ap, ap₂, inl, inr, List, [], ◌∷◌, All, arith, ltb,
  Bool-cases,
}
use lavalink_rs.Unicode.{Text, IsScalar, IsText, encode_utf16, from_utf16_lossy}

abbrev pub IsU16 : ℕ → Type 0
IsU16 u = u < 0x1_0000

pub encode_utf16-IsU16 : (s : Text) → IsText s → All IsU16 (encode_utf16 s)
unfolding encode_utf16
encode_utf16-IsU16 [] h = tt
encode_utf16-IsU16 (c ∷ cs) (hc, hs) = ground (arith, encode_utf16-IsU16 cs hs)

-- A unit that is no surrogate stands for itself, whatever follows.
pub plain_unit :
    (u : ℕ) (us : List ℕ) → IsScalar u → from_utf16_lossy (u ∷ us) ≡ u ∷ from_utf16_lossy us
unfolding from_utf16_lossy
plain_unit u [] h = ground arith
plain_unit u (v ∷ us) h = ground arith

surrogate_pair :
    (hi lo : ℕ) (us : List ℕ)
    → hi < 1024
    → lo < 1024
    → from_utf16_lossy ((0xD800 + hi) ∷ (0xDC00 + lo) ∷ us)
      ≡ (0x1_0000 + hi * 1024 + lo) ∷ from_utf16_lossy us
unfolding from_utf16_lossy
surrogate_pair hi lo us p q = ground arith

pub from_utf16_lossy-encode_utf16 : (s : Text) → IsText s → from_utf16_lossy (encode_utf16 s) ≡ s
unfolding encode_utf16
from_utf16_lossy-encode_utf16 [] h = unfold from_utf16_lossy in refl
from_utf16_lossy-encode_utf16 (c ∷ cs) (hc, hs) = elim (Bool-cases (ltb c 0x1_0000)) [
  | inl e ↦
      rw (e, plain_unit c (encode_utf16 cs) hc) (ap (◌∷◌ c) (from_utf16_lossy-encode_utf16 cs hs))
  | inr e ↦
      let hi : ℕ = (c - 0x1_0000) / 1024 in
      let lo : ℕ = (c - 0x1_0000) % 1024 in
      rw (e, surrogate_pair hi lo (encode_utf16 cs) (ground arith) (ground arith))
        (ap₂ ◌∷◌ (ground arith) (from_utf16_lossy-encode_utf16 cs hs))
]

-- Whatever the code units are, the text is well formed.
pub from_utf16_lossy-IsText : (us : List ℕ) → All IsU16 us → IsText (from_utf16_lossy us)
unfolding from_utf16_lossy
from_utf16_lossy-IsText [] h = tt
from_utf16_lossy-IsText (u ∷ []) h = ground arith
from_utf16_lossy-IsText (u ∷ v ∷ us) (hu, (hv, hs)) =
    ground (arith, from_utf16_lossy-IsText (v ∷ us) (hv, hs), from_utf16_lossy-IsText us hs)
