-- ===== src/Unicode.antt =====
-- The parts of Rust's `str` that the protocol crate uses. A `String` is the list of its Unicode
-- scalar values; `encode_utf16` and `String::from_utf16_lossy` are those of the standard library.
pub mod Utf16
use lavalink_rs.Prelude.{
  ℕ, ◌+◌, ◌-◌, ◌*◌, ◌/◌, ◌%◌, ◌<◌, ◌≤◌, ◌⊎◌, Bool, ◌&&◌, List, [], ◌∷◌, ◌++◌, All, ltb, leb,
  if◌then◌else◌,
}

abbrev pub Text : Type 0
Text = List ℕ

-- A Unicode scalar value: a code point that is no surrogate.
abbrev pub IsScalar : ℕ → Type 0
IsScalar c = (c < 0xD800) ⊎ ((0xE000 ≤ c) × (c < 0x11_0000))

abbrev pub IsText : Text → Type 0
IsText = All IsScalar

unfoldable pub encode_utf16 : Text → List ℕ
encode_utf16 [] = []
encode_utf16 (c ∷ cs) =
    if ltb c 0x1_0000
    then c ∷ encode_utf16 cs
    else (0xD800 + (c - 0x1_0000) / 1024) ∷ (0xDC00 + (c - 0x1_0000) % 1024) ∷ encode_utf16 cs

abbrev pub is_high : ℕ → Bool
is_high u = leb 0xD800 u && leb u 0xDBFF

abbrev pub is_low : ℕ → Bool
is_low u = leb 0xDC00 u && leb u 0xDFFF

abbrev pub replacement : ℕ
replacement = 0xFFFD

-- A surrogate with no partner becomes U+FFFD; the unit behind it is read again on its own.
unfoldable pub from_utf16_lossy : List ℕ → Text
from_utf16_lossy [] = []
from_utf16_lossy (u ∷ []) =
    (if is_high u then replacement else if is_low u then replacement else u) ∷ []
from_utf16_lossy (u ∷ v ∷ us) =
    let single = from_utf16_lossy (v ∷ us) in
    let paired = from_utf16_lossy us in
    if is_high u
    then (if is_low v
        then (0x1_0000 + (u - 0xD800) * 1024 + (v - 0xDC00)) ∷ paired
        else replacement ∷ single)
    else (if is_low u then replacement ∷ single else u ∷ single)
