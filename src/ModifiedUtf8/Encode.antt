-- ===== src/ModifiedUtf8/Encode.antt =====
-- The bytes of a code unit in plain arithmetic, and what the encoder appends.
use lavalink_rs.Prelude.{
  ℕ, ◌+◌, ◌/◌, ◌%◌, ◌<◌, ◌≡◌, sym, ◌∙◌, List, [], ◌∷◌, ◌++◌, append-nil, append_assoc, All, bit_and,
  bit_or, arith, ltb, leb, ◌&&◌, if◌then◌else◌,
}
use lavalink_rs.Prelude.Bits.{or_fields, and_mask}
use lavalink_rs.Unicode.{Text, IsText, encode_utf16}
use lavalink_rs.Unicode.Utf16.{IsU16, encode_utf16-IsU16}
use lavalink_rs.ModifiedUtf8.{push_unit, push_units, encode_modified_utf8_into}

unfoldable pub unit_bytes : ℕ → List ℕ
unit_bytes u =
    if leb 1 u && ltb u 128
    then u ∷ []
    else if ltb u 2048
    then (192 + u / 64) ∷ (128 + u % 64) ∷ []
    else (224 + u / 4096) ∷ (128 + u / 64 % 64) ∷ (128 + u % 64) ∷ []

unfoldable pub units_bytes : List ℕ → List ℕ
units_bytes [] = []
units_bytes (u ∷ us) = unit_bytes u ++ units_bytes us

-- The bytes of each shape, as the encoder computes them.
lead_two : (u : ℕ) → u < 2048 → bit_or 0xC0 (u / 64 % 256) ≡ 192 + u / 64
lead_two u h = omega (arith, or_fields 5 6 (u / 64 % 256) (omega arith))

lead_three : (u : ℕ) → u < 0x1_0000 → bit_or 0xE0 (u / 4096 % 256) ≡ 224 + u / 4096
lead_three u h = omega (arith, or_fields 4 14 (u / 4096 % 256) (omega arith))

trailing : (u : ℕ) → bit_or 0x80 (bit_and u 0x3F % 256) ≡ 128 + u % 64
trailing u = rw (and_mask 6 u, small) (or_fields 6 2 (u % 64) (omega arith))
  where
    small : u % 64 % 256 ≡ u % 64
    small = omega arith

push_unit-unit_bytes : (u : ℕ) (out : List ℕ) → IsU16 u → push_unit u out ≡ out ++ unit_bytes u
unfolding push_unit unit_bytes
push_unit-unit_bytes u out h = ground (
  arith,
  lead_two u,
  lead_three u,
  trailing u,
  trailing (u / 64),
  append_assoc out ((192 + u / 64) ∷ []) ((128 + u % 64) ∷ []),
  append_assoc out ((224 + u / 4096) ∷ []) ((128 + u / 64 % 64) ∷ []),
  append_assoc out ((224 + u / 4096) ∷ (128 + u / 64 % 64) ∷ []) ((128 + u % 64) ∷ []),
)

push_units-units_bytes :
    (us out : List ℕ) → All IsU16 us → push_units us out ≡ out ++ units_bytes us
unfolding push_units units_bytes
push_units-units_bytes [] out h = sym (append-nil out)
push_units-units_bytes (u ∷ us) out (hu, hs) =
    push_units-units_bytes us (push_unit u out) hs
    ∙ (λ i. push_unit-unit_bytes u out hu i ++ units_bytes us)
    ∙ append_assoc out (unit_bytes u) (units_bytes us)

-- The bytes of a text, apart from the buffer that they go to.
unfoldable pub text_bytes : Text → List ℕ
text_bytes s = units_bytes (encode_utf16 s)

pub encode_modified_utf8_into-append :
    (s : Text) (out : List ℕ) → IsText s → encode_modified_utf8_into s out ≡ out ++ text_bytes s
unfolding encode_modified_utf8_into text_bytes
encode_modified_utf8_into-append s out h =
    push_units-units_bytes (encode_utf16 s) out (encode_utf16-IsU16 s h)
