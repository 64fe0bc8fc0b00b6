-- ===== src/ModifiedUtf8/Ascii.antt =====
-- The fast path of `decode_modified_utf8` for ASCII input, and the properties of the codec.
use lavalink_rs.Outcome.{map_ok, err, ok}
use lavalink_rs.Prelude.{
  inr, sym, ap, ◌≤◌, ◌∷◌, inl, arith, ◌⊎◌, ◌∙◌, length, [], ◌<◌, true, Bool-cases, All, List, ℕ,
  ◌≡◌, refl,
}
use lavalink_rs.Unicode.{IsText, Text, encode_utf16, from_utf16_lossy}
use lavalink_rs.Unicode.Utf16.{
  plain_unit, encode_utf16-IsU16, from_utf16_lossy-encode_utf16, from_utf16_lossy-IsText,
}
use lavalink_rs.ModifiedUtf8.{encode_modified_utf8, decode_general, decode_modified_utf8, is_ascii}
use lavalink_rs.ModifiedUtf8.Encode.{text_bytes, encode_modified_utf8_into-append}
use lavalink_rs.ModifiedUtf8.Decode.{decode_loop-Loops, decode_loop-units_bytes, decode_loop-ascii}

is_ascii-All : (bs : List ℕ) → is_ascii bs ≡ true → All (λ b. b < 0x80) bs
unfolding is_ascii
is_ascii-All [] h = tt
is_ascii-All (b ∷ bs) h = (ground arith, is_ascii-All bs (ground arith))

from_utf16_lossy_ascii : (bs : List ℕ) → All (λ b. b < 0x80) bs → from_utf16_lossy bs ≡ bs
from_utf16_lossy_ascii [] h = unfold from_utf16_lossy in refl
from_utf16_lossy_ascii (b ∷ bs) (hb, hs) =
    plain_unit b bs (inl (omega arith)) ∙ ap (◌∷◌ b) (from_utf16_lossy_ascii bs hs)

decode_general_ascii : (bs : List ℕ) → is_ascii bs ≡ true → decode_general bs ≡ ok bs
unfolding decode_general
decode_general_ascii bs h =
    ap (map_ok from_utf16_lossy)
      (decode_loop-ascii bs (length bs) [] [] (is_ascii-All bs h) (omega arith))
    ∙ ap ok (from_utf16_lossy_ascii bs (is_ascii-All bs h))

-- The fast path changes nothing: on every input the decoder returns what its loop alone returns.
pub decode_modified_utf8-decode_general :
    (bytes : List ℕ) → decode_modified_utf8 bytes ≡ decode_general bytes
unfolding decode_modified_utf8
decode_modified_utf8-decode_general bytes = elim (Bool-cases (is_ascii bytes)) [
  | inl e ↦ rw e (sym (decode_general_ascii bytes e))
  | inr e ↦ rw e
]

decode_general-text_bytes : (s : Text) → IsText s → decode_general (text_bytes s) ≡ ok s
unfolding decode_general text_bytes
decode_general-text_bytes s h =
    ap (map_ok from_utf16_lossy) (
      decode_loop-units_bytes (encode_utf16 s) (length (text_bytes s)) [] []
        (encode_utf16-IsU16 s h) (omega arith))
    ∙ ap ok (from_utf16_lossy-encode_utf16 s h)

pub decode_modified_utf8-text_bytes :
    (s : Text) → IsText s → decode_modified_utf8 (text_bytes s) ≡ ok s
decode_modified_utf8-text_bytes s h =
    decode_modified_utf8-decode_general (text_bytes s) ∙ decode_general-text_bytes s h

-- Decoding the encoding of any text gives the text back, NUL and supplementary characters included.
pub decode_modified_utf8-encode_modified_utf8 :
    (s : Text) → IsText s → decode_modified_utf8 (encode_modified_utf8 s) ≡ ok s
unfolding encode_modified_utf8
decode_modified_utf8-encode_modified_utf8 s h =
    rw (encode_modified_utf8_into-append s [] h) (decode_modified_utf8-text_bytes s h)

-- On any bytes the decoder ends: with a text, whose characters are Unicode scalar values, or
-- with an error whose offset does not lie past the end of the input.
pub decode_modified_utf8_total :
    (bytes : List ℕ)
    → ((s : Text) × IsText s × (decode_modified_utf8 bytes ≡ ok s))
      ⊎ ((e : ℕ) × (e ≤ length bytes) × (decode_modified_utf8 bytes ≡ err e))
unfolding decode_general
decode_modified_utf8_total bytes =
    rw decode_modified_utf8-decode_general
      (elim (decode_loop-Loops (length bytes) bytes 0 [] (omega arith) tt) [
        | inl (us, h, e) ↦
            inl (from_utf16_lossy us, from_utf16_lossy-IsText us h, ap (map_ok from_utf16_lossy) e)
        | inr (k, h, e) ↦ inr (k, h, ap (map_ok from_utf16_lossy) e)
      ])
