-- ===== src/ModifiedUtf8.antt =====
-- `encode_modified_utf8_into`, `encode_modified_utf8` and `decode_modified_utf8` of
-- crates/protocol/src/java_io.rs: Java's modified UTF-8, over UTF-16 code units.
-- A `u8` or `u16` is a number below 2^8 or 2^16; the casts `as u8` are written out.
pub mod Ascii
pub mod Encode
pub mod Decode
mod Tests
use lavalink_rs.Prelude.{
  ℕ, zero, suc, ◌+◌, ◌-◌, ◌*◌, ◌/◌, ◌%◌, ◌^◌, Bool, true, false, ◌&&◌, ◌||◌, List, [], ◌∷◌, ◌++◌,
  Option, none, some, bit_and, bit_or, ltb, leb, ◌==◌, min, if◌then◌else◌, length, get_elem?,
}
use lavalink_rs.Outcome.{Outcome, ok, err, stuck, map_ok}
use lavalink_rs.Unicode.{Text, encode_utf16, from_utf16_lossy}

-- One round of the `for` loop: the bytes that a code unit adds to `out`.
unfoldable pub push_unit : ℕ → List ℕ → List ℕ
push_unit unit out =
    if leb 0x0001 unit && leb unit 0x007F
    then out ++ (unit % 256 ∷ [])
    else if unit == 0x0000 || (leb 0x0080 unit && leb unit 0x07FF)
    then (out ++ (bit_or 0xC0 (unit / 2 ^ 6 % 256) ∷ []))
      ++ (bit_or 0x80 (bit_and unit 0x3F % 256) ∷ [])
    else ((out ++ (bit_or 0xE0 (unit / 2 ^ 12 % 256) ∷ []))
        ++ (bit_or 0x80 (bit_and (unit / 2 ^ 6) 0x3F % 256) ∷ []))
      ++ (bit_or 0x80 (bit_and unit 0x3F % 256) ∷ [])

unfoldable pub push_units : List ℕ → List ℕ → List ℕ
push_units [] out = out
push_units (unit ∷ units) out = push_units units (push_unit unit out)

unfoldable pub encode_modified_utf8_into : Text → List ℕ → List ℕ
encode_modified_utf8_into value out = push_units (encode_utf16 value) out

pub encode_modified_utf8 : Text → List ℕ
encode_modified_utf8 value = encode_modified_utf8_into value []

-- The closure `continuation`; an error is the offset of the bad byte.
continuation_of : List ℕ → ℕ → Option ℕ → Outcome ℕ ℕ
continuation_of bytes index none = err (min index (length bytes))
continuation_of bytes index (some byte) =
    if bit_and byte 0xC0 == 0x80 then ok (bit_and byte 0x3F) else err (min index (length bytes))

unfoldable pub continuation : List ℕ → ℕ → Outcome ℕ ℕ
unfolding continuation_of
continuation bytes index = continuation_of bytes index (get_elem? bytes index)

infixl 5 ◌>>=◌
abbrev ◌>>=◌ {ℓ κ} : {A : Type ℓ} {B : Type κ} → Outcome ℕ A → (A → Outcome ℕ B) → Outcome ℕ B
ok a >>= f = f a
err e >>= f = err e
stuck >>= f = stuck

-- The `match b` of one round at index `i`: the unit that is read, and the next index.
unfoldable pub read_unit : List ℕ → ℕ → ℕ → Outcome ℕ (ℕ × ℕ)
unfolding continuation
read_unit bytes i b =
    if leb b 0x7F
    then ok (b, i + 1)
    else if leb 0xC0 b && leb b 0xDF
    then (do c ← continuation bytes (i + 1); ok (bit_or (bit_and b 0x1F * 2 ^ 6) c, i + 2))
    else if leb 0xE0 b && leb b 0xEF
    then (do
      c ← continuation bytes (i + 1)
      d ← continuation bytes (i + 2)
      ok (bit_or (bit_or (bit_and b 0x0F * 2 ^ 12) (c * 2 ^ 6)) d, i + 3))
    else err i

-- The `while` loop. Each round moves `i` forward, so as much fuel as there are bytes suffices.
unfoldable pub decode_loop : ℕ → List ℕ → ℕ → List ℕ → Outcome ℕ (List ℕ)
decode_loop zero bytes i units = if ltb i (length bytes) then stuck else ok units
decode_loop (suc fuel) bytes i units = elim (get_elem? bytes i) [
  | none ↦ ok units
  | some b ↦ elim (read_unit bytes i b) [
    | ok (unit, next) ↦ decode_loop fuel bytes next (units ++ (unit ∷ []))
    | err e ↦ err e
    | stuck ↦ stuck
  ]
]

unfoldable pub is_ascii : List ℕ → Bool
is_ascii [] = true
is_ascii (b ∷ bs) = ltb b 0x80 && is_ascii bs

-- What `decode_modified_utf8` does past its fast path.
unfoldable pub decode_general : List ℕ → Outcome ℕ Text
decode_general bytes = map_ok from_utf16_lossy (decode_loop (length bytes) bytes 0 [])

-- ASCII bytes are the text's scalar values as they stand.
unfoldable pub decode_modified_utf8 : List ℕ → Outcome ℕ Text
decode_modified_utf8 bytes = if is_ascii bytes then ok bytes else decode_general bytes
