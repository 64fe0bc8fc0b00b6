-- ===== src/JavaIo.antt =====
-- crates/protocol/src/java_io.rs: the byte reader `DataInput` and the byte writer `DataOutput`.
-- Bytes are numbers below 256, signed values are integers. A method that takes `&mut self`
-- returns its outcome and the new state, on errors too.
pub mod BigEndian
pub mod Input
pub mod Output
pub mod Nul
mod Tests
use lavalink_rs.Prelude.{
  ℕ, suc, ◌+◌, ◌-◌, ◌*◌, ◌%◌, ◌/◌, ◌^◌, Bool, true, false, not, List, [], ◌∷◌, ◌++◌, Option, none,
  some, length, take, drop, ltb, leb, ◌==◌, if◌then◌else◌,
}
use lavalink_rs.Prelude.Int.{ℤ, to_u64, from_u64, to_u32, from_u32}
use lavalink_rs.Outcome.{Outcome, ok, err, stuck, map_err}
use lavalink_rs.Unicode.{Text}
use lavalink_rs.ModifiedUtf8.{encode_modified_utf8_into, decode_modified_utf8}
use BigEndian.{to_be_bytes, from_be_bytes}

pub data JavaIoError : Type 0 where
  eof : (offset wanted available : ℕ) → JavaIoError
  malformed_utf8 : (offset : ℕ) → JavaIoError
  string_too_long : (len : ℕ) → JavaIoError

pub record DataInput : Type 0 where
  pub bytes : List ℕ
  pub offset : ℕ

unfoldable pub new_input : List ℕ → DataInput
new_input bytes = record { bytes = bytes; offset = 0 }

unfoldable pub remaining : DataInput → List ℕ
remaining input = drop input.offset input.bytes

-- A method of `DataInput`, over the errors `E` that `?` hands on.
abbrev pub Reads : Type 0 → Type 0 → Type 0
Reads E A = DataInput → Outcome E A × DataInput

abbrev pub and_then :
    {E A B : Type 0} → Outcome E A × DataInput → (A → Reads E B) → Outcome E B × DataInput
and_then (ok a, input) f = f a input
and_then (err e, input) f = (err e, input)
and_then (stuck, input) f = (stuck, input)

infixl 5 ◌>>=◌
abbrev pub ◌>>=◌ : {E A B : Type 0} → Reads E A → (A → Reads E B) → Reads E B
◌>>=◌ m f input = and_then (m input) f

abbrev pub pure : {E A : Type 0} → A → Reads E A
pure a input = (ok a, input)

abbrev pub fail : {E A : Type 0} → E → Reads E A
fail e input = (err e, input)

unfoldable pub take_bytes : ℕ → Reads JavaIoError (List ℕ)
take_bytes n input =
    let available = length input.bytes - input.offset in
    if ltb available n
    then (err (eof input.offset n available), input)
    else (ok (take n (drop input.offset input.bytes)), record input { offset = input.offset + n })

unfoldable pub read_u8 : Reads JavaIoError ℕ
read_u8 = do b ← take_bytes 1; pure (from_be_bytes b)

unfoldable pub read_bool : Reads JavaIoError Bool
read_bool = do b ← read_u8; pure (not (b == 0))

unfoldable pub read_u16 : Reads JavaIoError ℕ
read_u16 = do b ← take_bytes 2; pure (from_be_bytes b)

unfoldable pub read_i32 : Reads JavaIoError ℤ
read_i32 = do b ← take_bytes 4; pure (from_u32 (from_be_bytes b))

unfoldable pub read_i64 : Reads JavaIoError ℤ
read_i64 = do b ← take_bytes 8; pure (from_u64 (from_be_bytes b))

unfoldable pub read_utf : Reads JavaIoError Text
read_utf = do
  len ← read_u16
  start ← λ input. (ok input.offset, input)
  bytes ← take_bytes len
  λ input.
      (map_err (λ relative. malformed_utf8 (start + relative)) (decode_modified_utf8 bytes), input)

unfoldable pub read_nullable_utf : Reads JavaIoError (Option Text)
read_nullable_utf = do
  present ← read_bool
  if present then (do text ← read_utf; pure (some text)) else pure none

pub record DataOutput : Type 0 where
  pub bytes : List ℕ

unfoldable pub new_output : DataOutput
new_output = record { bytes = [] }

unfoldable pub extend : List ℕ → DataOutput → DataOutput
extend more out = record { bytes = out.bytes ++ more }

-- `Vec::truncate`.
unfoldable pub truncate : ℕ → DataOutput → DataOutput
truncate n out = record { bytes = take n out.bytes }

-- `slice[start..start + new.len()].copy_from_slice(new)`, on a vector that is long enough.
unfoldable pub patch : ℕ → List ℕ → List ℕ → List ℕ
patch start new bytes = take start bytes ++ (new ++ drop (start + length new) bytes)

unfoldable pub write_u8 : ℕ → DataOutput → DataOutput
unfolding extend
write_u8 value out = extend (value ∷ []) out

unfoldable pub write_bool : Bool → DataOutput → DataOutput
unfolding extend
write_bool value out = extend ((if value then 1 else 0) ∷ []) out

unfoldable pub write_i32 : ℤ → DataOutput → DataOutput
unfolding extend
write_i32 value out = extend (to_be_bytes 4 (to_u32 value)) out

unfoldable pub write_i64 : ℤ → DataOutput → DataOutput
unfolding extend
write_i64 value out = extend (to_be_bytes 8 (to_u64 value)) out

unfoldable pub write_raw : List ℕ → DataOutput → DataOutput
unfolding extend
write_raw value out = extend value out

-- The text is encoded behind a placeholder length, which is patched or rolled back.
unfoldable pub write_utf : Text → DataOutput → Outcome JavaIoError (Unit {0}) × DataOutput
unfolding truncate
write_utf value out =
    let start = length out.bytes in
    let bytes = encode_modified_utf8_into value (out.bytes ++ to_be_bytes 2 0) in
    let len = length bytes - start - 2 in
    if ltb len (2 ^ 16)
    then (ok tt, record { bytes = patch start (to_be_bytes 2 len) bytes })
    else (err (string_too_long len), truncate start (record { bytes = bytes }))

-- What `if let Err(error)` does with the outcome of `write_utf`.
or_roll_back :
    ℕ → Outcome JavaIoError (Unit {0}) × DataOutput → Outcome JavaIoError (Unit {0}) × DataOutput
or_roll_back start (ok _, out) = (ok tt, out)
or_roll_back start (err e, out) = (err e, truncate start out)
or_roll_back start (stuck, out) = (stuck, out)

unfoldable pub write_nullable_utf :
    Option Text → DataOutput → Outcome JavaIoError (Unit {0}) × DataOutput
unfolding or_roll_back
write_nullable_utf none out = (ok tt, write_bool false out)
write_nullable_utf (some text) out =
    or_roll_back (length out.bytes) (write_utf text (write_bool true out))
