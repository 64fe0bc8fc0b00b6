-- ===== src/EncodedTrack.antt =====
-- crates/protocol/src/encoded_track.rs: lavaplayer's encoded track, and the part of
-- crates/protocol/src/player.rs that it carries. Base64 is a third-party crate: a parameter.
pub mod Encode
pub mod Fields
pub mod RoundTrip
pub mod Decode
pub mod Version
mod Tests
use lavalink_rs.Unicode.{Text}
use lavalink_rs.Outcome.{map_ok, err, ok, map_err, Outcome}
use lavalink_rs.Prelude.{
  ℕ, zero, suc, ◌+◌, ◌-◌, ◌*◌, ◌/◌, ◌%◌, ◌^◌, ◌≤◌, ◌<◌, min, max, bit_and, bit_or, ◌≡◌, refl, sym,
  ap, ap₂, ◌∙◌, ◌≢◌, ◌↔◌, ◌⊎◌, inl, inr, Bool, true, false, not, ◌&&◌, ◌||◌, Option, none, some,
  List, [], ◌∷◌, ◌++◌, map, append-nil, append_assoc, arith, ltb, leb, ◌==◌, if◌then◌else◌, ltb→lt,
  lt→ltb, not_lt→ltb, leb→le, ==_iff, ==_refl, Bool-cases, Option-cases, length, get_elem?, take,
  drop, replicate, All, length-append, length-take, length-drop, length-replicate, take-append-drop,
  take-append, drop-append, take_of_le, drop_of_le, All-append, get_elem?-append, get_elem?-eq-none,
  get_elem?_lt, get_elem?-All,
}
use lavalink_rs.Prelude.Int.{ℤ, pos, to_u32, from_u32, from_u64}
use lavalink_rs.Outcome.{stuck}
use lavalink_rs.JavaIo.BigEndian.{to_be_bytes, from_be_bytes}
use lavalink_rs.JavaIo.{
  JavaIoError, DataInput, new_input, remaining, Reads, ◌>>=◌, pure, fail, and_then, read_u8,
  read_bool, read_i32, read_i64, read_utf, read_nullable_utf, DataOutput, new_output, write_u8,
  write_bool, write_i32, write_i64, write_raw, write_utf, write_nullable_utf, patch,
}

-- `TrackInfo` of player.rs.
pub record TrackInfo : Type 0 where
  pub identifier : Text
  pub is_seekable : Bool
  pub author : Text
  pub length_ms : ℤ
  pub is_stream : Bool
  pub position : ℤ
  pub title : Text
  pub uri : Option Text
  pub source_name : Text
  pub artwork_url : Option Text
  pub isrc : Option Text

-- `not_base64` carries the crate's error, which the model does not look into.
pub data CodecError : Type 0 where
  not_base64 : CodecError
  io : JavaIoError → CodecError
  unsupported_version : (version : ℕ) → CodecError
  size_mismatch : (declared actual : ℕ) → CodecError
  missing_position : CodecError
  too_large : (payload : ℕ) → CodecError

pub data SourceTail : Type 0 where
  empty : SourceTail
  probe : Text → SourceTail
  raw : List ℕ → SourceTail

pub record DecodedTrack : Type 0 where
  pub info : TrackInfo
  pub tail : SourceTail
  pub version : ℕ

abbrev pub flag_versioned : ℕ
flag_versioned = 1

abbrev pub track_info_version : ℕ
track_info_version = 3

abbrev pub version_with_uri : ℕ
version_with_uri = 2

abbrev pub version_with_artwork_and_isrc : ℕ
version_with_artwork_and_isrc = 3

abbrev pub size_mask : ℕ
size_mask = 0x3FFF_FFFF

abbrev pub header_bytes : ℕ
header_bytes = 4

-- `DecodedTrack::new`.
unfoldable pub new_decoded : TrackInfo → SourceTail → DecodedTrack
new_decoded info tail = record { info = info; tail = tail; version = track_info_version }

unfoldable pub text_eq : Text → Text → Bool
text_eq [] [] = true
text_eq [] (d ∷ ds) = false
text_eq (c ∷ cs) [] = false
text_eq (c ∷ cs) (d ∷ ds) = c == d && text_eq cs ds

abbrev pub http : Text
http = b'h' ∷ b't' ∷ b't' ∷ b'p' ∷ []

abbrev pub local : Text
local = b'l' ∷ b'o' ∷ b'c' ∷ b'a' ∷ b'l' ∷ []

unfoldable pub is_probing : Text → Bool
unfolding text_eq
is_probing source_name = text_eq source_name http || text_eq source_name local

-- `?` on a `JavaIoError`.
abbrev pub lift : {A : Type 0} → Reads JavaIoError A → Reads CodecError A
lift m input = let (r, input') = m input in (map_err io r, input')

unfoldable pub read_version : ℕ → Reads CodecError ℕ
read_version flags = if not (bit_and flags flag_versioned == 0) then lift read_u8 else pure 1

unfoldable pub read_uri : ℕ → Reads CodecError (Option Text)
read_uri version = if leb version_with_uri version then lift read_nullable_utf else pure none

unfoldable pub read_artwork_and_isrc : ℕ → Reads CodecError (Option Text × Option Text)
read_artwork_and_isrc version =
    if leb version_with_artwork_and_isrc version
    then (do
      artwork_url ← lift read_nullable_utf
      isrc ← lift read_nullable_utf
      pure (artwork_url, isrc))
    else pure (none, none)

tail_of : List ℕ → SourceTail
tail_of [] = empty
tail_of (b ∷ rest) = raw (b ∷ rest)

unfoldable pub read_tail : Text → Reads CodecError SourceTail
unfolding tail_of
read_tail source_name =
    if is_probing source_name
    then (do name ← lift read_utf; pure (probe name))
    else (λ input. (ok (tail_of (remaining input)), input))

unfoldable pub is_unsupported : ℕ → Bool
is_unsupported version = version == 0 || ltb track_info_version version

-- The fields behind the version, in the order of the wire.
unfoldable pub read_fields : ℤ → ℕ → Reads CodecError DecodedTrack
read_fields position version = do
  title ← lift read_utf
  author ← lift read_utf
  length_ms ← lift read_i64
  identifier ← lift read_utf
  is_stream ← lift read_bool
  uri ← read_uri version
  pictured ← read_artwork_and_isrc version
  source_name ← lift read_utf
  tail ← read_tail source_name
  pure (record {
    info = record {
      identifier = identifier;
      is_seekable = not is_stream;
      author = author;
      length_ms = length_ms;
      is_stream = is_stream;
      position = position;
      title = title;
      uri = uri;
      source_name = source_name;
      artwork_url = pictured.0;
      isrc = pictured.1;
    };
    tail = tail;
    version = version;
  })

-- The part of `decode_bytes` that reads the payload without its trailing position.
unfoldable pub read_body : ℕ → ℤ → Reads CodecError DecodedTrack
read_body flags position = do
  version ← read_version flags
  if is_unsupported version
      then fail (unsupported_version version)
      else read_fields position version

-- What the code does with a value that may panic on the way: a panic is `stuck`.
abbrev pub then_decode :
    {A : Type 0}
    → Outcome CodecError A
    → (A → Outcome CodecError DecodedTrack)
    → Outcome CodecError DecodedTrack
then_decode (ok a) k = k a
then_decode (err e) k = err e
then_decode stuck k = stuck

-- `&payload[..size]`, which panics out of range.
unfoldable pub slice_to : ℕ → List ℕ → Outcome CodecError (List ℕ)
slice_to size bytes = if ltb (length bytes) size then stuck else ok (take size bytes)

-- `payload.len() - 8`, which must not underflow.
unfoldable pub position_start : List ℕ → Outcome CodecError ℕ
position_start payload = if ltb (length payload) 8 then stuck else ok (length payload - 8)

-- `split_at`, which panics out of range.
unfoldable pub split_at : ℕ → List ℕ → Outcome CodecError (List ℕ × List ℕ)
split_at mid bytes = if ltb (length bytes) mid then stuck else ok (take mid bytes, drop mid bytes)

-- `i64::from_be_bytes` of what must be eight bytes.
unfoldable pub position_of : List ℕ → Outcome CodecError ℤ
position_of bytes = if length bytes == 8 then ok (from_u64 (from_be_bytes bytes)) else stuck

-- `decode_bytes` once the payload is cut to its declared size.
unfoldable pub decode_sliced : ℕ → List ℕ → Outcome CodecError DecodedTrack
unfolding position_start split_at position_of
decode_sliced flags payload =
    if ltb (length payload) 8
    then err missing_position
    else then_decode (position_start payload) (λ mid. then_decode (split_at mid payload) (λ halves.
      then_decode (position_of halves.1)
        (λ position. (read_body flags position (new_input halves.0)).0)))

-- `decode_bytes` past its header: `rest` is what follows the header in the input.
unfoldable pub decode_payload : ℕ → List ℕ → Outcome CodecError DecodedTrack
unfolding slice_to decode_sliced
decode_payload header rest =
    let size = bit_and header size_mask in
    let flags = header / 2 ^ 30 in
    if ltb (length rest) size
    then err (size_mismatch size (length rest))
    else then_decode (slice_to size rest) (decode_sliced flags)

unfoldable pub decode_bytes : List ℕ → Outcome CodecError DecodedTrack
decode_bytes bytes =
    let reads : Reads CodecError DecodedTrack = do
      header ← lift read_i32
      λ input. (decode_payload (to_u32 header) (remaining input), input)
    in (reads (new_input bytes)).0

-- Writing stops at the first error.
abbrev pub Writes : Type 0
Writes = DataOutput → Outcome CodecError (Unit {0}) × DataOutput

then_write :
    Outcome CodecError (Unit {0}) × DataOutput → Writes → Outcome CodecError (Unit {0}) × DataOutput
then_write (ok _, out) k = k out
then_write (err e, out) k = (err e, out)
then_write (stuck, out) k = (stuck, out)

infixl 5 ◌>>◌
unfoldable pub ◌>>◌ : Writes → Writes → Writes
unfolding then_write
◌>>◌ m k out = then_write (m out) k

-- A writer that cannot fail, and `?` on one that can.
abbrev pub plain : (DataOutput → DataOutput) → Writes
plain f out = (ok tt, f out)

abbrev pub checked : (DataOutput → Outcome JavaIoError (Unit {0}) × DataOutput) → Writes
checked m out = let (r, out') = m out in (map_err io r, out')

unfoldable pub write_tail : SourceTail → Writes
write_tail empty = plain (λ out. out)
write_tail (probe name) = checked (write_utf name)
write_tail (raw bytes) = plain (write_raw bytes)

abbrev pub when : Bool → Writes → Writes
when true m = m
when false m = plain (λ out. out)

-- Everything that `encode_to_bytes` writes, the placeholder of the header first.
unfoldable pub write_track : TrackInfo → SourceTail → ℕ → Writes
write_track info tail version = do
  plain (write_i32 (pos 0))
  when (ltb 1 version) (plain (write_u8 version))
  checked (write_utf info.title)
  checked (write_utf info.author)
  plain (write_i64 info.length_ms)
  checked (write_utf info.identifier)
  plain (write_bool info.is_stream)
  when (leb version_with_uri version) (checked (write_nullable_utf info.uri))
  when (leb version_with_artwork_and_isrc version)
      (do checked (write_nullable_utf info.artwork_url); checked (write_nullable_utf info.isrc))
  checked (write_utf info.source_name)
  write_tail tail
  plain (write_i64 info.position)

-- The header is patched in once the payload's length is known.
unfoldable pub seal : ℕ → List ℕ → Outcome CodecError (List ℕ)
seal version out =
    let payload = length out - header_bytes in
    let flags = if ltb 1 version then flag_versioned else 0 in
    if ltb payload (2 ^ 32) && leb payload size_mask
    then ok (patch 0 (to_be_bytes 4 (bit_or payload (flags * 2 ^ 30 % 2 ^ 32))) out)
    else err (too_large payload)

seal_written : ℕ → Outcome CodecError (Unit {0}) × DataOutput → Outcome CodecError (List ℕ)
seal_written version (ok _, out) = seal version out.bytes
seal_written version (err e, out) = err e
seal_written version (stuck, out) = stuck

unfoldable pub encode_to_bytes : TrackInfo → SourceTail → ℕ → Outcome CodecError (List ℕ)
unfolding seal_written
encode_to_bytes info tail version =
    if is_unsupported version
    then err (unsupported_version version)
    else seal_written version (write_track info tail version new_output)

-- The base64 crate's `STANDARD` engine, with what the codec relies on: decoding undoes encoding.
pub record Base64 : Type 0 where
  pub encode64 : List ℕ → Text
  pub decode64 : Text → Option (List ℕ)
  pub decode64-encode64 : (bytes : List ℕ) → decode64 (encode64 bytes) ≡ some bytes

-- `decode_bytes(&BASE64.decode(encoded)?)`.
decode_found : Option (List ℕ) → Outcome CodecError DecodedTrack
decode_found none = err not_base64
decode_found (some bytes) = decode_bytes bytes

module _ (base64 : Base64) where
  open base64 use {encode64, decode64}

  unfoldable pub decode : Text → Outcome CodecError DecodedTrack
  unfolding decode_found
  decode encoded = decode_found (decode64 encoded)

  unfoldable pub encode_with_version : TrackInfo → SourceTail → ℕ → Outcome CodecError Text
  encode_with_version info tail version = map_ok encode64 (encode_to_bytes info tail version)

  unfoldable pub encode : TrackInfo → SourceTail → Outcome CodecError Text
  unfolding encode_with_version
  encode info tail = encode_with_version info tail track_info_version
