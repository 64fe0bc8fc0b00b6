-- ===== src/EncodedTrack/Tests.antt =====
-- Concrete tracks: runs of the codec, and the theorems at concrete inputs.
use lavalink_rs.EncodedTrack.Decode.{decode_bytes-ne-stuck}
use lavalink_rs.Prelude.{
  ℕ, ◌+◌, ◌*◌, ◌/◌, ◌%◌, ◌≡◌, refl, ap, ◌∙◌, ◌≢◌, true, false, Option, none, some, List, [], ◌∷◌,
  ◌++◌, arith,
}
use lavalink_rs.JavaIo.BigEndian.{from_be_bytes, to_be_bytes}
use lavalink_rs.JavaIo.{
  extend, read_utf, new_output, read_i64, read_u16, patch, write_bool, read_bool, write_i64,
  read_u8, write_i32, write_raw, read_i32, write_utf, take_bytes, remaining, new_input,
}
use lavalink_rs.JavaIo.Output.{nullable_bytes, utf_bytes}
use lavalink_rs.Unicode.{encode_utf16, Text}
use lavalink_rs.Outcome.{stuck, err, ok}
use lavalink_rs.Prelude.Int.{from_u64, negative, to_u32, from_u32, to_u64, pos, negsuc, nonneg}
use lavalink_rs.ModifiedUtf8.{
  push_unit, encode_modified_utf8_into, push_units, decode_modified_utf8, is_ascii,
}
use lavalink_rs.EncodedTrack.{
  seal, read_tail, read_artwork_and_isrc, write_tail, read_uri, read_fields, ◌>>◌, read_version,
  write_track, read_body, is_unsupported, decode_payload, TrackInfo, SourceTail, probe, raw,
  decode_bytes, encode_to_bytes, size_mismatch, missing_position, Base64, is_probing,
}
use lavalink_rs.EncodedTrack.Encode.{tail_bytes, IsWritable, payload_bytes}
use lavalink_rs.EncodedTrack.Fields.{as_decoded}
use lavalink_rs.EncodedTrack.RoundTrip.{decode_bytes-encode_to_bytes}
use lavalink_rs.EncodedTrack.Version.{IsReencodable, decode_bytes-IsReencodable, re_encode}
use mathlib.Core.Option
use lavalink_rs.ModifiedUtf8.Encode.{unit_bytes, units_bytes, text_bytes}

-- Title "t", author with a NUL and a supplementary character, a stream over http.
abbrev sample : TrackInfo
sample = record {
  identifier = b'i' ∷ [];
  is_seekable = true;
  author = 0 ∷ 0x1_F3B5 ∷ [];
  length_ms = pos 212000;
  is_stream = true;
  position = pos 7;
  title = b't' ∷ [];
  uri = some (b'u' ∷ []);
  source_name = b'h' ∷ b't' ∷ b't' ∷ b'p' ∷ [];
  artwork_url = none;
  isrc = none;
}

abbrev sample_tail : SourceTail
sample_tail = probe (b'm' ∷ b'p' ∷ b'3' ∷ [])

sample-IsWritable : IsWritable sample
unfolding text_bytes units_bytes unit_bytes encode_utf16
sample-IsWritable = record {
  identifier = omega arith;
  author = (ground arith, omega arith);
  length_ms = nonneg 212000 (omega arith);
  position = nonneg 7 (omega arith);
  title = omega arith;
  uri = omega arith;
  source_name = omega arith;
  artwork_url = tt;
  isrc = tt;
}

-- An old track of another source, with a tail that nobody parses.
abbrev old : TrackInfo
old = record sample {
  author = [];
  uri = none;
  source_name = b'x' ∷ [];
  length_ms = negsuc 0;
  is_stream = false;
}

abbrev old_tail : SourceTail
old_tail = raw (1 ∷ 2 ∷ [])

abbrev old_bytes : List ℕ
old_bytes =
    0 ∷ 0 ∷ 0 ∷ 30 ∷ 0 ∷ 1 ∷ 116 ∷ 0 ∷ 0 ∷ 255 ∷ 255 ∷ 255 ∷ 255 ∷ 255 ∷ 255 ∷ 255 ∷ 255 ∷ 0 ∷ 1
    ∷ 105 ∷ 0 ∷ 0 ∷ 1 ∷ 120 ∷ 1 ∷ 2 ∷ 0 ∷ 0 ∷ 0 ∷ 0 ∷ 0 ∷ 0 ∷ 0 ∷ 7 ∷ []

old-IsWritable : IsWritable old
unfolding text_bytes units_bytes unit_bytes encode_utf16
old-IsWritable = record {
  identifier = omega arith;
  author = omega arith;
  length_ms = negative 0 (omega arith);
  position = nonneg 7 (omega arith);
  title = omega arith;
  uri = tt;
  source_name = omega arith;
  artwork_url = tt;
  isrc = tt;
}

old_is_encoded : encode_to_bytes old old_tail 1 ≡ ok old_bytes
unfolding encode_to_bytes is_unsupported write_track ◌>>◌ write_utf write_tail write_raw write_i32
    write_i64 write_bool encode_modified_utf8_into push_units push_unit encode_utf16 to_be_bytes
    to_u32 to_u64 patch seal new_output extend
old_is_encoded = refl

-- The position is the last eight bytes, and the tail is kept as it stands.
old_is_decoded :
    decode_bytes (old_bytes ++ (9 ∷ []))
    ≡ ok (record { info = record old { is_seekable = true }; tail = old_tail; version = 1 })
unfolding decode_bytes decode_payload read_body read_version read_fields read_uri
    read_artwork_and_isrc read_tail is_unsupported is_probing new_input remaining take_bytes
    read_i32 read_u8 read_bool read_u16 read_i64 read_utf from_be_bytes from_u32 to_u32 from_u64
    decode_modified_utf8 is_ascii
old_is_decoded = refl

-- A payload that is shorter than its header says, and one too short for a position.
short_payload : decode_bytes (0 ∷ 0 ∷ 0 ∷ 9 ∷ 1 ∷ 2 ∷ []) ≡ err (size_mismatch 9 2)
unfolding decode_bytes decode_payload new_input remaining take_bytes read_i32 from_be_bytes from_u32
    to_u32
short_payload = refl

no_position : decode_bytes (0 ∷ 0 ∷ 0 ∷ 2 ∷ 1 ∷ 2 ∷ []) ≡ err missing_position
unfolding decode_bytes decode_payload new_input remaining take_bytes read_i32 from_be_bytes from_u32
    to_u32
no_position = refl

decode_bytes-encode_to_bytes_example :
    (bytes : List ℕ) × (encode_to_bytes sample sample_tail 3 ≡ ok bytes)
    × (decode_bytes (bytes ++ (9 ∷ [])) ≡ ok (as_decoded sample sample_tail 3))
unfolding payload_bytes utf_bytes nullable_bytes tail_bytes to_be_bytes to_u64 text_bytes
    units_bytes unit_bytes encode_utf16 is_probing
decode_bytes-encode_to_bytes_example =
    decode_bytes-encode_to_bytes sample sample_tail 3 (9 ∷ []) sample-IsWritable (refl, omega arith)
      (omega arith) (omega arith) (omega arith)

decode_bytes-IsReencodable_example :
    IsReencodable
      (record { info = record old { is_seekable = true }; tail = old_tail; version = 1 })
decode_bytes-IsReencodable_example =
    decode_bytes-IsReencodable (old_bytes ++ (9 ∷ []))
      (record { info = record old { is_seekable = true }; tail = old_tail; version = 1 })
      old_is_decoded

re_encode_example : encode_to_bytes (record old { is_seekable = true }) old_tail 1 ≡ ok old_bytes
unfolding payload_bytes utf_bytes nullable_bytes tail_bytes to_be_bytes to_u64 text_bytes
    units_bytes unit_bytes encode_utf16 is_probing
re_encode_example =
    re_encode old old_tail 1 old_bytes (9 ∷ [])
      (record { info = record old { is_seekable = true }; tail = old_tail; version = 1 })
      old-IsWritable (refl, (λ e. cc)) (omega arith) (omega arith) (omega arith) old_is_encoded
      old_is_decoded

-- A stand-in for the base64 crate: two digits of base 16 for each byte.
hex : List ℕ → Text
hex [] = []
hex (b ∷ bs) = (b / 16) ∷ (b % 16) ∷ hex bs

unhex : Text → Option (List ℕ)
unhex [] = some []
unhex (c ∷ []) = none
unhex (c ∷ d ∷ cs) = Option.map (◌∷◌ (c * 16 + d)) (unhex cs)

unhex-hex : (bytes : List ℕ) → unhex (hex bytes) ≡ some bytes
unfolding hex unhex
unhex-hex [] = refl
unhex-hex (b ∷ bs) =
    ap (Option.map (◌∷◌ (b / 16 * 16 + b % 16))) (unhex-hex bs)
    ∙ ap (λ c. some (c ∷ bs)) (omega arith)

abbrev base16 : Base64
base16 = record { encode64 = hex; decode64 = unhex; decode64-encode64 = unhex-hex }

decode_bytes-ne-stuck_example : decode_bytes (0 ∷ 0 ∷ 0 ∷ 9 ∷ 1 ∷ []) ≢ stuck
decode_bytes-ne-stuck_example = decode_bytes-ne-stuck (0 ∷ 0 ∷ 0 ∷ 9 ∷ 1 ∷ [])
