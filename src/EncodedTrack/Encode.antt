-- ===== src/EncodedTrack/Encode.antt =====
-- What the encoder writes for a track whose fields are well formed.
use lavalink_rs.Outcome.{ok}
use lavalink_rs.Unicode.{IsText, Text}
use lavalink_rs.Prelude.{
  ℕ, ◌+◌, ◌-◌, ◌*◌, ◌%◌, ◌^◌, ◌≤◌, bit_or, ◌≡◌, refl, sym, ap, ◌≢◌, Bool, true, false, ◌&&◌, ◌||◌,
  Option, List, [], ◌∷◌, ◌++◌, append-nil, append_assoc, arith, ltb, leb, ◌==◌, if◌then◌else◌,
  length, length-append,
}
use lavalink_rs.Prelude.Bits.{or_fields_low}
use lavalink_rs.Prelude.Int.{ℤ, pos, to_u32, to_u64, IsI64}
use lavalink_rs.JavaIo.BigEndian.{to_be_bytes, length-to_be_bytes}
use lavalink_rs.JavaIo.Output.{
  utf_bytes, nullable_bytes, Fits, FitsOption, write_utf-Fits, write_nullable_utf-FitsOption,
  patch-append,
}
use lavalink_rs.JavaIo.{
  DataOutput, new_output, extend, write_u8, write_bool, write_i32, write_i64, write_raw, write_utf,
  write_nullable_utf,
}
use lavalink_rs.EncodedTrack.{
  TrackInfo, SourceTail, empty, probe, raw, is_probing, is_unsupported, Writes, ◌>>◌, plain,
  checked, when, write_tail, write_track, seal, encode_to_bytes, flag_versioned, size_mask,
  version_with_uri, version_with_artwork_and_isrc,
}

-- A Rust string that `write_utf` accepts.
abbrev pub Writable : Text → Type 0
Writable s = IsText s × Fits s

-- The fields are values of their Rust types, and every string fits `writeUTF`.
pub record IsWritable (info : TrackInfo) : Type 0 where
  pub identifier : Writable info.identifier
  pub author : Writable info.author
  pub length_ms : IsI64 info.length_ms
  pub position : IsI64 info.position
  pub title : Writable info.title
  pub uri : FitsOption info.uri
  pub source_name : Writable info.source_name
  pub artwork_url : FitsOption info.artwork_url
  pub isrc : FitsOption info.isrc

-- The tail is of the kind that the decoder expects behind the source's name.
abbrev pub TailMatches : Text → SourceTail → Type 0
TailMatches source_name empty = is_probing source_name ≡ false
TailMatches source_name (probe name) = (is_probing source_name ≡ true) × Writable name
TailMatches source_name (raw bytes) = (is_probing source_name ≡ false) × (bytes ≢ [])

unfoldable pub tail_bytes : SourceTail → List ℕ
tail_bytes empty = []
tail_bytes (probe name) = utf_bytes name
tail_bytes (raw bytes) = bytes

abbrev pub bool_byte : Bool → ℕ
bool_byte b = if b then 1 else 0

abbrev pub only : Bool → List ℕ → List ℕ
only true xs = xs
only false xs = []

-- The payload, field by field.
unfoldable pub payload_bytes : TrackInfo → SourceTail → ℕ → List ℕ
payload_bytes info tail version =
    only (ltb 1 version) (version ∷ [])
    ++ (utf_bytes info.title
        ++ (utf_bytes info.author
            ++ (to_be_bytes 8 (to_u64 info.length_ms)
                ++ (utf_bytes info.identifier
                    ++ ((bool_byte info.is_stream ∷ [])
                        ++ (only (leb version_with_uri version) (nullable_bytes info.uri)
                            ++ (only (leb version_with_artwork_and_isrc version)
                                  (nullable_bytes info.artwork_url ++ nullable_bytes info.isrc)
                                ++ (utf_bytes info.source_name
                                    ++ (tail_bytes tail
                                        ++ to_be_bytes 8 (to_u64 info.position))))))))))

-- The writer `m` succeeds and appends `xs`, whatever the buffer holds.
record Appends (m : Writes) (xs : List ℕ) : Type 0 where
  run : (out : DataOutput) → m out ≡ (ok tt, extend xs out)

append_then :
    {m k : Writes} {xs ys : List ℕ} → Appends m xs → Appends k ys → Appends (m >> k) (xs ++ ys)
unfolding ◌>>◌ extend
append_then {xs = xs} {ys = ys} hm hk = record {
  run = λ out.
      rw (hm.run out, hk.run (extend xs out))
        (ap (λ b. (ok tt, record { bytes = b })) (append_assoc out.bytes xs ys));
}

append_nothing : Appends (plain (λ out. out)) []
unfolding extend
append_nothing = record {
  run = λ out. ap (λ b. (ok tt, record { bytes = b })) (sym (append-nil out.bytes));
}

append_when : (b : Bool) {m : Writes} {xs : List ℕ} → Appends m xs → Appends (when b m) (only b xs)
append_when true h = h
append_when false h = append_nothing

append_utf : (s : Text) → Writable s → Appends (checked (write_utf s)) (utf_bytes s)
append_utf s (h, fits) = record { run = λ out. rw (write_utf-Fits s out h fits) }

append_nullable :
    (o : Option Text) → FitsOption o → Appends (checked (write_nullable_utf o)) (nullable_bytes o)
append_nullable o h = record { run = λ out. rw (write_nullable_utf-FitsOption o out h) }

append_i64 : (z : ℤ) → Appends (plain (write_i64 z)) (to_be_bytes 8 (to_u64 z))
unfolding write_i64
append_i64 z = record { run = λ out. refl }

append_bool : (b : Bool) → Appends (plain (write_bool b)) (bool_byte b ∷ [])
unfolding write_bool
append_bool b = record { run = λ out. refl }

append_u8 : (n : ℕ) → Appends (plain (write_u8 n)) (n ∷ [])
unfolding write_u8
append_u8 n = record { run = λ out. refl }

append_tail :
    (name : Text) (tail : SourceTail)
    → TailMatches name tail
    → Appends (write_tail tail) (tail_bytes tail)
unfolding write_tail tail_bytes write_raw
append_tail name empty h = append_nothing
append_tail name (probe s) h = append_utf s h.1
append_tail name (raw bytes) h = record { run = λ out. refl }

append_header : Appends (plain (write_i32 (pos 0))) (to_be_bytes 4 0)
unfolding write_i32 to_u32
append_header = record { run = λ out. refl }

write_track-Appends :
    (info : TrackInfo) (tail : SourceTail) (version : ℕ)
    → IsWritable info
    → TailMatches info.source_name tail
    → Appends (write_track info tail version) (to_be_bytes 4 0 ++ payload_bytes info tail version)
unfolding write_track payload_bytes
write_track-Appends info tail version w t = append_then append_header (
    append_then (append_when (ltb 1 version) (append_u8 version)) (
      append_then (append_utf info.title w.title) (
        append_then (append_utf info.author w.author) (
          append_then (append_i64 info.length_ms) (
            append_then (append_utf info.identifier w.identifier) (
              append_then (append_bool info.is_stream) (
                append_then
                  (append_when (leb version_with_uri version) (append_nullable info.uri w.uri))
                  (append_then
                    (append_when (leb version_with_artwork_and_isrc version) (
                      append_then (append_nullable info.artwork_url w.artwork_url)
                        (append_nullable info.isrc w.isrc)))
                    (append_then (append_utf info.source_name w.source_name) (
                      append_then (append_tail info.source_name tail t)
                        (append_i64 info.position)))))))))))

-- The four bytes in front of a payload.
unfoldable pub header_of : ℕ → ℕ → ℕ
header_of version size = (if ltb 1 version then flag_versioned else 0) * 2 ^ 30 + size

seal_lem :
    (version : ℕ) (payload : List ℕ)
    → length payload ≤ size_mask
    → seal version (to_be_bytes 4 0 ++ payload)
      ≡ ok (to_be_bytes 4 (header_of version (length payload)) ++ payload)
unfolding seal header_of
seal_lem version payload h =
    rw (size, small, header)
      (ap (λ b. ok b)
        (patch-append [] (to_be_bytes 4 0) (to_be_bytes 4 (header_of version (length payload)))
          payload widths))
  where
    flags : ℕ
    flags = if ltb 1 version then flag_versioned else 0

    no_wrap : flags * 2 ^ 30 % 2 ^ 32 ≡ flags * 2 ^ 30
    no_wrap = ground arith

    header : bit_or (length payload) (flags * 2 ^ 30 % 2 ^ 32) ≡ header_of version (length payload)
    header = rw no_wrap (or_fields_low 30 flags (length payload) (omega arith))

    widths : length (to_be_bytes 4 0) ≡ length (to_be_bytes 4 (header_of version (length payload)))
    widths =
        omega
          (arith, length-to_be_bytes 4 0, length-to_be_bytes 4 (header_of version (length payload)))

    size : length (to_be_bytes 4 0 ++ payload) - 4 ≡ length payload
    size = omega (arith, length-append (to_be_bytes 4 0) payload, length-to_be_bytes 4 0)

    small : (ltb (length payload) (2 ^ 32) && leb (length payload) size_mask) ≡ true
    small = ground arith

pub encode_to_bytes_lem :
    (info : TrackInfo) (tail : SourceTail) (version : ℕ)
    → IsWritable info
    → TailMatches info.source_name tail
    → 1 ≤ version
    → version ≤ 3
    → length (payload_bytes info tail version) ≤ size_mask
    → encode_to_bytes info tail version
      ≡ ok (
          to_be_bytes 4 (header_of version (length (payload_bytes info tail version)))
          ++ payload_bytes info tail version)
unfolding encode_to_bytes is_unsupported
encode_to_bytes_lem info tail version w t lo hi fits =
    rw (supported, written.run new_output)
      (unfold extend new_output in seal_lem version (payload_bytes info tail version) fits)
  where
    supported : (version == 0 || ltb 3 version) ≡ false
    supported = ground arith

    written :
        Appends (write_track info tail version) (to_be_bytes 4 0 ++ payload_bytes info tail version)
    written = write_track-Appends info tail version w t
