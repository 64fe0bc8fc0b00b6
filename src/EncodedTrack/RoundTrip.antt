-- ===== src/EncodedTrack/RoundTrip.antt =====
-- Decoding what the encoder wrote: the header, the trailing position, the whole track.
use lavalink_rs.Outcome.{ok}
use lavalink_rs.Prelude.{
  ℕ, ◌-◌, ◌/◌, ◌^◌, ◌≤◌, ◌<◌, bit_and, ◌≡◌, ap, ◌∙◌, List, [], ◌++◌, append_assoc, arith, ltb,
  if◌then◌else◌, not_lt→ltb, length, length-append, take-append, drop-append,
}
use lavalink_rs.Prelude.Bits.{and_mask}
use lavalink_rs.Prelude.Int.{
  to_u64, from_u64, from_u32, to_u32-from_u32, from_u64-to_u64, to_u64-lt,
}
use lavalink_rs.JavaIo.BigEndian.{
  to_be_bytes, from_be_bytes, length-to_be_bytes, from_be_bytes-to_be_bytes,
}
use lavalink_rs.JavaIo.Input.{behind, remaining-behind, read_i32-behind}
use lavalink_rs.JavaIo.{new_input, read_i32}
use lavalink_rs.EncodedTrack.{
  TrackInfo, SourceTail, read_body, decode_payload, decode_bytes, encode_to_bytes, flag_versioned,
  size_mask,
}
use lavalink_rs.EncodedTrack.Encode.{
  IsWritable, TailMatches, payload_bytes, header_of, encode_to_bytes_lem,
}
use lavalink_rs.EncodedTrack.Fields.{as_decoded, body_bytes, payload_bytes-body_bytes, last_body}

-- The fields of a header: the size below the flags.
header_size : (version n : ℕ) → n ≤ size_mask → bit_and (header_of version n) size_mask ≡ n
unfolding header_of
header_size version n h = omega (arith, and_mask 30 (header_of version n))

header_flags :
    (version n : ℕ)
    → n ≤ size_mask
    → header_of version n / 2 ^ 30 ≡ (if ltb 1 version then flag_versioned else 0)
unfolding header_of
header_flags version n h = ground arith

header_of-lt : (version n : ℕ) → n ≤ size_mask → header_of version n < 2 ^ 32
unfolding header_of
header_of-lt version n h = ground arith

-- A payload is cut to its declared size and its last eight bytes are the position.
pub decode_payload_framed :
    (header : ℕ) (body last junk : List ℕ)
    → bit_and header size_mask ≡ length (body ++ last)
    → length last ≡ 8
    → decode_payload header ((body ++ last) ++ junk)
      ≡ (read_body (header / 2 ^ 30) (from_u64 (from_be_bytes last)) (new_input body)).0
unfolding decode_payload
decode_payload_framed header body last junk size eight = rw (
  size,
  not_lt→ltb _ _ available,
  take-append (body ++ last) junk,
  not_lt→ltb _ _ long,
  cut,
  not_lt→ltb _ _ within,
  take-append body last,
  drop-append body last,
  eight,
)
  where
    available : ¬ (length ((body ++ last) ++ junk) < length (body ++ last))
    available = omega (arith, length-append (body ++ last) junk)

    long : ¬ (length (body ++ last) < 8)
    long = omega (arith, length-append body last)

    within : ¬ (length (body ++ last) < length body)
    within = omega (arith, length-append body last)

    cut : length (body ++ last) - 8 ≡ length body
    cut = omega (arith, length-append body last)

decode_payload-payload :
    (info : TrackInfo) (tail : SourceTail) (version : ℕ) (junk : List ℕ)
    → IsWritable info
    → TailMatches info.source_name tail
    → 1 ≤ version
    → version ≤ 3
    → length (payload_bytes info tail version) ≤ size_mask
    → decode_payload
        (header_of version (length (payload_bytes info tail version)))
        (payload_bytes info tail version ++ junk)
      ≡ ok (as_decoded info tail version)
decode_payload-payload info tail version junk w t lo hi fits =
    ap (λ p. decode_payload header (p ++ junk)) split
    ∙ decode_payload_framed header (body_bytes info tail version) position junk
        (header_size version (length (payload_bytes info tail version)) fits ∙ ap length split)
        (length-to_be_bytes 8 (to_u64 info.position))
    ∙ rw
        (
          from_be_bytes-to_be_bytes 8 (to_u64 info.position) (to_u64-lt info.position),
          from_u64-to_u64 info.position w.position,
        )
        body
  where
    header : ℕ
    header = header_of version (length (payload_bytes info tail version))

    position : List ℕ
    position = to_be_bytes 8 (to_u64 info.position)

    split : payload_bytes info tail version ≡ body_bytes info tail version ++ position
    split = payload_bytes-body_bytes info tail version

    body :
        (read_body (header / 2 ^ 30) info.position (new_input (body_bytes info tail version))).0
        ≡ ok (as_decoded info tail version)
    body =
        unfold behind new_input in
        (last_body info tail version (header / 2 ^ 30) w t lo hi (header_flags version _ fits)).run
          []

decode_bytes_header :
    (header : ℕ) (rest : List ℕ)
    → header < 2 ^ 32
    → decode_bytes (to_be_bytes 4 header ++ rest) ≡ decode_payload header rest
unfolding decode_bytes
decode_bytes_header header rest h =
    rw (read, decode_bytes)
      (rw (remaining-behind (to_be_bytes 4 header) rest, to_u32-from_u32 header h))
  where
    read :
        read_i32 (new_input (to_be_bytes 4 header ++ rest))
        ≡ (ok (from_u32 header), behind (to_be_bytes 4 header) rest)
    read = unfold behind new_input in read_i32-behind header [] rest h

-- Encoding a well-formed track in a supported version succeeds, if its payload is within the
-- header's size field. Decoding the result gives the track back, with `is_seekable` derived and
-- the fields that the version lacks absent; bytes behind the result are ignored.
pub decode_bytes-encode_to_bytes :
    (info : TrackInfo) (tail : SourceTail) (version : ℕ) (junk : List ℕ)
    → IsWritable info
    → TailMatches info.source_name tail
    → 1 ≤ version
    → version ≤ 3
    → length (payload_bytes info tail version) ≤ size_mask
    → (bytes : List ℕ) × (encode_to_bytes info tail version ≡ ok bytes)
      × (decode_bytes (bytes ++ junk) ≡ ok (as_decoded info tail version))
decode_bytes-encode_to_bytes info tail version junk w t lo hi fits =
    (_, encode_to_bytes_lem info tail version w t lo hi fits, decoded)
  where
    payload : List ℕ
    payload = payload_bytes info tail version

    header : ℕ
    header = header_of version (length payload)

    decoded :
        decode_bytes ((to_be_bytes 4 header ++ payload) ++ junk) ≡ ok (as_decoded info tail version)
    decoded =
        ap decode_bytes (append_assoc (to_be_bytes 4 header) payload junk)
        ∙ decode_bytes_header header (payload ++ junk) (header_of-lt version (length payload) fits)
        ∙ decode_payload-payload info tail version junk w t lo hi fits
