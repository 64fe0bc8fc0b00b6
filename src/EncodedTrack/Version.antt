-- ===== src/EncodedTrack/Version.antt =====
-- Which tracks the decoder can return, and their way back through the encoder.
use lavalink_rs.EncodedTrack.Decode.{decode_sliced_lem, decode_payload_lem}
use lavalink_rs.Outcome.{stuck, err, ok, Outcome}
use lavalink_rs.Prelude.{
  ℕ, ◌≤◌, bit_and, ◌≡◌, refl, sym, ap, ◌∙◌, subst, inl, inr, false, not, List, ◌++◌, arith, ltb,
  leb, Bool-cases, length, take,
}
use lavalink_rs.Prelude.Int.{ℤ}
use lavalink_rs.JavaIo.{
  DataInput, new_input, remaining, Reads, ◌>>=◌, and_then, read_utf, read_i64, read_i32, read_bool,
}
use lavalink_rs.EncodedTrack.{
  decode_sliced, TrackInfo, CodecError, SourceTail, DecodedTrack, is_unsupported, lift,
  read_version, read_fields, read_uri, read_artwork_and_isrc, read_tail, read_body, decode_payload,
  decode_bytes, encode_to_bytes, write_track, version_with_uri, version_with_artwork_and_isrc,
  size_mask,
}
use lavalink_rs.EncodedTrack.Encode.{IsWritable, TailMatches, payload_bytes}
use lavalink_rs.EncodedTrack.Fields.{as_decoded}
use lavalink_rs.EncodedTrack.RoundTrip.{decode_bytes-encode_to_bytes}

-- Every value that the reader gives satisfies `P`.
record Yields {A : Type 0} (P : A → Type 0) (m : Reads CodecError A) : Type 0 where
  run : (input : DataInput) (a : A) → (m input).0 ≡ ok a → P a

yields_then_at :
    {A B : Type 0} (P : B → Type 0) (p : Outcome CodecError A × DataInput)
    (k : A → Reads CodecError B)
    → ((a : A) → Yields P (k a))
    → (b : B) → (and_then p k).0 ≡ ok b
    → P b
yields_then_at P (ok a, input) k hk b e = (hk a).run input b e
yields_then_at P (err x, input) k hk b e = cc
yields_then_at P (stuck, input) k hk b e = cc

Yields-then :
    {A B : Type 0} {P : B → Type 0} (m : Reads CodecError A) (k : A → Reads CodecError B)
    → ((a : A) → Yields P (k a))
    → Yields P (m >>= k)
Yields-then {P = P} m k hk = record { run = λ input b e. yields_then_at P (m input) k hk b e }

-- A version that the encoder accepts too, and `is_seekable` as the opposite of `is_stream`.
pub record IsReencodable (t : DecodedTrack) : Type 0 where
  pub supported : is_unsupported t.version ≡ false
  pub derived : t.info.is_seekable ≡ not t.info.is_stream
  pub in_range : (1 ≤ t.version) × (t.version ≤ 3)

ok-injective : {A : Type 0} {a b : A} → ◌≡◌ {A = Outcome CodecError A} (ok a) (ok b) → a ≡ b
ok-injective e = cc

Yields-fields :
    (position : ℤ) (version : ℕ)
    → is_unsupported version ≡ false
    → Yields IsReencodable (read_fields position version)
unfolding read_fields
Yields-fields position version h = Yields-then (lift read_utf) _ λ title.
    Yields-then (lift read_utf) _ λ author. Yields-then (lift read_i64) _ λ length_ms.
      Yields-then (lift read_utf) _ λ identifier. Yields-then (lift read_bool) _ λ is_stream.
        Yields-then (read_uri version) _ λ uri.
          Yields-then (read_artwork_and_isrc version) _ λ pictured.
            Yields-then (lift read_utf) _ λ source_name.
              Yields-then (read_tail source_name) _ λ tail. record {
                run = λ input t e.
                    subst IsReencodable (ok-injective e)
                      (record { supported = h; derived = refl; in_range = range });
              }
  where
    range : (1 ≤ version) × (version ≤ 3)
    range = unfold is_unsupported in ground arith

Yields-body : (flags : ℕ) (position : ℤ) → Yields IsReencodable (read_body flags position)
unfolding read_body
Yields-body flags position = Yields-then (read_version flags) _ λ version.
    elim (Bool-cases (is_unsupported version)) [
      | inl e ↦ rw e (record { run = λ input t p. cc })
      | inr e ↦ rw e (Yields-fields position version e)
    ]

decode_sliced-IsReencodable :
    (flags : ℕ) (payload : List ℕ) (t : DecodedTrack)
    → decode_sliced flags payload ≡ ok t
    → IsReencodable t
decode_sliced-IsReencodable flags payload t h = elim (Bool-cases (ltb (length payload) 8)) [
  | inl e ↦ cc (rw e at (sym (decode_sliced_lem flags payload) ∙ h))
  | inr e ↦ (Yields-body _ _).run _ t (rw e at (sym (decode_sliced_lem flags payload) ∙ h))
]

decode_payload-IsReencodable :
    (header : ℕ) (rest : List ℕ) (t : DecodedTrack)
    → decode_payload header rest ≡ ok t
    → IsReencodable t
decode_payload-IsReencodable header rest t h =
    elim (Bool-cases (ltb (length rest) (bit_and header size_mask))) [
      | inl e ↦ cc (rw e at (sym (decode_payload_lem header rest) ∙ h))
      | inr e ↦
          decode_sliced-IsReencodable _ (take (bit_and header size_mask) rest) t
            (rw e at (sym (decode_payload_lem header rest) ∙ h))
    ]

-- Whatever bytes are decoded, the track that comes out has one of the versions 1 to 3, which the
-- encoder accepts too, and is seekable exactly when it is no stream.
pub decode_bytes-IsReencodable :
    (bytes : List ℕ) (t : DecodedTrack) → decode_bytes bytes ≡ ok t → IsReencodable t
unfolding decode_bytes
decode_bytes-IsReencodable bytes t h =
    (Yields-then {P = IsReencodable} (lift read_i32) _ λ header. record {
      run = λ input a e. decode_payload-IsReencodable _ (remaining input) a e;
    }).run
      (new_input bytes) t h

-- What the encoder does not write it does not look at.
encode_to_bytes-as_decoded :
    (info : TrackInfo) (tail : SourceTail) (version : ℕ)
    → encode_to_bytes (as_decoded info tail version).info tail version
      ≡ encode_to_bytes info tail version
unfolding encode_to_bytes write_track as_decoded
encode_to_bytes-as_decoded info tail version = elim (Bool-cases (leb version_with_uri version)) [
  | inl e ↦ elim (Bool-cases (leb version_with_artwork_and_isrc version)) [
    | inl e' ↦ rw (e, e')
    | inr e' ↦ rw (e, e')
  ]
  | inr e ↦ elim (Bool-cases (leb version_with_artwork_and_isrc version)) [
    | inl e' ↦ rw (e, e')
    | inr e' ↦ rw (e, e')
  ]
]

-- A track with a writable description and a tail that matches its source name, written at version
-- 1, 2 or 3 with a payload that its size field can hold: if the encoder gave bytes for it, and the
-- decoder, given these bytes and anything behind them, a track, then re-encoding that track at its
-- own version gives the same bytes, without what followed them.
pub re_encode :
    (info : TrackInfo) (tail : SourceTail) (version : ℕ) (bytes junk : List ℕ) (t : DecodedTrack)
    → IsWritable info
    → TailMatches info.source_name tail
    → 1 ≤ version
    → version ≤ 3
    → length (payload_bytes info tail version) ≤ size_mask
    → encode_to_bytes info tail version ≡ ok bytes
    → decode_bytes (bytes ++ junk) ≡ ok t
    → encode_to_bytes t.info t.tail t.version ≡ ok bytes
re_encode info tail version bytes junk t w m lo hi fits e d =
    let (written, e', d') = decode_bytes-encode_to_bytes info tail version junk w m lo hi fits in
    let same : written ≡ bytes = ok-injective (sym e' ∙ e) in
    let read : as_decoded info tail version ≡ t =
      ok-injective (sym d' ∙ ap (λ b. decode_bytes (b ++ junk)) same ∙ d) in
    subst (λ x. encode_to_bytes x.info x.tail x.version ≡ ok bytes) read
      (unfold as_decoded in encode_to_bytes-as_decoded info tail version ∙ e)
