-- ===== src/EncodedTrack/Fields.antt =====
-- Reading back, field by field, the payload that the encoder wrote.
use lavalink_rs.Outcome.{err, Outcome, ok}
use lavalink_rs.Unicode.{Text}
use lavalink_rs.Prelude.{
  ℕ, ◌≤◌, ◌≡◌, refl, sym, ap, ◌∙◌, inl, inr, Bool, true, false, not, Option, none, List, [], ◌∷◌,
  ◌++◌, append-nil, append_assoc, arith, ltb, leb, if◌then◌else◌, Bool-cases,
}
use lavalink_rs.Prelude.Int.{ℤ, to_u64, IsI64}
use lavalink_rs.Outcome.{stuck}
use lavalink_rs.JavaIo.BigEndian.{to_be_bytes}
use lavalink_rs.JavaIo.Output.{utf_bytes, nullable_bytes, FitsOption}
use lavalink_rs.JavaIo.Input.{
  behind, remaining-behind, read_u8-behind, read_bool-behind, read_i64-behind, read_utf-behind,
  read_nullable_utf-behind,
}
use lavalink_rs.JavaIo.{
  DataInput, Reads, ◌>>=◌, pure, and_then, read_bool, read_i64, read_utf, read_nullable_utf,
}
use lavalink_rs.EncodedTrack.{
  TrackInfo, CodecError, SourceTail, empty, probe, raw, DecodedTrack, is_unsupported, lift,
  read_version, read_uri, read_artwork_and_isrc, read_tail, read_fields, read_body, flag_versioned,
  version_with_uri, version_with_artwork_and_isrc,
}
use lavalink_rs.EncodedTrack.Encode.{
  IsWritable, Writable, TailMatches, tail_bytes, bool_byte, only, payload_bytes,
}

-- Reading `xs` off the front of what is left gives `a`.
record Gets {A : Type 0} (m : Reads CodecError A) (xs : List ℕ) (a : A) : Type 0 where
  run : (front rest : List ℕ) → m (behind front (xs ++ rest)) ≡ (ok a, behind (front ++ xs) rest)

Gets-then :
    {A B : Type 0} {m : Reads CodecError A} (k : A → Reads CodecError B) {xs ys : List ℕ} {a : A}
    {b : B}
    → Gets m xs a
    → Gets (k a) ys b
    → Gets (m >>= k) (xs ++ ys) b
Gets-then k {xs = xs} {ys = ys} hm hk = record {
  run = λ front rest. rw (
    append_assoc xs ys rest,
    hm.run front (ys ++ rest),
    hk.run (front ++ xs) rest,
    append_assoc front xs ys,
  );
}

Gets-pure : {A : Type 0} (a : A) → Gets (pure a) [] a
Gets-pure a = record { run = λ front rest. rw (append-nil front) }

Gets-map :
    {A B : Type 0} {m : Reads CodecError A} (f : A → B) {xs : List ℕ} {a : A}
    → Gets m xs a
    → Gets (m >>= λ x. pure (f x)) xs (f a)
Gets-map f hm = record { run = λ front rest. rw (hm.run front rest) }

Gets-utf : (s : Text) → Writable s → Gets (lift read_utf) (utf_bytes s) s
Gets-utf s (h, fits) = record { run = λ front rest. rw (read_utf-behind s front rest h fits) }

Gets-nullable :
    (o : Option Text) → FitsOption o → Gets (lift read_nullable_utf) (nullable_bytes o) o
Gets-nullable o h = record { run = λ front rest. rw (read_nullable_utf-behind o front rest h) }

Gets-i64 : (z : ℤ) → IsI64 z → Gets (lift read_i64) (to_be_bytes 8 (to_u64 z)) z
Gets-i64 z h = record { run = λ front rest. rw (read_i64-behind z front rest h) }

Gets-bool : (b : Bool) → Gets (lift read_bool) (bool_byte b ∷ []) b
Gets-bool true = record { run = λ front rest. rw (read_bool-behind 1 front rest) }
Gets-bool false = record { run = λ front rest. rw (read_bool-behind 0 front rest) }

Gets-version :
    (version flags : ℕ)
    → 1 ≤ version
    → flags ≡ (if ltb 1 version then flag_versioned else 0)
    → Gets (read_version flags) (only (ltb 1 version) (version ∷ [])) version
unfolding read_version
Gets-version version flags h e = elim (Bool-cases (ltb 1 version)) [
  | inl p ↦ rw (e, p) (record { run = λ front rest. rw (read_u8-behind version front rest) })
  | inr p ↦ let one : version ≡ 1 = ground arith in rw (e, p, one) (Gets-pure 1)
]

-- What comes back: `is_seekable` is derived, and fields that the version lacks are absent.
unfoldable pub as_decoded : TrackInfo → SourceTail → ℕ → DecodedTrack
as_decoded info tail version = record {
  info = record info {
    is_seekable = not info.is_stream;
    uri = if leb version_with_uri version then info.uri else none;
    artwork_url = if leb version_with_artwork_and_isrc version then info.artwork_url else none;
    isrc = if leb version_with_artwork_and_isrc version then info.isrc else none;
  };
  tail = tail;
  version = version;
}

Gets-uri :
    (version : ℕ) (o : Option Text)
    → FitsOption o
    → Gets
        (read_uri version)
        (only (leb version_with_uri version) (nullable_bytes o))
        (if leb version_with_uri version then o else none)
unfolding read_uri
Gets-uri version o h = elim (Bool-cases (leb version_with_uri version)) [
  | inl p ↦ rw p (Gets-nullable o h)
  | inr p ↦ rw p (Gets-pure none)
]

Gets-pictures :
    (version : ℕ) (o q : Option Text)
    → FitsOption o
    → FitsOption q
    → Gets
        (read_artwork_and_isrc version)
        (only (leb version_with_artwork_and_isrc version) (nullable_bytes o ++ nullable_bytes q))
        (
          if leb version_with_artwork_and_isrc version then o else none,
          if leb version_with_artwork_and_isrc version then q else none,
        )
unfolding read_artwork_and_isrc
Gets-pictures version o q h k = elim (Bool-cases (leb version_with_artwork_and_isrc version)) [
  | inl p ↦ rw p (
      Gets-then (λ a. lift read_nullable_utf >>= λ b. pure (a, b)) (Gets-nullable o h)
        (Gets-map (λ b. (o, b)) (Gets-nullable q k)))
  | inr p ↦ rw p (Gets-pure (none, none))
]

-- As `Gets`, where nothing is left to read behind `xs`.
pub record GetsLast {A : Type 0} (m : Reads CodecError A) (xs : List ℕ) (a : A) : Type 0 where
  pub run : (front : List ℕ) → (m (behind front xs)).0 ≡ ok a

last_of_Gets :
    {A : Type 0} {m : Reads CodecError A} {xs : List ℕ} {a : A} → Gets m xs a → GetsLast m xs a
last_of_Gets {m = m} {xs = xs} hm = record {
  run = λ front.
      ap (λ ys. (m (behind front ys)).0) (sym (append-nil xs)) ∙ ap (λ r. r.0) (hm.run front []);
}

last_then :
    {A B : Type 0} {m : Reads CodecError A} (k : A → Reads CodecError B) {xs ys : List ℕ} {a : A}
    {b : B}
    → Gets m xs a
    → GetsLast (k a) ys b
    → GetsLast (m >>= k) (xs ++ ys) b
last_then k {xs = xs} {ys = ys} hm hk = record {
  run = λ front. rw (hm.run front ys, hk.run (front ++ xs));
}

and_then-pure :
    {A B : Type 0} (f : A → B) (p : Outcome CodecError A × DataInput) (a : A)
    → p.0 ≡ ok a
    → (and_then p (λ x. pure (f x))).0 ≡ ok (f a)
and_then-pure f (ok x, input) a e = cc
and_then-pure f (err x, input) a e = cc
and_then-pure f (stuck, input) a e = cc

last_map :
    {A B : Type 0} {m : Reads CodecError A} (f : A → B) {xs : List ℕ} {a : A}
    → GetsLast m xs a
    → GetsLast (m >>= λ x. pure (f x)) xs (f a)
last_map f hm = record { run = λ front. and_then-pure f _ _ (hm.run front) }

last_tail :
    (name : Text) (tail : SourceTail)
    → TailMatches name tail
    → GetsLast (read_tail name) (tail_bytes tail) tail
unfolding read_tail tail_bytes
last_tail name empty h = rw h (record { run = λ front. rw (remaining-behind front []) })
last_tail name (probe s) h = rw h.0 (last_map probe (last_of_Gets (Gets-utf s h.1)))
last_tail name (raw []) h = absurd (h.1 refl)
last_tail name (raw (b ∷ bytes)) h =
    rw h.0 (record { run = λ front. rw (remaining-behind front (b ∷ bytes)) })

-- The payload without the trailing position.
unfoldable pub body_bytes : TrackInfo → SourceTail → ℕ → List ℕ
body_bytes info tail version =
    only (ltb 1 version) (version ∷ [])
    ++ (utf_bytes info.title
        ++ (utf_bytes info.author
            ++ (to_be_bytes 8 (to_u64 info.length_ms)
                ++ (utf_bytes info.identifier
                    ++ ((bool_byte info.is_stream ∷ [])
                        ++ (only (leb version_with_uri version) (nullable_bytes info.uri)
                            ++ (only (leb version_with_artwork_and_isrc version)
                                  (nullable_bytes info.artwork_url ++ nullable_bytes info.isrc)
                                ++ (utf_bytes info.source_name ++ tail_bytes tail))))))))

pub payload_bytes-body_bytes :
    (info : TrackInfo) (tail : SourceTail) (version : ℕ)
    → payload_bytes info tail version
      ≡ body_bytes info tail version ++ to_be_bytes 8 (to_u64 info.position)
unfolding payload_bytes body_bytes
payload_bytes-body_bytes info tail version = simp append_assoc

pub last_body :
    (info : TrackInfo) (tail : SourceTail) (version flags : ℕ)
    → IsWritable info
    → TailMatches info.source_name tail
    → 1 ≤ version
    → version ≤ 3
    → flags ≡ (if ltb 1 version then flag_versioned else 0)
    → GetsLast
        (read_body flags info.position)
        (body_bytes info tail version)
        (as_decoded info tail version)
unfolding read_body read_fields body_bytes as_decoded
last_body info tail version flags w t lo hi e = last_then _ (Gets-version version flags lo e) (
    rw supported (
      last_then _ (Gets-utf info.title w.title) (
        last_then _ (Gets-utf info.author w.author) (
          last_then _ (Gets-i64 info.length_ms w.length_ms) (
            last_then _ (Gets-utf info.identifier w.identifier) (
              last_then _ (Gets-bool info.is_stream) (
                last_then _ (Gets-uri version info.uri w.uri) (
                  last_then _
                    (Gets-pictures version info.artwork_url info.isrc w.artwork_url w.isrc)
                    (last_then _ (Gets-utf info.source_name w.source_name)
                      (last_map _ (last_tail info.source_name tail t)))))))))))
  where
    supported : is_unsupported version ≡ false
    supported = unfold is_unsupported in ground arith
