-- ===== src/JavaIo/Output.antt =====
-- What the writers leave in the buffer, on success and on failure.
use lavalink_rs.Outcome.{err, ok}
use lavalink_rs.Unicode.{IsText, Text}
use lavalink_rs.Prelude.{
  inr, inl, Bool-cases, ℕ, ◌+◌, ◌-◌, ◌^◌, ◌<◌, ◌≡◌, refl, ap, ap₂, ◌∙◌, Option, none, some, List,
  [], ◌∷◌, ◌++◌, append_assoc, arith, ltb, if◌then◌else◌, lt→ltb, length, take, drop, length-append,
  take-append, drop-append,
}
use lavalink_rs.ModifiedUtf8.Encode.{text_bytes, encode_modified_utf8_into-append}
use lavalink_rs.JavaIo.BigEndian.{to_be_bytes, length-to_be_bytes}
use lavalink_rs.JavaIo.{
  string_too_long, DataOutput, extend, truncate, patch, write_bool, write_utf, write_nullable_utf,
}

-- The wire form of a text: a two-byte length, then the modified UTF-8.
unfoldable pub utf_bytes : Text → List ℕ
utf_bytes s = to_be_bytes 2 (length (text_bytes s)) ++ text_bytes s

unfoldable pub nullable_bytes : Option Text → List ℕ
nullable_bytes none = 0 ∷ []
nullable_bytes (some s) = 1 ∷ utf_bytes s

-- The limit of `writeUTF`.
abbrev pub Fits : Text → Type 0
Fits s = length (text_bytes s) < 2 ^ 16

-- `patch` replaces a placeholder of the same length behind `xs`.
pub patch-append :
    (xs old new rest : List ℕ)
    → length old ≡ length new
    → patch (length xs) new ((xs ++ old) ++ rest) ≡ xs ++ (new ++ rest)
unfolding patch
patch-append xs old new rest e =
    ap₂ (λ a b. a ++ (new ++ b))
      (ap (take (length xs)) (append_assoc xs old rest) ∙ take-append xs (old ++ rest))
      (ap (λ n. drop n ((xs ++ old) ++ rest)) size ∙ drop-append (xs ++ old) rest)
  where
    size : length xs + length new ≡ length (xs ++ old)
    size = omega (arith, length-append xs old)

truncate-append :
    (xs ys zs : List ℕ)
    → truncate (length xs) (record { bytes = (xs ++ ys) ++ zs }) ≡ record { bytes = xs }
unfolding truncate
truncate-append xs ys zs =
    ap (λ b. record { bytes = b })
      (ap (take (length xs)) (append_assoc xs ys zs) ∙ take-append xs (ys ++ zs))

placeholder :
    (xs body : List ℕ) → length ((xs ++ to_be_bytes 2 0) ++ body) - length xs - 2 ≡ length body
placeholder xs body = omega (
  arith,
  length-append (xs ++ to_be_bytes 2 0) body,
  length-append xs (to_be_bytes 2 0),
  length-to_be_bytes 2 0,
)

-- `write_utf` appends the wire form of a text that fits. For any other it reports the length of
-- the encoding and leaves the buffer exactly as it was.
pub write_utf_lem :
    (s : Text) (out : DataOutput)
    → IsText s
    → write_utf s out ≡ (
        if ltb (length (text_bytes s)) (2 ^ 16)
        then (ok tt, extend (utf_bytes s) out)
        else (err (string_too_long (length (text_bytes s))), out))
unfolding write_utf extend utf_bytes
write_utf_lem s out h =
    rw
      (
        encode_modified_utf8_into-append s (out.bytes ++ to_be_bytes 2 0) h,
        placeholder out.bytes (text_bytes s),
      )
      (ap₂
        (λ written kept.
          if ltb (length (text_bytes s)) (2 ^ 16)
          then (ok tt, record { bytes = written })
          else (err (string_too_long (length (text_bytes s))), kept))
        (patch-append out.bytes (to_be_bytes 2 0) (to_be_bytes 2 (length (text_bytes s)))
          (text_bytes s)
          (omega (arith, length-to_be_bytes 2 0, length-to_be_bytes 2 (length (text_bytes s)))))
        (truncate-append out.bytes (to_be_bytes 2 0) (text_bytes s)))

pub write_utf-Fits :
    (s : Text) (out : DataOutput)
    → IsText s
    → Fits s
    → write_utf s out ≡ (ok tt, extend (utf_bytes s) out)
write_utf-Fits s out h fits = rw (write_utf_lem s out h, lt→ltb _ _ fits)

-- Whether an optional text fits; nothing always does.
abbrev pub FitsOption : Option Text → Type 0
FitsOption none = Unit {0}
FitsOption (some s) = IsText s × Fits s

pub write_nullable_utf-FitsOption :
    (o : Option Text) (out : DataOutput)
    → FitsOption o
    → write_nullable_utf o out ≡ (ok tt, extend (nullable_bytes o) out)
unfolding write_nullable_utf nullable_bytes write_bool
write_nullable_utf-FitsOption none out h = unfold extend in refl
write_nullable_utf-FitsOption (some s) out (h, fits) =
    rw (write_utf-Fits s (extend (1 ∷ []) out) h fits) (
      unfold extend in
      ap (λ b. (ok tt, record { bytes = b })) (append_assoc out.bytes (1 ∷ []) (utf_bytes s)))

-- `write_nullable_utf` appends a presence flag and the wire form of a text that fits. For any
-- other it takes the flag back as well, and leaves the buffer exactly as it was.
pub write_nullable_utf_lem :
    (s : Text) (out : DataOutput)
    → IsText s
    → write_nullable_utf (some s) out ≡ (
        if ltb (length (text_bytes s)) (2 ^ 16)
        then (ok tt, extend (1 ∷ utf_bytes s) out)
        else (err (string_too_long (length (text_bytes s))), out))
unfolding write_nullable_utf write_bool
write_nullable_utf_lem s out h = elim (Bool-cases (ltb (length (text_bytes s)) (2 ^ 16))) [
  | inl e ↦
      rw (write_utf_lem s (extend (1 ∷ []) out) h, e)
        (unfold extend in
          ap (λ b. (ok tt, record { bytes = b })) (append_assoc out.bytes (1 ∷ []) (utf_bytes s)))
  | inr e ↦
      rw (write_utf_lem s (extend (1 ∷ []) out) h, e)
        (unfold extend truncate in
          ap (λ b. (err (string_too_long (length (text_bytes s))), record { bytes = b }))
            (take-append out.bytes (1 ∷ [])))
]
