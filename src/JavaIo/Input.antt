-- ===== src/JavaIo/Input.antt =====
-- Reading back, from the front of what is left, the bytes that the writers produce.
use lavalink_rs.Outcome.{ok}
use lavalink_rs.Unicode.{IsText, Text}
use lavalink_rs.Prelude.{
  ltb→lt, ◌∙◌, ap, inr, inl, ltb, Bool-cases, ℕ, ◌-◌, ◌^◌, ◌<◌, ◌≡◌, refl, not, Option, none, some,
  List, [], ◌∷◌, ◌++◌, append_assoc, arith, ◌==◌, not_lt→ltb, length, length-append, take-append,
  drop-append,
}
use lavalink_rs.Prelude.Int.{ℤ, to_u64, IsI64, from_u64-to_u64, to_u64-lt}
use lavalink_rs.ModifiedUtf8.Encode.{text_bytes}
use lavalink_rs.ModifiedUtf8.Ascii.{decode_modified_utf8-text_bytes}
use lavalink_rs.JavaIo.BigEndian.{
  to_be_bytes, length-to_be_bytes, from_be_bytes-to_be_bytes, from_be_bytes_single,
}
use lavalink_rs.JavaIo.Output.{write_utf_lem, utf_bytes, nullable_bytes, FitsOption, Fits}
use lavalink_rs.Prelude.Int.{from_u32}
use lavalink_rs.JavaIo.{extend, write_utf, DataOutput, read_i32}
use lavalink_rs.JavaIo.{
  DataInput, remaining, take_bytes, read_u8, read_bool, read_u16, read_i64, read_utf,
  read_nullable_utf,
}

-- The reader that has consumed `front` and has `rest` left.
unfoldable pub behind : List ℕ → List ℕ → DataInput
behind front rest = record { bytes = front ++ rest; offset = length front }

pub remaining-behind : (front rest : List ℕ) → remaining (behind front rest) ≡ rest
unfolding remaining behind
remaining-behind front rest = drop-append front rest

pub take_bytes-behind :
    (n : ℕ) (front xs rest : List ℕ)
    → length xs ≡ n
    → take_bytes n (behind front (xs ++ rest)) ≡ (ok xs, behind (front ++ xs) rest)
unfolding take_bytes behind
take_bytes-behind n front xs rest e = rw (
  not_lt→ltb _ _ enough,
  drop-append front (xs ++ rest),
  ← e,
  take-append xs rest,
  ← length-append front xs,
  append_assoc front xs rest,
)
  where
    enough : ¬ (length (front ++ (xs ++ rest)) - length front < n)
    enough = omega (arith, length-append front (xs ++ rest), length-append xs rest)

pub read_u8-behind :
    (b : ℕ) (front rest : List ℕ)
    → read_u8 (behind front (b ∷ rest)) ≡ (ok b, behind (front ++ (b ∷ [])) rest)
unfolding read_u8
read_u8-behind b front rest =
    rw (take_bytes-behind 1 front (b ∷ []) rest refl, from_be_bytes_single b)

pub read_bool-behind :
    (b : ℕ) (front rest : List ℕ)
    → read_bool (behind front (b ∷ rest)) ≡ (ok (not (b == 0)), behind (front ++ (b ∷ [])) rest)
unfolding read_bool
read_bool-behind b front rest = rw (read_u8-behind b front rest)

pub read_u16-behind :
    (w : ℕ) (front rest : List ℕ)
    → w < 2 ^ 16
    → read_u16 (behind front (to_be_bytes 2 w ++ rest))
      ≡ (ok w, behind (front ++ to_be_bytes 2 w) rest)
unfolding read_u16
read_u16-behind w front rest h = rw (
  take_bytes-behind 2 front (to_be_bytes 2 w) rest (length-to_be_bytes 2 w),
  from_be_bytes-to_be_bytes 2 w h,
)

pub read_i64-behind :
    (z : ℤ) (front rest : List ℕ)
    → IsI64 z
    → read_i64 (behind front (to_be_bytes 8 (to_u64 z) ++ rest))
      ≡ (ok z, behind (front ++ to_be_bytes 8 (to_u64 z)) rest)
unfolding read_i64
read_i64-behind z front rest h = rw (
  take_bytes-behind 8 front (to_be_bytes 8 (to_u64 z)) rest (length-to_be_bytes 8 (to_u64 z)),
  from_be_bytes-to_be_bytes 8 (to_u64 z) (to_u64-lt z),
  from_u64-to_u64 z h,
)

pub read_utf-behind :
    (s : Text) (front rest : List ℕ)
    → IsText s
    → Fits s
    → read_utf (behind front (utf_bytes s ++ rest)) ≡ (ok s, behind (front ++ utf_bytes s) rest)
unfolding read_utf utf_bytes
read_utf-behind s front rest h fits = rw (
  append_assoc (to_be_bytes 2 (length (text_bytes s))) (text_bytes s) rest,
  read_u16-behind (length (text_bytes s)) front (text_bytes s ++ rest) fits,
  take_bytes-behind (length (text_bytes s)) (front ++ to_be_bytes 2 (length (text_bytes s)))
      (text_bytes s) rest refl,
  decode_modified_utf8-text_bytes s h,
  append_assoc front (to_be_bytes 2 (length (text_bytes s))) (text_bytes s),
)

pub read_nullable_utf-behind :
    (o : Option Text) (front rest : List ℕ)
    → FitsOption o
    → read_nullable_utf (behind front (nullable_bytes o ++ rest))
      ≡ (ok o, behind (front ++ nullable_bytes o) rest)
unfolding read_nullable_utf nullable_bytes
read_nullable_utf-behind none front rest h = rw (read_bool-behind 0 front rest)
read_nullable_utf-behind (some s) front rest (h, fits) = rw (
  read_bool-behind 1 front (utf_bytes s ++ rest),
  read_utf-behind s (front ++ (1 ∷ [])) rest h fits,
  append_assoc front (1 ∷ []) (utf_bytes s),
)

pub read_i32-behind :
    (w : ℕ) (front rest : List ℕ)
    → w < 2 ^ 32
    → read_i32 (behind front (to_be_bytes 4 w ++ rest))
      ≡ (ok (from_u32 w), behind (front ++ to_be_bytes 4 w) rest)
unfolding read_i32
read_i32-behind w front rest h = rw (
  take_bytes-behind 4 front (to_be_bytes 4 w) rest (length-to_be_bytes 4 w),
  from_be_bytes-to_be_bytes 4 w h,
)

-- Whatever `write_utf` accepted, `read_utf` reads back from the place where it was written, and
-- stops right behind it, whatever follows.
pub read_utf-write_utf :
    (s : Text) (out out' : DataOutput) (rest : List ℕ)
    → IsText s
    → write_utf s out ≡ (ok tt, out')
    → read_utf (record { bytes = out'.bytes ++ rest; offset = length out.bytes })
      ≡ (ok s, record { bytes = out'.bytes ++ rest; offset = length out'.bytes })
read_utf-write_utf s out out' rest h e = elim (Bool-cases (ltb (length (text_bytes s)) (2 ^ 16))) [
  | inl fits ↦
      let written : out' ≡ extend (utf_bytes s) out =
        unfold extend in cc (e, write_utf_lem s out h, fits) in
      rw written (
        unfold extend behind in
        ap (λ b. read_utf (record { bytes = b; offset = length out.bytes }))
          (append_assoc out.bytes (utf_bytes s) rest)
        ∙ read_utf-behind s out.bytes rest h (ltb→lt _ _ fits))
  | inr long ↦ cc (e, write_utf_lem s out h, long)
]
