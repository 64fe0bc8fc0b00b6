-- ===== src/JavaIo/Nul.antt =====
-- Raw zero bytes. The decoder takes them as they stand, and the encoder writes two bytes for each.
use lavalink_rs.JavaIo.Input.{take_bytes-behind, read_u16-behind, behind}
use lavalink_rs.JavaIo.BigEndian.{to_be_bytes}
use lavalink_rs.JavaIo.Output.{write_utf_lem}
use lavalink_rs.Outcome.{err, ok}
use lavalink_rs.ModifiedUtf8.Encode.{unit_bytes, units_bytes, text_bytes}
use lavalink_rs.ModifiedUtf8.{decode_modified_utf8, is_ascii}
use lavalink_rs.Unicode.{encode_utf16, IsText}
use lavalink_rs.JavaIo.{read_utf, string_too_long, write_utf, DataOutput}
use lavalink_rs.Prelude.{
  length-replicate, append_assoc, ◌++◌, ℕ, zero, suc, ◌*◌, ◌^◌, ◌≤◌, ◌<◌, ◌≡◌, refl, inl, true,
  List, arith, not_lt→ltb, length, replicate,
}

unfoldable pub nuls : ℕ → List ℕ
nuls n = replicate n 0

is_ascii-nuls : (n : ℕ) → is_ascii (nuls n) ≡ true
unfolding is_ascii nuls
is_ascii-nuls zero = refl
is_ascii-nuls (suc n) = is_ascii-nuls n

length-text_bytes-nuls : (n : ℕ) → length (text_bytes (nuls n)) ≡ 2 * n
unfolding text_bytes nuls encode_utf16 units_bytes unit_bytes
length-text_bytes-nuls zero = omega arith
length-text_bytes-nuls (suc n) = omega (arith, length-text_bytes-nuls n)

nuls-IsText : (n : ℕ) → IsText (nuls n)
unfolding nuls
nuls-IsText zero = tt
nuls-IsText (suc n) = (inl (omega arith), nuls-IsText n)

decode_modified_utf8-nuls : (n : ℕ) → decode_modified_utf8 (nuls n) ≡ ok (nuls n)
unfolding decode_modified_utf8
decode_modified_utf8-nuls n = rw (is_ascii-nuls n)

-- The field of a text of raw zero bytes, behind its length.
abbrev pub nul_field : ℕ → List ℕ
nul_field n = to_be_bytes 2 n ++ nuls n

read_utf-nul_field :
    (n : ℕ) (front rest : List ℕ)
    → n < 2 ^ 16
    → read_utf (behind front (nul_field n ++ rest))
      ≡ (ok (nuls n), behind (front ++ nul_field n) rest)
unfolding read_utf
read_utf-nul_field n front rest h = rw (
  append_assoc (to_be_bytes 2 n) (nuls n) rest,
  read_u16-behind n front (nuls n ++ rest) h,
  take_bytes-behind n (front ++ to_be_bytes 2 n) (nuls n) rest
      (unfold nuls in length-replicate n 0),
  decode_modified_utf8-nuls n,
  append_assoc front (to_be_bytes 2 n) (nuls n),
)

-- A field of 32768 to 65535 raw zero bytes, behind its length prefix and anywhere in the input, is
-- read as that many NUL characters, but this text is too long to be written again: the writer
-- fails, and the output stays as it was.
pub decoded_nuls_too_long :
    (n : ℕ) (front rest : List ℕ) (out : DataOutput)
    → 32768 ≤ n
    → n ≤ 65535
    → (read_utf (record { bytes = front ++ (nul_field n ++ rest); offset = length front }) ≡ (
      ok (nuls n),
      record { bytes = (front ++ nul_field n) ++ rest; offset = length (front ++ nul_field n) },
    ))
      × (write_utf (nuls n) out ≡ (err (string_too_long (2 * n)), out))
decoded_nuls_too_long n front rest out low high = (
  unfold behind in read_utf-nul_field n front rest (omega arith),
  rw (
    write_utf_lem (nuls n) out (nuls-IsText n),
    length-text_bytes-nuls n,
    not_lt→ltb (2 * n) (2 ^ 16) too_long,
  ),
)
  where
    too_long : ¬ (2 * n < 2 ^ 16)
    too_long = omega arith
