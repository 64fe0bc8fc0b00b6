-- ===== src/JavaIo/Tests.antt =====
-- The tests of crates/protocol/src/java_io.rs, and the theorems at concrete inputs.
use lavalink_rs.JavaIo.BigEndian.{to_be_bytes}
use lavalink_rs.JavaIo.Output.{write_utf_lem, write_nullable_utf_lem, utf_bytes}
use lavalink_rs.JavaIo.Input.{read_utf-write_utf}
use lavalink_rs.ModifiedUtf8.Encode.{text_bytes}
use lavalink_rs.Outcome.{err, ok}
use lavalink_rs.JavaIo.Nul.{nul_field, decoded_nuls_too_long, nuls}
use lavalink_rs.ModifiedUtf8.{push_unit, push_units, encode_modified_utf8_into}
use lavalink_rs.Unicode.{encode_utf16, Text}
use lavalink_rs.JavaIo.{
  patch, string_too_long, eof, new_input, extend, take_bytes, write_utf, write_nullable_utf,
  read_utf, read_i64, DataOutput,
}
use lavalink_rs.Prelude.{◌++◌, ◌^◌, ◌≡◌, refl, some, [], ◌∷◌, arith, ltb, if◌then◌else◌, length}

abbrev seven : DataOutput
seven = record { bytes = 7 ∷ [] }

abbrev fine : Text
fine = b'o' ∷ 0 ∷ []

fine_is_written :
    write_utf fine seven ≡ (ok tt, record { bytes = 7 ∷ 0 ∷ 3 ∷ b'o' ∷ 0xC0 ∷ 0x80 ∷ [] })
unfolding write_utf encode_modified_utf8_into push_units push_unit encode_utf16 to_be_bytes patch
fine_is_written = refl

reading_past_the_end : (read_i64 (new_input (0 ∷ []))).0 ≡ err (eof 0 8 1)
unfolding read_i64 take_bytes new_input
reading_past_the_end = refl

write_utf_lem_example : write_utf fine seven ≡ (
    if ltb (length (text_bytes fine)) (2 ^ 16)
    then (ok tt, extend (utf_bytes fine) seven)
    else (err (string_too_long (length (text_bytes fine))), seven))
write_utf_lem_example = write_utf_lem fine seven (omega arith)

write_nullable_utf_lem_example : write_nullable_utf (some fine) seven ≡ (
    if ltb (length (text_bytes fine)) (2 ^ 16)
    then (ok tt, extend (1 ∷ utf_bytes fine) seven)
    else (err (string_too_long (length (text_bytes fine))), seven))
write_nullable_utf_lem_example = write_nullable_utf_lem fine seven (omega arith)

read_utf-write_utf_example :
    read_utf (record { bytes = 7 ∷ 0 ∷ 3 ∷ b'o' ∷ 0xC0 ∷ 0x80 ∷ 9 ∷ []; offset = 1 })
    ≡ (ok fine, record { bytes = 7 ∷ 0 ∷ 3 ∷ b'o' ∷ 0xC0 ∷ 0x80 ∷ 9 ∷ []; offset = 6 })
read_utf-write_utf_example = read_utf-write_utf fine seven _ (9 ∷ []) (omega arith) fine_is_written

decoded_nuls_too_long_example :
    (read_utf (record { bytes = (5 ∷ []) ++ (nul_field 40000 ++ (6 ∷ [])); offset = 1 }) ≡ (
      ok (nuls 40000),
      record {
        bytes = ((5 ∷ []) ++ nul_field 40000) ++ (6 ∷ []);
        offset = length ((5 ∷ []) ++ nul_field 40000);
      },
    ))
    × (write_utf (nuls 40000) seven ≡ (err (string_too_long 80000), seven))
decoded_nuls_too_long_example =
    decoded_nuls_too_long 40000 (5 ∷ []) (6 ∷ []) seven (omega arith) (omega arith)
