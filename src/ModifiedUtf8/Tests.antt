-- ===== src/ModifiedUtf8/Tests.antt =====
-- Runs of the tests of crates/protocol/src/java_io.rs, and the theorems at concrete inputs.
use lavalink_rs.ModifiedUtf8.Ascii.{
  decode_modified_utf8_total, decode_modified_utf8-encode_modified_utf8,
  decode_modified_utf8-decode_general,
}
use lavalink_rs.Prelude.{◌≤◌, ℕ, ◌⊎◌, arith, ◌≡◌, refl, [], ◌∷◌}
use lavalink_rs.Outcome.{ok, err}
use lavalink_rs.Unicode.{IsText, Text, encode_utf16, from_utf16_lossy}
use lavalink_rs.ModifiedUtf8.{
  push_units, push_unit, encode_modified_utf8, encode_modified_utf8_into, decode_modified_utf8,
  decode_general, decode_loop, read_unit, continuation, is_ascii,
}

nul_takes_two_bytes : encode_modified_utf8 (0 ∷ []) ≡ 0xC0 ∷ 0x80 ∷ []
unfolding encode_modified_utf8 encode_modified_utf8_into push_units push_unit encode_utf16
nul_takes_two_bytes = refl

abbrev note : Text
note = 0x1_F3B5 ∷ []

note_takes_six_bytes : encode_modified_utf8 note ≡ 0xED ∷ 0xA0 ∷ 0xBC ∷ 0xED ∷ 0xBE ∷ 0xB5 ∷ []
unfolding encode_modified_utf8 encode_modified_utf8_into push_units push_unit encode_utf16
note_takes_six_bytes = refl

note_is_read_back : decode_modified_utf8 (0xED ∷ 0xA0 ∷ 0xBC ∷ 0xED ∷ 0xBE ∷ 0xB5 ∷ []) ≡ ok note
unfolding decode_modified_utf8 decode_general decode_loop read_unit continuation is_ascii
    from_utf16_lossy
note_is_read_back = refl

truncated_sequence : decode_modified_utf8 (0x61 ∷ 0xE0 ∷ 0x80 ∷ []) ≡ err 3
unfolding decode_modified_utf8 decode_general decode_loop read_unit continuation is_ascii
truncated_sequence = refl

decode_modified_utf8-encode_modified_utf8_example :
    decode_modified_utf8 (encode_modified_utf8 (0 ∷ 0xAC00 ∷ 0x1_F3B5 ∷ []))
    ≡ ok (0 ∷ 0xAC00 ∷ 0x1_F3B5 ∷ [])
decode_modified_utf8-encode_modified_utf8_example =
    decode_modified_utf8-encode_modified_utf8 (0 ∷ 0xAC00 ∷ 0x1_F3B5 ∷ []) (ground arith)

decode_modified_utf8-decode_general_example :
    decode_modified_utf8 (0x61 ∷ 0x00 ∷ []) ≡ decode_general (0x61 ∷ 0x00 ∷ [])
decode_modified_utf8-decode_general_example = decode_modified_utf8-decode_general (0x61 ∷ 0x00 ∷ [])

decode_modified_utf8_total_example :
    ((s : Text) × IsText s × (decode_modified_utf8 (0xE0 ∷ 0x80 ∷ []) ≡ ok s))
    ⊎ ((e : ℕ) × (e ≤ 2) × (decode_modified_utf8 (0xE0 ∷ 0x80 ∷ []) ≡ err e))
decode_modified_utf8_total_example = decode_modified_utf8_total (0xE0 ∷ 0x80 ∷ [])
