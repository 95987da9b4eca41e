-- ===== src/Utf8/Tests.antt =====
-- Tests of the sanitiser, and its theorems at concrete inputs.
use edge_scpoe.Base.{◌*◌, ◌≤◌, ◌≡◌, refl, [], ◌∷◌, ◌++◌, arith, length}
use edge_scpoe.Text.{Bytes}
use edge_scpoe.Utf8.{sanitize_utf8}
use edge_scpoe.Utf8.Encoding.{encode_all, IsUtf8}
use edge_scpoe.Utf8.Sanitized.{
  sanitize_utf8-IsUtf8, sanitize_utf8-id, sanitize_utf8_idem, length-sanitize_utf8,
}

-- An overlong encoding, a lone surrogate and a truncated sequence around good text.
abbrev bad : Bytes
bad = 0xC0 ∷ 0x80 ∷ b'a' ∷ 0xED ∷ 0xA0 ∷ 0x80 ∷ 0xC3 ∷ 0xA9 ∷ 0xE2 ∷ 0x82 ∷ []

abbrev mark : Bytes
mark = 0xEF ∷ 0xBF ∷ 0xBD ∷ []

sanitize_utf8-bad :
    sanitize_utf8 bad
    ≡ mark ++ (mark ++ (b'a' ∷ (mark ++ (mark ++ (mark ++ (0xC3 ∷ 0xA9 ∷ (mark ++ mark)))))))
unfolding sanitize_utf8
sanitize_utf8-bad = refl

abbrev good : Bytes
good = encode_all (b'a' ∷ 0xE9 ∷ 0x20AC ∷ 0x1F600 ∷ [])

good-IsUtf8 : IsUtf8 good
good-IsUtf8 = record {
  scalars = b'a' ∷ 0xE9 ∷ 0x20AC ∷ 0x1F600 ∷ [];
  all_scalar = omega arith;
  encodes = refl;
}

sanitize_utf8-IsUtf8_example : IsUtf8 (sanitize_utf8 bad)
sanitize_utf8-IsUtf8_example = sanitize_utf8-IsUtf8 bad (omega arith)

sanitize_utf8-id_example : sanitize_utf8 good ≡ good
sanitize_utf8-id_example = sanitize_utf8-id good good-IsUtf8

sanitize_utf8_idem_example : sanitize_utf8 (sanitize_utf8 bad) ≡ sanitize_utf8 bad
sanitize_utf8_idem_example = sanitize_utf8_idem bad (omega arith)

length-sanitize_utf8_example : length (sanitize_utf8 bad) ≤ 3 * length bad
length-sanitize_utf8_example = length-sanitize_utf8 bad
