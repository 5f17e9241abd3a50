-- ===== src/Support/Unicode/Tests.antt =====
-- Runs of the Unicode conversions at fixed inputs.
use kotatsu.Base.{true, length, arith, ◌++◌, false, [], ◌∷◌, ◌≡◌, refl}
use kotatsu.Support.Unicode.{
  read_rest, decode_sequence, decode_utf8, replace_invalid_utf8, from_utf16, to_utf16,
  put_code_point,
}
use kotatsu.Support.Unicode.Decode.{decode_sequence-put_code_point}
use kotatsu.Support.Unicode.RoundTrip.{to_utf16-from_utf16}

-- A lone surrogate, and a pair.
utf16_written :
    from_utf16 (0xD800 ∷ 0x41 ∷ 0xD83D ∷ 0xDE00 ∷ [])
    ≡ 0xED ∷ 0xA0 ∷ 0x80 ∷ 0x41 ∷ 0xF0 ∷ 0x9F ∷ 0x98 ∷ 0x80 ∷ []
unfolding from_utf16
utf16_written = refl

-- CESU-8 is refused, with what stood before it kept.
cesu_refused : to_utf16 (0x41 ∷ 0xED ∷ 0xA0 ∷ 0xBD ∷ 0xED ∷ 0xB8 ∷ 0x80 ∷ []) ≡ (0x41 ∷ [], false)
unfolding to_utf16 decode_sequence read_rest
cesu_refused = refl

replaced :
    replace_invalid_utf8 (0x41 ∷ 0xE2 ∷ 0x82 ∷ 0x42 ∷ 0xC3 ∷ 0xA9 ∷ [])
    ≡ 0x41 ∷ 0xEF ∷ 0xBF ∷ 0xBD ∷ 0x42 ∷ 0xC3 ∷ 0xA9 ∷ []
unfolding replace_invalid_utf8 decode_utf8 decode_sequence read_rest
replaced = refl

to_utf16-from_utf16_example :
    to_utf16 (from_utf16 (0xD800 ∷ 0x41 ∷ 0xD83D ∷ 0xDE00 ∷ []))
    ≡ (0xD800 ∷ 0x41 ∷ 0xD83D ∷ 0xDE00 ∷ [], true)
to_utf16-from_utf16_example =
    to_utf16-from_utf16 (0xD800 ∷ 0x41 ∷ 0xD83D ∷ 0xDE00 ∷ [])
      (omega arith, (omega arith, (omega arith, (omega arith, tt))))

decode_sequence-put_code_point_example :
    decode_sequence (put_code_point 0x20AC ++ 0x41 ∷ []) true
    ≡ record { code_point = 0x20AC; count = length (put_code_point 0x20AC); valid = true }
decode_sequence-put_code_point_example =
    decode_sequence-put_code_point 0x20AC (0x41 ∷ []) (omega arith)
