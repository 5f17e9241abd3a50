-- ===== src/Ipc/Lsp/Text/Tests.antt =====
-- Runs of the text conversions, and their theorems at concrete texts.
use kotatsu.Base.{[], ◌∷◌, take, drop, none, some, false, ◌≡◌, refl}
use kotatsu.Support.Text.{Bytes}
use kotatsu.Support.Unicode.{decode_utf8, decode_sequence, read_rest}
use kotatsu.Ipc.Lsp.Text.{
  utf8, utf16, next_codepoint_sizes, locate, locate_from, line_starts, encoded_length,
  encoded_offset,
}
use kotatsu.Ipc.Lsp.Text.Resync.{locate-utf8_lem}
use kotatsu.Ipc.Lsp.Text.Units.{Boundary, start, next, encoded_offset-encoded_length}

-- 'a', U+1F600 and 'b'.
abbrev smile : Bytes
smile = 0x61 ∷ 0xF0 ∷ 0x9F ∷ 0x98 ∷ 0x80 ∷ 0x62 ∷ []

smile_length : encoded_length smile utf16 ≡ 4
unfolding encoded_length next_codepoint_sizes decode_utf8 decode_sequence read_rest
smile_length = refl

smile_inside : encoded_offset smile 2 utf16 ≡ none
unfolding encoded_offset next_codepoint_sizes decode_utf8 decode_sequence read_rest
smile_inside = refl

smile_between : locate smile 3 utf8 ≡ record { offset = 1; exact = false }
unfolding locate next_codepoint_sizes decode_utf8 decode_sequence read_rest
smile_between = refl

two_lines : line_starts (0x61 ∷ 0x0A ∷ 0x0D ∷ 0x0A ∷ []) ≡ 0 ∷ 2 ∷ 4 ∷ []
unfolding line_starts
two_lines = refl

smile-Boundary : Boundary smile 5
unfolding next_codepoint_sizes decode_utf8 decode_sequence read_rest
smile-Boundary =
    next {c = 0x61} {cs = drop 1 smile} 5 (next {c = 0xF0} {cs = drop 2 smile} 4 start refl) refl

locate-utf8_lem_example : locate smile 3 utf8 ≡ locate_from 6 utf8 3 0 0 smile
locate-utf8_lem_example = locate-utf8_lem smile 3

encoded_offset-encoded_length_example :
    encoded_offset smile (encoded_length (take 5 smile) utf16) utf16 ≡ some 5
encoded_offset-encoded_length_example = encoded_offset-encoded_length smile utf16 5 smile-Boundary
