-- ===== src/Ipc/Lsp/Position/Tests.antt =====
-- Runs of the conversions between offsets and positions, and their theorems at a concrete text.
use kotatsu.Base.{
  ℕ, ◌≤◌, ◌<◌, true, false, [], ◌∷◌, drop, none, some, ◌≡◌, ◌⊎◌, inl, inr, refl, arith,
}
use kotatsu.Support.Text.{Bytes}
use kotatsu.Support.Unicode.{decode_utf8, decode_sequence, read_rest}
use kotatsu.Ipc.Lsp.Text.{utf16, line_starts, locate, encoded_length, next_codepoint_sizes}
use kotatsu.Ipc.Lsp.Text.Units.{Boundary, start, next}
use kotatsu.Ipc.Lsp.Position.{
  Source, Position, upper_bound, line_at, whole, of_size, position_in, offset_in, to_position,
  to_offset, to_offset_clamped, to_range, to_offset_range,
}
use kotatsu.Ipc.Lsp.Position.Table.{IsTable, line_starts-IsTable}
use kotatsu.Ipc.Lsp.Position.Order.{to_offset_clamped_mono}
use kotatsu.Ipc.Lsp.Position.RoundTrip.{to_offset-to_position, to_range-to_position}
use kotatsu.Ipc.Lsp.Position.Ascii.{holds_ascii, said, position_in-ascii}

-- "a\r\n", then 'b', U+1F600 and 'c'.
abbrev content : Bytes
content = 0x61 ∷ 0x0D ∷ 0x0A ∷ 0x62 ∷ 0xF0 ∷ 0x9F ∷ 0x98 ∷ 0x80 ∷ 0x63 ∷ []

abbrev source : Source
source = whole content utf16

abbrev at : ℕ → ℕ → Position
at line character = record { line = line; character = character }

run_position : to_position source 8 ≡ some (at 1 3)
unfolding to_position upper_bound next_codepoint_sizes decode_utf8 decode_sequence read_rest
    line_starts locate encoded_length
run_position = refl

run_newline : to_position source 2 ≡ some (at 0 1)
unfolding to_position upper_bound next_codepoint_sizes decode_utf8 decode_sequence read_rest
    line_starts locate encoded_length
run_newline = refl

run_inside : to_offset source (at 1 2) ≡ none
unfolding to_offset next_codepoint_sizes decode_utf8 decode_sequence read_rest line_starts locate
run_inside = refl

run_clamped : to_offset_clamped source (at 1 2) ≡ 4
unfolding to_offset_clamped next_codepoint_sizes decode_utf8 decode_sequence read_rest line_starts
    locate
run_clamped = refl

run_range :
    to_offset_range source (record { start = at 1 3; end = at 0 7 }) ≡ record { begin = 1; end = 8 }
unfolding to_offset_range next_codepoint_sizes decode_utf8 decode_sequence read_rest line_starts
    locate
run_range = refl

run_told : to_position (of_size 9 (0 ∷ 3 ∷ []) (λ line. true)) 2 ≡ some (at 0 1)
unfolding to_position upper_bound next_codepoint_sizes decode_utf8 decode_sequence read_rest
    line_starts locate encoded_length
run_told = refl

content-IsTable : IsTable source.size 0 source.lines
content-IsTable = line_starts-IsTable content

content-Boundary : Boundary (drop 3 content) 5
unfolding next_codepoint_sizes decode_utf8 decode_sequence read_rest
content-Boundary =
    next {c = 0x62} {cs = drop 4 content} 5 (next {c = 0xF0} {cs = drop 5 content} 4 start refl)
      refl

to_offset-to_position_example :
    (p : Position) × (to_position source 8 ≡ some p) × (to_offset source p ≡ some 8)
unfolding upper_bound line_starts line_at
to_offset-to_position_example =
    to_offset-to_position source 8 content-IsTable (omega arith) (omega arith)
      (inr content-Boundary)

to_offset_clamped_mono_example :
    to_offset_clamped source (at 0 9) ≤ to_offset_clamped source (at 1 0)
to_offset_clamped_mono_example =
    to_offset_clamped_mono source (at 0 9) (at 1 0) content-IsTable (inl (omega arith))

to_range-to_position_example :
    ((to_range source 1 8 ≡ some none) × ((8 < 1) ⊎ (9 < 8)))
    ⊎ ((1 ≤ 8)
        × (8 ≤ 9)
        × ((p q : Position) × (to_position source 1 ≡ some p)
            × (to_position source 8 ≡ some q)
            × (to_range source 1 8 ≡ some (some (record { start = p; end = q })))))
to_range-to_position_example = to_range-to_position source 1 8

-- The second line of "a\nb\n", whose text is the byte at 2.
abbrev two_lines : Bytes
two_lines = 0x61 ∷ 0x0A ∷ 0x62 ∷ 0x0A ∷ []

position_in-ascii_example :
    (position_in two_lines (said 1 2 3 true) 3 utf16
      ≡ position_in two_lines (said 1 2 3 false) 3 utf16)
    × (offset_in two_lines (said 1 2 3 true) 5 utf16
        ≡ offset_in two_lines (said 1 2 3 false) 5 utf16)
unfolding holds_ascii
position_in-ascii_example =
    position_in-ascii two_lines 1 2 3 3 5 utf16 (omega arith) (omega arith) (omega arith) refl

-- An offset before its line wraps, where the bytes are not read.
run_before : position_in two_lines (said 1 2 3 true) 0 utf16 ≡ at 1 4_294_967_294
unfolding position_in
run_before = refl
