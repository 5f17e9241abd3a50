-- ===== src/Ipc/Lsp/Position/RoundTrip.antt =====
-- A byte offset as a position, and that position as a byte offset.
use kotatsu.Base.{
  ℕ, ◌+◌, ◌-◌, ◌≤◌, ◌<◌, min, true, false, ◌∷◌, none, some, ◌≡◌, ◌⊎◌, inl, inr, refl, sym, ap, ◌∙◌,
  arith, length, take, length-take, length-drop, ltb, leb, Bool-cases,
}
use kotatsu.Support.Text.{Bytes}
use kotatsu.Ipc.Lsp.Text.{PositionEncoding, utf8, locate, encoded_length, next_codepoint_sizes}
use kotatsu.Ipc.Lsp.Text.Sizes.{sizes_bounds}
use kotatsu.Ipc.Lsp.Text.Units.{Boundary, start, next, locate-encoded_length}
use kotatsu.Ipc.Lsp.Position.{
  Source, Position, Line, subtract, subtract_ge, line_of, line_at, line_in, line_text, column_in,
  position_in, offset_in, offset_of, position_of, range_of, both_ends, to_position, to_offset,
  to_range,
}
use kotatsu.Ipc.Lsp.Position.Table.{IsTable, line_of-Holds}

at_most_length : {text : Bytes} {at : ℕ} → Boundary text at → at ≤ length text
at_most_length start = omega arith
at_most_length (next {c} {cs} at b e) = omega (
  arith,
  at_most_length b,
  sizes_bounds c cs,
  length-drop (next_codepoint_sizes (c ∷ cs)).0 (c ∷ cs),
)

-- In a line, a byte that the line's text has a code point at.
abbrev pub Starts : Bytes → Line → ℕ → Type 0
Starts content line offset =
    (line.ascii ≡ true) ⊎ Boundary (line_text content line) (offset - line.start)

locate-utf8_exact : (text : Bytes) (at : ℕ) → Boundary text at → (locate text at utf8).offset ≡ at
unfolding encoded_length
locate-utf8_exact text at b =
    let counted : encoded_length (take at text) utf8 ≡ at =
      omega (arith, length-take at text, at_most_length b) in
    ap (λ k. (locate text k utf8).offset) (sym counted)
    ∙ ap (λ r. r.offset) (locate-encoded_length text utf8 at b)

column-offset_ascii :
    (content : Bytes) (line : Line) (offset : ℕ) (encoding : PositionEncoding)
    → line.start ≤ offset
    → offset ≤ line.end
    → line.ascii ≡ true
    → offset_in content line (column_in content line offset encoding) encoding
      ≡ record { offset = offset; exact = true }
unfolding offset_in
column-offset_ascii content line offset encoding l h e = rw e (
    ap (λ k. record { offset = k; exact = true })
      (omega (arith, subtract_ge (min offset line.end) line.start (omega arith))))

column-offset :
    (content : Bytes) (line : Line) (offset : ℕ) (encoding : PositionEncoding)
    → line.start ≤ offset
    → offset ≤ line.end
    → Starts content line offset
    → offset_in content line (column_in content line offset encoding) encoding
      ≡ record { offset = offset; exact = true }
unfolding offset_in
column-offset content line offset encoding l h (inl e) =
    column-offset_ascii content line offset encoding l h e
column-offset content line offset encoding l h (inr b) = elim (Bool-cases line.ascii) [
  | inl e ↦ column-offset_ascii content line offset encoding l h e
  | inr e ↦
      let text = line_text content line in
      let at = offset - line.start in
      let inside : subtract (min offset line.end) line.start ≡ at =
        subtract_ge (min offset line.end) line.start (omega arith) ∙ omega arith in
      let exact = locate-utf8_exact text at b in
      let found = locate-encoded_length text encoding at b in
      let reached : line.start + at ≡ offset = omega arith in
      rw (e, inside, exact, found, reached) refl
]

-- The parts of a position's line.
position_of-inside :
    (s : Source) (offset : ℕ)
    → offset ≤ s.size
    → position_of s offset
      ≡ some (position_in s.content (line_in s (line_of s.lines offset)) offset s.encoding)
unfolding position_of
position_of-inside s offset h = let e : ltb s.size offset ≡ false = ground arith in rw e refl

offset_of-position_in :
    (s : Source) (offset : ℕ)
    → IsTable s.size 0 s.lines
    → let line = line_in s (line_of s.lines offset) in
      offset ≤ line.end
      → Starts s.content line offset
      → offset_of s (position_in s.content line offset s.encoding)
        ≡ record { offset = offset; exact = true }
unfolding offset_of position_in line_at
offset_of-position_in s offset t h b =
    let held = line_of-Holds offset t in
    let e : leb (length s.lines) (line_of s.lines offset) ≡ false = ground (arith, held) in
    rw e (column-offset s.content (line_in s (line_of s.lines offset)) offset s.encoding held.1 h b)

-- A byte of the text that a code point starts at, or at the end of its line's text, is converted to a
-- position, in any encoding, that is converted back to it.
pub to_offset-to_position :
    (s : Source) (offset : ℕ)
    → IsTable s.size 0 s.lines
    → offset ≤ s.size
    → offset ≤ (line_in s (line_of s.lines offset)).end
    → Starts s.content (line_in s (line_of s.lines offset)) offset
    → (p : Position) × (to_position s offset ≡ some p) × (to_offset s p ≡ some offset)
unfolding to_position to_offset
to_offset-to_position s offset t h k b =
    let line = line_in s (line_of s.lines offset) in
    let back = offset_of-position_in s offset t k b in
    (position_in s.content line offset s.encoding, position_of-inside s offset h, rw back refl)

both_ends-past :
    (s : Source) (begin end : ℕ)
    → ltb s.size end ≡ true
    → both_ends (position_of s begin) (position_of s end) ≡ some none
unfolding position_of
both_ends-past s begin end e = rw e (ground arith)

-- A range of bytes is never converted by reading an empty optional: one with its begin past its end, or
-- its end past the text, has no range, and any other has the positions of its two ends.
pub to_range-to_position :
    (s : Source) (begin end : ℕ)
    → ((to_range s begin end ≡ some none) × ((end < begin) ⊎ (s.size < end)))
      ⊎ ((begin ≤ end)
          × (end ≤ s.size)
          × ((p q : Position) × (to_position s begin ≡ some p)
              × (to_position s end ≡ some q)
              × (to_range s begin end ≡ some (some (record { start = p; end = q })))))
unfolding to_range range_of to_position
to_range-to_position s begin end = elim (Bool-cases (ltb end begin)) [
  | inl e ↦ inl (rw e refl, inl (ground arith))
  | inr e ↦ elim (Bool-cases (ltb s.size end)) [
    | inl e' ↦ inl (rw e (both_ends-past s begin end e'), inr (ground arith))
    | inr e' ↦
        let first = position_of-inside s begin (ground arith) in
        let second = position_of-inside s end (ground arith) in
        inr (ground arith, ground arith, (_, _, first, second, rw (e, first, second) refl))
  ]
]
