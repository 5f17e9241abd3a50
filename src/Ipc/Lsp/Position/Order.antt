-- ===== src/Ipc/Lsp/Position/Order.antt =====
-- The lines of a text in order, and positions in order.
use kotatsu.Base.{
  ℕ, zero, suc, ◌+◌, ◌-◌, ◌≤◌, ◌<◌, true, false, [], ◌∷◌, ◌≡◌, ◌⊎◌, inl, inr, refl, sym, ap, ◌∙◌,
  arith, length, take, drop, length-take, length-drop, leb, ◌==◌, if◌then◌else◌, Bool-cases,
}
use kotatsu.Support.Text.{Bytes}
use kotatsu.Ipc.Lsp.Text.{
  PositionEncoding, locate, locate_from, next_codepoint_sizes, width, line_starts, line_starts_from,
}
use kotatsu.Ipc.Lsp.Text.Sizes.{sizes_bounds}
use kotatsu.Ipc.Lsp.Text.Units.{width_pos, locate-units}
use kotatsu.Ipc.Lsp.Position.{
  Source, Position, Line, upper_bound, line_of, line_in, line_text, offset_in, offset_of,
  to_offset_clamped,
}
use kotatsu.Ipc.Lsp.Position.Table.{IsTable, start_mono, line_bounds}

-- How many lines end in a text.
unfoldable pub newlines : Bytes → ℕ
newlines [] = 0
newlines (c ∷ cs) = if c == b'\n' then suc (newlines cs) else newlines cs

upper_bound-later :
    (i : ℕ) (cs : Bytes) (value : ℕ) → value ≤ i → upper_bound (line_starts_from i cs) value ≡ 0
unfolding upper_bound line_starts_from
upper_bound-later i [] value h = refl
upper_bound-later i (c ∷ cs) value h = ground (arith, upper_bound-later (i + 1) cs value)

upper_bound-newlines :
    (i k : ℕ) (cs : Bytes) → upper_bound (line_starts_from i cs) (i + k) ≡ newlines (take k cs)
unfolding upper_bound line_starts_from newlines
upper_bound-newlines i zero cs = upper_bound-later i cs (i + 0) (omega arith)
upper_bound-newlines i (suc k) [] = refl
upper_bound-newlines i (suc k) (c ∷ cs) =
    let e : i + suc k ≡ i + 1 + k = omega arith in
    rw e (ground (arith, upper_bound-newlines (i + 1) k cs))

-- The line of a byte is how many newlines come before it.
pub line_of-line_starts :
    (content : Bytes) (offset : ℕ)
    → line_of (line_starts content) offset ≡ newlines (take offset content)
unfolding line_starts upper_bound
line_of-line_starts content offset =
    let e : 0 + offset ≡ offset = omega arith in
    let counted : upper_bound (line_starts_from 0 content) offset ≡ newlines (take offset content) =
      ap (upper_bound (line_starts_from 0 content)) (sym e)
      ∙ upper_bound-newlines 0 offset content in
    ground (arith, counted)

-- A scan of the code points never goes back, and places later units no earlier.
locate_from_ge :
    (fuel : ℕ) (encoding : PositionEncoding) (character units i : ℕ) (text : Bytes)
    → i ≤ (locate_from fuel encoding character units i text).offset
unfolding locate_from
locate_from_ge fuel encoding character units i [] = omega arith
locate_from_ge zero encoding character units i (c ∷ cs) = omega arith
locate_from_ge (suc fuel) encoding character units i (c ∷ cs) =
    let sizes = next_codepoint_sizes (c ∷ cs) in
    ground (
      arith,
      locate_from_ge fuel encoding character (units + width encoding sizes) (i + sizes.0)
          (drop sizes.0 (c ∷ cs)),
    )

locate_from_le :
    (fuel : ℕ) (encoding : PositionEncoding) (character units i : ℕ) (text : Bytes)
    → (locate_from fuel encoding character units i text).offset ≤ i + length text
unfolding locate_from
locate_from_le fuel encoding character units i [] = omega arith
locate_from_le zero encoding character units i (c ∷ cs) = omega arith
locate_from_le (suc fuel) encoding character units i (c ∷ cs) =
    let sizes = next_codepoint_sizes (c ∷ cs) in
    ground (
      arith,
      sizes_bounds c cs,
      length-drop sizes.0 (c ∷ cs),
      locate_from_le fuel encoding character (units + width encoding sizes) (i + sizes.0)
          (drop sizes.0 (c ∷ cs)),
    )

locate_from_mono :
    (fuel : ℕ) (encoding : PositionEncoding) (k m units i : ℕ) (text : Bytes)
    → k ≤ m
    → (locate_from fuel encoding k units i text).offset
      ≤ (locate_from fuel encoding m units i text).offset
unfolding locate_from
locate_from_mono fuel encoding k m units i [] h = omega arith
locate_from_mono zero encoding k m units i (c ∷ cs) h = omega arith
locate_from_mono (suc fuel) encoding k m units i (c ∷ cs) h =
    let sizes = next_codepoint_sizes (c ∷ cs) in
    let units' = units + width encoding sizes in
    ground (
      arith,
      width_pos encoding c cs,
      locate_from_ge fuel encoding m units' (i + sizes.0) (drop sizes.0 (c ∷ cs)),
      locate_from_mono fuel encoding k m units' (i + sizes.0) (drop sizes.0 (c ∷ cs)) h,
    )

pub locate_le :
    (text : Bytes) (character : ℕ) (encoding : PositionEncoding)
    → (locate text character encoding).offset ≤ length text
locate_le text character encoding =
    let within = locate_from_le (length text) encoding character 0 0 text in
    rw (locate-units text character encoding) (omega arith)

pub locate_mono :
    (text : Bytes) (k m : ℕ) (encoding : PositionEncoding)
    → k ≤ m
    → (locate text k encoding).offset ≤ (locate text m encoding).offset
locate_mono text k m encoding h =
    rw (locate-units text k encoding, locate-units text m encoding)
      (locate_from_mono (length text) encoding k m 0 0 text h)

-- Where a character falls in a line, in the text of the line.
offset_in_bounds :
    (content : Bytes) (line : Line) (character : ℕ) (encoding : PositionEncoding)
    → line.start ≤ line.end
    → (line.start ≤ (offset_in content line character encoding).offset)
      × ((offset_in content line character encoding).offset ≤ line.end)
unfolding offset_in
offset_in_bounds content line character encoding h = ground (
  arith,
  locate_le (line_text content line) character encoding,
  length-take (line.end - line.start) (drop line.start content),
)

offset_in_mono :
    (content : Bytes) (line : Line) (k m : ℕ) (encoding : PositionEncoding)
    → k ≤ m
    → (offset_in content line k encoding).offset ≤ (offset_in content line m encoding).offset
unfolding offset_in
offset_in_mono content line k m encoding h =
    ground (arith, locate_mono (line_text content line) k m encoding h)

-- The order of positions.
abbrev pub Before : Position → Position → Type 0
Before p q = (p.line < q.line) ⊎ ((p.line ≡ q.line) × (p.character ≤ q.character))

line_before :
    (s : Source) (k m : ℕ)
    → IsTable s.size 0 s.lines
    → k < m
    → m < length s.lines
    → (line_in s k).end ≤ (line_in s m).start
line_before s k m t h i =
    let own = line_bounds k s.ascii s.crlf t (omega arith) in
    let other = line_bounds m s.ascii s.crlf t i in
    let ordered = start_mono (suc k) m t (omega arith) i in ground (arith, own, other, ordered)

offset_of_bounds :
    (s : Source) (p : Position) → IsTable s.size 0 s.lines → (offset_of s p).offset ≤ s.size
unfolding offset_of
offset_of_bounds s p t = elim (Bool-cases (leb (length s.lines) p.line)) [
  | inl e ↦ rw e (omega arith)
  | inr e ↦
      let own = line_bounds p.line s.ascii s.crlf t (ground arith) in
      let within =
        offset_in_bounds s.content (line_in s p.line) p.character s.encoding (omega (arith, own)) in
      rw e (omega (arith, own, within))
]

offset_of-beyond :
    (s : Source) (p q : Position)
    → IsTable s.size 0 s.lines
    → leb (length s.lines) q.line ≡ true
    → (offset_of s p).offset ≤ (offset_of s q).offset
unfolding offset_of
offset_of-beyond s p q t e = rw e (offset_of_bounds s p t)

offset_of-inside :
    (s : Source) (p : Position)
    → leb (length s.lines) p.line ≡ false
    → offset_of s p ≡ offset_in s.content (line_in s p.line) p.character s.encoding
unfolding offset_of
offset_of-inside s p e = rw e refl

offset_of-inside_mono :
    (s : Source) (p q : Position)
    → IsTable s.size 0 s.lines
    → Before p q
    → leb (length s.lines) p.line ≡ false
    → leb (length s.lines) q.line ≡ false
    → (offset_in s.content (line_in s p.line) p.character s.encoding).offset
      ≤ (offset_in s.content (line_in s q.line) q.character s.encoding).offset
offset_of-inside_mono s p q t (inl k) e e' =
    let own = line_bounds p.line s.ascii s.crlf t (ground arith) in
    let other = line_bounds q.line s.ascii s.crlf t (ground arith) in
    let low =
      offset_in_bounds s.content (line_in s p.line) p.character s.encoding (omega (arith, own)) in
    let high =
      offset_in_bounds s.content (line_in s q.line) q.character s.encoding (omega (arith, other)) in
    omega (arith, low, high, line_before s p.line q.line t k (ground arith))
offset_of-inside_mono s p q t (inr k) e e' =
    rw k.0 (offset_in_mono s.content (line_in s q.line) p.character q.character s.encoding k.1)

-- Positions in order are clamped to bytes in order, over any table of ascending line starts.
pub to_offset_clamped_mono :
    (s : Source) (p q : Position)
    → IsTable s.size 0 s.lines
    → Before p q
    → to_offset_clamped s p ≤ to_offset_clamped s q
unfolding to_offset_clamped
to_offset_clamped_mono s p q t h = elim (Bool-cases (leb (length s.lines) q.line)) [
  | inl e ↦ offset_of-beyond s p q t e
  | inr e ↦
      let e' : leb (length s.lines) p.line ≡ false = ground (arith, h) in
      let first : to_offset_clamped s p
          ≡ (offset_in s.content (line_in s p.line) p.character s.encoding).offset =
        ap (λ r. r.offset) (offset_of-inside s p e') in
      let second : to_offset_clamped s q
          ≡ (offset_in s.content (line_in s q.line) q.character s.encoding).offset =
        ap (λ r. r.offset) (offset_of-inside s q e) in
      omega (arith, first, second, offset_of-inside_mono s p q t h e' e)
]
