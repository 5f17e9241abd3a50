-- ===== src/Ipc/Lsp/Text/Units.antt =====
-- The units before a byte: `encoded_length`, and `encoded_offset` back from them.
use kotatsu.Base.{
  ℕ, zero, suc, ◌+◌, ◌-◌, ◌≤◌, true, false, [], ◌∷◌, some, ◌≡◌, refl, sym, ap, ◌∙◌, arith, length,
  take, drop, length-drop, length-take, drop-take, ltb, ◌==◌, if◌then◌else◌, ==_iff,
}
use kotatsu.Support.Text.{Bytes}
use kotatsu.Ipc.Lsp.Text.{
  PositionEncoding, utf8, utf16, utf32, Located, next_codepoint_sizes, width, locate, locate_from,
  encoded_length, encoded_length_from, encoded_offset,
}
use kotatsu.Ipc.Lsp.Text.Sizes.{sizes_bounds, width_le}
use kotatsu.Ipc.Lsp.Text.Prefixes.{sizes-take}
use kotatsu.Ipc.Lsp.Text.Resync.{locate-utf8_lem}

-- A byte that a code point of the text starts at, or the end of the text.
pub data Boundary : Bytes → ℕ → Type 0 where
  start : {text : Bytes} → Boundary text 0
  next :
      {c : ℕ} {cs : Bytes} {k : ℕ} (at : ℕ)
      → Boundary (drop (next_codepoint_sizes (c ∷ cs)).0 (c ∷ cs)) k
      → at ≡ (next_codepoint_sizes (c ∷ cs)).0 + k
      → Boundary (c ∷ cs) at

-- Units never outnumber bytes.
encoded_length_from_le :
    (fuel : ℕ) (encoding : PositionEncoding) (text : Bytes)
    → encoded_length_from fuel encoding text ≤ length text
unfolding encoded_length_from
encoded_length_from_le fuel encoding [] = omega arith
encoded_length_from_le zero encoding (c ∷ cs) = omega arith
encoded_length_from_le (suc fuel) encoding (c ∷ cs) =
    let n = (next_codepoint_sizes (c ∷ cs)).0 in
    omega (
      arith,
      width_le encoding c cs,
      sizes_bounds c cs,
      length-drop n (c ∷ cs),
      encoded_length_from_le fuel encoding (drop n (c ∷ cs)),
    )

-- The length of a text in any encoding is at most its length in bytes, so that what fits `uint32_t` in
-- bytes fits it in units.
pub encoded_length_le :
    (text : Bytes) (encoding : PositionEncoding) → encoded_length text encoding ≤ length text
unfolding encoded_length
encoded_length_le text utf8 = omega arith
encoded_length_le text utf16 = encoded_length_from_le (length text) utf16 text
encoded_length_le text utf32 = encoded_length_from_le (length text) utf32 text

pub width_pos :
    (encoding : PositionEncoding) (c : ℕ) (cs : Bytes)
    → 1 ≤ width encoding (next_codepoint_sizes (c ∷ cs))
width_pos utf8 c cs = omega (arith, sizes_bounds c cs)
width_pos utf16 c cs = omega (arith, sizes_bounds c cs)
width_pos utf32 c cs = omega arith

-- The units before a boundary, counted with any fuel that is enough.
units-next :
    (fuel at k : ℕ) (encoding : PositionEncoding) (c : ℕ) (cs : Bytes)
    → let n = (next_codepoint_sizes (c ∷ cs)).0 in
      at ≡ n + k
      → encoded_length_from (suc fuel) encoding (take at (c ∷ cs))
        ≡ width encoding (next_codepoint_sizes (c ∷ cs))
          + encoded_length_from fuel encoding (take k (drop n (c ∷ cs)))
unfolding encoded_length_from
units-next fuel at k encoding c cs e =
    let n = (next_codepoint_sizes (c ∷ cs)).0 in
    let m = at - 1 in
    let more : at ≡ suc m = omega (arith, sizes_bounds c cs) in
    let same : next_codepoint_sizes (c ∷ take m cs) ≡ next_codepoint_sizes (c ∷ cs) =
      sizes-take m c cs (omega arith) in
    let rest : drop n (c ∷ take m cs) ≡ take k (drop n (c ∷ cs)) =
      ap (λ j. drop n (take j (c ∷ cs))) (sym more ∙ e) ∙ drop-take n k (c ∷ cs) in
    rw (more, same, rest)

locate_from-here :
    (fuel : ℕ) (encoding : PositionEncoding) (units i : ℕ) (text : Bytes)
    → length text ≤ fuel
    → locate_from fuel encoding units units i text ≡ record { offset = i; exact = true }
unfolding locate_from
locate_from-here zero encoding units i [] h = ground arith
locate_from-here (suc fuel) encoding units i [] h = ground arith
locate_from-here zero encoding units i (c ∷ cs) h = absurd (omega arith)
locate_from-here (suc fuel) encoding units i (c ∷ cs) h =
    let e : (units == units) ≡ true = (==_iff units units).1 refl in rw e

units-nil : (fuel : ℕ) (encoding : PositionEncoding) → encoded_length_from fuel encoding [] ≡ 0
unfolding encoded_length_from
units-nil zero encoding = refl
units-nil (suc fuel) encoding = refl

-- A round that does not come to the unit yet.
locate_round :
    (units behind w : ℕ) (i : ℕ) (later : Located)
    → 1 ≤ w
    → (if units == units + (w + behind)
        then record { offset = i; exact = true }
        else if ltb (units + (w + behind)) (units + w)
        then record { offset = i; exact = false }
        else later)
      ≡ later
locate_round units behind w i later h = ground arith

locate_from-units :
    (fuel fuel' : ℕ) (encoding : PositionEncoding) (units i at : ℕ) (text : Bytes)
    → length text ≤ fuel
    → length text ≤ fuel'
    → Boundary text at
    → locate_from fuel encoding
        (units + encoded_length_from fuel' encoding (take at text))
        units
        i
        text
      ≡ record { offset = i + at; exact = true }
unfolding locate_from
locate_from-units fuel fuel' encoding units i at text h h' start =
    let e : units + encoded_length_from fuel' encoding [] ≡ units =
      omega (arith, units-nil fuel' encoding) in
    let e' : i + 0 ≡ i = omega arith in
    ap (λ m. locate_from fuel encoding m units i text) e
    ∙ locate_from-here fuel encoding units i text h
    ∙ ap (λ m. record { offset = m; exact = true }) (sym e')
locate_from-units zero fuel' encoding units i at text h h' (next {c} {cs} {k} _ b e) =
    absurd (omega arith)
locate_from-units (suc fuel) zero encoding units i at text h h' (next {c} {cs} {k} _ b e) =
    absurd (omega arith)
locate_from-units (suc fuel) (suc fuel') encoding units i at text h h' (next {c} {cs} {k} _ b e) =
    let n = (next_codepoint_sizes (c ∷ cs)).0 in
    let w = width encoding (next_codepoint_sizes (c ∷ cs)) in
    let rest : Bytes = drop n (c ∷ cs) in
    let behind = encoded_length_from fuel' encoding (take k rest) in
    let shorter : length rest ≤ fuel = omega (arith, length-drop n (c ∷ cs), sizes_bounds c cs) in
    let shorter' : length rest ≤ fuel' = omega (arith, length-drop n (c ∷ cs), sizes_bounds c cs) in
    let counted : encoded_length_from (suc fuel') encoding (take at (c ∷ cs)) ≡ w + behind =
      units-next fuel' at k encoding c cs e in
    let reassoc : units + (w + behind) ≡ units + w + behind = omega arith in
    let reached : i + n + k ≡ i + at = omega arith in
    rw counted (
      locate_round units behind w i
        (locate_from fuel encoding (units + (w + behind)) (units + w) (i + n) rest)
        (width_pos encoding c cs)
      ∙ ap (λ m. locate_from fuel encoding m (units + w) (i + n) rest) reassoc
      ∙ locate_from-units fuel fuel' encoding (units + w) (i + n) k rest shorter shorter' b
      ∙ ap (λ m. record { offset = m; exact = true }) reached)

encoded_length_from-utf8 :
    (fuel : ℕ) (text : Bytes)
    → length text ≤ fuel
    → encoded_length_from fuel utf8 text ≡ length text
unfolding encoded_length_from
encoded_length_from-utf8 fuel [] h = units-nil fuel utf8
encoded_length_from-utf8 zero (c ∷ cs) h = absurd (omega arith)
encoded_length_from-utf8 (suc fuel) (c ∷ cs) h =
    let n = (next_codepoint_sizes (c ∷ cs)).0 in
    omega (
      arith,
      sizes_bounds c cs,
      length-drop n (c ∷ cs),
      encoded_length_from-utf8 fuel (drop n (c ∷ cs))
          (omega (arith, length-drop n (c ∷ cs), sizes_bounds c cs)),
    )

-- Any encoding's length is what the loop counts, with any fuel that is enough.
pub length-units :
    (text : Bytes) (encoding : PositionEncoding)
    → encoded_length text encoding ≡ encoded_length_from (length text) encoding text
unfolding encoded_length
length-units text utf8 = sym (encoded_length_from-utf8 (length text) text (omega arith))
length-units text utf16 = refl
length-units text utf32 = refl

pub locate-units :
    (text : Bytes) (character : ℕ) (encoding : PositionEncoding)
    → locate text character encoding ≡ locate_from (length text) encoding character 0 0 text
unfolding locate
locate-units text character utf8 = locate-utf8_lem text character
locate-units text character utf16 = refl
locate-units text character utf32 = refl

-- Fuel that is enough counts no more than other fuel that is.
units_stable :
    (fuel fuel' : ℕ) (encoding : PositionEncoding) (text : Bytes)
    → length text ≤ fuel
    → length text ≤ fuel'
    → encoded_length_from fuel encoding text ≡ encoded_length_from fuel' encoding text
unfolding encoded_length_from
units_stable fuel fuel' encoding [] h h' = units-nil fuel encoding ∙ sym (units-nil fuel' encoding)
units_stable zero fuel' encoding (c ∷ cs) h h' = absurd (omega arith)
units_stable (suc fuel) zero encoding (c ∷ cs) h h' = absurd (omega arith)
units_stable (suc fuel) (suc fuel') encoding (c ∷ cs) h h' =
    let n = (next_codepoint_sizes (c ∷ cs)).0 in
    let bounds = sizes_bounds c cs in
    let size = length-drop n (c ∷ cs) in
    ap (λ m. width encoding (next_codepoint_sizes (c ∷ cs)) + m)
      (units_stable fuel fuel' encoding (drop n (c ∷ cs)) (omega arith) (omega arith))

-- `locate` of the unit that a code point starts at, in any encoding, is that code point's byte.
pub locate-encoded_length :
    (text : Bytes) (encoding : PositionEncoding) (at : ℕ)
    → Boundary text at
    → locate text (encoded_length (take at text) encoding) encoding
      ≡ record { offset = at; exact = true }
locate-encoded_length text encoding at b =
    let m = length (take at text) in
    let short : m ≤ length text = omega (arith, length-take at text) in
    let counted : encoded_length (take at text) encoding
        ≡ 0 + encoded_length_from (length text) encoding (take at text) =
      length-units (take at text) encoding
      ∙ units_stable m (length text) encoding (take at text) (omega arith) short
      ∙ omega arith in
    let from_zero : 0 + at ≡ at = omega arith in
    locate-units text (encoded_length (take at text) encoding) encoding
    ∙ ap (λ k. locate_from (length text) encoding k 0 0 text) counted
    ∙ locate_from-units (length text) (length text) encoding 0 0 at text (omega arith) (omega arith)
        b
    ∙ ap (λ k. record { offset = k; exact = true }) from_zero

-- In any encoding, the units before a code point, or before the end of the text, are converted back to
-- the byte it starts at.
pub encoded_offset-encoded_length :
    (text : Bytes) (encoding : PositionEncoding) (at : ℕ)
    → Boundary text at
    → encoded_offset text (encoded_length (take at text) encoding) encoding ≡ some at
unfolding encoded_offset
encoded_offset-encoded_length text encoding at b = rw (locate-encoded_length text encoding at b)
