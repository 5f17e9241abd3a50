-- ===== src/Ipc/Lsp/Position/Ascii.antt =====
-- Lines known to hold only ASCII, which the conversions do not read.
use kotatsu.Base.{
  ℕ, zero, suc, ◌+◌, ◌-◌, ◌≤◌, min, Bool, true, false, ◌&&◌, [], ◌∷◌, ◌≡◌, refl, sym, ap, ◌∙◌,
  arith, length, take, drop, length-take, length-drop, ltb, leb, ◌==◌, if◌then◌else◌,
}
use kotatsu.Support.Text.{Bytes}
use kotatsu.Support.Unicode.{decode_utf8, decode_sequence}
use kotatsu.Ipc.Lsp.Text.{
  PositionEncoding, utf8, utf16, utf32, Located, width, locate, locate_from, encoded_length,
  encoded_length_from, next_codepoint_sizes,
}
use kotatsu.Ipc.Lsp.Text.Units.{length-units, locate-units}
use kotatsu.Ipc.Lsp.Position.{
  Line, subtract, subtract_ge, line_text, column_in, position_in, offset_in,
}

-- Every byte is ASCII.
unfoldable pub holds_ascii : Bytes → Bool
holds_ascii [] = true
holds_ascii (c ∷ cs) = ltb c 0x80 && holds_ascii cs

holds_ascii-take :
    (n : ℕ) (text : Bytes) → holds_ascii text ≡ true → holds_ascii (take n text) ≡ true
unfolding holds_ascii
holds_ascii-take zero text h = refl
holds_ascii-take (suc n) [] h = refl
holds_ascii-take (suc n) (c ∷ cs) h = ground (arith, holds_ascii-take n cs)

sizes-ascii : (c : ℕ) (cs : Bytes) → ltb c 0x80 ≡ true → next_codepoint_sizes (c ∷ cs) ≡ (1, 1)
unfolding next_codepoint_sizes decode_utf8 decode_sequence
sizes-ascii c cs h = let small : ltb c 0x10000 ≡ true = ground arith in rw h (ground arith)

width-ascii :
    (encoding : PositionEncoding) (c : ℕ) (cs : Bytes)
    → ltb c 0x80 ≡ true
    → width encoding (next_codepoint_sizes (c ∷ cs)) ≡ 1
width-ascii utf8 c cs h = rw (sizes-ascii c cs h) refl
width-ascii utf16 c cs h = rw (sizes-ascii c cs h) refl
width-ascii utf32 c cs h = refl

-- In an ASCII text, units are bytes.
encoded_length_from-ascii :
    (fuel : ℕ) (encoding : PositionEncoding) (text : Bytes)
    → holds_ascii text ≡ true
    → length text ≤ fuel
    → encoded_length_from fuel encoding text ≡ length text
unfolding encoded_length_from holds_ascii
encoded_length_from-ascii zero encoding [] h k = refl
encoded_length_from-ascii (suc fuel) encoding [] h k = refl
encoded_length_from-ascii zero encoding (c ∷ cs) h k = absurd (omega arith)
encoded_length_from-ascii (suc fuel) encoding (c ∷ cs) h k =
    let low : ltb c 0x80 ≡ true = ground arith in
    let later : holds_ascii cs ≡ true = ground arith in
    rw (width-ascii encoding c cs low, sizes-ascii c cs low)
      (omega (arith, encoded_length_from-ascii fuel encoding cs later (omega arith)))

ascii_round :
    (character units i n : ℕ) (later : Located)
    → later ≡ record {
      offset = i + 1 + min (character - (units + 1)) n;
      exact = leb character (units + 1 + n) && leb (units + 1) character;
    }
    → (if units == character
        then record { offset = i; exact = true }
        else if ltb character (units + 1)
        then record { offset = i; exact = false }
        else later)
      ≡ record {
        offset = i + min (character - units) (suc n);
        exact = leb character (units + suc n) && leb units character;
      }
ascii_round character units i n later h = ground (arith, h)

locate_from-ascii :
    (fuel : ℕ) (encoding : PositionEncoding) (character units i : ℕ) (text : Bytes)
    → holds_ascii text ≡ true
    → length text ≤ fuel
    → locate_from fuel encoding character units i text ≡ record {
      offset = i + min (character - units) (length text);
      exact = leb character (units + length text) && leb units character;
    }
unfolding locate_from holds_ascii
locate_from-ascii zero encoding character units i [] h k = ground arith
locate_from-ascii (suc fuel) encoding character units i [] h k = ground arith
locate_from-ascii zero encoding character units i (c ∷ cs) h k = absurd (omega arith)
locate_from-ascii (suc fuel) encoding character units i (c ∷ cs) h k =
    let low : ltb c 0x80 ≡ true = ground arith in
    let later : holds_ascii cs ≡ true = ground arith in
    rw (width-ascii encoding c cs low, sizes-ascii c cs low)
      (ascii_round character units i (length cs)
        (locate_from fuel encoding character (units + 1) (i + 1) cs)
        (locate_from-ascii fuel encoding character (units + 1) (i + 1) cs later (omega arith)))

encoded_length-ascii :
    (text : Bytes) (encoding : PositionEncoding)
    → holds_ascii text ≡ true
    → encoded_length text encoding ≡ length text
encoded_length-ascii text encoding h =
    length-units text encoding
    ∙ encoded_length_from-ascii (length text) encoding text h (omega arith)

locate-ascii :
    (text : Bytes) (character : ℕ) (encoding : PositionEncoding)
    → holds_ascii text ≡ true
    → ((locate text character encoding).offset ≡ min character (length text))
      × ((locate text character encoding).exact ≡ leb character (length text))
locate-ascii text character encoding h =
    rw
      (
        locate-units text character encoding,
        locate_from-ascii (length text) encoding character 0 0 text h (omega arith),
      )
      (ground arith)

-- A line of a text, said to hold only ASCII or not.
abbrev pub said : ℕ → ℕ → ℕ → Bool → Line
said number start end ascii = record { number = number; start = start; end = end; ascii = ascii }

length-line_text :
    (content : Bytes) (line : Line)
    → line.end ≤ length content
    → length (line_text content line) ≡ line.end - line.start
length-line_text content line h = omega (
  arith,
  length-take (line.end - line.start) (drop line.start content),
  length-drop line.start content,
)

column_in-ascii :
    (content : Bytes) (number start end offset : ℕ) (encoding : PositionEncoding)
    → start ≤ end
    → start ≤ offset
    → end ≤ length content
    → holds_ascii (line_text content (said number start end false)) ≡ true
    → column_in content (said number start end false) offset encoding
      ≡ subtract (min offset end) start
column_in-ascii content number start end offset encoding l b h a =
    let text = line_text content (said number start end false) in
    let size = length-line_text content (said number start end false) h in
    let column = subtract (min offset end) start in
    let exact = subtract_ge (min offset end) start (omega arith) in
    let placed : (locate text column utf8).offset ≡ column =
      omega (arith, locate-ascii text column utf8 a, size, exact) in
    let counted : encoded_length (take column text) encoding ≡ length (take column text) =
      encoded_length-ascii (take column text) encoding (holds_ascii-take column text a) in
    ap (λ k. encoded_length (take k text) encoding) placed
    ∙ counted
    ∙ omega (arith, length-take column text, size, exact)

-- For a line that holds only ASCII, what is known of it changes no conversion of an offset that is not
-- before the line, and none of a character: bytes are characters, alike when the line is read and when
-- it is not.
pub position_in-ascii :
    (content : Bytes) (number start end offset character : ℕ) (encoding : PositionEncoding)
    → start ≤ end
    → start ≤ offset
    → end ≤ length content
    → holds_ascii (line_text content (said number start end false)) ≡ true
    → (position_in content (said number start end true) offset encoding
        ≡ position_in content (said number start end false) offset encoding)
      × (offset_in content (said number start end true) character encoding
          ≡ offset_in content (said number start end false) character encoding)
unfolding position_in offset_in
position_in-ascii content number start end offset character encoding l b h a =
    let text = line_text content (said number start end false) in
    let size = length-line_text content (said number start end false) h in
    let placed = locate-ascii text character encoding a in
    (
      ap (λ c. record { line = number; character = c })
          (sym (column_in-ascii content number start end offset encoding l b h a)),
      ground (arith, placed, size),
    )
