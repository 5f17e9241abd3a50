-- ===== src/Ipc/Lsp/Position.antt =====
-- src/ipc/lsp/position.cpp and include/kotatsu/ipc/lsp/position.h: byte offsets of a text as LSP
-- positions and back. What the caller knows of ASCII lines is its predicate. `std::ranges::upper_bound`
-- of an ascending range is how many elements there are before the first one past the value.
pub mod Table
pub mod RoundTrip
pub mod Order
pub mod Ascii
mod Tests
use kotatsu.Base.{
  ℕ, zero, suc, ◌+◌, ◌-◌, ◌^◌, ◌≤◌, ◌≡◌, arith, min, max, Bool, true, false, not, ◌&&◌, ◌||◌, List,
  [], ◌∷◌, Option, none, some, length, take, drop, get_or, ltb, leb, ◌==◌, if◌then◌else◌,
}
use kotatsu.Support.Text.{Bytes}
use kotatsu.Ipc.Lsp.Text.{PositionEncoding, utf8, Located, locate, encoded_length, line_starts}

-- `protocol::Position`
pub record Position : Type 0 where
  pub line : ℕ
  pub character : ℕ

-- `protocol::Range`
pub record Range : Type 0 where
  pub start : Position
  pub end : Position

pub record OffsetRange : Type 0 where
  pub begin : ℕ
  pub end : ℕ

-- `detail::Line`
pub record Line : Type 0 where
  pub number : ℕ
  pub start : ℕ
  pub end : ℕ
  pub ascii : Bool

abbrev pub all_ascii : ℕ → Bool
all_ascii line = true

abbrev pub unknown_ascii : ℕ → Bool
unknown_ascii line = false

unfoldable pub upper_bound : List ℕ → ℕ → ℕ
upper_bound [] value = 0
upper_bound (x ∷ xs) value = if leb x value then suc (upper_bound xs value) else 0

abbrev pub line_of : List ℕ → ℕ → ℕ
line_of lines offset = upper_bound lines offset - 1

-- The text of a line, `content.substr(line.start, line.end - line.start)`.
abbrev pub line_text : Bytes → Line → Bytes
line_text content line = take (line.end - line.start) (drop line.start content)

-- The difference of two values of `std::uint32_t`, which wraps where the second is larger.
abbrev pub subtract : ℕ → ℕ → ℕ
subtract a b = if ltb a b then a + 2 ^ 32 - b else a - b

pub subtract_ge : (a b : ℕ) → b ≤ a → subtract a b ≡ a - b
subtract_ge a b h = ground arith

-- The column of an offset in a line: `column` of `position_in`.
abbrev pub column_in : Bytes → Line → ℕ → PositionEncoding → ℕ
column_in content line offset encoding =
    let column = subtract (min offset line.end) line.start in
    let text = line_text content line in
    if not line.ascii
    then encoded_length (take (locate text column utf8).offset text) encoding
    else column

unfoldable pub position_in : Bytes → Line → ℕ → PositionEncoding → Position
position_in content line offset encoding = record {
  line = line.number;
  character = column_in content line offset encoding;
}

unfoldable pub offset_in : Bytes → Line → ℕ → PositionEncoding → Located
offset_in content line character encoding =
    let found = locate (line_text content line) character encoding in
    let offset = line.start + found.offset in
    if line.ascii
    then record { offset = line.start + min character (line.end - line.start); exact = true }
    else record { offset = offset; exact = found.exact || offset == line.end }

-- The end of the text of a line that starts at `start` and whose '\n' is at `newline`.
abbrev pub end_before : (ℕ → ℕ → Bool) → ℕ → ℕ → ℕ → ℕ
end_before crlf number start newline =
    if ltb start newline && crlf number newline then newline - 1 else newline

unfoldable pub line_at : List ℕ → ℕ → ℕ → (ℕ → Bool) → (ℕ → ℕ → Bool) → Line
line_at lines number size ascii crlf =
    let start = get_or lines number 0 in
    record {
      number = number;
      start = start;
      end =
          if ltb (number + 1) (length lines)
          then end_before crlf number start (get_or lines (number + 1) 0 - 1)
          else size;
      ascii = ascii number;
    }

abbrev pub crlf_read : Bytes → ℕ → ℕ → Bool
crlf_read content line newline = get_or content (newline - 1) 0 == b'\r'

abbrev pub crlf_told : (ℕ → Bool) → ℕ → ℕ → Bool
crlf_told crlf line newline = crlf line

-- The parameters that the conversions share.
pub record Source : Type 0 where
  pub content : Bytes
  pub size : ℕ
  pub lines : List ℕ
  pub encoding : PositionEncoding
  pub ascii : ℕ → Bool
  pub crlf : ℕ → ℕ → Bool

abbrev pub line_in : Source → ℕ → Line
line_in s number = line_at s.lines number s.size s.ascii s.crlf

unfoldable pub position_of : Source → ℕ → Option Position
unfolding position_in line_at
position_of s offset =
    if ltb s.size offset
    then none
    else some (position_in s.content (line_in s (line_of s.lines offset)) offset s.encoding)

unfoldable pub offset_of : Source → Position → Located
unfolding offset_in line_at
offset_of s position =
    if leb (length s.lines) position.line
    then record { offset = s.size; exact = false }
    else offset_in s.content (line_in s position.line) position.character s.encoding

-- A dereference of an optional: `none` is the source's undefined behaviour.
abbrev pub both_ends : Option Position → Option Position → Option (Option Range)
both_ends (some start) (some end) = some (some (record { start = start; end = end }))
both_ends none (some end) = none
both_ends start none = some none

-- `range_of`, the outer option of which is `none` where the source dereferences an empty optional.
unfoldable pub range_of : Source → ℕ → ℕ → Option (Option Range)
unfolding position_of
range_of s begin end =
    if ltb end begin then some none else both_ends (position_of s begin) (position_of s end)

unfoldable pub offset_range_of : Source → Range → OffsetRange
unfolding offset_of
offset_range_of s range =
    let begin = (offset_of s range.start).offset in
    let end = (offset_of s range.end).offset in
    record { begin = min begin end; end = max begin end }

-- A text and what its caller keeps of it, as the first group of conversions takes them.
abbrev pub of_text : Bytes → List ℕ → PositionEncoding → (ℕ → Bool) → Source
of_text content lines encoding ascii = record {
  content = content;
  size = length content;
  lines = lines;
  encoding = encoding;
  ascii = ascii;
  crlf = crlf_read content;
}

-- A text known by its size and line starts alone.
abbrev pub of_size : ℕ → List ℕ → (ℕ → Bool) → Source
of_size size lines crlf = record {
  content = [];
  size = size;
  lines = lines;
  encoding = utf8;
  ascii = all_ascii;
  crlf = crlf_told crlf;
}

unfoldable pub to_position : Source → ℕ → Option Position
unfolding position_of
to_position s offset = position_of s offset

unfoldable pub to_offset : Source → Position → Option ℕ
unfolding offset_of
to_offset s position =
    let found = offset_of s position in if not found.exact then none else some found.offset

unfoldable pub to_offset_clamped : Source → Position → ℕ
unfolding offset_of
to_offset_clamped s position = (offset_of s position).offset

unfoldable pub to_range : Source → ℕ → ℕ → Option (Option Range)
unfolding range_of
to_range s begin end = range_of s begin end

unfoldable pub to_offset_range : Source → Range → OffsetRange
unfolding offset_range_of
to_offset_range s range = offset_range_of s range

-- The conversions of a text whose line starts are found for this one conversion.
abbrev pub whole : Bytes → PositionEncoding → Source
whole content encoding = of_text content (line_starts content) encoding unknown_ascii
