-- ===== src/Ipc/Framing/Header.antt =====
-- src/ipc/framing.cpp: a frame's header block, written and read.
use kotatsu.Base.{
  ℕ, zero, suc, ◌+◌, ◌-◌, Bool, true, false, ◌&&◌, ◌||◌, not, [], ◌∷◌, ◌++◌, Option, none, some,
  length, take, drop, min, leb, ◌==◌, if◌then◌else◌, Expected, value, unexpected,
}
use kotatsu.Support.Text.{
  Bytes, codes, starts_with, ends_with, find, find_first_not_of, find_last_not_of, decimal,
  FromChars, invalid_argument, result_out_of_range, parsed, from_chars,
}

abbrev pub is_blank : ℕ → Bool
is_blank c = c == b' ' || c == b'\t'

unfoldable pub trim : Bytes → Bytes
trim text = elim (find_first_not_of is_blank text) [
  | none ↦ []
  | some start ↦ elim (find_last_not_of is_blank text) [
    | none ↦ drop start text
    | some end ↦ take (end - start + 1) (drop start text)
  ]
]

-- `naming::to_lower`
abbrev pub to_lower : ℕ → ℕ
to_lower c = if leb b'A' c && leb c b'Z' then c - b'A' + b'a' else c

unfoldable pub equals_ignoring_case : Bytes → Bytes → Bool
equals_ignoring_case [] [] = true
equals_ignoring_case (x ∷ xs) (y ∷ ys) = to_lower x == to_lower y && equals_ignoring_case xs ys
equals_ignoring_case _ _ = false

abbrev pub content_length_name : Bytes
content_length_name = codes "Content-Length"

abbrev pub line_end : Bytes
line_end = codes "\r\n"

abbrev pub blank_line : Bytes
blank_line = codes "\r\n\r\n"

-- The value of a Content-Length line, trimmed.
abbrev pub invalid_length : Bytes → Expected ℕ Bytes
invalid_length text = unexpected (codes "invalid Content-Length: " ++ text)

abbrev pub checked_length : Bytes → FromChars → Expected ℕ Bytes
checked_length text invalid_argument = invalid_length text
checked_length text result_out_of_range = invalid_length text
checked_length text (parsed n []) = value n
checked_length text (parsed n (c ∷ rest)) = invalid_length text

unfoldable pub length_value : Bytes → Expected ℕ Bytes
length_value [] = invalid_length []
length_value (c ∷ cs) = checked_length (c ∷ cs) (from_chars (c ∷ cs))

-- What one line says: none where the loop goes on to the next line.
unfoldable pub read_line : Bytes → Option (Expected ℕ Bytes)
unfolding equals_ignoring_case length_value
read_line line = elim (find (b':' ∷ []) line) [
  | none ↦ none
  | some colon ↦
      if not (equals_ignoring_case (trim (take colon line)) content_length_name)
      then none
      else some (length_value (trim (drop (colon + 1) line)))
]

-- `header.substr(0, end)` and what `header.remove_prefix(end + 2)` leaves; the `npos` of a header
-- with no line end is 2^64 - 1, and `npos + 2` is 1.
abbrev pub first_line : Bytes → Bytes
first_line header = elim (find line_end header) [ none ↦ header | some end ↦ take end header ]

abbrev pub later_lines : Bytes → Bytes
later_lines header = elim (find line_end header) [
  | none ↦ drop 1 header
  | some end ↦ drop (end + 2) header
]

-- `while(!header.empty())`; each round takes a byte at least, so that the length of the header is
-- fuel enough, and nothing is left when it runs out.
unfoldable pub content_length_from : ℕ → Bytes → Expected ℕ Bytes
content_length_from fuel [] = unexpected (codes "missing Content-Length")
content_length_from zero (c ∷ cs) = unexpected []
content_length_from (suc fuel) (c ∷ cs) =
    let rest = content_length_from fuel (later_lines (c ∷ cs)) in
    elim (read_line (first_line (c ∷ cs))) [ some found ↦ found | none ↦ rest ]

unfoldable pub content_length : Bytes → Expected ℕ Bytes
unfolding content_length_from
content_length header = content_length_from (length header) header

unfoldable pub frame_header : ℕ → Bytes
unfolding decimal
frame_header size = codes "Content-Length: " ++ (decimal size ++ blank_line)

-- The loop of `FrameParser::header_end` from `before` down.
unfoldable pub end_across : ℕ → Bytes → Bytes → Option ℕ
unfolding ends_with starts_with
end_across zero header next = none
end_across (suc k) header next =
    let before : ℕ = suc k in
    let rest = end_across k header next in
    if ends_with header (take before blank_line) && starts_with next (drop before blank_line)
    then some (4 - before)
    else rest

unfoldable pub header_end : Bytes → Bytes → Option ℕ
unfolding end_across find
header_end header next = elim (end_across (min 3 (length header)) header next) [
  | some taken ↦ some taken
  | none ↦ elim (find blank_line next) [ none ↦ none | some at ↦ some (at + 4) ]
]
