-- ===== src/Support/Glob/Braces.antt =====
-- Brace expressions, and the arms they expand to.
pub mod Choices
pub mod Terms
use kotatsu.Base.{
  ℕ, zero, suc, ◌+◌, ◌-◌, Bool, true, false, not, ◌&&◌, ◌||◌, List, [], ◌∷◌, ◌++◌, Option, none,
  some, length, get_or, take, drop, ltb, leb, ◌==◌, if◌then◌else◌, Expected, value, unexpected,
}
use kotatsu.Support.Text.{Bytes}
use kotatsu.Support.Glob.{
  GlobError, error_at, nested_brace, empty_brace, incomplete_brace, stray_backslash,
}
use kotatsu.Support.Glob.Bracket.{scan_bracket}

-- `Brace`; a term is its own text.
pub record Brace : Type 0 where
  pub begin : ℕ
  pub end : ℕ
  pub terms : List Bytes

-- The brace that `open` points to: where it begins, and its terms so far.
pub record OpenBrace : Type 0 where
  pub begin : ℕ
  pub terms : List Bytes

-- What the loop of `parse_braces` keeps, with the bytes still to pass.
pub record Scan : Type 0 where
  pub skip : ℕ
  pub braces : List Brace
  pub opened : Option OpenBrace
  pub term_begin : ℕ

-- `s.substr(begin, end - begin)`
abbrev pub slice : ℕ → ℕ → Bytes → Bytes
slice begin end s = take (end - begin) (drop begin s)

abbrev pub pass_to : ℕ → Scan → Expected ℕ GlobError → Expected Scan GlobError
pass_to i s (unexpected e) = unexpected e
pass_to i s (value close) = value (record s { skip = close - i })

abbrev pub open_brace : ℕ → Scan → Option OpenBrace → Expected Scan GlobError
open_brace i s (some b) = unexpected (error_at nested_brace i (i + 1))
open_brace i s none =
    value (record s { opened = some (record { begin = i; terms = [] }); term_begin = i + 1 })

abbrev pub end_term : Bytes → ℕ → Scan → Option OpenBrace → Expected Scan GlobError
end_term pattern i s none = value s
end_term pattern i s (some b) = value (record s {
  opened = some (record b { terms = b.terms ++ slice s.term_begin i pattern ∷ [] });
  term_begin = i + 1;
})

abbrev pub has_terms : List Bytes → Bool
has_terms [] = false
has_terms (t ∷ ts) = true

abbrev pub close_brace : Bytes → ℕ → Scan → Option OpenBrace → Expected Scan GlobError
close_brace pattern i s none = value s
close_brace pattern i s (some b) =
    if not (has_terms b.terms) && i == s.term_begin
    then unexpected (error_at empty_brace b.begin (i + 1))
    else value (record s {
      braces =
          s.braces
          ++ record {
            begin = b.begin;
            end = i + 1;
            terms = b.terms ++ slice s.term_begin i pattern ∷ [];
          }
            ∷ [];
      opened = none;
    })

abbrev pub pass_escaped : ℕ → Bytes → Scan → Expected Scan GlobError
pass_escaped i [] s = unexpected (error_at stray_backslash i (i + 1))
pass_escaped i (c ∷ cs) s = value (record s { skip = 1 })

-- One round of the loop, at the byte `c` at `i`.
unfoldable pub brace_at : Bytes → ℕ → ℕ → Bytes → Scan → Expected Scan GlobError
unfolding scan_bracket
brace_at pattern i c cs s =
    if c == b'['
    then pass_to i s (scan_bracket i cs)
    else if c == b'{'
    then open_brace i s s.opened
    else if c == b','
    then end_term pattern i s s.opened
    else if c == b'}'
    then close_brace pattern i s s.opened
    else if c == b'\\'
    then pass_escaped i cs s
    else value s

abbrev pub end_braces : Scan → Option OpenBrace → Expected (List Brace) GlobError
end_braces s (some b) = unexpected (error_at incomplete_brace b.begin (b.begin + 1))
end_braces s none = value s.braces

abbrev pub passing : ℕ → Scan → Scan
passing skip s = record s { skip = skip }

-- The loop, at `i`.
unfoldable pub braces_from : Bytes → ℕ → ℕ → Scan → Bytes → Expected (List Brace) GlobError
unfolding brace_at
braces_from pattern skip i s [] = end_braces s s.opened
braces_from pattern (suc skip) i s (c ∷ cs) = braces_from pattern skip (suc i) s cs
braces_from pattern zero i s (c ∷ cs) = elim (brace_at pattern i c cs (passing 0 s)) [
  | unexpected e ↦ unexpected e
  | value t ↦ braces_from pattern t.skip (suc i) t cs
]

abbrev pub scan_start : Scan
scan_start = record { skip = 0; braces = []; opened = none; term_begin = 0 }

unfoldable pub parse_braces : Bytes → ℕ → Expected (List Brace) GlobError
unfolding braces_from
parse_braces pattern from = braces_from pattern 0 from scan_start (drop from pattern)

-- A piece of an arm: where it begins in the pattern, and its text.
abbrev pub Piece : Type 0
Piece = ℕ × Bytes

-- Where term `k` of a brace begins: behind the `{` or a `,`, past the terms in front of it.
unfoldable pub term_begins : ℕ → List Bytes → ℕ → ℕ
term_begins at [] k = at
term_begins at (t ∷ ts) zero = at
term_begins at (t ∷ ts) (suc k) = term_begins (at + length t + 1) ts k

-- The loop of `ArmText::build` over the braces, from `cursor`.
unfoldable pub build_pieces : Bytes → ℕ → List Brace → List ℕ → List Piece
unfolding term_begins
build_pieces pattern cursor [] choice = (cursor, drop cursor pattern) ∷ []
build_pieces pattern cursor (b ∷ bs) [] = (cursor, drop cursor pattern) ∷ []
build_pieces pattern cursor (b ∷ bs) (k ∷ ks) =
    (cursor, slice cursor b.begin pattern)
    ∷ (term_begins (b.begin + 1) b.terms k, get_or b.terms k [])
    ∷ build_pieces pattern b.end bs ks

-- `ArmText::text`
unfoldable pub join_pieces : List Piece → Bytes
join_pieces [] = []
join_pieces ((at, text) ∷ ps) = text ++ join_pieces ps

-- `ArmText::origin`; the offset lies inside the pieces.
unfoldable pub origin : List Piece → ℕ → ℕ
origin [] offset = 0
origin ((at, text) ∷ ps) offset =
    let later = origin ps (offset - length text) in
    if ltb offset (length text) then at + offset else later

-- `ArmText::rebase`
unfoldable pub rebase : List Piece → GlobError → GlobError
unfolding origin
rebase pieces error = record error {
  begin = origin pieces error.begin;
  end = origin pieces (error.end - 1) + 1;
}

-- `next_choice`: the terms chosen next, and whether there are any: where the choices behind a brace
-- have all come round to their first terms, its own term is the one to change.
unfoldable pub next_choice : List ℕ → List Brace → List ℕ × Bool
next_choice [] braces = ([], false)
next_choice (k ∷ ks) [] = (k ∷ ks, false)
next_choice (k ∷ ks) (b ∷ bs) =
    let later = next_choice ks bs in
    if later.1
    then (k ∷ later.0, true)
    else if suc k == length b.terms
    then (0 ∷ later.0, false)
    else (suc k ∷ later.0, true)
