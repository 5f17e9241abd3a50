-- ===== src/Support/Glob/Execute.antt =====
-- Matching an arm: `PackedLiteral::matches`, `find_segment`, `match_final`, and a segment of an arm
-- against one of the input.
pub mod Loop
pub mod Bounds
pub mod Total
pub mod Packed
use kotatsu.Base.{
  ℕ, zero, suc, ◌+◌, ◌-◌, ◌*◌, ◌/◌, Bool, true, false, not, ◌&&◌, ◌||◌, List, [], ◌∷◌, ◌++◌, Option,
  none, some, length, drop, take, get_or, replicate, ltb, leb, ◌==◌, if◌then◌else◌,
}
use kotatsu.Support.Text.{Bytes, equal, starts_with, ends_with}
use kotatsu.Support.Glob.{past_last_slash}
use kotatsu.Support.Glob.Braces.{slice}
use kotatsu.Support.Glob.Compile.{
  Token, SegmentKind, recursive, literal_only, affix, general, Segment,
}
use kotatsu.Support.Glob.Compile.Plan.{
  PackedLiteral, Plan, affix_plan, Arm, is_literal, head_text, last_segment,
}
use kotatsu.Support.Glob.Tokens.{match_affix, match_tokens}

-- A word `&` a mask.
unfoldable pub masked : Bytes → List Bool → Bytes
masked (x ∷ xs) (true ∷ ms) = x ∷ masked xs ms
masked (x ∷ xs) (false ∷ ms) = 0 ∷ masked xs ms
masked _ _ = []

-- `PackedLiteral::matches`
unfoldable pub matches : PackedLiteral → Bytes → Bool
unfolding masked equal ends_with
matches p input =
    let size = length p.text in
    if ltb (length input) size
    then false
    else if leb size 8 && leb 8 (length input)
    then equal (masked (drop (length input - 8) input) p.mask) p.word
    else if leb size 16 && leb 16 (length input)
    then equal (masked (drop (length input - 8) input) p.mask) p.word
      && equal (masked (take 8 (drop (length input - 16) input)) p.lead_mask) p.lead_word
    else ends_with input p.text

unfoldable pub has_slash : Bytes → Bool
has_slash [] = false
has_slash (c ∷ cs) = c == b'/' || has_slash cs

-- Whether a path segment ends in front of the text.
abbrev pub at_segment_end : Bytes → Bool
at_segment_end [] = true
at_segment_end (c ∷ cs) = c == b'/'

abbrev pub is_empty : Bytes → Bool
is_empty [] = true
is_empty (c ∷ cs) = false

-- The loop of `find_segment`; `at_start` says that a segment starts at `at`.
unfoldable pub segment_from : Bool → ℕ → ℕ → Bytes → Bytes → Option ℕ
unfolding starts_with
segment_from at_start at first text [] = none
segment_from at_start at first text (c ∷ cs) =
    let later = segment_from (c == b'/') (suc at) first text cs in
    let rest : Bytes = c ∷ cs in
    if not (c == first)
    then later
    else if ltb (length rest) (length text)
    then none
    else if at_start
        && (is_empty text || (at_segment_end (drop (length text) rest) && starts_with rest text))
    then some at
    else later

unfoldable pub find_segment : Bytes → ℕ → ℕ → Bytes → Option ℕ
unfolding segment_from
find_segment str from first text =
    segment_from (from == 0 || get_or str (from - 1) 0 == b'/') from first text (drop from str)

-- `basename`
unfoldable pub basename_of : Bytes → Bytes
unfolding past_last_slash
basename_of path = drop (past_last_slash path) path

abbrev pub answered : Option Bool → Bool
answered none = false
answered (some b) = b

abbrev pub is_affix_plan : Plan → Bool
is_affix_plan affix_plan = true
is_affix_plan _ = false

abbrev pub match_last : Segment → Bytes → PackedLiteral → Bool
match_last last name literal =
    if is_literal last.kind
    then length name == length literal.text
    else answered (match_tokens last.tokens name)

abbrev pub match_last_of : List Segment → Bytes → PackedLiteral → Bool
match_last_of [] name literal = false
match_last_of (s ∷ ss) name literal = match_last (last_segment s ss) name literal

-- `GlobPattern::match_final`
unfoldable pub match_final : Arm → Bytes → Bool
unfolding matches has_slash basename_of starts_with match_tokens last_segment
match_final arm str =
    let name : Bytes = if arm.basename then basename_of str else str in
    if not (matches arm.literal str)
    then false
    else if not arm.basename && has_slash name
    then false
    else if is_affix_plan arm.plan
    then leb (length arm.head + length arm.literal.text) (length name) && starts_with name arm.head
    else match_last_of arm.segments name arm.literal

-- The length of the input's segment at the front of the text.
unfoldable pub segment_length : Bytes → ℕ
segment_length [] = 0
segment_length (c ∷ cs) = let more = segment_length cs in if c == b'/' then 0 else suc more

-- `segment_end`, without its memory of the last search.
unfoldable pub segment_end : Bytes → ℕ → ℕ
unfolding segment_length
segment_end str begin = begin + segment_length (drop begin str)

-- Where a segment of the kind that begins at `offset` ends, and whether it matches there.
unfoldable pub match_kind : SegmentKind → List Token → Bytes → ℕ → ℕ × Bool
unfolding head_text starts_with segment_end match_affix match_tokens
match_kind recursive tokens str offset = (offset, false)
match_kind literal_only tokens str offset =
    let end = offset + length (head_text tokens) in
    (
      end,
      leb end (length str)
          && (at_segment_end (drop end str) && starts_with (drop offset str) (head_text tokens)),
    )
match_kind affix tokens str offset =
    let end = segment_end str offset in (end, match_affix tokens (slice offset end str))
match_kind general tokens str offset =
    let end = segment_end str offset in (end, answered (match_tokens tokens (slice offset end str)))
