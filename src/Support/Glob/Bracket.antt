-- ===== src/Support/Glob/Bracket.antt =====
-- Bracket expressions: where one ends, the ranges of its class, and the test of a code point.
pub mod Search
pub mod Charset
use kotatsu.Base.{
  ℕ, zero, suc, ◌+◌, ◌-◌, ◌/◌, max, Bool, true, false, not, ◌&&◌, ◌||◌, List, [], ◌∷◌, ◌++◌, Option,
  none, some, length, get_or, ltb, leb, ◌==◌, if◌then◌else◌, Expected, value, unexpected,
}
use kotatsu.Support.Text.{Bytes}
use kotatsu.Support.Glob.{
  GlobError, error_at, unmatched_bracket, stray_backslash, invalid_range, Utf8Atom,
  decode_utf8_atom,
}

-- The last loop of `scan_bracket`, at `j`; `escaped` says that the byte before is a `\`.
unfoldable pub scan_members : Bool → ℕ → ℕ → Bytes → Expected ℕ GlobError
scan_members true opened j [] = unexpected (error_at stray_backslash (j - 1) j)
scan_members false opened j [] = unexpected (error_at unmatched_bracket opened (opened + 1))
scan_members escaped opened j (c ∷ cs) =
    let rest = scan_members (not escaped && c == b'\\') opened (suc j) cs in
    if c == b']' && not escaped then value j else rest

-- A `]` right at the front is a member.
abbrev pub scan_leading : ℕ → ℕ → Bytes → Expected ℕ GlobError
scan_leading opened j [] = scan_members false opened j []
scan_leading opened j (c ∷ cs) =
    if c == b']' then scan_members false opened (suc j) cs else scan_members false opened j (c ∷ cs)

abbrev pub negates : ℕ → Bool
negates c = c == b'!' || c == b'^'

-- `scan_bracket`, of the text behind the `[` at `opened`.
unfoldable pub scan_bracket : ℕ → Bytes → Expected ℕ GlobError
unfolding scan_members
scan_bracket opened [] = unexpected (error_at unmatched_bracket opened (opened + 1))
scan_bracket opened (c ∷ cs) =
    if negates c
    then scan_leading opened (opened + 2) cs
    else scan_leading opened (opened + 1) (c ∷ cs)

abbrev pub Range : Type 0
Range = ℕ × ℕ

-- `next_member`: the code point, and how many bytes it takes.
unfoldable pub next_member : Bytes → ℕ × ℕ
unfolding decode_utf8_atom
next_member [] = (0, 0)
next_member (c ∷ cs) =
    let escaped = decode_utf8_atom cs in
    let plain = decode_utf8_atom (c ∷ cs) in
    if c == b'\\' then (escaped.cp, suc escaped.len) else (plain.cp, plain.len)

-- What the loop of `parse_bracket_charset` keeps: the bytes still to pass, the member held back with
-- where it begins, and the ranges.
pub record Members : Type 0 where
  pub skip : ℕ
  pub pending : Option (ℕ × ℕ)
  pub ranges : List Range

abbrev pub held : Option (ℕ × ℕ) → List Range
held none = []
held (some (cp, begin)) = (cp, cp) ∷ []

abbrev pub is_end : Bytes → Bool
is_end [] = true
is_end (c ∷ cs) = false

abbrev pub end_range : ℕ → ℕ → ℕ → ℕ × ℕ → List Range → Expected Members GlobError
end_range cp begin it (hi, len) ranges =
    if ltb hi cp
    then unexpected (error_at invalid_range begin (it + 1 + len))
    else value (record { skip = len; pending = none; ranges = ranges ++ (cp, hi) ∷ [] })

abbrev pub hold : ℕ → ℕ × ℕ → Option (ℕ × ℕ) → List Range → Expected Members GlobError
hold it (cp, len) pending ranges =
    value (record { skip = len - 1; pending = some (cp, it); ranges = ranges ++ held pending })

-- One round of the loop, at a byte.
unfoldable pub member_at : ℕ → ℕ → Bytes → Option (ℕ × ℕ) → List Range → Expected Members GlobError
unfolding next_member
member_at it c cs none ranges = hold it (next_member (c ∷ cs)) none ranges
member_at it c cs (some (cp, begin)) ranges =
    if c == b'-' && not (is_end cs)
    then end_range cp begin it (next_member cs) ranges
    else hold it (next_member (c ∷ cs)) (some (cp, begin)) ranges

-- The loop, which gives the ranges as they are written.
unfoldable pub written_ranges :
    ℕ → ℕ → Option (ℕ × ℕ) → List Range → Bytes → Expected (List Range) GlobError
unfolding member_at
written_ranges skip it pending ranges [] = value (ranges ++ held pending)
written_ranges (suc skip) it pending ranges (c ∷ cs) =
    written_ranges skip (suc it) pending ranges cs
written_ranges zero it pending ranges (c ∷ cs) = elim (member_at it c cs pending ranges) [
  | unexpected e ↦ unexpected e
  | value m ↦ written_ranges m.skip (suc it) m.pending m.ranges cs
]

-- The order of pairs.
abbrev pub range_le : Range → Range → Bool
range_le (a, b) (c, d) = ltb a c || (a == c && leb b d)

unfoldable pub insert_range : Range → List Range → List Range
insert_range r [] = r ∷ []
insert_range r (s ∷ rs) = if range_le r s then r ∷ s ∷ rs else s ∷ insert_range r rs

-- `std::ranges::sort`
unfoldable pub sort_ranges : List Range → List Range
unfolding insert_range
sort_ranges [] = []
sort_ranges (r ∷ rs) = insert_range r (sort_ranges rs)

-- The loop that coalesces, with `(low, high)` the last range merged so far.
unfoldable pub merge_onto : ℕ → ℕ → List Range → List Range
merge_onto low high [] = (low, high) ∷ []
merge_onto low high ((a, b) ∷ rs) =
    let wider = merge_onto low (max high b) rs in
    let next = merge_onto a b rs in if leb a (high + 1) then wider else (low, high) ∷ next

unfoldable pub merge : List Range → List Range
unfolding merge_onto
merge [] = []
merge ((a, b) ∷ rs) = merge_onto a b rs

abbrev pub merged : Expected (List Range) GlobError → Expected (List Range) GlobError
merged (unexpected e) = unexpected e
merged (value ranges) = value (merge (sort_ranges ranges))

unfoldable pub parse_bracket_charset : Bytes → Expected (List Range) GlobError
unfolding written_ranges sort_ranges merge
parse_bracket_charset s = merged (written_ranges 0 0 none [] s)

-- `CharClass`
pub record CharClass : Type 0 where
  pub negated : Bool
  pub ranges : List Range

-- `std::ranges::lower_bound` halves the `count` ranges from `first` until none is left, so what it finds
-- is the first range whose upper bound reaches `cp` only where these bounds ascend. Half of what is left
-- is dropped each round, and as much fuel as there are ranges is enough.
unfoldable pub halve : ℕ → List Range → ℕ → ℕ → ℕ → ℕ
halve zero ranges cp first count = first
halve (suc fuel) ranges cp first count =
    let half = count / 2 in
    let middle = first + half in
    let above = halve fuel ranges cp (middle + 1) (count - (half + 1)) in
    let below = halve fuel ranges cp first half in
    if count == 0 then first else if ltb (get_or ranges middle (0, 0)).1 cp then above else below

-- The range at an index, none at the end.
abbrev pub range_at : List Range → ℕ → Option Range
range_at [] i = none
range_at (r ∷ rs) zero = some r
range_at (r ∷ rs) (suc i) = range_at rs i

unfoldable pub lower_bound : List Range → ℕ → Option Range
unfolding halve
lower_bound ranges cp = range_at ranges (halve (length ranges) ranges cp 0 (length ranges))

abbrev pub is_hit : Option Range → ℕ → Bool
is_hit none cp = false
is_hit (some (low, high)) cp = leb low cp

unfoldable pub contains : CharClass → ℕ → Bool
unfolding lower_bound
contains class cp =
    let hit = is_hit (lower_bound class.ranges cp) cp in if class.negated then not hit else hit
