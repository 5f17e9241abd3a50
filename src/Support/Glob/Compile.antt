-- ===== src/Support/Glob/Compile.antt =====
-- `GlobPattern::compile_arm`: the segments of an arm, and the plan that is read off them.
pub mod Plan
pub mod Writing
pub mod Literals
pub mod Segments
use kotatsu.Base.{
  ℕ, zero, suc, ◌+◌, ◌-◌, ◌*◌, Bool, true, false, not, ◌&&◌, ◌||◌, List, [], ◌∷◌, ◌++◌, Option,
  none, some, length, drop, ltb, leb, ◌==◌, if◌then◌else◌, Expected, value, unexpected,
}
use kotatsu.Support.Text.{Bytes, codes, equal, starts_with}
use kotatsu.Support.Glob.{
  GlobError, error_at, stray_backslash, multiple_slash, multiple_star, invalid_escape,
}
use kotatsu.Support.Glob.Bracket.{Range, CharClass, negates, scan_bracket, parse_bracket_charset}
use kotatsu.Support.Glob.Braces.{slice}

-- `Token`, with its text or its class.
pub data Token : Type 0 where
  literal : Bytes → Token
  star any : Token
  class : CharClass → Token

-- `Segment::Kind`
pub data SegmentKind : Type 0 where
  recursive literal_only affix general : SegmentKind

-- `Segment`; `first` is present when `has_first` is set.
pub record Segment : Type 0 where
  pub kind : SegmentKind
  pub nullable : Bool
  pub optional_rest : Bool
  pub first : Option ℕ
  pub tokens : List Token

-- `push_literal`
unfoldable pub push_literal : List Token → ℕ → List Token
push_literal [] c = literal (c ∷ []) ∷ []
push_literal (literal text ∷ []) c = literal (text ++ c ∷ []) ∷ []
push_literal (star ∷ []) c = star ∷ literal (c ∷ []) ∷ []
push_literal (any ∷ []) c = any ∷ literal (c ∷ []) ∷ []
push_literal (class k ∷ []) c = class k ∷ literal (c ∷ []) ∷ []
push_literal (t ∷ t' ∷ ts) c = t ∷ push_literal (t' ∷ ts) c

-- A star goes after a token that is no star.
unfoldable pub push_star : List Token → List Token
push_star [] = star ∷ []
push_star (star ∷ []) = star ∷ []
push_star (literal text ∷ []) = literal text ∷ star ∷ []
push_star (any ∷ []) = any ∷ star ∷ []
push_star (class k ∷ []) = class k ∷ star ∷ []
push_star (t ∷ t' ∷ ts) = t ∷ push_star (t' ∷ ts)

unfoldable pub count_stars_front : Bytes → ℕ
count_stars_front [] = 0
count_stars_front (c ∷ cs) = let more = count_stars_front cs in if c == b'*' then suc more else 0

-- What one round of the loop over a segment gives: the bytes to pass behind the first one, and the
-- tokens of the segment so far.
abbrev pub Taken : Type 0
Taken = Expected (ℕ × List Token) GlobError

abbrev pub class_of : ℕ → ℕ → Bool → List Token → Expected (List Range) GlobError → Taken
class_of i skip negated ts (unexpected e) =
    let base = i + 1 + (if negated then 1 else 0) in
    unexpected (record e { begin = e.begin + base; end = e.end + base })
class_of i skip negated ts (value ranges) =
    value (skip, ts ++ class (record { negated = negated; ranges = ranges }) ∷ [])

abbrev pub class_body : ℕ → ℕ → List Token → Bytes → Taken
class_body i skip ts [] = class_of i skip false ts (parse_bracket_charset [])
class_body i skip ts (c ∷ cs) =
    if negates c
    then class_of i skip true ts (parse_bracket_charset cs)
    else class_of i skip false ts (parse_bracket_charset (c ∷ cs))

abbrev pub take_class : ℕ → List Token → Bytes → Expected ℕ GlobError → Taken
take_class i ts cs (unexpected e) = unexpected e
take_class i ts cs (value close) = class_body i (close - i) ts (slice 0 (close - i - 1) cs)

abbrev pub take_stars : ℕ → List Token → ℕ → Taken
take_stars i ts more =
    if ltb 2 (suc more)
    then unexpected (error_at multiple_star i (i + 3))
    else value (more, push_star ts)

abbrev pub take_escaped : ℕ → List Token → Bytes → Taken
take_escaped i ts [] = unexpected (error_at stray_backslash i (i + 1))
take_escaped i ts (c ∷ cs) =
    if c == b'/'
    then unexpected (error_at invalid_escape i (i + 2))
    else value (1, push_literal ts c)

-- The `switch` at the byte `c` at `i`.
unfoldable pub take_token : ℕ → ℕ → Bytes → List Token → Taken
unfolding scan_bracket parse_bracket_charset count_stars_front push_star push_literal
take_token i c cs ts =
    if c == b'['
    then take_class i ts cs (scan_bracket i cs)
    else if c == b'*'
    then take_stars i ts (count_stars_front cs)
    else if c == b'?'
    then value (0, ts ++ any ∷ [])
    else if c == b'\\'
    then take_escaped i ts cs
    else value (0, push_literal ts c)

unfoldable pub count_stars : List Token → ℕ
count_stars [] = 0
count_stars (star ∷ ts) = suc (count_stars ts)
count_stars (t ∷ ts) = count_stars ts

unfoldable pub is_simple : List Token → Bool
is_simple [] = true
is_simple (any ∷ ts) = false
is_simple (class k ∷ ts) = false
is_simple (t ∷ ts) = is_simple ts

abbrev pub kind_of : List Token → SegmentKind
kind_of ops =
    if not (is_simple ops) || ltb 1 (count_stars ops)
    then general
    else if count_stars ops == 1
    then affix
    else literal_only

unfoldable pub first_byte : List Token → Option ℕ
first_byte (literal (c ∷ cs) ∷ ts) = some c
first_byte _ = none

abbrev pub two_stars : Bytes
two_stars = codes "**"

-- The segment closed at the end of its text `raw`; `whole` says that it starts a path segment.
unfoldable pub close_segment : Bool → Bytes → List Token → Segment
unfolding count_stars is_simple first_byte equal
close_segment whole raw ts =
    if whole && equal raw two_stars
    then record {
      kind = recursive;
      nullable = false;
      optional_rest = false;
      first = none;
      tokens = [];
    }
    else record {
      kind = kind_of ts;
      nullable = false;
      optional_rest = false;
      first = first_byte ts;
      tokens = ts;
    }

-- What the loops of `compile_arm` keep: the bytes to pass, where the segment begins and its tokens,
-- and the segments in front of it.
pub record Compiling : Type 0 where
  pub skip : ℕ
  pub raw_begin : ℕ
  pub tokens : List Token
  pub segments : List Segment

abbrev pub closed : Bytes → Bool → ℕ → Compiling → List Segment
closed s at_segment_start i k =
    k.segments
    ++ close_segment (not (k.raw_begin == 0) || at_segment_start) (slice k.raw_begin i s) k.tokens
      ∷ []

abbrev pub separate : Bytes → Bool → ℕ → Bytes → Compiling → Expected Compiling GlobError
separate s at_segment_start i cs k =
    if starts_with cs (b'/' ∷ [])
    then unexpected (error_at multiple_slash i (i + 2))
    else value (record {
      skip = 0;
      raw_begin = suc i;
      tokens = [];
      segments = closed s at_segment_start i k;
    })

abbrev pub add_token : Compiling → Taken → Expected Compiling GlobError
add_token k (unexpected e) = unexpected e
add_token k (value (skip, ts)) = value (record k { skip = skip; tokens = ts })

unfoldable pub compile_at : Bytes → Bool → ℕ → ℕ → Bytes → Compiling → Expected Compiling GlobError
unfolding close_segment take_token starts_with
compile_at s at_segment_start i c cs k =
    if c == b'/'
    then separate s at_segment_start i cs k
    else add_token k (take_token i c cs k.tokens)

-- Both loops, over the bytes of the arm `s`, at `i`.
unfoldable pub segments_from :
    Bytes → Bool → ℕ → ℕ → Compiling → Bytes → Expected (List Segment) GlobError
unfolding compile_at
segments_from s at_segment_start skip i k [] = value (closed s at_segment_start i k)
segments_from s at_segment_start (suc skip) i k (c ∷ cs) =
    segments_from s at_segment_start skip (suc i) k cs
segments_from s at_segment_start zero i k (c ∷ cs) = elim (compile_at s at_segment_start i c cs k) [
  | unexpected e ↦ unexpected e
  | value m ↦ segments_from s at_segment_start m.skip (suc i) m cs
]
