-- ===== src/Support/Glob/Compile/Plan.antt =====
-- The second half of `GlobPattern::compile_arm`: which segments match nothing, the plan of an arm, and
-- the literal that its inputs end with.
use kotatsu.Base.{
  ◌-◌, Bool, true, false, not, ◌&&◌, ◌||◌, List, [], ◌∷◌, ◌++◌, length, take, drop, replicate, leb,
  if◌then◌else◌, Expected, value, unexpected,
}
use kotatsu.Support.Text.{Bytes}
use kotatsu.Support.Glob.{GlobError}
use kotatsu.Support.Glob.Compile.{
  Token, literal, star, any, class, SegmentKind, recursive, literal_only, affix, Segment,
  segments_from,
}

-- `PackedLiteral`, with its own text. A word is its eight bytes; a byte of a mask, 0 or 0xFF, is a
-- Boolean.
pub record PackedLiteral : Type 0 where
  pub text : Bytes
  pub word : Bytes
  pub mask : List Bool
  pub lead_word : Bytes
  pub lead_mask : List Bool

-- `Arm::Plan`
pub data Plan : Type 0 where
  prefix_tree directory_tree suffix path_suffix segment_suffix affix_plan final general_plan : Plan

-- `Arm`
pub record Arm : Type 0 where
  pub plan : Plan
  pub basename : Bool
  pub absorbs_separator : Bool
  pub segments : List Segment
  pub head : Bytes
  pub literal : PackedLiteral

abbrev pub is_recursive : SegmentKind → Bool
is_recursive recursive = true
is_recursive _ = false

abbrev pub is_literal : SegmentKind → Bool
is_literal literal_only = true
is_literal _ = false

abbrev pub is_affix : SegmentKind → Bool
is_affix affix = true
is_affix _ = false

unfoldable pub all_stars : List Token → Bool
all_stars [] = true
all_stars (star ∷ ts) = all_stars ts
all_stars (t ∷ ts) = false

abbrev pub no_tokens : List Token → Bool
no_tokens [] = true
no_tokens (t ∷ ts) = false

abbrev pub star_segment : Segment → Segment
star_segment s = record s { tokens = star ∷ []; kind = affix }

-- An empty last segment behind a `**` becomes `*`.
unfoldable pub amend_last : List Segment → List Segment
amend_last [] = []
amend_last (a ∷ []) = a ∷ []
amend_last (a ∷ b ∷ []) =
    if is_recursive a.kind && (is_literal b.kind && no_tokens b.tokens)
    then a ∷ star_segment b ∷ []
    else a ∷ b ∷ []
amend_last (a ∷ b ∷ c ∷ ss) = a ∷ amend_last (b ∷ c ∷ ss)

-- The loop from the last segment back, with `following_nullable` and `following_absorbs`.
pub record Annotated : Type 0 where
  pub segments : List Segment
  pub following_nullable : Bool
  pub following_absorbs : Bool

abbrev pub annotate_one : Bool → Segment → Annotated → Annotated
annotate_one last s a =
    let optional_rest = last || a.following_absorbs in
    let nullable =
      if is_recursive s.kind
      then last || a.following_nullable
      else optional_rest && all_stars s.tokens in
    record {
      segments = record s { nullable = nullable; optional_rest = optional_rest } ∷ a.segments;
      following_nullable = nullable;
      following_absorbs = is_recursive s.kind && optional_rest;
    }

unfoldable pub annotate : List Segment → Annotated
unfolding all_stars
annotate [] = record { segments = []; following_nullable = true; following_absorbs = false }
annotate (s ∷ []) = annotate_one true s (annotate [])
annotate (s ∷ t ∷ ss) = annotate_one false s (annotate (t ∷ ss))

-- The text of the first token, or that of the last, where it is a literal.
unfoldable pub head_text : List Token → Bytes
head_text (literal text ∷ ts) = text
head_text _ = []

unfoldable pub tail_text : List Token → Bytes
tail_text [] = []
tail_text (literal text ∷ []) = text
tail_text (star ∷ []) = []
tail_text (any ∷ []) = []
tail_text (class k ∷ []) = []
tail_text (t ∷ t' ∷ ts) = tail_text (t' ∷ ts)

abbrev pub starts_with_star : List Token → Bool
starts_with_star (star ∷ ts) = true
starts_with_star _ = false

unfoldable pub last_segment : Segment → List Segment → Segment
last_segment s [] = s
last_segment s (t ∷ ts) = last_segment t ts

abbrev pub no_words : Bytes → PackedLiteral
no_words text = record {
  text = text;
  word = replicate 8 0;
  mask = replicate 8 false;
  lead_word = replicate 8 0;
  lead_mask = replicate 8 false;
}

-- The text and the mask right-aligned in sixteen bytes, and cut into words.
unfoldable pub pack : Bytes → PackedLiteral
pack text =
    let value : Bytes = replicate (16 - length text) 0 ++ text in
    let mask : List Bool = replicate (16 - length text) false ++ replicate (length text) true in
    if leb (length text) 16
    then record {
      text = text;
      word = drop 8 value;
      mask = drop 8 mask;
      lead_word = take 8 value;
      lead_mask = take 8 mask;
    }
    else no_words text

abbrev pub trailing : Segment → PackedLiteral
trailing last = if is_recursive last.kind then no_words [] else pack (tail_text last.tokens)

-- The plan of an arm whose last segment alone decides, and its head.
abbrev pub final_plan : Bool → Segment → Plan × Bytes
final_plan basename last =
    if is_affix last.kind && starts_with_star last.tokens
    then (if basename then suffix else segment_suffix, [])
    else if is_affix last.kind
    then (affix_plan, head_text last.tokens)
    else if basename && is_literal last.kind
    then (path_suffix, [])
    else (final, [])

abbrev pub general_arm : Plan × Bytes
general_arm = (general_plan, [])

unfoldable pub plan_of : List Segment → Plan × Bytes
unfolding head_text
plan_of [] = general_arm
plan_of (a ∷ []) = if is_recursive a.kind then general_arm else final_plan false a
plan_of (a ∷ b ∷ []) =
    if is_literal a.kind && is_recursive b.kind
    then (prefix_tree, head_text a.tokens)
    else if is_recursive a.kind && not (is_recursive b.kind)
    then final_plan true b
    else general_arm
plan_of (a ∷ b ∷ c ∷ []) =
    if is_recursive a.kind && (is_literal b.kind && is_recursive c.kind)
    then (directory_tree, head_text b.tokens)
    else general_arm
plan_of (a ∷ b ∷ c ∷ d ∷ ss) = general_arm

unfoldable pub matches_basename : List Segment → Bool
matches_basename (a ∷ b ∷ []) = is_recursive a.kind && not (is_recursive b.kind)
matches_basename _ = false

abbrev pub trailing_of : List Segment → PackedLiteral
trailing_of [] = no_words []
trailing_of (s ∷ ss) = trailing (last_segment s ss)

unfoldable pub arm_of : List Segment → Arm
unfolding amend_last annotate plan_of matches_basename last_segment tail_text pack
arm_of segments =
    let a = annotate (amend_last segments) in
    let (plan, head) = plan_of a.segments in
    record {
      plan = plan;
      basename = matches_basename a.segments;
      absorbs_separator = a.following_absorbs;
      segments = a.segments;
      head = head;
      literal = trailing_of a.segments;
    }

abbrev pub arm_from : Expected (List Segment) GlobError → Expected Arm GlobError
arm_from (unexpected e) = unexpected e
arm_from (value segments) = value (arm_of segments)

-- `GlobPattern::compile_arm`, the arm given back.
unfoldable pub compile_arm : Bytes → Bool → Expected Arm GlobError
unfolding segments_from arm_of
compile_arm s at_segment_start = arm_from (
    segments_from s at_segment_start 0 0
      (record { skip = 0; raw_begin = 0; tokens = []; segments = [] }) s)
