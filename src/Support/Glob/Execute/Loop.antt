-- ===== src/Support/Glob/Execute/Loop.antt =====
-- `GlobPattern::execute`: the segments of an arm against those of the input.
use kotatsu.Base.{
  ℕ, zero, suc, ◌+◌, ◌*◌, Bool, true, false, ◌&&◌, List, [], ◌∷◌, Option, none, some, length,
  get_or, ◌==◌, if◌then◌else◌,
}
use kotatsu.Support.Text.{Bytes}
use kotatsu.Support.Glob.Compile.{SegmentKind, recursive, Segment}
use kotatsu.Support.Glob.Compile.Plan.{Arm}
use kotatsu.Support.Glob.Execute.{find_segment, segment_end, match_kind}

-- `retry_segment` and `retry_offset`, once a `**` is passed.
abbrev pub Globstar : Type 0
Globstar = Option (List Segment × ℕ)

-- What a round of the loop of `execute` gives: an answer, or the segments, the offset and the globstar
-- of the next one.
pub data Turn : Type 0 where
  verdict : Bool → Turn
  go_on : List Segment → ℕ → Globstar → Turn

abbrev pub jump_to : List Segment → Option ℕ → Turn
jump_to ss none = verdict false
jump_to ss (some at) = go_on ss at (some (ss, at))

-- The segments behind a globstar, looked for from `from` on.
abbrev pub jump : Bytes → List Segment → ℕ → ℕ → Turn
jump str ss from first = jump_to ss (find_segment str from first [])

abbrev pub starts_at : Bytes → Option ℕ → ℕ → Bool
starts_at str none offset = true
starts_at str (some c) offset = get_or str offset 0 == c

abbrev pub behind : Bytes → List Segment → ℕ → Turn
behind str ss end =
    let next = if end == length str then end else end + 1 in go_on ss next (some (ss, next))

abbrev pub retry_from : Bytes → List Segment → ℕ → Option ℕ → Turn
retry_from str ss at none = behind str ss (segment_end str at)
retry_from str ss at (some c) = jump str ss (at + 1) c

-- A mismatch goes back to the globstar.
unfoldable pub back_to : Bytes → Globstar → Turn
unfolding segment_end find_segment
back_to str none = verdict false
back_to str (some ([], at)) = verdict false
back_to str (some (s ∷ ss, at)) = retry_from str (s ∷ ss) at s.first

abbrev pub enter : Bytes → List Segment → ℕ → Option ℕ → Turn
enter str ss offset none = go_on ss offset (some (ss, offset))
enter str ss offset (some c) = jump str ss offset c

-- A `**` at `offset`, in front of the segments.
unfoldable pub pass_globstar : Bytes → List Segment → ℕ → Turn
unfolding find_segment
pass_globstar str [] offset = verdict true
pass_globstar str (s ∷ ss) offset = enter str (s ∷ ss) offset s.first

abbrev pub advance : Bytes → Segment → List Segment → ℕ → Globstar → Turn
advance str part [] end back =
    if end == length str && part.optional_rest then verdict true else back_to str back
advance str part (s ∷ ss) end back =
    if end == length str
    then (if part.optional_rest then verdict true else back_to str back)
    else go_on (s ∷ ss) (end + 1) back

abbrev pub advance_if : Bytes → Segment → List Segment → Globstar → ℕ × Bool → Turn
advance_if str part rest back (end, matched) =
    if matched then advance str part rest end back else back_to str back

-- The body of the loop at a segment, the input not at its end.
unfoldable pub turn_kind : SegmentKind → Bytes → Segment → List Segment → ℕ → Globstar → Turn
unfolding match_kind back_to pass_globstar
turn_kind recursive str part rest offset back = pass_globstar str rest offset
turn_kind kind str part rest offset back =
    if starts_at str part.first offset
    then advance_if str part rest back (match_kind kind part.tokens str offset)
    else back_to str back

-- The body of the loop.
unfoldable pub turn : Bytes → List Segment → ℕ → Globstar → Turn
unfolding turn_kind
turn str [] offset back = verdict false
turn str (part ∷ rest) offset back =
    if offset == length str
    then verdict part.nullable
    else turn_kind part.kind str part rest offset back

-- The loop; no answer when the fuel runs out, which that of `execute` never does.
unfoldable pub turns : ℕ → Bytes → Turn → Option Bool
unfolding turn
turns fuel str (verdict b) = some b
turns zero str (go_on ss offset back) = none
turns (suc fuel) str (go_on ss offset back) = turns fuel str (turn str ss offset back)

-- `GlobPattern::execute`
unfoldable pub execute : Arm → Bytes → Option Bool
unfolding turns
execute arm str =
    turns ((length str + 2) * (length arm.segments + 1)) str (go_on arm.segments 0 none)
