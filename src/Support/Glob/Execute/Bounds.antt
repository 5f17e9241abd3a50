-- ===== src/Support/Glob/Execute/Bounds.antt =====
-- The places in the input that the searches of `execute` give.
use kotatsu.Base.{
  ℕ, suc, ◌+◌, ◌-◌, ◌≤◌, ◌<◌, Bool, true, ◌||◌, List, [], ◌∷◌, some, ◌≡◌, arith, length, drop,
  get_or, ◌==◌, length-drop,
}
use kotatsu.Support.Text.{Bytes}
use kotatsu.Support.Glob.Compile.{Token, SegmentKind, recursive, literal_only, affix, general}
use kotatsu.Support.Glob.Execute.{
  segment_from, find_segment, segment_length, segment_end, match_kind,
}

segment_from_bounds :
    (b : Bool) (at first : ℕ) (text s : Bytes) (found : ℕ)
    → segment_from b at first text s ≡ some found
    → (at ≤ found) × (found < at + length s)
unfolding segment_from
segment_from_bounds b at first text [] found h = absurd (ground arith)
segment_from_bounds b at first text (c ∷ cs) found h =
    ground (arith, segment_from_bounds (c == b'/') (suc at) first text cs found)

pub find_segment_bounds :
    (str : Bytes) (from first : ℕ) (text : Bytes) (at : ℕ)
    → find_segment str from first text ≡ some at
    → (from ≤ at) × (at < length str)
unfolding find_segment
find_segment_bounds str from first text at h =
    let b =
      segment_from_bounds (from == 0 || get_or str (from - 1) 0 == b'/') from first text
        (drop from str) at h in
    omega (arith, b, length-drop from str)

length-segment : (s : Bytes) → segment_length s ≤ length s
unfolding segment_length
length-segment [] = omega arith
length-segment (c ∷ cs) = ground (arith, length-segment cs)

pub segment_end_bounds :
    (str : Bytes) (at : ℕ)
    → at ≤ length str
    → (at ≤ segment_end str at) × (segment_end str at ≤ length str)
unfolding segment_end
segment_end_bounds str at h = omega (arith, length-segment (drop at str), length-drop at str)

pub match_kind_bounds :
    (kind : SegmentKind) (tokens : List Token) (str : Bytes) (offset : ℕ)
    → offset ≤ length str
    → let m = match_kind kind tokens str offset in m.1 ≡ true → (offset ≤ m.0) × (m.0 ≤ length str)
unfolding match_kind
match_kind_bounds recursive tokens str offset h k = absurd (ground arith)
match_kind_bounds literal_only tokens str offset h k = ground arith
match_kind_bounds affix tokens str offset h k = segment_end_bounds str offset h
match_kind_bounds general tokens str offset h k = segment_end_bounds str offset h
