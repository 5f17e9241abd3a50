-- ===== src/Support/Glob/Create/Expand.antt =====
-- `GlobPattern::create`: the loop over the arms of a pattern, and the mode that is read off them.
use kotatsu.Base.{
  ℕ, zero, suc, ◌+◌, ◌-◌, ◌*◌, ◌/◌, ◌^◌, Bool, true, false, not, ◌&&◌, ◌||◌, List, [], ◌∷◌, ◌++◌,
  length, drop, ltb, leb, ◌==◌, if◌then◌else◌, Expected, value, unexpected,
}
use kotatsu.Support.Text.{Bytes, codes, equal, starts_with}
use kotatsu.Support.Glob.{GlobError, error_at, multiple_slash}
use kotatsu.Support.Glob.Braces.{
  Brace, Piece, build_pieces, join_pieces, origin, rebase, next_choice,
}
use kotatsu.Support.Glob.Compile.{two_stars}
use kotatsu.Support.Glob.Compile.Plan.{
  Plan, suffix, path_suffix, segment_suffix, Arm, is_recursive, compile_arm,
}
use kotatsu.Support.Glob.Create.Arms.{
  Mode, any_mode, prefix_tree_mode, suffix_mode, path_suffix_mode, segment_suffix_mode, arms_mode,
  suffix_arms, segment_suffix_arms, extension_arms, GlobPattern, word_value,
}

abbrev pub size_max : ℕ
size_max = 2 ^ 64 - 1

-- The number of arms, or the largest `size_t` where it does not fit.
unfoldable pub count_arms : ℕ → List Brace → ℕ
count_arms count [] = count
count_arms count (b ∷ bs) =
    let more = count_arms (count * length b.terms) bs in
    if ltb (size_max / length b.terms) count then size_max else more

-- What `create` knows in front of its loop over the arms.
pub record Head : Type 0 where
  pub pattern : Bytes
  pub head_end : ℕ
  pub prefix : Bytes
  pub prefix_at_seg_end : Bool
  pub at_root : Bool
  pub at_segment_start : Bool

-- The arms compiled so far, and whether one of them matches everything.
pub record Compiled : Type 0 where
  pub arms : List Arm
  pub match_all : Bool

abbrev pub add_arm :
    Head → List Piece → Bytes → Compiled → Expected Arm GlobError → Expected Compiled GlobError
add_arm h pieces text done (unexpected e) = unexpected (rebase pieces e)
add_arm h pieces text done (value arm) = value (record {
  arms = done.arms ++ arm ∷ [];
  match_all = done.match_all || (h.at_root && (equal text two_stars || equal text (codes "**/")));
})

-- The body of the loop, for the terms chosen.
unfoldable pub compile_choice : Head → List Brace → List ℕ → Compiled → Expected Compiled GlobError
unfolding build_pieces join_pieces origin rebase compile_arm starts_with equal
compile_choice h braces choice done =
    let pieces = build_pieces h.pattern h.head_end braces choice in
    let text = join_pieces pieces in
    if h.prefix_at_seg_end && starts_with text (b'/' ∷ [])
    then unexpected (error_at multiple_slash (h.head_end - 1) (origin pieces 0 + 1))
    else add_arm h pieces text done (compile_arm text h.at_segment_start)

-- The loop. There are `count_arms` choices, so that this is fuel enough.
unfoldable pub compile_choices :
    ℕ → Head → List Brace → List ℕ → Compiled → Expected Compiled GlobError
unfolding compile_choice next_choice
compile_choices zero h braces choice done = value done
compile_choices (suc fuel) h braces choice done = elim (compile_choice h braces choice done) [
  | unexpected e ↦ unexpected e
  | value more ↦
      let (next, has_next) = next_choice choice braces in
      let later = compile_choices fuel h braces next more in if has_next then later else value more
]

abbrev pub is_suffix : Plan → Bool
is_suffix suffix = true
is_suffix _ = false

abbrev pub is_path_suffix : Plan → Bool
is_path_suffix path_suffix = true
is_path_suffix _ = false

abbrev pub is_segment_suffix : Plan → Bool
is_segment_suffix segment_suffix = true
is_segment_suffix _ = false

unfoldable pub all : (Arm → Bool) → List Arm → Bool
all t [] = true
all t (a ∷ as') = t a && all t as'

unfoldable pub has_dot : Bytes → Bool
has_dot [] = false
has_dot (c ∷ cs) = c == b'.' || has_dot cs

abbrev pub is_extension : Bytes → Bool
is_extension text =
    leb (length text) 8 && (starts_with text (b'.' ∷ []) && not (has_dot (drop 1 text)))

-- The order of size and word.
abbrev pub arm_le : Arm → Arm → Bool
arm_le a b =
    let m = length a.literal.text in
    let n = length b.literal.text in
    ltb m n || (m == n && leb (word_value a.literal.word) (word_value b.literal.word))

unfoldable pub insert_arm : Arm → List Arm → List Arm
unfolding word_value
insert_arm a [] = a ∷ []
insert_arm a (b ∷ bs) = if arm_le a b then a ∷ b ∷ bs else b ∷ insert_arm a bs

-- `std::ranges::sort`
unfoldable pub sort_arms : List Arm → List Arm
unfolding insert_arm
sort_arms [] = []
sort_arms (a ∷ as') = insert_arm a (sort_arms as')

-- Whether the arm is a lone `**` segment.
abbrev pub is_globstar : Arm → Bool
is_globstar arm = elim arm.segments [ s ∷ [] ↦ is_recursive s.kind | _ ↦ false ]

unfoldable pub mode_of : Head → Compiled → Mode × List Arm
unfolding all sort_arms starts_with has_dot
mode_of h done =
    let one = length done.arms == 1 in
    let every : (Arm → Bool) → Bool = λ t. all t done.arms in
    if done.match_all
    then (any_mode, done.arms)
    else if one && (h.prefix_at_seg_end && every is_globstar)
    then (prefix_tree_mode, done.arms)
    else if one && (h.at_root && every (λ a. is_suffix a.plan))
    then (suffix_mode, done.arms)
    else if one && (h.at_root && every (λ a. is_path_suffix a.plan))
    then (path_suffix_mode, done.arms)
    else if one && (h.at_root && every (λ a. is_segment_suffix a.plan))
    then (segment_suffix_mode, done.arms)
    else if every (λ a. is_suffix a.plan)
    then (if leb 16 (length done.arms) && every (λ a. is_extension a.literal.text)
        then (extension_arms, sort_arms done.arms)
        else (suffix_arms, done.arms))
    else if every (λ a. is_segment_suffix a.plan)
    then (segment_suffix_arms, done.arms)
    else (arms_mode, done.arms)

unfoldable pub finish : Head → Expected Compiled GlobError → Expected GlobPattern GlobError
unfolding mode_of
finish h (unexpected e) = unexpected e
finish h (value done) =
    let (mode, arms) = mode_of h done in
    value (record {
      prefix = h.prefix;
      prefix_at_seg_end = h.prefix_at_seg_end;
      mode = mode;
      arms = arms;
    })
