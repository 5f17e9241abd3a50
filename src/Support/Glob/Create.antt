-- ===== src/Support/Glob/Create.antt =====
-- `GlobPattern`: its modes, `create`, and `match`.
pub mod Arms
pub mod Expand
pub mod Loop
use kotatsu.Base.{
  ℕ, zero, suc, ◌+◌, ◌-◌, ◌*◌, ◌/◌, ◌^◌, Bool, true, false, not, ◌&&◌, ◌||◌, List, [], ◌∷◌, ◌++◌,
  Option, none, some, length, drop, take, get_or, replicate, ltb, leb, ◌==◌, if◌then◌else◌,
  Expected, value, unexpected,
}
use kotatsu.Support.Text.{Bytes, shift, codes, equal, starts_with}
use kotatsu.Support.Glob.{
  GlobError, error_at, stray_backslash, invalid_escape, multiple_slash, too_many_expansions,
  invalid_utf8, LiteralHead, literal_head, find_invalid_utf8,
}
use kotatsu.Support.Glob.Braces.{
  Brace, Piece, parse_braces, build_pieces, join_pieces, origin, rebase, next_choice,
}
use kotatsu.Support.Glob.Compile.{two_stars}
use kotatsu.Support.Glob.Compile.Plan.{
  Plan, suffix, path_suffix, segment_suffix, PackedLiteral, Arm, is_recursive, compile_arm,
}
use kotatsu.Support.Glob.Execute.{has_slash, at_segment_end, matches}
use kotatsu.Support.Glob.Create.Arms.{
  Mode, literal_mode, any_mode, prefix_tree_mode, suffix_mode, path_suffix_mode,
  segment_suffix_mode, arms_mode, suffix_arms, segment_suffix_arms, extension_arms, GlobPattern,
  word_value, match_arms, path_suffix_matches,
}
use kotatsu.Support.Glob.Create.Expand.{
  size_max, count_arms, Head, Compiled, add_arm, compile_choice, compile_choices, is_suffix,
  is_path_suffix, is_segment_suffix, all, has_dot, is_extension, arm_le, insert_arm, sort_arms,
  is_globstar, mode_of, finish,
}

-- The first of two slashes in a row.
unfoldable pub double_slash : Bytes → Option ℕ
unfolding starts_with
double_slash [] = none
double_slash (c ∷ cs) =
    let later = double_slash cs in
    if c == b'/' && starts_with cs (b'/' ∷ []) then some 0 else shift 1 later

unfoldable pub ends_with_slash : Bytes → Bool
ends_with_slash [] = false
ends_with_slash (c ∷ []) = c == b'/'
ends_with_slash (c ∷ d ∷ ds) = ends_with_slash (d ∷ ds)

unfoldable pub has_brace : Bytes → Bool
has_brace [] = false
has_brace (c ∷ cs) = c == b'{' || has_brace cs

abbrev pub expand : ℕ → Head → Expected (List Brace) GlobError → Expected GlobPattern GlobError
expand max_arms h (unexpected e) = unexpected e
expand max_arms h (value braces) =
    let count = count_arms 1 braces in
    if not (max_arms == 0) && ltb max_arms count
    then unexpected (error_at too_many_expansions 0 0)
    else finish h (
        compile_choices count h braces (replicate (length braces) 0)
          (record { arms = []; match_all = false }))

-- The prefix gives its last `/` up.
abbrev pub head_of : Bytes → LiteralHead → Head
head_of s head =
    let cut = ends_with_slash head.text in
    let prefix : Bytes = if cut then take (length head.text - 1) head.text else head.text in
    let bare = length prefix == 0 in
    record {
      pattern = s;
      head_end = head.end;
      prefix = prefix;
      prefix_at_seg_end = cut;
      at_root = bare && not cut;
      at_segment_start = bare || cut;
    }

-- The literal head is not the whole pattern.
abbrev pub create_dynamic : Bytes → ℕ → LiteralHead → Expected GlobPattern GlobError
create_dynamic s max_arms head =
    let h = head_of s head in
    if not (max_arms == 0) && has_brace (drop head.end s)
    then expand max_arms h (parse_braces s head.end)
    else expand max_arms h (value [])

abbrev pub literal_pattern : Bytes → GlobPattern
literal_pattern text = record {
  prefix = text;
  prefix_at_seg_end = false;
  mode = literal_mode;
  arms = [];
}

-- `create` behind the test of the prefix's slashes.
abbrev pub create_from : Bytes → ℕ → LiteralHead → Option ℕ → Expected GlobPattern GlobError
create_from s max_arms head (some at) = unexpected (error_at multiple_slash at (at + 2))
create_from s max_arms head none =
    if head.end == length s
    then value (literal_pattern head.text)
    else create_dynamic s max_arms head

-- `create` where the head does not end at a `\`.
abbrev pub create_head : Bytes → ℕ → LiteralHead → Expected GlobPattern GlobError
create_head s max_arms head =
    if starts_with (drop head.end s) (b'\\' ∷ [])
    then (if head.end + 1 == length s
        then unexpected (error_at stray_backslash head.end (head.end + 1))
        else unexpected (error_at invalid_escape head.end (head.end + 2)))
    else create_from s max_arms head (double_slash (take head.end s))

abbrev pub create_valid : Bytes → ℕ → Option ℕ → Expected GlobPattern GlobError
create_valid s max_arms (some pos) = unexpected (error_at invalid_utf8 pos (pos + 1))
create_valid s max_arms none = create_head s max_arms (literal_head s)

-- `GlobPattern::create`
unfoldable pub create : Bytes → ℕ → Expected GlobPattern GlobError
unfolding literal_head find_invalid_utf8 double_slash ends_with_slash count_arms has_brace
    parse_braces compile_choices finish starts_with
create s max_arms = create_valid s max_arms (find_invalid_utf8 s)

abbrev pub front_literal : List Arm → (PackedLiteral → Bool) → Bool
front_literal [] t = false
front_literal (a ∷ as') t = t a.literal

-- `GlobPattern::match`
unfoldable pub match : GlobPattern → Bytes → Bool
unfolding equal starts_with matches has_slash match_arms path_suffix_matches
match p s = elim p.mode [
  | literal_mode ↦ equal s p.prefix
  | any_mode ↦ true
  | prefix_tree_mode ↦ starts_with s p.prefix && at_segment_end (drop (length p.prefix) s)
  | suffix_mode ↦ front_literal p.arms (λ l. matches l s)
  | path_suffix_mode ↦ front_literal p.arms (λ l. path_suffix_matches l s)
  | segment_suffix_mode ↦ front_literal p.arms (λ l. matches l s && not (has_slash s))
  | _ ↦ match_arms p s
]
