-- ===== src/Support/Glob/Create/Arms.antt =====
-- `GlobPattern::match_arms` and `match_extension_set`.
use kotatsu.Base.{
  ℕ, zero, suc, ◌+◌, ◌-◌, ◌*◌, ◌/◌, Bool, true, false, not, ◌&&◌, ◌||◌, List, [], ◌∷◌, ◌++◌, Option,
  none, some, length, drop, get_or, replicate, ltb, leb, ◌==◌, if◌then◌else◌,
}
use kotatsu.Support.Text.{Bytes, starts_with}
use kotatsu.Support.Glob.Compile.Plan.{
  prefix_tree, directory_tree, suffix, path_suffix, segment_suffix, affix_plan, final, general_plan,
  PackedLiteral, Arm, no_words,
}
use kotatsu.Support.Glob.Execute.{
  masked, matches, has_slash, at_segment_end, find_segment, match_final, answered,
}
use kotatsu.Support.Glob.Execute.Loop.{execute}

-- `GlobPattern::Mode`
pub data Mode : Type 0 where
  literal_mode any_mode prefix_tree_mode suffix_mode path_suffix_mode segment_suffix_mode : Mode
  arms_mode suffix_arms segment_suffix_arms extension_arms : Mode

-- `GlobPattern`
pub record GlobPattern : Type 0 where
  pub prefix : Bytes
  pub prefix_at_seg_end : Bool
  pub mode : Mode
  pub arms : List Arm

-- A word as the number that its bytes are, the first one the lowest.
unfoldable pub word_value : Bytes → ℕ
word_value [] = 0
word_value (b ∷ bs) = b + 256 * word_value bs

-- The number of bytes from the last `.` on, or 0 where there is none.
unfoldable pub extension_length : Bytes → ℕ
extension_length [] = 0
extension_length (c ∷ cs) =
    let later = extension_length cs in
    if leb 1 later then later else if c == b'.' then suc (length cs) else 0

-- The last eight bytes, with zeros in front of fewer.
abbrev pub last_word : Bytes → Bytes
last_word str = replicate (8 - length str) 0 ++ drop (length str - 8) str

unfoldable pub literal_at : List Arm → ℕ → PackedLiteral
literal_at [] i = no_words []
literal_at (a ∷ as') zero = a.literal
literal_at (a ∷ as') (suc i) = literal_at as' i

-- The loop of `match_extension_set`; the arms between `first` and `last` are fuel enough.
unfoldable pub search_arms : ℕ → List Arm → ℕ → Bytes → ℕ → ℕ → Bool
unfolding masked word_value literal_at
search_arms zero arms size word first last = false
search_arms (suc fuel) arms size word first last =
    let middle = first + (last - first) / 2 in
    let literal = literal_at arms middle in
    let candidate = word_value (masked word literal.mask) in
    let key = word_value literal.word in
    let key_size = length literal.text in
    let lower = ltb size key_size || (size == key_size && ltb candidate key) in
    let later =
      search_arms fuel arms size word (if lower then first else middle + 1)
        (if lower then middle else last) in
    if not (ltb first last)
    then false
    else if size == key_size && candidate == key
    then true
    else later

-- `GlobPattern::match_extension_set`
unfoldable pub match_extension_set : List Arm → Bytes → Bool
unfolding search_arms extension_length
match_extension_set arms str =
    let size = extension_length str in
    if size == 0 || ltb 8 size
    then false
    else search_arms (length arms) arms size (last_word str) 0 (length arms)

unfoldable pub path_suffix_matches : PackedLiteral → Bytes → Bool
unfolding matches
path_suffix_matches literal str =
    matches literal str
    && (length str == length literal.text
        || get_or str (length str - length literal.text - 1) 0 == b'/')

abbrev pub head_byte : Bytes → ℕ
head_byte [] = 0
head_byte (c ∷ cs) = c

abbrev pub is_found : Option ℕ → Bool
is_found none = false
is_found (some at) = true

-- The `switch` over the plan of an arm.
unfoldable pub match_arm : Arm → Bytes → Bool
unfolding starts_with find_segment matches path_suffix_matches has_slash match_final execute
match_arm arm str = elim arm.plan [
  | prefix_tree ↦ starts_with str arm.head && at_segment_end (drop (length arm.head) str)
  | directory_tree ↦ is_found (find_segment str 0 (head_byte arm.head) arm.head)
  | suffix ↦ matches arm.literal str
  | path_suffix ↦ path_suffix_matches arm.literal str
  | segment_suffix ↦ matches arm.literal str && not (has_slash str)
  | affix_plan ↦ match_final arm str
  | final ↦ match_final arm str
  | general_plan ↦ matches arm.literal str && answered (execute arm str)
]

unfoldable pub any_arm : (Arm → Bool) → List Arm → Bool
any_arm t [] = false
any_arm t (a ∷ as') = t a || any_arm t as'

-- `match_arms` behind the prefix and its separator.
unfoldable pub match_rest : GlobPattern → Bytes → Bool
unfolding match_extension_set any_arm match_arm matches has_slash
match_rest p str = elim p.mode [
  | extension_arms ↦ match_extension_set p.arms str
  | segment_suffix_arms ↦
      if has_slash str then false else any_arm (λ a. matches a.literal str) p.arms
  | suffix_arms ↦ any_arm (λ a. matches a.literal str) p.arms
  | _ ↦ any_arm (λ a. match_arm a str) p.arms
]

-- Behind the prefix, where its separator is next.
abbrev pub match_separated : GlobPattern → Bytes → Bool
match_separated p [] = any_arm (λ a. a.absorbs_separator) p.arms
match_separated p (c ∷ cs) = if c == b'/' then match_rest p cs else false

-- `GlobPattern::match_arms`
unfoldable pub match_arms : GlobPattern → Bytes → Bool
unfolding starts_with match_rest any_arm
match_arms p str =
    let rest = drop (length p.prefix) str in
    if not (starts_with str p.prefix)
    then false
    else if p.prefix_at_seg_end
    then match_separated p rest
    else match_rest p rest
