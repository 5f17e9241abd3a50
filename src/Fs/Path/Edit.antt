-- ===== src/Fs/Path/Edit.antt =====
-- What changes a path: `push`, `pop`, `set_file_name`, `set_extension`, `normalize`, `relative`, `resolve`
-- and `strip_prefix`. A buffer is its text; what `normalize` writes over the path is built apart from it.
use kotatsu.Base.{
  ℕ, zero, suc, ◌+◌, ◌-◌, Bool, true, false, not, ◌&&◌, ◌||◌, List, [], ◌∷◌, ◌++◌, Option, none,
  some, length, take, drop, get_or, ltb, ◌==◌, if◌then◌else◌,
}
use kotatsu.Support.Text.{Bytes, equal, starts_with}
use kotatsu.Fs.Path.{
  Style, posix, windows, Prefix, no_prefix, Root, same_kind, ascii_lower, is_verbatim, implies_root,
  is_separator, separates, root, is_empty, rooted, is_absolute, drive,
}
use kotatsu.Fs.Path.Names.{
  dot, dot_dot, components, filename, filename_span, parent, extension_dot, up_to,
}

abbrev pub same_character : Style → Prefix → Prefix → ℕ → ℕ → Bool
same_character style a b x y =
    separates x style a && separates y style b || ascii_lower x == ascii_lower y

-- The loop of `same_prefix`.
unfoldable pub same_characters : Style → Prefix → Prefix → Bytes → Bytes → Bool
same_characters style a b (x ∷ xs) (y ∷ ys) =
    same_character style a b x y && same_characters style a b xs ys
same_characters style a b _ _ = true

abbrev pub same_prefix : Root → Root → Style → Bool
same_prefix a b style =
    same_kind a.prefix b.prefix
    && length a.name == length b.name
    && same_characters style a.prefix b.prefix a.name b.name

abbrev pub agrees : Bool → Bool → Bool
agrees true b = b
agrees false b = not b

unfoldable pub same_root : Root → Root → Style → Bool
unfolding same_characters
same_root a b style = same_prefix a b style && agrees (rooted a) (rooted b)

unfoldable pub first_separator : Bytes → Style → ℕ → ℕ
first_separator [] style fallback = fallback
first_separator (c ∷ cs) style fallback =
    let later = first_separator cs style fallback in if is_separator c style then c else later

abbrev pub separator_of : Bytes → Root → Style → ℕ → ℕ
separator_of p r style fallback =
    if is_verbatim r.prefix then b'\\' else first_separator p style fallback

-- The last separator of the base, or the given one.
unfoldable pub last_separator : Bytes → Style → ℕ → ℕ
last_separator [] style sep = sep
last_separator (c ∷ cs) style sep =
    last_separator cs style (if is_separator c style then c else sep)

unfoldable pub replace : ℕ → ℕ → Bytes → Bytes
replace a b [] = []
replace a b (c ∷ cs) = (if c == a then b else c) ∷ replace a b cs

-- The separator that `push` puts between, if any.
abbrev pub between : Bytes → Root → Bytes → Root → Style → Bytes
between base b rest r style =
    let ends =
      ltb (length b.name) (length base)
      && separates (get_or base (length base - 1) 0) style b.prefix in
    let sep = last_separator base style (separator_of rest r style b'/') in
    if not (is_empty rest)
      && not ends
      && (ltb (length b.name) (length base) || implies_root b.prefix)
    then (if is_verbatim b.prefix then b'\\' else sep) ∷ []
    else []

abbrev pub joined : Bytes → Root → Bytes → Root → Style → Bytes
joined base b p r style =
    let rest = drop (length r.name) p in
    let kept =
      if not (is_empty r.directory)
      then take (length b.name) base
      else base ++ between base b rest r style in
    kept ++ (if is_verbatim b.prefix then replace b'/' b'\\' rest else rest)

unfoldable pub push : Bytes → Bytes → Style → Bytes
unfolding same_characters
push base p style =
    let b = root base style in
    let r = root p style in
    if is_empty base || is_absolute p style
    then p
    else if not (same_kind r.prefix no_prefix) && not (same_prefix r b style)
    then p
    else joined base b p r style

-- The path and the result of `pop`.
unfoldable pub pop : Bytes → Style → Bytes × Bool
pop path style =
    if is_empty (filename path style)
    then (path, false)
    else (take (length (parent path style)) path, true)

unfoldable pub set_file_name : Bytes → Bytes → Style → Bytes
unfolding pop push
set_file_name path name style = push (pop path style).0 name style

-- The extension with its dot.
abbrev pub dotted : Bytes → Bytes
dotted ext = if is_empty ext then [] else if starts_with ext dot then ext else b'.' ∷ ext

unfoldable pub set_extension : Bytes → Bytes → Style → Bytes × Bool
set_extension path ext style =
    let name = filename path style in
    let start = (filename_span path style).0 in
    if is_empty name || equal name dot || equal name dot_dot
    then (path, false)
    else (take (start + length (up_to (extension_dot name) name)) path ++ dotted ext, true)

pub data DotDot : Type 0 where
  fold keep : DotDot

-- One name in the loop of `normalize`, with the names kept so far, the latest first.
abbrev pub folds : DotDot → Bool
folds fold = true
folds keep = false

abbrev pub climb : Bool → List Bytes → List Bytes
climb climbs_stop [] = if climbs_stop then [] else dot_dot ∷ []
climb climbs_stop (last ∷ kept) =
    if not (equal last dot_dot)
    then kept
    else if climbs_stop
    then last ∷ kept
    else dot_dot ∷ last ∷ kept

abbrev pub keep_name : DotDot → Bool → List Bytes → Bytes → List Bytes
keep_name dots climbs_stop kept name =
    if equal name dot
    then kept
    else if equal name dot_dot && folds dots
    then climb climbs_stop kept
    else name ∷ kept

unfoldable pub kept_names : DotDot → Bool → List Bytes → List Bytes → List Bytes
kept_names dots climbs_stop kept [] = kept
kept_names dots climbs_stop kept (name ∷ names) =
    kept_names dots climbs_stop (keep_name dots climbs_stop kept name) names

unfoldable pub written : ℕ → List Bytes → Bytes
written sep [] = []
written sep (name ∷ []) = name
written sep (name ∷ names) = name ++ (sep ∷ written sep names)

unfoldable pub in_order : List Bytes → List Bytes → List Bytes
in_order [] names = names
in_order (name ∷ kept) names = in_order kept (name ∷ names)

-- The prefix in the spelling of the path.
unfoldable pub respelled : Prefix → Style → ℕ → Bytes → Bytes
respelled kind style sep [] = []
respelled kind style sep (c ∷ cs) =
    (if not (is_verbatim kind) && is_separator c style then sep else c)
    ∷ respelled kind style sep cs

unfoldable pub normalize : Bytes → DotDot → Style → Bytes
unfolding kept_names written in_order respelled
normalize p dots style =
    let r = root p style in
    let kept = in_order (kept_names dots (rooted r) [] (components p style)) [] in
    let sep = separator_of p r style b'/' in
    let directory = if is_empty r.directory then [] else sep ∷ [] in
    let result = respelled r.prefix style sep r.name ++ directory ++ written sep kept in
    if is_empty p then [] else if is_empty result then dot else result

unfoldable pub common : List Bytes → List Bytes → ℕ
common (a ∷ as_) (b ∷ bs) = let more = common as_ bs in if equal a b then suc more else 0
common _ _ = 0

-- How many names climb, or none where one is `..`.
unfoldable pub climbs : List Bytes → Option ℕ
climbs [] = some 0
climbs (name ∷ names) =
    let more = climbs names in
    if equal name dot_dot
    then none
    else elim more [ none ↦ none | some n ↦ some (if equal name dot then n else suc n) ]

unfoldable pub ups : ℕ → List Bytes → List Bytes
ups zero names = names
ups (suc n) names = dot_dot ∷ ups n names

unfoldable pub relative : Bytes → Bytes → Style → Option Bytes
unfolding common climbs ups same_root
relative p base style =
    let pr = root p style in
    let br = root base style in
    let a = components p style in
    let b = components base style in
    let n = common a b in
    let sep = separator_of p pr style (separator_of base br style b'/') in
    if not (same_root pr br style) then none else elim (climbs (drop n b)) [
      | none ↦ none
      | some up ↦ some (if up == 0 && n == length a then dot else written sep (ups up (drop n a)))
    ]

unfoldable pub resolve : Bytes → Bytes → DotDot → Style → Bytes
unfolding push normalize
resolve p base dots style = normalize (push base p style) dots style

unfoldable pub to_slash : Bytes → Style → Bytes
to_slash path posix = path
to_slash path windows =
    if is_verbatim (root path windows).prefix then path else replace b'\\' b'/' path

unfoldable pub lowercase_drive : Bytes → Style → Bytes
lowercase_drive [] style = []
lowercase_drive (c ∷ cs) style =
    if same_kind (root (c ∷ cs) style).prefix drive then ascii_lower c ∷ cs else c ∷ cs

unfoldable pub to_backslash : Bytes → Bytes
to_backslash path = if is_verbatim (root path windows).prefix then path else replace b'/' b'\\' path
