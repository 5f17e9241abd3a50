-- ===== src/Fs/Path.antt =====
-- src/fs/path.cpp and include/kotatsu/fs/path.h: paths as texts. A view of a path is the text it shows,
-- and where its place in the path is asked for, the index it starts at.
pub mod Names
pub mod Edit
pub mod Words
pub mod Runs
pub mod Last
pub mod Parent
pub mod Ancestors
pub mod Join
pub mod Drive
pub mod Within
mod Tests
use kotatsu.Base.{
  ℕ, zero, suc, ◌+◌, ◌-◌, min, Bool, true, false, not, ◌&&◌, ◌||◌, [], ◌∷◌, length, take, drop,
  get_or, ltb, leb, ◌==◌, if◌then◌else◌,
}
use kotatsu.Support.Text.{Bytes, starts_with}

pub data Style : Type 0 where
  posix windows : Style

pub data Prefix : Type 0 where
  no_prefix drive unc device verbatim_drive verbatim_unc verbatim : Prefix

pub record Root : Type 0 where
  pub prefix : Prefix
  pub name : Bytes
  pub directory : Bytes

abbrev pub is_windows : Style → Bool
is_windows posix = false
is_windows windows = true

abbrev pub same_kind : Prefix → Prefix → Bool
same_kind no_prefix no_prefix = true
same_kind drive drive = true
same_kind unc unc = true
same_kind device device = true
same_kind verbatim_drive verbatim_drive = true
same_kind verbatim_unc verbatim_unc = true
same_kind verbatim verbatim = true
same_kind _ _ = false

abbrev pub is_ascii_letter : ℕ → Bool
is_ascii_letter c = leb b'a' c && leb c b'z' || leb b'A' c && leb c b'Z'

abbrev pub ascii_lower : ℕ → ℕ
ascii_lower c = if leb b'A' c && leb c b'Z' then c - b'A' + b'a' else c

abbrev pub is_verbatim : Prefix → Bool
is_verbatim verbatim_drive = true
is_verbatim verbatim_unc = true
is_verbatim verbatim = true
is_verbatim _ = false

abbrev pub implies_root : Prefix → Bool
implies_root no_prefix = false
implies_root drive = false
implies_root _ = true

abbrev pub is_separator : ℕ → Style → Bool
is_separator c style = c == b'/' || is_windows style && c == b'\\'

abbrev pub separates : ℕ → Style → Prefix → Bool
separates c style prefix = if is_verbatim prefix then c == b'\\' else is_separator c style

-- How many characters in front of a text pass a test.
unfoldable pub count_front : (ℕ → Bool) → Bytes → ℕ
count_front t [] = 0
count_front t (c ∷ cs) = let more = count_front t cs in if t c then suc more else 0

abbrev pub name_end : Bytes → ℕ → Style → ℕ
name_end p at style = at + count_front (λ c. not (is_separator c style)) (drop at p)

-- The end of the text up to `end` without the characters at its end that pass a test, as far as `stop`.
unfoldable pub back_over : (ℕ → Bool) → Bytes → ℕ → ℕ → ℕ
back_over t p stop zero = zero
back_over t p stop (suc e) =
    let earlier = back_over t p stop e in
    if ltb stop (suc e) && t (get_or p e 0) then earlier else suc e

abbrev pub prefix_of : Bytes → Prefix → ℕ → Root
prefix_of p kind end = record {
  prefix = kind;
  name = take (back_over (λ c. separates c windows kind) p 0 end) p;
  directory = [];
}

abbrev pub no_root : Root
no_root = record { prefix = no_prefix; name = []; directory = [] }

-- The end of the component at an index of a verbatim path.
abbrev pub component_end : Bytes → ℕ → ℕ
component_end p at =
    if leb (length p) at then length p else at + count_front (λ c. not (c == b'\\')) (drop at p)

abbrev pub starts_unc : Bytes → Bool
starts_unc rest =
    leb 3 (length rest)
    && ascii_lower (get_or rest 0 0) == b'u'
    && ascii_lower (get_or rest 1 0) == b'n'
    && ascii_lower (get_or rest 2 0) == b'c'

-- A text, up to a size or going on with a backslash there.
abbrev pub ends_at : Bytes → ℕ → Bool
ends_at rest n = length rest == n || get_or rest n 0 == b'\\'

abbrev pub verbatim_prefix : Bytes → Root
verbatim_prefix p =
    let rest = drop 4 p in
    let server_end = component_end p (min (length p) 8) in
    let share_end =
      if ltb server_end (length p) then component_end p (server_end + 1) else server_end in
    if starts_unc rest && ends_at rest 3
    then prefix_of p verbatim_unc share_end
    else if leb 2 (length rest)
        && is_ascii_letter (get_or rest 0 0)
        && get_or rest 1 0 == b':'
        && ends_at rest 2
    then prefix_of p verbatim_drive 6
    else prefix_of p verbatim (component_end p 4)

abbrev pub slash : ℕ → Bool
slash c = c == b'/' || c == b'\\'

abbrev pub unc_prefix : Bytes → Root
unc_prefix p =
    let server_end = name_end p 2 windows in
    if ltb (server_end + 1) (length p) && not (slash (get_or p (server_end + 1) 0))
    then prefix_of p unc (name_end p (server_end + 1) windows)
    else prefix_of p unc server_end

unfoldable pub windows_prefix : Bytes → Root
windows_prefix p =
    let c0 = get_or p 0 0 in
    let c1 = get_or p 1 0 in
    let c2 = get_or p 2 0 in
    if starts_with p (b'\\' ∷ b'\\' ∷ b'?' ∷ b'\\' ∷ [])
    then verbatim_prefix p
    else if leb 4 (length p)
        && slash c0
        && slash c1
        && (c2 == b'.' || c2 == b'?')
        && slash (get_or p 3 0)
    then prefix_of p device (name_end p 4 windows)
    else if leb 3 (length p) && slash c0 && slash c1 && not (slash c2)
    then unc_prefix p
    else if leb 2 (length p) && is_ascii_letter c0 && c1 == b':'
    then prefix_of p drive 2
    else no_root

-- The root with the separators behind the prefix.
abbrev pub with_directory : Bytes → Style → Root → Root
with_directory p style r =
    let rest = drop (length r.name) p in
    record r { directory = take (count_front (λ c. separates c style r.prefix) rest) rest }

unfoldable pub root : Bytes → Style → Root
root p posix = with_directory p posix no_root
root p windows = with_directory p windows (windows_prefix p)

abbrev pub is_empty : Bytes → Bool
is_empty [] = true
is_empty (c ∷ cs) = false

abbrev pub root_end : Root → ℕ
root_end r = length r.name + length r.directory

-- `rooted`
abbrev pub rooted : Root → Bool
rooted r = implies_root r.prefix || not (is_empty r.directory)

abbrev pub is_absolute : Bytes → Style → Bool
is_absolute p style =
    let r = root p style in
    implies_root r.prefix
    || same_kind r.prefix drive && not (is_empty r.directory)
    || not (is_windows style) && not (is_empty r.directory)

abbrev pub has_root : Bytes → Style → Bool
has_root p style = rooted (root p style)
