-- ===== src/Fs/Path/Names.antt =====
-- The names of a path: `components_view`, `filename`, `parent`, `stem` and `extension`.
use kotatsu.Base.{
  ℕ, zero, suc, ◌-◌, Bool, not, ◌||◌, List, [], ◌∷◌, Option, none, some, length, take, drop, ◌==◌,
  if◌then◌else◌,
}
use kotatsu.Support.Text.{Bytes, equal}
use kotatsu.Fs.Path.{Style, Root, separates, count_front, back_over, root, root_end, is_empty}

abbrev pub dot : Bytes
dot = b'.' ∷ []

abbrev pub dot_dot : Bytes
dot_dot = b'.' ∷ b'.' ∷ []

-- The names from an index on, by `operator++`, with the test for what separates them. Each takes a
-- character at least, so that the length of the text is fuel enough.
unfoldable pub names_from : (ℕ → Bool) → ℕ → Bytes → List Bytes
names_from t zero p = []
names_from t (suc fuel) p =
    let rest = drop (count_front t p) p in
    let size = count_front (λ c. not (t c)) rest in
    let more = names_from t fuel (drop size rest) in
    if is_empty rest then [] else take size rest ∷ more

unfoldable pub components : Bytes → Style → List Bytes
components p style =
    let r = root p style in
    names_from (λ c. separates c style r.prefix) (length p) (drop (root_end r) p)

abbrev pub trimmed_end : Bytes → Root → Style → ℕ
trimmed_end p r style = back_over (λ c. separates c style r.prefix) p (root_end r) (length p)

-- Where the filename starts and ends.
abbrev pub filename_span : Bytes → Style → ℕ × ℕ
filename_span p style =
    let r = root p style in
    let end = trimmed_end p r style in
    (back_over (λ c. not (separates c style r.prefix)) p (root_end r) end, end)

unfoldable pub filename : Bytes → Style → Bytes
filename p style = let s = filename_span p style in take (s.1 - s.0) (drop s.0 p)

unfoldable pub parent : Bytes → Style → Bytes
parent p style =
    let before = take (filename_span p style).0 p in
    if is_empty (filename p style)
    then []
    else take (trimmed_end before (root p style) style) before

-- `rfind('.')`
unfoldable pub last_dot : Bytes → Option ℕ
last_dot [] = none
last_dot (c ∷ cs) = elim (last_dot cs) [
  | some i ↦ some (suc i)
  | none ↦ if c == b'.' then some 0 else none
]

abbrev pub not_first : Option ℕ → Option ℕ
not_first none = none
not_first (some zero) = none
not_first (some (suc i)) = some (suc i)

unfoldable pub extension_dot : Bytes → Option ℕ
extension_dot name =
    if equal name dot || equal name dot_dot then none else not_first (last_dot name)

abbrev pub up_to : Option ℕ → Bytes → Bytes
up_to none name = name
up_to (some i) name = take i name

abbrev pub from : Option ℕ → Bytes → Bytes
from none name = []
from (some i) name = drop i name

unfoldable pub stem : Bytes → Style → Bytes
stem p style = let name = filename p style in up_to (extension_dot name) name

unfoldable pub extension : Bytes → Style → Bytes
extension p style = let name = filename p style in from (extension_dot name) name
