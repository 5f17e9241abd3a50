-- ===== src/Sys/Cmd/Join.antt =====
-- src/sys/cmd.cpp: `join`, and how it writes one argument.
use kotatsu.Base.{
  ℕ, ◌+◌, ◌*◌, Bool, true, false, not, ◌&&◌, ◌||◌, List, [], ◌∷◌, ◌++◌, replicate, leb, ◌==◌,
  if◌then◌else◌,
}
use kotatsu.Support.Text.{Bytes, codes}

pub data Quoting : Type 0 where
  windows posix : Quoting

-- `std::string_view::contains` of a character
unfoldable pub contains : Bytes → ℕ → Bool
contains [] c = false
contains (x ∷ xs) c = x == c || contains xs c

-- Whether `find_first_of` finds a character of `set`.
unfoldable pub has_one_of : Bytes → Bytes → Bool
unfolding contains
has_one_of set [] = false
has_one_of set (c ∷ cs) = contains set c || has_one_of set cs

abbrev pub is_empty : Bytes → Bool
is_empty [] = true
is_empty (c ∷ cs) = false

-- `append_windows_program`; a program holds no quote.
unfoldable pub windows_program : Bytes → Bytes
unfolding has_one_of
windows_program program =
    if is_empty program || has_one_of (codes " \t") program
    then b'"' ∷ (program ++ b'"' ∷ [])
    else program

-- The loop of `append_windows`, behind `backslashes` that are not written yet.
unfoldable pub windows_quoted : ℕ → Bytes → Bytes
windows_quoted backslashes [] = replicate (backslashes * 2) b'\\' ++ b'"' ∷ []
windows_quoted backslashes (c ∷ cs) =
    let held = windows_quoted (backslashes + 1) cs in
    let written = windows_quoted 0 cs in
    if c == b'\\'
    then held
    else replicate (if c == b'"' then backslashes * 2 + 1 else backslashes) b'\\' ++ c ∷ written

-- `append_windows`
unfoldable pub windows_argument : Bytes → Bytes
unfolding has_one_of windows_quoted
windows_argument argument =
    if not (is_empty argument) && not (has_one_of (codes " \t\n\u{b}\"") argument)
    then argument
    else b'"' ∷ windows_quoted 0 argument

unfoldable pub is_plain : ℕ → Bool
unfolding contains
is_plain c =
    leb 0x80 c
    || leb b'a' c && leb c b'z'
    || leb b'A' c && leb c b'Z'
    || leb b'0' c && leb c b'9'
    || contains (codes "@%+=:,./_-") c

-- What `append_posix` writes for one character.
unfoldable pub posix_character : ℕ → Bytes
unfolding is_plain
posix_character c =
    if c == b'\n' then b'\'' ∷ b'\n' ∷ b'\'' ∷ [] else if is_plain c then c ∷ [] else b'\\' ∷ c ∷ []

unfoldable pub posix_characters : Bytes → Bytes
unfolding posix_character
posix_characters [] = []
posix_characters (c ∷ cs) = posix_character c ++ posix_characters cs

-- `append_posix`
unfoldable pub posix_argument : Bytes → Bytes
unfolding posix_characters
posix_argument [] = b'\'' ∷ b'\'' ∷ []
posix_argument (c ∷ cs) = posix_characters (c ∷ cs)

abbrev pub join_argument : Quoting → Bytes → Bytes
join_argument windows argument = windows_argument argument
join_argument posix argument = posix_argument argument

abbrev pub join_first : Quoting → Bytes → Bytes
join_first windows argument = windows_program argument
join_first posix argument = posix_argument argument

-- The arguments behind the first one, each with the blank before it.
unfoldable pub join_rest : Quoting → List Bytes → Bytes
unfolding windows_argument posix_argument
join_rest quoting [] = []
join_rest quoting (a ∷ rest) = b' ' ∷ (join_argument quoting a ++ join_rest quoting rest)

unfoldable pub join : Quoting → List Bytes → Bytes
unfolding windows_program posix_argument join_rest
join quoting [] = []
join quoting (a ∷ rest) = join_first quoting a ++ join_rest quoting rest
