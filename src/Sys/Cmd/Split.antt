-- ===== src/Sys/Cmd/Split.antt =====
-- src/sys/cmd.cpp: `split_view::iterator`. An index into the line is the text from there on.
use kotatsu.Base.{
  ℕ, zero, suc, ◌+◌, ◌/◌, ◌%◌, Bool, true, false, not, ◌&&◌, ◌||◌, List, [], ◌∷◌, ◌++◌, Option,
  none, some, length, take, drop, replicate, ◌==◌, if◌then◌else◌,
}
use kotatsu.Support.Text.{Bytes}
use kotatsu.Sys.Cmd.Join.{Quoting, windows, posix}

-- `split_view::iterator::Reading`
pub data Reading : Type 0 where
  windows_line windows_file posix_line posix_file : Reading

abbrev pub is_posix : Reading → Bool
is_posix posix_line = true
is_posix posix_file = true
is_posix _ = false

abbrev pub is_posix_line : Reading → Bool
is_posix_line posix_line = true
is_posix_line _ = false

abbrev pub separates : Reading → ℕ → Bool
separates windows_line c = c == b' ' || c == b'\t'
separates windows_file c = c == b' ' || c == b'\t' || c == b'\r' || c == b'\n' || c == 0
separates _ c = c == b' ' || c == b'\t' || c == b'\r' || c == b'\n'

unfoldable pub backslashes : Bytes → ℕ
backslashes [] = 0
backslashes (c ∷ cs) = let n = backslashes cs in if c == b'\\' then n + 1 else 0

abbrev pub starts_quote : Bytes → Bool
starts_quote [] = false
starts_quote (c ∷ cs) = c == b'"'

-- An argument, or the start of one, and the line behind it.
pub record Piece : Type 0 where
  pub text : Bytes
  pub rest : Bytes

abbrev pub put : Bytes → Piece → Piece
put text p = record { text = text ++ p.text; rest = p.rest }

-- What one character does to `unquote_posix`.
pub data PosixStep : Type 0 where
  ends escapes pushes : PosixStep
  quotes : ℕ → PosixStep

unfoldable pub posix_step : Reading → ℕ → ℕ → Bool → PosixStep
posix_step r quote c more =
    if quote == 0 && separates r c
    then ends
    else if quote == b'\'' && is_posix_line r
    then (if c == b'\'' then quotes 0 else pushes)
    else if c == b'\\' && more
    then escapes
    else if not (quote == 0) && c == quote
    then quotes 0
    else if quote == 0 && (c == b'\'' || c == b'"')
    then quotes c
    else pushes

-- `unquote_posix`, in the quote `quote`, 0 outside quotes.
unfoldable pub unquote_posix : Reading → ℕ → Bytes → Piece
unfolding posix_step
unquote_posix r quote [] = record { text = []; rest = [] }
unquote_posix r quote (c ∷ []) = elim (posix_step r quote c false) [
  | ends ↦ record { text = []; rest = c ∷ [] }
  | escapes ↦ record { text = c ∷ []; rest = [] }
  | pushes ↦ record { text = c ∷ []; rest = [] }
  | quotes q ↦ record { text = []; rest = [] }
]
unquote_posix r quote (c ∷ d ∷ rest) = elim (posix_step r quote c true) [
  | ends ↦ record { text = []; rest = c ∷ d ∷ rest }
  | escapes ↦ put (d ∷ []) (unquote_posix r quote rest)
  | pushes ↦ put (c ∷ []) (unquote_posix r quote (d ∷ rest))
  | quotes q ↦ unquote_posix r q (d ∷ rest)
]

-- `unquote_windows`, with `read_backslashes`; each round takes a character at least, so that the
-- length of the line is fuel enough.
unfoldable pub unquote_windows : ℕ → Reading → Bool → Bool → Bytes → Piece
unfolding backslashes
unquote_windows fuel r program quoted [] = record { text = []; rest = [] }
unquote_windows zero r program quoted (c ∷ cs) = record { text = []; rest = c ∷ cs }
unquote_windows (suc fuel) r program quoted (c ∷ cs) =
    let n = backslashes (c ∷ cs) in
    let behind : Bytes = drop n (c ∷ cs) in
    let unquoted = unquote_windows fuel r program quoted behind in
    let escaped = unquote_windows fuel r program quoted (drop 1 behind) in
    let pushed = unquote_windows fuel r program quoted cs in
    let doubled = unquote_windows fuel r program quoted (drop 1 cs) in
    let toggled = unquote_windows fuel r program (not quoted) cs in
    if not quoted && separates r c
    then record { text = []; rest = c ∷ cs }
    else if c == b'\\' && not program
    then (if not (starts_quote behind)
        then put (replicate n b'\\') unquoted
        else if n % 2 == 0
        then put (replicate (n / 2) b'\\') unquoted
        else put (replicate (n / 2) b'\\' ++ b'"' ∷ []) escaped)
    else if not (c == b'"')
    then put (c ∷ []) pushed
    else if quoted && not program && starts_quote cs
    then put (b'"' ∷ []) doubled
    else toggled

-- The characters up to the first one to unquote: whether the argument ends before one, as it is in
-- the line, and the rest. A round takes a character at least, so that the length is fuel enough.
unfoldable pub scan : ℕ → Reading → Bool → Bytes → Bool × Piece
unfolding backslashes
scan fuel r program [] = (true, record { text = []; rest = [] })
scan zero r program (c ∷ cs) = (false, record { text = []; rest = c ∷ cs })
scan (suc fuel) r program (c ∷ cs) =
    let run = c == b'\\' && not program in
    let n = if run then backslashes (c ∷ cs) else 1 in
    let behind : Bytes = drop n (c ∷ cs) in
    let later = scan fuel r program behind in
    if separates r c
    then (true, record { text = []; rest = c ∷ cs })
    else if c == b'"' || is_posix r && (c == b'\'' || c == b'\\')
    then (false, record { text = []; rest = c ∷ cs })
    else if run && starts_quote behind
    then (false, record { text = []; rest = c ∷ cs })
    else (later.0, put (take n (c ∷ cs)) later.1)

abbrev pub unquote : Reading → Bool → Bytes → Piece
unquote r program line =
    if is_posix r
    then unquote_posix r 0 line
    else unquote_windows (length line) r program false line

abbrev pub finish_argument : Reading → Bool → Bool × Piece → Piece
finish_argument r program (true, p) = p
finish_argument r program (false, p) = put p.text (unquote r program p.rest)

unfoldable pub skip_separators : Reading → Bytes → Bytes
skip_separators r [] = []
skip_separators r (c ∷ cs) =
    let rest = skip_separators r cs in if separates r c then rest else c ∷ cs

abbrev pub read_argument : Reading → Bool → Bytes → Option Piece
read_argument r program [] = none
read_argument r program (c ∷ cs) =
    some (finish_argument r program (scan (length (c ∷ cs)) r program (c ∷ cs)))

-- `operator++`: none when it is done.
unfoldable pub next_argument : Reading → Bool → Bytes → Option Piece
unfolding unquote_posix unquote_windows scan skip_separators
next_argument r program line =
    read_argument r program (if program then line else skip_separators r line)

-- The arguments that the view has, on fuel.
unfoldable pub arguments_from : ℕ → Reading → Bool → Bytes → List Bytes
unfolding next_argument
arguments_from zero r program line = []
arguments_from (suc fuel) r program line = elim (next_argument r program line) [
  | none ↦ []
  | some p ↦ p.text ∷ arguments_from fuel r false p.rest
]

-- `split`: each argument takes a character of the line, but for an empty Windows program.
unfoldable pub split : Quoting → Bytes → List Bytes
unfolding arguments_from
split windows line = arguments_from (length line + 1) windows_line true line
split posix line = arguments_from (length line + 1) posix_line false line
