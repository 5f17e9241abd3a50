-- ===== src/Support/Glob.antt =====
-- src/support/glob_pattern.cpp and include/kotatsu/support/glob_pattern.h: glob patterns, compiled and
-- matched. A text from an index on is the list of its bytes from there on; tokens, segments and arms
-- hold their own texts, classes, tokens and segments in place of ranges of the pattern's pools; an
-- error is its kind and its bytes, without the message for people. A pattern has fewer than 2^32
-- bytes, arms included, as `create` asserts. Where a loop moves its index by more than one byte, its
-- model goes over every byte and counts the bytes still to pass as `skip`.
pub mod Atoms
pub mod Valid
pub mod Cuts
pub mod Bracket
pub mod Braces
pub mod Compile
pub mod Tokens
pub mod Execute
pub mod Create
pub mod Escape
mod Tests
use kotatsu.Base.{
  ℕ, zero, suc, ◌+◌, ◌-◌, Bool, true, false, not, ◌&&◌, ◌||◌, List, [], ◌∷◌, Option, none, some,
  ◌++◌, take, drop, leb, ◌==◌, if◌then◌else◌,
}
use kotatsu.Support.Text.{Bytes, shift}
use kotatsu.Support.Unicode.{decode_utf8}

-- `GlobError::Kind`
pub data ErrorKind : Type 0 where
  unmatched_bracket stray_backslash nested_brace empty_brace incomplete_brace invalid_range :
      ErrorKind
  multiple_slash multiple_star too_many_expansions invalid_utf8 invalid_escape : ErrorKind

-- `GlobError`
pub record GlobError : Type 0 where
  pub kind : ErrorKind
  pub begin : ℕ
  pub end : ℕ

abbrev pub error_at : ErrorKind → ℕ → ℕ → GlobError
error_at kind begin end = record { kind = kind; begin = begin; end = end }

-- `wildcards.contains`
abbrev pub is_wildcard : ℕ → Bool
is_wildcard c = c == b'?' || c == b'*' || c == b'[' || c == b'{'

-- `special_bytes.contains`
abbrev pub is_special : ℕ → Bool
is_special c =
    c == b'\\'
    || c == b'?'
    || c == b'*'
    || c == b'['
    || c == b']'
    || c == b'{'
    || c == b'}'
    || c == b','

-- `LiteralHead`
pub record LiteralHead : Type 0 where
  pub text : Bytes
  pub end : ℕ

-- Whether a `\` in front of the text escapes something other than `/`.
abbrev pub escapes : Bytes → Bool
escapes [] = false
escapes (c ∷ cs) = not (c == b'/')

abbrev pub head_stop : LiteralHead
head_stop = record { text = []; end = 0 }

abbrev pub head_more : Bytes → LiteralHead → LiteralHead
head_more bytes head = record { text = bytes ++ head.text; end = suc head.end }

-- The loop of `literal_head`; `escaped` says that the byte before is a `\` that escapes.
unfoldable pub literal_head_from : Bool → Bytes → LiteralHead
literal_head_from escaped [] = head_stop
literal_head_from escaped (c ∷ cs) =
    let rest = literal_head_from (not escaped && c == b'\\') cs in
    if escaped
    then head_more (c ∷ []) rest
    else if is_wildcard c
    then head_stop
    else if c == b'\\'
    then (if escapes cs then head_more [] rest else head_stop)
    else head_more (c ∷ []) rest

unfoldable pub literal_head : Bytes → LiteralHead
unfolding literal_head_from
literal_head pattern = literal_head_from false pattern

-- `UTF8Atom`
pub record Utf8Atom : Type 0 where
  pub cp : ℕ
  pub len : ℕ

abbrev pub invalid_atom_base : ℕ
invalid_atom_base = 0x110000

-- The text is not empty, wherever the code asks for its atom.
unfoldable pub decode_utf8_atom : Bytes → Utf8Atom
decode_utf8_atom [] = record { cp = invalid_atom_base; len = 1 }
decode_utf8_atom (c ∷ cs) =
    let sequence = decode_utf8 (c ∷ cs) in
    if not sequence.valid
    then record { cp = invalid_atom_base + c; len = 1 }
    else record { cp = sequence.code_point; len = sequence.count }

-- The text behind its first atom.
abbrev pub after : Bytes → Bytes
after [] = []
after (c ∷ cs) = drop (decode_utf8_atom (c ∷ cs)).len (c ∷ cs)

-- The loop of `find_invalid_utf8`.
unfoldable pub find_invalid_from : ℕ → Bytes → Option ℕ
unfolding decode_utf8_atom
find_invalid_from skip [] = none
find_invalid_from (suc skip) (c ∷ cs) = shift 1 (find_invalid_from skip cs)
find_invalid_from zero (c ∷ cs) =
    let atom = decode_utf8_atom (c ∷ cs) in
    let later = find_invalid_from (atom.len - 1) cs in
    if leb invalid_atom_base atom.cp then some 0 else shift 1 later

unfoldable pub find_invalid_utf8 : Bytes → Option ℕ
unfolding find_invalid_from
find_invalid_utf8 s = find_invalid_from 0 s

-- `GlobPattern::escape`
unfoldable pub escape : Bytes → Bytes
escape [] = []
escape (c ∷ cs) = if is_special c then b'\\' ∷ c ∷ escape cs else c ∷ escape cs

-- One past the last `/`, or 0: `rfind('/') + 1`.
unfoldable pub past_last_slash : Bytes → ℕ
past_last_slash [] = 0
past_last_slash (c ∷ cs) =
    let later = past_last_slash cs in if leb 1 later then suc later else if c == b'/' then 1 else 0

-- `GlobRoot`
pub record GlobRoot : Type 0 where
  pub directory : Bytes
  pub rest : Bytes

-- `GlobPattern::split_root`
unfoldable pub split_root : Bytes → GlobRoot
unfolding literal_head past_last_slash
split_root pattern =
    let head = literal_head pattern in
    let cut = past_last_slash (take head.end pattern) in
    record { directory = take (past_last_slash head.text) head.text; rest = drop cut pattern }
