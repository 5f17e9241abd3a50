-- ===== src/Ipc/Lsp/Percent.antt =====
-- src/ipc/lsp/uri.cpp: percent-encoding.
pub mod RoundTrip
mod Tests
use kotatsu.Base.{
  ℕ, ◌+◌, ◌-◌, ◌*◌, ◌/◌, ◌%◌, Bool, true, false, not, ◌&&◌, ◌||◌, List, [], ◌∷◌, Option, none, some,
  get_or, leb, ◌==◌, if◌then◌else◌, Expected, value, unexpected,
}
use kotatsu.Support.Text.{Bytes, codes}

abbrev pub is_ascii_alpha : ℕ → Bool
is_ascii_alpha c = leb b'A' c && leb c b'Z' || leb b'a' c && leb c b'z'

abbrev pub is_ascii_digit : ℕ → Bool
is_ascii_digit c = leb b'0' c && leb c b'9'

abbrev pub is_ascii_alnum : ℕ → Bool
is_ascii_alnum c = is_ascii_alpha c || is_ascii_digit c

-- The characters that the switch of `should_encode` keeps.
abbrev pub is_kept : ℕ → Bool
is_kept c =
    c == b':'
    || c == b'@'
    || c == b'!'
    || c == b'$'
    || c == b'&'
    || c == b'\''
    || c == b'('
    || c == b')'
    || c == b'*'
    || c == b'+'
    || c == b','
    || c == b';'
    || c == b'='

unfoldable pub should_encode : Bool → ℕ → Bool
should_encode encode_slash c =
    if is_ascii_alnum c || c == b'-' || c == b'.' || c == b'_' || c == b'~'
    then false
    else if not encode_slash && c == b'/'
    then false
    else not (is_kept c)

abbrev pub hex_digit : ℕ → ℕ
hex_digit n = get_or (codes "0123456789ABCDEF") n 0

-- `percent_encode_with_policy`
unfoldable pub percent_encode : Bool → Bytes → Bytes
unfolding should_encode
percent_encode encode_slash [] = []
percent_encode encode_slash (c ∷ cs) =
    let rest = percent_encode encode_slash cs in
    if should_encode encode_slash c
    then b'%' ∷ hex_digit (c / 16 % 16) ∷ hex_digit (c % 16) ∷ rest
    else c ∷ rest

-- `hex_value`, whose -1 is none.
unfoldable pub hex_value : ℕ → Option ℕ
hex_value c =
    if leb b'0' c && leb c b'9'
    then some (c - b'0')
    else if leb b'a' c && leb c b'f'
    then some (c - b'a' + 10)
    else if leb b'A' c && leb c b'F'
    then some (c - b'A' + 10)
    else none

abbrev pub truncated_escape : Bytes
truncated_escape = codes "invalid percent-encoding: truncated escape"

abbrev pub non_hex_digit : Bytes
non_hex_digit = codes "invalid percent-encoding: non-hex digit"

abbrev pub push : ℕ → Expected Bytes Bytes → Expected Bytes Bytes
push c (value text) = value (c ∷ text)
push c (unexpected reason) = unexpected reason

abbrev pub push_escape : Option ℕ → Option ℕ → Expected Bytes Bytes → Expected Bytes Bytes
push_escape (some high) (some low) rest = push (high * 16 + low) rest
push_escape _ _ rest = unexpected non_hex_digit

unfoldable pub percent_decode : Bytes → Expected Bytes Bytes
unfolding hex_value
percent_decode [] = value []
percent_decode (c ∷ []) = if c == b'%' then unexpected truncated_escape else value (c ∷ [])
percent_decode (c ∷ high ∷ []) =
    let rest = percent_decode (high ∷ []) in
    if c == b'%' then unexpected truncated_escape else push c rest
percent_decode (c ∷ high ∷ low ∷ cs) =
    let rest = percent_decode (high ∷ low ∷ cs) in
    let behind = percent_decode cs in
    if c == b'%' then push_escape (hex_value high) (hex_value low) behind else push c rest
