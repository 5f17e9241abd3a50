-- ===== src/Support/Unicode.antt =====
-- include/kotatsu/support/utf8.h and utf16.h: UTF-8, its superset WTF-8, and UTF-16.
-- A text is the list of its bytes, a UTF-16 text that of its units. Bit operations are arithmetic:
-- `x & 0x3F` is `x % 64`, `x >> 6` is `x / 64`, and `a | b` of numbers with no bit in common is
-- `a + b`: the low six bits of `code_point << 6` are zero, as are those of the leads and of 0x80
-- that the shifted and masked parts of a code point of that length fill.
pub mod Decode
pub mod RoundTrip
pub mod Sequences
mod Tests
use kotatsu.Base.{
  ℕ, zero, suc, ◌+◌, ◌-◌, ◌*◌, ◌/◌, ◌%◌, Bool, true, false, not, ◌&&◌, ◌||◌, List, [], ◌∷◌, ◌++◌,
  Option, none, some, length, take, drop, ltb, leb, ◌==◌, if◌then◌else◌,
}
use kotatsu.Support.Text.{Bytes}

-- `UTF8Sequence`
pub record Utf8Sequence : Type 0 where
  pub code_point : ℕ
  pub count : ℕ
  pub valid : Bool

abbrev pub replacement : ℕ
replacement = 0xFFFD

-- What the lead byte of a longer sequence says: its length, the bits of the code point that the
-- lead holds, and the range of the second byte.
pub record Lead : Type 0 where
  pub need : ℕ
  pub bits : ℕ
  pub low : ℕ
  pub high : ℕ

unfoldable pub read_lead : Bool → ℕ → Option Lead
read_lead surrogates lead =
    if leb 0xC2 lead && leb lead 0xDF
    then some (record { need = 2; bits = lead % 32; low = 0x80; high = 0xBF })
    else if leb 0xE0 lead && leb lead 0xEF
    then some (record {
      need = 3;
      bits = lead % 16;
      low = if lead == 0xE0 then 0xA0 else 0x80;
      high = if lead == 0xED && not surrogates then 0x9F else 0xBF;
    })
    else if leb 0xF0 lead && leb lead 0xF4
    then some (record {
      need = 4;
      bits = lead % 8;
      low = if lead == 0xF0 then 0x90 else 0x80;
      high = if lead == 0xF4 then 0x8F else 0xBF;
    })
    else none

-- The loop over the bytes behind the lead: how many bytes there are with it, and the code point.
unfoldable pub read_rest : ℕ → ℕ → ℕ → Bytes → ℕ → ℕ → ℕ × ℕ
read_rest need low high [] count code_point = (count, code_point)
read_rest need low high (next ∷ rest) count code_point =
    let more = read_rest need 0x80 0xBF rest (count + 1) (code_point * 64 + next % 64) in
    if not (ltb count need) || ltb next low || ltb high next then (count, code_point) else more

abbrev pub finish : ℕ → ℕ × ℕ → Utf8Sequence
finish need (count, code_point) =
    if count == need
    then record { code_point = code_point; count = count; valid = true }
    else record { code_point = replacement; count = count; valid = false }

unfoldable pub read_sequence : Bytes → Option Lead → Utf8Sequence
read_sequence rest none = record { code_point = replacement; count = 1; valid = false }
read_sequence rest (some l) = finish l.need (read_rest l.need l.low l.high rest 1 l.bits)

-- `detail::decode_sequence`; its text is not empty.
unfoldable pub decode_sequence : Bytes → Bool → Utf8Sequence
unfolding read_lead read_sequence
decode_sequence [] surrogates = record { code_point = replacement; count = 0; valid = false }
decode_sequence (lead ∷ rest) surrogates =
    if ltb lead 0x80
    then record { code_point = lead; count = 1; valid = true }
    else read_sequence rest (read_lead surrogates lead)

unfoldable pub decode_utf8 : Bytes → Utf8Sequence
decode_utf8 text = decode_sequence text false

-- The loop of `replace_invalid_utf8`. Each round takes a byte at least, so that the length of the
-- text is fuel enough.
unfoldable pub replace_from : ℕ → Bytes → Bytes
replace_from fuel [] = []
replace_from zero (c ∷ cs) = []
replace_from (suc fuel) (c ∷ cs) =
    let s = decode_utf8 (c ∷ cs) in
    (if s.valid then take s.count (c ∷ cs) else 0xEF ∷ 0xBF ∷ 0xBD ∷ [])
    ++ replace_from fuel (drop s.count (c ∷ cs))

unfoldable pub replace_invalid_utf8 : Bytes → Bytes
unfolding replace_from
replace_invalid_utf8 text = replace_from (length text) text

abbrev pub is_high : ℕ → Bool
is_high u = leb 0xD800 u && leb u 0xDBFF

abbrev pub is_low : ℕ → Bool
is_low u = leb 0xDC00 u && leb u 0xDFFF

-- The bytes that `from_utf16` puts for a code point.
unfoldable pub put_code_point : ℕ → Bytes
put_code_point c =
    if ltb c 0x80
    then c ∷ []
    else if ltb c 0x800
    then (0xC0 + c / 64) ∷ (0x80 + c % 64) ∷ []
    else if ltb c 0x10000
    then (0xE0 + c / 4096) ∷ (0x80 + c / 64 % 64) ∷ (0x80 + c % 64) ∷ []
    else (0xF0 + c / 262144) ∷ (0x80 + c / 4096 % 64) ∷ (0x80 + c / 64 % 64) ∷ (0x80 + c % 64) ∷ []

abbrev pub join_pair : ℕ → ℕ → ℕ
join_pair unit next = 0x10000 + (unit - 0xD800) * 1024 + (next - 0xDC00)

unfoldable pub from_utf16 : List ℕ → Bytes
unfolding put_code_point
from_utf16 [] = []
from_utf16 (unit ∷ []) = put_code_point unit
from_utf16 (unit ∷ next ∷ rest) =
    let paired : Bytes = put_code_point (join_pair unit next) ++ from_utf16 rest in
    let alone : Bytes = put_code_point unit ++ from_utf16 (next ∷ rest) in
    if is_high unit && is_low next then paired else alone

-- A high surrogate right before a low one, each spelled on its own.
unfoldable pub starts_low : Bytes → Bool
starts_low (first ∷ second ∷ rest) = first == 0xED && second / 16 * 16 == 0xB0
starts_low _ = false

abbrev pub units_of : ℕ → List ℕ
units_of c =
    if ltb c 0x10000
    then c ∷ []
    else (0xD800 + (c - 0x10000) / 1024) ∷ (0xDC00 + (c - 0x10000) % 1024) ∷ []

-- The loop of `to_utf16`: the units written, and whether it came to the end of the text. Each round
-- takes a byte at least, so that the length of the text is fuel enough.
unfoldable pub to_utf16_from : ℕ → Bytes → List ℕ × Bool
unfolding starts_low
to_utf16_from fuel [] = ([], true)
to_utf16_from zero (c ∷ cs) = ([], false)
to_utf16_from (suc fuel) (c ∷ cs) =
    let s = decode_sequence (c ∷ cs) true in
    let rest : Bytes = drop s.count (c ∷ cs) in
    let later = to_utf16_from fuel rest in
    if not s.valid || (is_high s.code_point && starts_low rest)
    then ([], false)
    else (units_of s.code_point ++ later.0, later.1)

unfoldable pub to_utf16 : Bytes → List ℕ × Bool
unfolding to_utf16_from
to_utf16 text = to_utf16_from (length text) text
