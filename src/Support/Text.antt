-- ===== src/Support/Text.antt =====
-- The text operations of the C++ standard library that the source calls: std::string_view's
-- comparisons and searches, std::format of an unsigned number, and std::from_chars of a size_t.
-- A text is the list of its bytes.
pub mod Find
pub mod Decimal
pub mod Equal
use Prim.Native.Char.{code}
use Prim.Native.String.{String}
use kotatsu.Base.{
  ℕ, zero, suc, ◌+◌, ◌-◌, ◌*◌, ◌/◌, ◌%◌, ◌^◌, Bool, true, false, ◌&&◌, List, [], ◌∷◌, ◌++◌, Option,
  none, some, length, drop, ltb, leb, ◌==◌, if◌then◌else◌,
}

abbrev pub Bytes : Type 0
Bytes = List ℕ

-- The bytes of an ASCII literal.
abbrev pub codes : String → Bytes
codes String.[] = []
codes (String.◌∷◌ c s) = code c ∷ codes s

abbrev pub shift : ℕ → Option ℕ → Option ℕ
shift k none = none
shift k (some i) = some (k + i)

unfoldable pub equal : Bytes → Bytes → Bool
equal [] [] = true
equal (x ∷ xs) (y ∷ ys) = x == y && equal xs ys
equal _ _ = false

unfoldable pub starts_with : Bytes → Bytes → Bool
starts_with xs [] = true
starts_with [] (p ∷ ps) = false
starts_with (x ∷ xs) (p ∷ ps) = x == p && starts_with xs ps

unfoldable pub ends_with : Bytes → Bytes → Bool
unfolding equal
ends_with xs s = leb (length s) (length xs) && equal (drop (length xs - length s) xs) s

-- The position of the first occurrence of a text that is not empty.
unfoldable pub find : Bytes → Bytes → Option ℕ
unfolding starts_with
find p [] = none
find p (x ∷ xs) = if starts_with (x ∷ xs) p then some 0 else shift 1 (find p xs)

-- `find_first_not_of` and `find_last_not_of`, the set given by its test.
unfoldable pub find_first_not_of : (ℕ → Bool) → Bytes → Option ℕ
find_first_not_of t [] = none
find_first_not_of t (x ∷ xs) = if t x then shift 1 (find_first_not_of t xs) else some 0

unfoldable pub find_last_not_of : (ℕ → Bool) → Bytes → Option ℕ
find_last_not_of t [] = none
find_last_not_of t (x ∷ xs) = elim (find_last_not_of t xs) [
  | some i ↦ some (suc i)
  | none ↦ if t x then none else some 0
]

abbrev pub is_digit : ℕ → Bool
is_digit c = leb b'0' c && leb c b'9'

-- The digits of `n` in front of `out`. The fuel `n + 1` is enough: see `Decimal.decimal_onto-fuel`.
unfoldable pub decimal_onto : ℕ → ℕ → Bytes → Bytes
decimal_onto zero n out = out
decimal_onto (suc f) n out =
    let more = decimal_onto f (n / 10) ((b'0' + n % 10) ∷ out) in
    if ltb n 10 then (b'0' + n) ∷ out else more

-- `std::format("{}", n)`
unfoldable pub decimal : ℕ → Bytes
unfolding decimal_onto
decimal n = decimal_onto (suc n) n []

-- What `std::from_chars` gives: an error, or the value and the bytes it did not take.
pub data FromChars : Type 0 where
  invalid_argument result_out_of_range : FromChars
  parsed : ℕ → Bytes → FromChars

-- The value of the digits at the front, and what follows them.
unfoldable pub read_digits : ℕ → Bytes → ℕ × Bytes
read_digits n [] = (n, [])
read_digits n (c ∷ cs) =
    let rest = read_digits (n * 10 + (c - b'0')) cs in if is_digit c then rest else (n, c ∷ cs)

abbrev in_range : ℕ × Bytes → FromChars
in_range (n, rest) = if ltb n (2 ^ 64) then parsed n rest else result_out_of_range

-- `std::from_chars` of a 64-bit size_t.
unfoldable pub from_chars : Bytes → FromChars
from_chars [] = invalid_argument
from_chars (c ∷ cs) = if is_digit c then in_range (read_digits 0 (c ∷ cs)) else invalid_argument
