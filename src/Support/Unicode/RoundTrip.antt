-- ===== src/Support/Unicode/RoundTrip.antt =====
-- UTF-16 written as WTF-8 by `from_utf16`, and read by `to_utf16`.
use kotatsu.Base.{
  ℕ, zero, suc, ◌≤◌, ◌<◌, Bool, true, false, ◌&&◌, List, [], ◌∷◌, ◌++◌, append-nil, ◌≡◌, refl, sym,
  ap, ◌∙◌, arith, length, length-append, drop, drop-append_self, Bool-cases, inl, inr,
}
use kotatsu.Support.Text.{Bytes}
use kotatsu.Support.Unicode.{
  decode_sequence, put_code_point, is_high, is_low, join_pair, from_utf16, starts_low, units_of,
  to_utf16_from, to_utf16,
}
use kotatsu.Support.Unicode.Decode.{decode_sequence-put_code_point}

-- 16-bit units.
abbrev pub Units : List ℕ → Type 0
Units [] = Unit {0}
Units (u ∷ us) = (u < 0x10000) × Units us

length-put_code_point : (c : ℕ) → (1 ≤ length (put_code_point c)) × (length (put_code_point c) ≤ 4)
unfolding put_code_point
length-put_code_point c = ground arith

to_utf16_from-decoded :
    (fuel c n : ℕ) (text rest : Bytes)
    → 1 ≤ length text
    → decode_sequence text true ≡ record { code_point = c; count = n; valid = true }
    → drop n text ≡ rest
    → (is_high c && starts_low rest) ≡ false
    → to_utf16_from (suc fuel) text
      ≡ (units_of c ++ (to_utf16_from fuel rest).0, (to_utf16_from fuel rest).1)
unfolding to_utf16_from
to_utf16_from-decoded fuel c n [] rest h d e k = absurd (omega arith)
to_utf16_from-decoded fuel c n (b ∷ bs) rest h d e k = rw (d, e, k)

-- One round of `to_utf16` over what `from_utf16` wrote for a code point.
to_utf16_from-put_code_point :
    (fuel c : ℕ) (rest : Bytes)
    → c < 0x110000
    → (is_high c && starts_low rest) ≡ false
    → to_utf16_from (suc fuel) (put_code_point c ++ rest)
      ≡ (units_of c ++ (to_utf16_from fuel rest).0, (to_utf16_from fuel rest).1)
to_utf16_from-put_code_point fuel c rest h k =
    to_utf16_from-decoded fuel c (length (put_code_point c)) (put_code_point c ++ rest) rest
      (omega (arith, length-append (put_code_point c) rest, length-put_code_point c))
      (decode_sequence-put_code_point c rest h) (drop-append_self (put_code_point c) rest) k

starts_low-ascii : (c : ℕ) (rest : Bytes) → c < 0x80 → starts_low (c ∷ rest) ≡ false
unfolding starts_low
starts_low-ascii c [] h = refl
starts_low-ascii c (x ∷ rest) h = ground arith

starts_low-put_code_point :
    (c : ℕ) (rest : Bytes)
    → c < 0x110000
    → is_low c ≡ false
    → starts_low (put_code_point c ++ rest) ≡ false
unfolding starts_low put_code_point
starts_low-put_code_point c rest h l = ground (arith, starts_low-ascii c rest)

-- Whether a unit and the first one behind it are a pair.
abbrev paired : ℕ → List ℕ → Bool
paired unit [] = false
paired unit (next ∷ rest) = is_high unit && is_low next

from_utf16-pair :
    (unit next : ℕ) (rest : List ℕ)
    → paired unit (next ∷ rest) ≡ true
    → from_utf16 (unit ∷ next ∷ rest) ≡ put_code_point (join_pair unit next) ++ from_utf16 rest
unfolding from_utf16
from_utf16-pair unit next rest e = rw e

from_utf16-alone :
    (unit : ℕ) (rest : List ℕ)
    → paired unit rest ≡ false
    → from_utf16 (unit ∷ rest) ≡ put_code_point unit ++ from_utf16 rest
unfolding from_utf16
from_utf16-alone unit [] e = sym (append-nil _)
from_utf16-alone unit (next ∷ rest) e = rw e

-- The code point that the text of some units starts with, and the units behind it.
from_utf16-cons :
    (unit : ℕ) (rest : List ℕ)
    → Units (unit ∷ rest)
    → (c : ℕ) × (more : List ℕ) × (from_utf16 (unit ∷ rest) ≡ put_code_point c ++ from_utf16 more)
      × (c < 0x110000)
      × ((is_low unit ≡ false) → (is_low c ≡ false))
from_utf16-cons unit [] u = (unit, [], from_utf16-alone unit [] refl, omega arith, λ l. l)
from_utf16-cons unit (next ∷ rest) u = elim (Bool-cases (paired unit (next ∷ rest))) [
  | inl e ↦
      (join_pair unit next, rest, from_utf16-pair unit next rest e, ground arith, λ l. ground arith)
  | inr e ↦ (unit, next ∷ rest, from_utf16-alone unit (next ∷ rest) e, omega arith, λ l. l)
]

length-from_utf16-cons :
    (unit : ℕ) (rest : List ℕ) → Units (unit ∷ rest) → 1 ≤ length (from_utf16 (unit ∷ rest))
length-from_utf16-cons unit rest u =
    let (c, more, e, _, _) = from_utf16-cons unit rest u in
    rw e
      (omega (arith, length-append (put_code_point c) (from_utf16 more), length-put_code_point c))

-- What follows a high surrogate that stands alone does not read as a low one.
starts_low-from_utf16 :
    (next : ℕ) (rest : List ℕ)
    → Units (next ∷ rest)
    → is_low next ≡ false
    → starts_low (from_utf16 (next ∷ rest)) ≡ false
starts_low-from_utf16 next rest u l =
    let (c, more, e, bound, keep) = from_utf16-cons next rest u in
    rw e (starts_low-put_code_point c (from_utf16 more) bound (keep l))

alone_not_low :
    (unit next : ℕ) (rest : List ℕ)
    → Units (next ∷ rest)
    → (is_high unit && is_low next) ≡ false
    → (is_high unit && starts_low (from_utf16 (next ∷ rest))) ≡ false
alone_not_low unit next rest u e = ground (arith, starts_low-from_utf16 next rest u)

to_utf16_from-nil : (fuel : ℕ) → to_utf16_from fuel [] ≡ ([], true)
unfolding to_utf16_from
to_utf16_from-nil zero = refl
to_utf16_from-nil (suc fuel) = refl

units_of_unit :
    (unit : ℕ) (us : List ℕ) {out : List ℕ × Bool}
    → unit < 0x10000
    → out ≡ (us, true)
    → ◌≡◌ {A = List ℕ × Bool} (units_of unit ++ out.0, out.1) (unit ∷ us, true)
units_of_unit unit us h e = rw e (ground arith)

units_of-join_pair :
    (unit next : ℕ)
    → (is_high unit && is_low next) ≡ true
    → units_of (join_pair unit next) ≡ unit ∷ next ∷ []
units_of-join_pair unit next h = ground arith

units_of_pair :
    (unit next : ℕ) (us : List ℕ) {out : List ℕ × Bool}
    → (is_high unit && is_low next) ≡ true
    → out ≡ (us, true)
    → ◌≡◌ {A = List ℕ × Bool}
        (units_of (join_pair unit next) ++ out.0, out.1)
        (unit ∷ next ∷ us, true)
units_of_pair unit next us h e = rw (e, units_of-join_pair unit next h)

length_behind :
    (c fuel : ℕ) {text : Bytes} (rest : Bytes)
    → text ≡ put_code_point c ++ rest
    → length text ≤ suc fuel
    → length rest ≤ fuel
length_behind c fuel rest e h =
    omega (arith, ap length e, length-append (put_code_point c) rest, length-put_code_point c)

join_pair-lt :
    (unit next : ℕ) → (is_high unit && is_low next) ≡ true → join_pair unit next < 0x110000
join_pair-lt unit next h = ground arith

-- Enough fuel reads back all the units.
to_utf16_from-from_utf16 :
    (fuel : ℕ) (us : List ℕ)
    → Units us
    → length (from_utf16 us) ≤ fuel
    → to_utf16_from fuel (from_utf16 us) ≡ (us, true)
to_utf16_from-from_utf16 fuel [] u h = unfold from_utf16 in to_utf16_from-nil fuel
to_utf16_from-from_utf16 zero (unit ∷ us) u h =
    absurd (omega (arith, length-from_utf16-cons unit us u))
to_utf16_from-from_utf16 (suc fuel) (unit ∷ []) u h =
    let alone = from_utf16-alone unit [] refl in
    rw alone (
      to_utf16_from-put_code_point fuel unit (from_utf16 []) (omega arith)
        (unfold from_utf16 starts_low in ground arith)
      ∙ units_of_unit unit [] u.0
          (to_utf16_from-from_utf16 fuel [] tt (unfold from_utf16 in omega arith)))
to_utf16_from-from_utf16 (suc fuel) (unit ∷ next ∷ rest) u h =
    elim (Bool-cases (is_high unit && is_low next)) [
      | inl e ↦
          let paired = from_utf16-pair unit next rest e in
          rw paired (
            to_utf16_from-put_code_point fuel (join_pair unit next) (from_utf16 rest)
              (join_pair-lt unit next e) (ground arith)
            ∙ units_of_pair unit next rest e (
                to_utf16_from-from_utf16 fuel rest u.1.1
                  (length_behind (join_pair unit next) fuel (from_utf16 rest) paired h)))
      | inr e ↦
          let alone = from_utf16-alone unit (next ∷ rest) e in
          rw alone (
            to_utf16_from-put_code_point fuel unit (from_utf16 (next ∷ rest)) (omega arith)
              (alone_not_low unit next rest u.1 e)
            ∙ units_of_unit unit (next ∷ rest) u.0 (
                to_utf16_from-from_utf16 fuel (next ∷ rest) u.1
                  (length_behind unit fuel (from_utf16 (next ∷ rest)) alone h)))
    ]

-- Whatever units a Windows name holds, lone surrogates included, `to_utf16` reads back what
-- `from_utf16` writes for them, all of it and with no error.
pub to_utf16-from_utf16 : (us : List ℕ) → Units us → to_utf16 (from_utf16 us) ≡ (us, true)
unfolding to_utf16
to_utf16-from_utf16 us u = to_utf16_from-from_utf16 (length (from_utf16 us)) us u (omega arith)
