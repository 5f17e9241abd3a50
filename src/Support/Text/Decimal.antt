-- ===== src/Support/Text/Decimal.antt =====
-- Decimal numbers as `std::format` writes and `std::from_chars` reads them.
use kotatsu.Base.{
  ℕ, zero, suc, ◌+◌, ◌*◌, ◌/◌, ◌%◌, ◌^◌, ◌≤◌, ◌<◌, true, [], ◌∷◌, ◌≡◌, inl, inr, refl, sym, ap, ◌∙◌,
  arith, length, ltb, lt→ltb, Bool-cases,
}
use mathlib.Core.Path.{subst}
use native.Mathlib.Nat.{pow-suc}
use kotatsu.Support.Text.{Bytes, is_digit, decimal_onto, decimal, parsed, read_digits, from_chars}

-- Digits only.
abbrev pub Digits : Bytes → Type 0
Digits [] = Unit {0}
Digits (c ∷ cs) = (is_digit c ≡ true) × Digits cs

decimal_onto-Digits : (f n : ℕ) (out : Bytes) → n < f → Digits out → Digits (decimal_onto f n out)
unfolding decimal_onto
decimal_onto-Digits zero n out h d = absurd (omega arith)
decimal_onto-Digits (suc f) n out h d = elim (Bool-cases (ltb n 10)) [
  | inl e ↦ rw e (ground arith, d)
  | inr e ↦ rw e (decimal_onto-Digits f (n / 10) _ (ground arith) (ground arith, d))
]

decimal_onto-cons :
    (f n : ℕ) (out : Bytes) → n < f → (c : ℕ) × (cs : Bytes) × (decimal_onto f n out ≡ c ∷ cs)
unfolding decimal_onto
decimal_onto-cons zero n out h = absurd (omega arith)
decimal_onto-cons (suc f) n out h = elim (Bool-cases (ltb n 10)) [
  | inl e ↦ rw e (b'0' + n, out, refl)
  | inr e ↦ rw e (decimal_onto-cons f (n / 10) ((b'0' + n % 10) ∷ out) (ground arith))
]

read_digits-decimal_onto :
    (f n : ℕ) (out : Bytes) → n < f → read_digits 0 (decimal_onto f n out) ≡ read_digits n out
unfolding decimal_onto read_digits
read_digits-decimal_onto zero n out h = absurd (omega arith)
read_digits-decimal_onto (suc f) n out h = elim (Bool-cases (ltb n 10)) [
  | inl e ↦ rw e (last n out e)
  | inr e ↦ rw e (
      read_digits-decimal_onto f (n / 10) ((b'0' + n % 10) ∷ out) (ground arith)
      ∙ digit (n / 10) (n % 10) out (omega arith)
      ∙ ap (λ k. read_digits k out) (omega arith))
]
  where
    digit :
        (m d : ℕ) (out : Bytes)
        → d < 10
        → read_digits m ((b'0' + d) ∷ out) ≡ read_digits (m * 10 + d) out
    digit m d out h = ground arith

    last :
        (n : ℕ) (out : Bytes)
        → ltb n 10 ≡ true
        → read_digits 0 ((b'0' + n) ∷ out) ≡ read_digits n out
    last n out e = digit 0 n out (ground arith) ∙ ap (λ k. read_digits k out) (omega arith)

length-decimal_onto :
    (k f n : ℕ) (out : Bytes) → n < 10 ^ suc k → length (decimal_onto f n out) ≤ suc k + length out
unfolding decimal_onto
length-decimal_onto k zero n out h = omega arith
length-decimal_onto zero (suc f) n out h =
    let e : ltb n 10 ≡ true = lt→ltb n 10 (omega arith) in rw e (omega arith)
length-decimal_onto (suc k) (suc f) n out h = elim (Bool-cases (ltb n 10)) [
  | inl e ↦ rw e (omega arith)
  | inr e ↦ rw e (
      omega (
        arith,
        length-decimal_onto k f (n / 10) ((b'0' + n % 10) ∷ out)
            (omega (arith, pow-suc 10 (suc k))),
      ))
]

pub decimal-Digits : (n : ℕ) → Digits (decimal n)
unfolding decimal
decimal-Digits n = decimal_onto-Digits (suc n) n [] (omega arith) tt

pub decimal-cons : (n : ℕ) → (c : ℕ) × (cs : Bytes) × (decimal n ≡ c ∷ cs)
unfolding decimal
decimal-cons n = decimal_onto-cons (suc n) n [] (omega arith)

-- A 64-bit number has 20 digits at most.
pub length-decimal : (n : ℕ) → n < 2 ^ 64 → length (decimal n) ≤ 20
unfolding decimal
length-decimal n h = omega (arith, length-decimal_onto 19 (suc n) n [] (omega arith))

read_digits-decimal : (n : ℕ) → read_digits 0 (decimal n) ≡ (n, [])
unfolding decimal read_digits
read_digits-decimal n = read_digits-decimal_onto (suc n) n [] (omega arith)

from_chars-digits :
    (c n : ℕ) (cs : Bytes)
    → is_digit c ≡ true
    → read_digits 0 (c ∷ cs) ≡ (n, [])
    → n < 2 ^ 64
    → from_chars (c ∷ cs) ≡ parsed n []
unfolding from_chars
from_chars-digits c n cs d e h = rw (d, e, lt→ltb n (2 ^ 64) h)

-- `std::from_chars` reads a 64-bit number as it was written, and takes all of it.
pub from_chars-decimal : (n : ℕ) → n < 2 ^ 64 → from_chars (decimal n) ≡ parsed n []
from_chars-decimal n h =
    let (c, cs, e) = decimal-cons n in
    rw e (
      from_chars-digits c n cs (subst Digits e (decimal-Digits n)).0
        (sym (ap (read_digits 0) e) ∙ read_digits-decimal n) h)
