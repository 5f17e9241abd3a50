-- ===== src/Support/Text/Find.antt =====
-- Where `find` finds a text, in a text and in what it grows to.
use kotatsu.Base.{
  ℕ, ◌+◌, ◌≤◌, true, [], ◌∷◌, ◌++◌, Option, none, some, ◌≡◌, inl, inr, refl, ap, arith, length,
  Option-cases,
}
use kotatsu.Support.Text.{Bytes, shift, starts_with, find}

pub shift-zero : (o : Option ℕ) → shift 0 o ≡ o
shift-zero none = refl
shift-zero (some i) = ap some (omega arith)

pub shift-shift : (k m : ℕ) (o : Option ℕ) → shift k (shift m o) ≡ shift (k + m) o
shift-shift k m none = refl
shift-shift k m (some i) = ap some (omega arith)

pub shift-injective : (k : ℕ) (o p : Option ℕ) → shift k o ≡ shift k p → o ≡ p
shift-injective k none none h = refl
shift-injective k none (some j) h = ground arith
shift-injective k (some i) none h = ground arith
shift-injective k (some i) (some j) h = ground arith

starts_with-append : (xs ys p : Bytes) → starts_with xs p ≡ true → starts_with (xs ++ ys) p ≡ true
unfolding starts_with
starts_with-append xs ys [] h = ground arith
starts_with-append [] ys (p ∷ ps) h = ground arith
starts_with-append (x ∷ xs) ys (p ∷ ps) h = ground (arith, starts_with-append xs ys ps)

starts_with-length : (xs p : Bytes) → starts_with xs p ≡ true → length p ≤ length xs
unfolding starts_with
starts_with-length xs [] h = omega arith
starts_with-length [] (p ∷ ps) h = absurd (ground arith)
starts_with-length (x ∷ xs) (p ∷ ps) h = ground (arith, starts_with-length xs ps)

-- What follows a text does not change whether it starts with one no longer than it is.
pub starts_with-append_le :
    (xs ys p : Bytes) → length p ≤ length xs → starts_with (xs ++ ys) p ≡ starts_with xs p
unfolding starts_with
starts_with-append_le xs ys [] h = ground arith
starts_with-append_le [] ys (p ∷ ps) h = absurd (omega arith)
starts_with-append_le (x ∷ xs) ys (p ∷ ps) h = rw (starts_with-append_le xs ys ps (omega arith))

-- An occurrence lies inside the text.
pub find_le : (p xs : Bytes) (i : ℕ) → find p xs ≡ some i → i + length p ≤ length xs
unfolding find
find_le p [] i h = absurd (ground arith)
find_le p (x ∷ xs) i h = elim (Option-cases (find p xs)) [
  | inl e ↦ ground (arith, starts_with-length (x ∷ xs) p)
  | inr (j, e) ↦ ground (arith, starts_with-length (x ∷ xs) p, find_le p xs j e)
]

-- An occurrence stays the first one, whatever follows the text.
pub find-append : (p xs ys : Bytes) (i : ℕ) → find p xs ≡ some i → find p (xs ++ ys) ≡ some i
unfolding find
find-append p [] ys i h = absurd (ground arith)
find-append p (x ∷ xs) ys i h = elim (Option-cases (find p xs)) [
  | inl e ↦ ground (arith, starts_with-append (x ∷ xs) ys p)
  | inr (j, e) ↦
      ground (arith, find-append p xs ys j e, find_le p xs j e, starts_with-append_le (x ∷ xs) ys p)
]
