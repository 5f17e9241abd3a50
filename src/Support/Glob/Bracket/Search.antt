-- ===== src/Support/Glob/Bracket/Search.antt =====
-- The binary search of a class: where the upper bounds of the ranges ascend, it finds the first range
-- whose upper bound reaches the code point.
use kotatsu.Base.{
  ℕ, zero, suc, ◌+◌, ◌-◌, ◌/◌, ◌≤◌, ◌<◌, true, false, List, [], ◌∷◌, Option, none, some, ◌≡◌, inl,
  inr, refl, ap, ◌∙◌, arith, length, get_or, ltb, ◌==◌, if◌then◌else◌, Bool-cases,
}
use kotatsu.Support.Glob.Bracket.{Range, halve, range_at, lower_bound}

-- The upper bounds ascend, from `low` at least.
pub data Ascending : ℕ → List Range → Type 0 where
  no_bound : {low : ℕ} → Ascending low []
  a_bound : {low a b : ℕ} {rs : List Range} → low ≤ b → Ascending b rs → Ascending low ((a, b) ∷ rs)

pub weaken-Ascending :
    {low low' : ℕ} {rs : List Range} → low' ≤ low → Ascending low rs → Ascending low' rs
weaken-Ascending h no_bound = no_bound
weaken-Ascending h (a_bound l s) = a_bound (omega arith) s

-- The range that is meant, and where it is.
unfoldable pub first_reaching : List Range → ℕ → Option Range
first_reaching [] cp = none
first_reaching ((low, high) ∷ rs) cp =
    if ltb high cp then first_reaching rs cp else some (low, high)

unfoldable reaching_at : List Range → ℕ → ℕ
reaching_at [] cp = 0
reaching_at ((low, high) ∷ rs) cp = if ltb high cp then suc (reaching_at rs cp) else 0

abbrev high_at : List Range → ℕ → ℕ
high_at rs i = (get_or rs i (0, 0)).1

reaching_at_le : (rs : List Range) (cp : ℕ) → reaching_at rs cp ≤ length rs
unfolding reaching_at
reaching_at_le [] cp = omega arith
reaching_at_le ((low, high) ∷ rs) cp = ground (arith, reaching_at_le rs cp)

range_at-reaching_at :
    (rs : List Range) (cp : ℕ) → range_at rs (reaching_at rs cp) ≡ first_reaching rs cp
unfolding reaching_at first_reaching
range_at-reaching_at [] cp = refl
range_at-reaching_at ((low, high) ∷ rs) cp = elim (Bool-cases (ltb high cp)) [
  | inl e ↦ rw e (range_at-reaching_at rs cp)
  | inr e ↦ rw e refl
]

-- The ranges before it do not reach the code point.
high_at-before : (rs : List Range) (cp i : ℕ) → i < reaching_at rs cp → ltb (high_at rs i) cp ≡ true
unfolding reaching_at
high_at-before [] cp i h = absurd (omega arith)
high_at-before ((low, high) ∷ rs) cp zero h = ground arith
high_at-before ((low, high) ∷ rs) cp (suc i) h = elim (Bool-cases (ltb high cp)) [
  | inl e ↦ high_at-before rs cp i (ground arith)
  | inr e ↦ absurd (ground arith)
]

-- Those behind it do, as the bounds ascend.
high_at_ge :
    {low : ℕ} {rs : List Range} → Ascending low rs → (i : ℕ) → i < length rs → low ≤ high_at rs i
high_at_ge no_bound i h = absurd (omega arith)
high_at_ge (a_bound l s) zero h = l
high_at_ge (a_bound l s) (suc i) h = omega (arith, high_at_ge s i (omega arith))

high_at-behind :
    {low : ℕ} {rs : List Range} (cp i : ℕ)
    → Ascending low rs
    → reaching_at rs cp ≤ i
    → i < length rs
    → ltb (high_at rs i) cp ≡ false
unfolding reaching_at
high_at-behind cp i no_bound h k = absurd (omega arith)
high_at-behind cp zero (a_bound l s) h k = ground arith
high_at-behind cp (suc i) (a_bound {b = high} l s) h k = elim (Bool-cases (ltb high cp)) [
  | inl e ↦ high_at-behind cp i s (ground arith) (omega arith)
  | inr e ↦ ground (arith, high_at_ge s i (omega arith))
]

halve_lem :
    {low : ℕ} (rs : List Range) (fuel cp first count : ℕ)
    → Ascending low rs
    → count ≤ fuel
    → first ≤ reaching_at rs cp
    → reaching_at rs cp ≤ first + count
    → first + count ≤ length rs
    → halve fuel rs cp first count ≡ reaching_at rs cp
unfolding halve
halve_lem rs zero cp first count s f l h k = omega arith
halve_lem rs (suc fuel) cp first count s f l h k = elim (Bool-cases (count == 0)) [
  | inl none_left ↦ rw none_left (ground arith)
  | inr some_left ↦
      let middle = first + count / 2 in
      let inside : middle < first + count = ground arith in
      elim (Bool-cases (ltb (high_at rs middle) cp)) [
        | inl e ↦
            rw (some_left, e)
              (halve_lem rs fuel cp (middle + 1) (count - (count / 2 + 1)) s (ground arith)
                (ground (arith, high_at-behind cp middle s)) (ground arith) (ground arith))
        | inr e ↦
            rw (some_left, e)
              (halve_lem rs fuel cp first (count / 2) s (ground arith) l
                (ground (arith, high_at-before rs cp middle)) (ground arith))
      ]
]

pub lower_bound-first_reaching :
    {low : ℕ} (rs : List Range) (cp : ℕ)
    → Ascending low rs
    → lower_bound rs cp ≡ first_reaching rs cp
unfolding lower_bound
lower_bound-first_reaching rs cp s =
    ap (range_at rs) (
      halve_lem rs (length rs) cp 0 (length rs) s (omega arith) (omega arith)
        (omega (arith, reaching_at_le rs cp)) (omega arith))
    ∙ range_at-reaching_at rs cp
