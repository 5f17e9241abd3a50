-- ===== src/Support/Glob/Braces/Choices.antt =====
-- `next_choice` counts: a choice is the digits of a number, one for each brace, the first one the
-- highest.
use kotatsu.Base.{
  ℕ, suc, ◌+◌, ◌-◌, ◌*◌, ◌<◌, List, [], ◌∷◌, ◌≡◌, inl, inr, refl, sym, arith, length, ◌==◌, ltb,
  if◌then◌else◌, Bool-cases,
}
use kotatsu.Support.Glob.Braces.{Brace, next_choice}

-- One term is chosen for each brace.
pub data Choice : List ℕ → List Brace → Type 0 where
  no_choice : Choice [] []
  choose :
      {k : ℕ} {ks : List ℕ} {b : Brace} {bs : List Brace}
      → k < length b.terms
      → Choice ks bs
      → Choice (k ∷ ks) (b ∷ bs)

-- How many choices there are.
unfoldable pub arms_of : List Brace → ℕ
arms_of [] = 1
arms_of (b ∷ bs) = length b.terms * arms_of bs

-- The number of choices in front of a choice.
unfoldable pub rank : List ℕ → List Brace → ℕ
unfolding arms_of
rank (k ∷ ks) (b ∷ bs) = k * arms_of bs + rank ks bs
rank _ _ = 0

mul_step : (k n s r : ℕ) → k < n → r < s → k * s + r < n * s
mul_step k n s r h l =
    let d : ℕ = n - suc k in let e : n ≡ suc k + d = omega arith in rw e (omega (arith, l))

mul_last : (k n s r : ℕ) → suc k ≡ n → r + 1 ≡ s → k * s + r + 1 ≡ n * s
mul_last k n s r h l = rw (sym h) (omega (arith, l))

pub rank_lt : {ks : List ℕ} {bs : List Brace} → Choice ks bs → rank ks bs < arms_of bs
unfolding rank arms_of
rank_lt no_choice = omega arith
rank_lt (choose {k} {ks} {b} {bs} h c) =
    mul_step k (length b.terms) (arms_of bs) (rank ks bs) h (rank_lt c)

-- A choice of one term for each brace is followed by the next one in number, as long as there is one,
-- and otherwise by the first one, which is when `next_choice` says that there are no more.
pub next_choice_lem :
    {ks : List ℕ} {bs : List Brace}
    → Choice ks bs
    → let r = next_choice ks bs in
      Choice r.0 bs
      × (rank r.0 bs ≡ (if r.1 then rank ks bs + 1 else 0))
      × (r.1 ≡ ltb (rank ks bs + 1) (arms_of bs))
unfolding next_choice rank arms_of
next_choice_lem no_choice = (no_choice, refl, refl)
next_choice_lem (choose {k} {ks} {b} {bs} h c) =
    let (later, counts, more) = next_choice_lem c in
    let below = rank_lt c in
    elim (Bool-cases (next_choice ks bs).1) [
      | inl e ↦
          let r : rank ks bs + 1 < arms_of bs = ground arith in
          let s = mul_step k (length b.terms) (arms_of bs) (rank ks bs + 1) h r in
          rw e (choose h later, ground arith, ground arith)
      | inr e ↦
          let r : rank ks bs + 1 ≡ arms_of bs = ground arith in
          let z : rank (next_choice ks bs).0 bs ≡ 0 = ground arith in
          elim (Bool-cases (suc k == length b.terms)) [
            | inl q ↦
                let n : suc k ≡ length b.terms = ground arith in
                let full = mul_last k (length b.terms) (arms_of bs) (rank ks bs) n r in
                rw (e, q) (choose (omega arith) later, omega (arith, z), ground (arith, full))
            | inr q ↦
                let n : suc k < length b.terms = ground arith in
                let s = mul_step (suc k) (length b.terms) (arms_of bs) 0 n (omega arith) in
                rw (e, q) (choose n later, omega (arith, z, r), ground (arith, s, r))
          ]
    ]
