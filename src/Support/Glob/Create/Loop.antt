-- ===== src/Support/Glob/Create/Loop.antt =====
-- The loop of `create` over the arms: it takes every choice of the braces' terms once, in order.
use native.Mathlib.Nat.{add-mul-div_left}
use kotatsu.Base.{
  ℕ, zero, suc, ◌+◌, ◌-◌, ◌*◌, ◌/◌, ◌≤◌, ◌<◌, false, List, [], ◌∷◌, ◌++◌, ◌≡◌, inl, inr, refl, sym,
  ap, ◌∙◌, arith, length, replicate, ltb, ◌==◌, if◌then◌else◌, length-append, Bool-cases, Expected,
  value, unexpected, Expected-cases,
}
use kotatsu.Support.Text.{Bytes}
use kotatsu.Support.Glob.{GlobError}
use kotatsu.Support.Glob.Braces.{Brace, next_choice, parse_braces}
use kotatsu.Support.Glob.Braces.Choices.{
  Choice, no_choice, choose, rank_lt, arms_of, next_choice_lem,
}
use kotatsu.Support.Glob.Braces.Terms.{parse_braces-Choice}
use kotatsu.Support.Glob.Create.Expand.{
  Head, Compiled, compile_choice, compile_choices, count_arms, size_max,
}

with_first : ℕ → List (List ℕ) → List (List ℕ)
with_first k [] = []
with_first k (ks ∷ kss) = (k ∷ ks) ∷ with_first k kss

-- `n` terms from `k` on, each in front of all the choices.
blocks : ℕ → ℕ → List (List ℕ) → List (List ℕ)
unfolding with_first
blocks k zero kss = []
blocks k (suc n) kss = with_first k kss ++ blocks (suc k) n kss

-- All choices of one term for each brace, the last brace's term changing fastest.
unfoldable pub all_choices : List Brace → List (List ℕ)
unfolding blocks
all_choices [] = [] ∷ []
all_choices (b ∷ bs) = blocks 0 (length b.terms) (all_choices bs)

-- The arms of the choices, one after the other, up to the first that does not compile.
unfoldable pub compile_all :
    Head → List Brace → List (List ℕ) → Compiled → Expected Compiled GlobError
unfolding compile_choice
compile_all h braces [] done = value done
compile_all h braces (ks ∷ kss) done = elim (compile_choice h braces ks done) [
  | unexpected e ↦ unexpected e
  | value more ↦ compile_all h braces kss more
]

-- A choice and those behind it.
choices_from : List ℕ → List Brace → List (List ℕ)
unfolding with_first blocks all_choices
choices_from (k ∷ ks) (b ∷ bs) =
    with_first k (choices_from ks bs) ++ blocks (suc k) (length b.terms - suc k) (all_choices bs)
choices_from _ _ = [] ∷ []

next_choice_first :
    {ks : List ℕ} {bs : List Brace}
    → Choice ks bs
    → (next_choice ks bs).1 ≡ false
    → (next_choice ks bs).0 ≡ replicate (length bs) 0
unfolding next_choice
next_choice_first no_choice h = refl
next_choice_first (choose {k} {ks} {b} {bs} l c) h = elim (Bool-cases (next_choice ks bs).1) [
  | inl e ↦ absurd (ground arith)
  | inr e ↦ elim (Bool-cases (suc k == length b.terms)) [
    | inl q ↦ rw (e, q) (ap (λ x. 0 ∷ x) (next_choice_first c e))
    | inr q ↦ absurd (ground arith)
  ]
]

choices_from-first :
    {ks : List ℕ} {bs : List Brace}
    → Choice ks bs
    → choices_from (replicate (length bs) 0) bs ≡ all_choices bs
unfolding choices_from all_choices blocks
choices_from-first no_choice = refl
choices_from-first (choose {b} {bs} l c) =
    let n : length b.terms ≡ suc (length b.terms - 1) = omega arith in
    ap (λ x. with_first 0 x ++ blocks 1 (length b.terms - 1) (all_choices bs))
      (choices_from-first c)
    ∙ ap (λ m. blocks 0 m (all_choices bs)) (sym n)

choices_from-next :
    {ks : List ℕ} {bs : List Brace}
    → Choice ks bs
    → let r = next_choice ks bs in
      choices_from ks bs ≡ ks ∷ (if r.1 then choices_from r.0 bs else [])
unfolding choices_from next_choice with_first blocks
choices_from-next no_choice = refl
choices_from-next (choose {k} {ks} {b} {bs} l c) =
    let rest : List (List ℕ) = blocks (suc k) (length b.terms - suc k) (all_choices bs) in
    let ih = choices_from-next c in
    elim (Bool-cases (next_choice ks bs).1) [
      | inl e ↦ rw e (ap (λ x. with_first k x ++ rest) (rw e at ih))
      | inr e ↦
          let one : choices_from (k ∷ ks) (b ∷ bs) ≡ (k ∷ ks) ∷ rest =
            ap (λ x. with_first k x ++ rest) (rw e at ih) in
          elim (Bool-cases (suc k == length b.terms)) [
            | inl q ↦
                let z : length b.terms - suc k ≡ 0 = ground arith in
                rw (e, q) (one ∙ ap (λ n. (k ∷ ks) ∷ blocks (suc k) n (all_choices bs)) z)
            | inr q ↦
                let z : length b.terms - suc k ≡ suc (length b.terms - suc (suc k)) =
                  ground arith in
                let f =
                  ap (λ x. choices_from x bs) (next_choice_first c e) ∙ choices_from-first c in
                let more =
                  ap
                    (λ x.
                      with_first (suc k) x
                      ++ blocks (suc (suc k)) (length b.terms - suc (suc k)) (all_choices bs))
                    (sym f) in
                rw (e, q)
                  (one
                    ∙ ap (λ n. (k ∷ ks) ∷ blocks (suc k) n (all_choices bs)) z
                    ∙ ap (λ x. (k ∷ ks) ∷ x) more)
          ]
    ]

compile_choices-from :
    (f : ℕ) (h : Head) {choice : List ℕ} {braces : List Brace} (done : Compiled)
    → Choice choice braces
    → length (choices_from choice braces) ≤ f
    → compile_choices f h braces choice done
      ≡ compile_all h braces (choices_from choice braces) done
unfolding compile_choices compile_all
compile_choices-from zero h {choice} {braces} done c l =
    absurd (omega (arith, ap length (choices_from-next c)))
compile_choices-from (suc f) h {choice} {braces} done c l =
    let next = choices_from-next c in
    elim (Expected-cases (compile_choice h braces choice done)) [
      | inl (e, q) ↦ rw (next, compile_choices, compile_all, q)
      | inr (more, q) ↦ elim (Bool-cases (next_choice choice braces).1) [
        | inl t ↦
            let size = ap length next in
            let ih =
              compile_choices-from f h more (next_choice_lem c).0
                (omega (arith, rw t at size, l)) in
            rw (next, compile_choices, compile_all, q, t) ih
        | inr t ↦ rw (next, compile_choices, compile_all, q, t)
      ]
    ]

length-with_first : (k : ℕ) (kss : List (List ℕ)) → length (with_first k kss) ≡ length kss
unfolding with_first
length-with_first k [] = refl
length-with_first k (ks ∷ kss) = ap suc (length-with_first k kss)

length-blocks : (k n : ℕ) (kss : List (List ℕ)) → length (blocks k n kss) ≡ n * length kss
unfolding blocks
length-blocks k zero kss = omega arith
length-blocks k (suc n) kss = omega (
  arith,
  length-append (with_first k kss) (blocks (suc k) n kss),
  length-with_first k kss,
  length-blocks (suc k) n kss,
)

length-all_choices : (bs : List Brace) → length (all_choices bs) ≡ arms_of bs
unfolding all_choices arms_of
length-all_choices [] = refl
length-all_choices (b ∷ bs) =
    length-blocks 0 (length b.terms) (all_choices bs)
    ∙ ap (λ n. length b.terms * n) (length-all_choices bs)

quotient_ge : (m n count : ℕ) → 0 < n → count * n ≤ m → count ≤ m / n
quotient_ge m n count h l =
    let r : ℕ = m - count * n in
    let e : m ≡ r + n * count = omega arith in
    let q = add-mul-div_left r count h in rw e (omega (arith, q))

-- The count is the number of choices, where that fits a `size_t`.
count_arms-arms_of :
    (count : ℕ) {ks : List ℕ} (bs : List Brace)
    → Choice ks bs
    → count * arms_of bs ≤ size_max
    → count_arms count bs ≡ count * arms_of bs
unfolding count_arms arms_of
count_arms-arms_of count [] no_choice l = omega arith
count_arms-arms_of count (b ∷ bs) (choose h c) l =
    let n : ℕ = length b.terms in
    let some = rank_lt c in
    let bound : count * n ≤ size_max = factor_le count n (arms_of bs) size_max (omega arith) l in
    let q = quotient_ge size_max n count (omega arith) bound in
    let e : ltb (size_max / n) count ≡ false = ground (arith, q) in
    rw e (count_arms-arms_of (count * n) bs c (omega arith) ∙ omega arith)
  where
    factor_le : (a n s m : ℕ) → 1 ≤ s → a * (n * s) ≤ m → a * n ≤ m
    factor_le a n s m h l =
        let d : ℕ = s - 1 in
        let e : s ≡ suc d = omega arith in let l' : a * (n * suc d) ≤ m = rw e at l in omega arith

-- For the braces of any pattern, where the number of choices fits a `size_t`, the loop compiles one arm
-- for each choice of one term for each brace, in order, the last brace's term changing fastest, up to
-- the first arm that does not compile.
pub compile_choices-all :
    (s : Bytes) (from : ℕ) (h : Head) (braces : List Brace) (done : Compiled)
    → parse_braces s from ≡ value braces
    → arms_of braces ≤ size_max
    → compile_choices (count_arms 1 braces) h braces (replicate (length braces) 0) done
      ≡ compile_all h braces (all_choices braces) done
compile_choices-all s from h braces done p l =
    let c = parse_braces-Choice s from p in
    let n : count_arms 1 braces ≡ arms_of braces =
      count_arms-arms_of 1 braces c (omega arith) ∙ omega arith in
    let first = choices_from-first c in
    let size : length (choices_from (replicate (length braces) 0) braces) ≤ count_arms 1 braces =
      rw first (omega (arith, length-all_choices braces, n)) in
    compile_choices-from (count_arms 1 braces) h done c size
    ∙ ap (λ kss. compile_all h braces kss done) first
