-- ===== src/Support/Glob/Tokens/Seek.antt =====
-- A literal behind a star: its first occurrence is at an atom, and nothing matches in front of it.
use kotatsu.Base.{
  ℕ, zero, suc, ◌+◌, ◌-◌, ◌≤◌, true, false, ◌&&◌, List, [], ◌∷◌, none, some, ◌≡◌, ◌↔◌, inl, inr,
  refl, sym, ◌∙◌, arith, length, get_or, drop, leb, length-drop, drop_whole, Option-cases,
  Bool-cases,
}
use kotatsu.Support.Text.{Bytes, starts_with, ends_with, equal, find}
use kotatsu.Support.Text.Find.{find_le}
use kotatsu.Support.Text.Equal.{equal-eq, equal_self, starts_with_self, starts_with-whole}
use kotatsu.Support.Glob.Atoms.{
  IsContinuation, Reaches, here, next, length-Reaches, Reaches-all, Reaches-linear, Reaches-trans,
  Reaches-drop,
}
use kotatsu.Support.Glob.{decode_utf8_atom}
use kotatsu.Support.Glob.Valid.{IsValid, IsValid-lead}
use kotatsu.Support.Glob.Compile.{Token, literal, star}
use kotatsu.Support.Glob.Tokens.Meaning.{
  text, Matches, done, take, Matches→Reaches, Reaches→Matches, literal_inv,
}

data Suffix : Bytes → Bytes → Type 0 where
  whole : {s : Bytes} → Suffix s s
  behind : {c : ℕ} {cs u : Bytes} → Suffix cs u → Suffix (c ∷ cs) u

Suffix-drop : (n : ℕ) (s : Bytes) {u : Bytes} → Suffix (drop n s) u → Suffix s u
Suffix-drop zero s h = h
Suffix-drop (suc n) [] h = h
Suffix-drop (suc n) (c ∷ cs) h = behind (Suffix-drop n cs h)

Reaches→Suffix : {s u : Bytes} → Reaches s u → Suffix s u
Reaches→Suffix here = whole
Reaches→Suffix (next {c} {cs} r) =
    Suffix-drop (decode_utf8_atom (c ∷ cs)).len (c ∷ cs) (Reaches→Suffix r)

length-Suffix : {s u : Bytes} → Suffix s u → length u ≤ length s
length-Suffix whole = omega arith
length-Suffix (behind h) = omega (arith, length-Suffix h)

Suffix→drop : {s u : Bytes} → Suffix s u → u ≡ drop (length s - length u) s
Suffix→drop (whole {s}) = let e : length s - length s ≡ 0 = omega arith in rw e
Suffix→drop (behind {c} {cs} {u} h) =
    let e : suc (length cs) - length u ≡ suc (length cs - length u) =
      omega (arith, length-Suffix h) in
    rw e (Suffix→drop h)

-- What `find` says of the places where a text could start.
find-first :
    (p : Bytes) {s u : Bytes} (at : ℕ)
    → Suffix s u
    → 1 ≤ length p
    → find p s ≡ some at
    → starts_with u p ≡ true
    → length u + at ≤ length s
unfolding find starts_with
find-first [] at x l h k = absurd (omega arith)
find-first (p ∷ ps) at (whole {s = []}) l h k = absurd (ground arith)
find-first (p ∷ ps) at (whole {s = c ∷ cs}) l h k = ground arith
find-first (p ∷ ps) at (behind {c} {cs} {u} x) l h k = elim (Option-cases (find (p ∷ ps) cs)) [
  | inl e ↦ ground (arith, length-Suffix x)
  | inr (i, e) ↦ ground (arith, length-Suffix x, find-first (p ∷ ps) i x l e k)
]

find-none :
    (p : Bytes) {s u : Bytes}
    → Suffix s u
    → 1 ≤ length p
    → find p s ≡ none
    → starts_with u p ≡ false
unfolding find starts_with
find-none [] x l h = absurd (omega arith)
find-none (p ∷ ps) (whole {s = []}) l h = refl
find-none (p ∷ ps) (whole {s = c ∷ cs}) l h = ground arith
find-none (p ∷ ps) (behind {c} {cs} x) l h = elim (Option-cases (find (p ∷ ps) cs)) [
  | inl e ↦ find-none (p ∷ ps) x l e
  | inr (i, e) ↦ absurd (ground arith)
]

pub find-starts : (p s : Bytes) (at : ℕ) → find p s ≡ some at → starts_with (drop at s) p ≡ true
unfolding find
find-starts p [] at h = absurd (ground arith)
find-starts p (c ∷ cs) at h = elim (Bool-cases (starts_with (c ∷ cs) p)) [
  | inl e ↦ let z : at ≡ 0 = ground arith in rw z e
  | inr e ↦ elim (Option-cases (find p cs)) [
    | inl n ↦ absurd (ground arith)
    | inr (i, k) ↦ let z : at ≡ suc i = ground arith in rw z (find-starts p cs i k)
  ]
]

starts_with-get : (s p : Bytes) (c : ℕ) → starts_with s (c ∷ p) ≡ true → get_or s 0 0 ≡ c
unfolding starts_with
starts_with-get [] p c h = absurd (ground arith)
starts_with-get (x ∷ xs) p c h = ground arith

get_or-drop_zero : (n : ℕ) (s : Bytes) → get_or (drop n s) 0 0 ≡ get_or s n 0
get_or-drop_zero zero s = refl
get_or-drop_zero (suc n) [] = refl
get_or-drop_zero (suc n) (c ∷ cs) = get_or-drop_zero n cs

-- A valid text starts at an atom.
pub Reaches-text :
    (s t : Bytes) (at : ℕ)
    → IsValid t
    → 1 ≤ length t
    → at + length t ≤ length s
    → starts_with (drop at s) t ≡ true
    → Reaches s (drop at s)
Reaches-text s [] at v l b h = absurd (omega arith)
Reaches-text s (c ∷ cs) at v l b h =
    let e : get_or s at 0 ≡ c = sym (get_or-drop_zero at s) ∙ starts_with-get (drop at s) cs c h in
    Reaches-drop (length s) s at (omega arith) (omega arith)
      (λ (q : IsContinuation (get_or s at 0)). IsValid-lead c cs v (rw e at q))

nil_inv : {s : Bytes} → Matches [] s → s ≡ []
nil_inv done = refl

module _ (t : Bytes) (ts : List Token) (v : IsValid t) (l : 1 ≤ length t) where
  pub seek_none : (s : Bytes) → find t s ≡ none → ¬ Matches (star ∷ literal t ∷ ts) s
  seek_none s h m =
      let (u, r, k) = Matches→Reaches m in
      let yes = (literal_inv k).0 in
      let no = find-none t (Reaches→Suffix r) l h in absurd (ground arith)

  pub seek_some :
      (s : Bytes) (at : ℕ)
      → find t s ≡ some at
      → Matches (star ∷ literal t ∷ ts) s ↔ Matches (star ∷ literal t ∷ ts) (drop at s)
  seek_some s at h =
      let starts = find-starts t s at h in
      let to = Reaches-text s t at v l (find_le t s at h) starts in
      (
        λ m.
            let (u, r, k) = Matches→Reaches m in
            let first = find-first t at (Reaches→Suffix r) l h (literal_inv k).0 in
            let size = length-drop at s in
            elim (Reaches-linear to r) [
              | inl q ↦ Reaches→Matches q k
              | inr q ↦
                  let same : u ≡ drop at s = Reaches-all q (omega arith) in
                  rw (sym same) (Reaches→Matches here k)
            ],
        λ m. let (u, r, k) = Matches→Reaches m in Reaches→Matches (Reaches-trans to r) k,
      )

  -- A literal behind a star at the end: the text ends with it.
  pub seek_last :
      (s : Bytes)
      → ((leb (length t) (length s) && ends_with s t) ≡ true) ↔ Matches (star ∷ literal t ∷ []) s
  unfolding ends_with
  seek_last s =
      let at : ℕ = length s - length t in
      (
        λ h.
            let b : length t ≤ length s = ground arith in
            let e : equal (drop at s) t ≡ true = ground arith in
            let same : drop at s ≡ t = equal-eq (drop at s) t e in
            let starts : starts_with (drop at s) t ≡ true = rw same (starts_with_self t) in
            let rest : drop (length t) (drop at s) ≡ [] = rw same (drop_whole t) in
            Reaches→Matches (Reaches-text s t at v l (omega arith) starts)
              (take (text starts) (rw rest done)),
        λ m.
            let (u, r, k) = Matches→Reaches m in
            let (starts, end) = literal_inv k in
            let same : u ≡ t = starts_with-whole t u starts (nil_inv end) in
            let d = Suffix→drop (Reaches→Suffix r) in
            let e : equal (drop at s) t ≡ true = rw (sym (rw same at d)) (equal_self t) in
            let b : length t ≤ length s = rw same at (length-Reaches r) in ground arith,
      )
