-- ===== src/Support/Text/Equal.antt =====
-- Texts that are equal, and a text that starts with another one.
use kotatsu.Base.{true, [], ◌∷◌, ◌++◌, ◌≡◌, refl, ap, arith, length, drop}
use kotatsu.Support.Text.{Bytes, equal, starts_with}

pub equal-eq : (s t : Bytes) → equal s t ≡ true → s ≡ t
unfolding equal
equal-eq [] [] h = refl
equal-eq [] (y ∷ ys) h = absurd (ground arith)
equal-eq (x ∷ xs) [] h = absurd (ground arith)
equal-eq (x ∷ xs) (y ∷ ys) h =
    let e : x ≡ y = ground arith in
    let k : equal xs ys ≡ true = ground arith in rw e (ap (λ zs. y ∷ zs) (equal-eq xs ys k))

pub equal_self : (s : Bytes) → equal s s ≡ true
unfolding equal
equal_self [] = refl
equal_self (x ∷ xs) = ground (arith, equal_self xs)

pub starts_with_self : (s : Bytes) → starts_with s s ≡ true
unfolding starts_with
starts_with_self [] = refl
starts_with_self (x ∷ xs) = ground (arith, starts_with_self xs)

pub starts_with-split : (s t : Bytes) → starts_with s t ≡ true → s ≡ t ++ drop (length t) s
unfolding starts_with
starts_with-split s [] h = refl
starts_with-split [] (p ∷ ps) h = absurd (ground arith)
starts_with-split (x ∷ xs) (p ∷ ps) h =
    let e : x ≡ p = ground arith in
    let t : starts_with xs ps ≡ true = ground arith in
    rw e (ap (λ ys. p ∷ ys) (starts_with-split xs ps t))

-- A text that starts with another one and has nothing behind it is that one.
pub starts_with-whole : (t u : Bytes) → starts_with u t ≡ true → drop (length t) u ≡ [] → u ≡ t
unfolding starts_with
starts_with-whole [] u h e = e
starts_with-whole (c ∷ cs) [] h e = absurd (ground arith)
starts_with-whole (c ∷ cs) (x ∷ xs) h e =
    let same : x ≡ c = ground arith in
    let k : starts_with xs cs ≡ true = ground arith in
    rw same (ap (λ ys. c ∷ ys) (starts_with-whole cs xs k e))
