-- ===== src/Async/Cancellation/Links.antt =====
-- Lists of registrations in ascending order, and chains of nodes that lead through them.
use kotatsu.Base.{
  ℕ, suc, ◌≤◌, ◌<◌, Bool, true, false, ◌||◌, List, [], ◌∷◌, ◌++◌, Option, none, some, ◌≡◌, ◌⊎◌, inl,
  inr, refl, arith, ◌==◌, if◌then◌else◌, Bool-cases,
}
use kotatsu.Async.Cancellation.{Node}

abbrev pub first : List ℕ → Option ℕ
first [] = none
first (x ∷ xs) = some x

-- The last of a list, or what stands before it.
abbrev pub last_of : Option ℕ → List ℕ → Option ℕ
last_of p [] = p
last_of p (x ∷ xs) = last_of (some x) xs

abbrev pub has : ℕ → List ℕ → Bool
has n [] = false
has n (x ∷ xs) = n == x || has n xs

abbrev pub remove : ℕ → List ℕ → List ℕ
remove n [] = []
remove n (x ∷ xs) = let rest = remove n xs in if n == x then xs else x ∷ rest

-- Ascending, from `low` up to what is below `high`.
pub data Ascending (high : ℕ) : ℕ → List ℕ → Type 0 where
  nil : {low : ℕ} → low ≤ high → Ascending high low []
  cons :
      {low x : ℕ} {xs : List ℕ} → low ≤ x → Ascending high (suc x) xs → Ascending high low (x ∷ xs)

-- The nodes lead through the list both ways.
pub data Chain (nodes : ℕ → Node) : Option ℕ → List ℕ → Type 0 where
  nil : {p : Option ℕ} → Chain nodes p []
  cons :
      {p : Option ℕ} {x : ℕ} {xs : List ℕ}
      → (nodes x).prev ≡ p
      → (nodes x).next ≡ first xs
      → Chain nodes (some x) xs
      → Chain nodes p (x ∷ xs)

pub bounds-Ascending : {high low : ℕ} {xs : List ℕ} → Ascending high low xs → low ≤ high
bounds-Ascending (nil l) = l
bounds-Ascending (cons l a) = omega (arith, bounds-Ascending a)

pub Ascending-first : {high low x : ℕ} {xs : List ℕ} → Ascending high low (x ∷ xs) → low ≤ x
Ascending-first (cons l a) = l

pub above :
    {high low : ℕ} {xs : List ℕ} (n : ℕ)
    → Ascending high low xs
    → has n xs ≡ true
    → (low ≤ n) × (n < high)
above n (nil l) h = absurd (ground arith)
above n (cons {x} l a) h = elim (Bool-cases (n == x)) [
  | inl e ↦ ground (arith, bounds-Ascending a)
  | inr e ↦ ground (arith, above n a)
]

pub frame :
    {f g : ℕ → Node} {p : Option ℕ} {xs : List ℕ}
    → Chain f p xs
    → ((n : ℕ) → has n xs ≡ true → g n ≡ f n)
    → Chain g p xs
frame nil same = nil
frame (cons {x} e e' c) same =
    cons (ground (arith, same x)) (ground (arith, same x))
      (frame c (λ n h. same n (ground (arith, h))))

abbrev pub points : Option ℕ → ℕ → Bool
points none m = false
points (some q) m = m == q

pub last-has :
    (x : ℕ) (xs : List ℕ)
    → (last_of (some x) xs ≡ some x)
      ⊎ ((l : ℕ) × (last_of (some x) xs ≡ some l) × (has l xs ≡ true))
last-has x [] = inl refl
last-has x (y ∷ ys) = elim (last-has y ys) [
  | inl e ↦ inr (y, e, ground arith)
  | inr e ↦ inr (e.0, e.1, ground (arith, e.2))
]

-- The last of a list is not before it.
last-points :
    {high : ℕ} (x y : ℕ) (ys : List ℕ)
    → Ascending high (suc x) (y ∷ ys)
    → points (last_of (some y) ys) x ≡ false
last-points x y ys (cons l a) = elim (last-has y ys) [
  | inl e ↦ rw e (ground arith)
  | inr e ↦ let far = above e.0 a e.2 in rw e.1 (ground (arith, far))
]

pub append-Chain :
    {f g : ℕ → Node} {high low : ℕ} {p : Option ℕ} {xs : List ℕ} (n : ℕ)
    → Chain f p xs
    → Ascending high low xs
    → (g n).prev ≡ last_of p xs
    → (g n).next ≡ none
    → ((m : ℕ) → has m xs ≡ true → (g m).prev ≡ (f m).prev)
    → ((m : ℕ)
        → has m xs ≡ true
        → (g m).next ≡ (if points (last_of p xs) m then some n else (f m).next))
    → Chain g p (xs ++ (n ∷ []))
append-Chain n nil a e e' prevs nexts = cons e e' nil
append-Chain n (cons {x} {xs = []} b b' c) (cons l a) e e' prevs nexts =
    cons (ground (arith, prevs x)) (ground (arith, nexts x)) (cons e e' nil)
append-Chain n (cons {x} {xs = y ∷ ys} b b' c) (cons l a) e e' prevs nexts =
    let far = last-points x y ys a in
    cons (ground (arith, prevs x)) (ground (arith, nexts x, far)) (
      append-Chain n c a e e' (λ m h. prevs m (ground (arith, h)))
        (λ m h. nexts m (ground (arith, h))))
