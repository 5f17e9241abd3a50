-- ===== src/Async/Cancellation/Remove.antt =====
-- What taking a node off a chain does to the pointers of the others.
use kotatsu.Base.{
  ℕ, suc, ◌≤◌, ◌<◌, true, false, not, ◌&&◌, List, [], ◌∷◌, Option, none, some, ◌≡◌, ◌⊎◌, inl, inr,
  refl, ap, arith, ◌==◌, if◌then◌else◌, Bool-cases,
}
use kotatsu.Async.Cancellation.{Node}
use kotatsu.Async.Cancellation.Links.{
  first, last_of, has, remove, Ascending, nil, cons, Chain, Ascending-first, above, frame, points,
}

-- The other one, where a pointer is null.
abbrev pub pick : Option ℕ → Option ℕ → Option ℕ → Option ℕ
pick none a b = a
pick (some q) a b = b

-- What `unlink` does to each node.
abbrev pub unlinked : Option ℕ → Option ℕ → ℕ → (ℕ → Node) → ℕ → Node
unlinked prev next n f m =
    if m == n then record (f m) { prev = none; next = none; linked = false } else record (f m) {
      prev = if points next m then prev else (f m).prev;
      next = if points prev m then next else (f m).next;
    }

-- Where the pointers of a node of a chain lead.
next-near :
    {f : ℕ → Node} {high low : ℕ} {p : Option ℕ} {xs : List ℕ} (n : ℕ)
    → Chain f p xs
    → Ascending high low xs
    → has n xs ≡ true
    → ((f n).next ≡ none) ⊎ ((r : ℕ) × ((f n).next ≡ some r) × (n < r))
next-near n nil a h = absurd (ground arith)
next-near n (cons {x} {xs = []} b b' c) (cons l a) h = inl (ground arith)
next-near n (cons {x} {xs = y ∷ ys} b b' c) (cons l (cons l' a)) h = elim (Bool-cases (n == x)) [
  | inl e ↦ inr (y, ground arith, ground arith)
  | inr e ↦ next-near n c (cons l' a) (ground arith)
]

pub prev-near :
    {f : ℕ → Node} {high low : ℕ} {p : Option ℕ} {xs : List ℕ} (n x : ℕ)
    → Chain f p (x ∷ xs)
    → Ascending high low (x ∷ xs)
    → has n (x ∷ xs) ≡ true
    → ((n ≡ x) × ((f n).prev ≡ p)) ⊎ ((q : ℕ) × ((f n).prev ≡ some q) × (x ≤ q) × (q < n))
prev-near {xs = []} n x (cons b b' c) (cons l a) h = inl (ground arith, ground arith)
prev-near {xs = y ∷ ys} n x (cons b b' c) (cons l (cons l' a)) h = elim (Bool-cases (n == x)) [
  | inl e ↦ inl (ground arith, ground arith)
  | inr e ↦ elim (prev-near n y c (cons l' a) (ground arith)) [
    | inl k ↦ inr (x, ground (arith, k), omega arith, ground (arith, k))
    | inr k ↦ inr (k.0, k.1, omega (arith, k.2), k.3)
  ]
]

pub next-points :
    {f : ℕ → Node} {high low : ℕ} {p : Option ℕ} {xs : List ℕ} (n m : ℕ)
    → Chain f p xs
    → Ascending high low xs
    → has n xs ≡ true
    → m ≤ n
    → points (f n).next m ≡ false
next-points n m c a h l = elim (next-near n c a h) [
  | inl e ↦ rw e
  | inr e ↦ rw e.1 (ground (arith, e.2))
]

unlinked-same :
    (f : ℕ → Node) (prev next : Option ℕ) (n m : ℕ)
    → (m == n) ≡ false
    → points next m ≡ false
    → points prev m ≡ false
    → unlinked prev next n f m ≡ f m
unlinked-same f prev next n m e e' e'' = rw (e, e', e'') refl

Chain-below :
    {f : ℕ → Node} {high low : ℕ} (p : Option ℕ) (xs : List ℕ) (n : ℕ)
    → Chain f (some n) xs
    → Ascending high low xs
    → n < low
    → ((m : ℕ) → n < m → points p m ≡ false)
    → Chain (unlinked p (first xs) n f) p xs
Chain-below p [] n c a l below = nil
Chain-below {f} p (y ∷ ys) n (cons b b' c) (cons l' a) l below =
    cons (ground arith) (ground (arith, below y)) (
      frame c (λ m h.
        let far = above m a h in
        unlinked-same f p (some y) n m (ground (arith, far)) (ground (arith, far))
          (below m (omega (arith, far)))))

-- The node before the one taken off leads past it.
remove-next :
    {f : ℕ → Node} {high : ℕ} {ys : List ℕ} (n x : ℕ)
    → Chain f (some x) ys
    → Ascending high (suc x) ys
    → has n ys ≡ true
    → (f x).next ≡ first ys
    → (unlinked (f n).prev (f n).next n f x).next ≡ first (remove n ys)
remove-next {ys = []} n x c a h b = absurd (ground arith)
remove-next {f} {ys = y ∷ ys} n x (cons d d' c) a h b =
    let far = above n a h in
    let other : (x == n) ≡ false = ground (arith, far) in
    elim (Bool-cases (n == y)) [
      | inl e ↦
          let same : n ≡ y = ground arith in
          let back : points (f y).prev x ≡ true = rw d (ground arith) in
          let other' : (x == y) ≡ false = ground (arith, other) in rw (e, same, other', back) d'
      | inr e ↦ elim (prev-near n y (cons d d' c) a h) [
        | inl k ↦ absurd (ground (arith, k))
        | inr k ↦
            let past : points (f n).prev x ≡ false =
              rw k.1 (ground (arith, Ascending-first a, k.2)) in
            rw (e, other, past) b
      ]
    ]

-- The chain without one of its nodes.
pub remove-Chain :
    {f : ℕ → Node} {high low : ℕ} {p : Option ℕ} {xs : List ℕ} (n : ℕ)
    → Chain f p xs
    → Ascending high low xs
    → has n xs ≡ true
    → ((m : ℕ) → low ≤ m → points p m ≡ false)
    → Chain (unlinked (f n).prev (f n).next n f) p (remove n xs)
remove-Chain n nil a h below = absurd (ground arith)
remove-Chain {f} {p} n (cons {x} {xs = ys} b b' c) (cons l a) h below = elim (Bool-cases (n == x)) [
  | inl e ↦
      let same : n ≡ x = ground arith in
      rw (e, ap f same, b, b', same)
        (Chain-below p ys x c a (omega arith) (λ m k. below m (omega arith)))
  | inr e ↦
      let inside : has n ys ≡ true = ground arith in
      let far = above n a inside in
      let other : (x == n) ≡ false = ground (arith, far) in
      let past : points (f n).next x ≡ false = next-points n x c a inside (omega (arith, far)) in
      rw e (
        cons (rw (other, past) b) (remove-next n x c a inside b')
          (remove-Chain n c a inside (λ m k. ground arith)))
]

pub remove-last :
    {f : ℕ → Node} {high low : ℕ} {p : Option ℕ} {xs : List ℕ} (n : ℕ)
    → Chain f p xs
    → Ascending high low xs
    → has n xs ≡ true
    → pick (f n).next (f n).prev (last_of p xs) ≡ last_of p (remove n xs)
remove-last n nil a h = absurd (ground arith)
remove-last {f} n (cons {x} {xs = []} b b' c) (cons l a) h =
    let same : n ≡ x = ground arith in let e : (x == x) ≡ true = ground arith in rw (same, b', e) b
remove-last {f} n (cons {x} {xs = y ∷ ys} b b' c) (cons l a) h = elim (Bool-cases (n == x)) [
  | inl e ↦ let same : n ≡ x = ground arith in rw (e, same, b') refl
  | inr e ↦ rw e (remove-last n c a (ground arith))
]

pub weaken :
    {high low low' : ℕ} {xs : List ℕ} → low ≤ low' → Ascending high low' xs → Ascending high low xs
weaken h (nil l) = nil (omega arith)
weaken h (cons l a) = cons (omega arith) a

pub remove-Ascending :
    {high low : ℕ} {xs : List ℕ} (n : ℕ) → Ascending high low xs → Ascending high low (remove n xs)
remove-Ascending n (nil l) = nil l
remove-Ascending n (cons {x} l a) = elim (Bool-cases (n == x)) [
  | inl e ↦ rw e (weaken (omega arith) a)
  | inr e ↦ rw e (cons l (remove-Ascending n a))
]

pub has-remove :
    {high low : ℕ} {xs : List ℕ} (n m : ℕ)
    → Ascending high low xs
    → has m (remove n xs) ≡ (has m xs && not (m == n))
has-remove n m (nil l) = refl
has-remove n m (cons {x} {xs} l a) = elim (Bool-cases (n == x)) [
  | inl e ↦ rw e (ground (arith, above m a))
  | inr e ↦ rw e (ground (arith, has-remove n m a))
]
