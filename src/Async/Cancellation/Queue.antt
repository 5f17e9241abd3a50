-- ===== src/Async/Cancellation/Queue.antt =====
-- The list of registrations that the pointers of a source stand for, and `link` and `unlink` on it.
use kotatsu.Base.{
  ℕ, ◌+◌, ◌≤◌, Bool, true, false, ◌||◌, List, [], ◌∷◌, ◌++◌, Option, none, some, ◌≡◌, inl, inr,
  refl, sym, ap, ◌∙◌, arith, ◌==◌, if◌then◌else◌,
}
use kotatsu.Async.Cancellation.{
  Callback, Node, Calls, State, set_next, set_prev, link, unlink, register,
}
use kotatsu.Async.Cancellation.Links.{
  first, last_of, has, remove, Ascending, nil, cons, Chain, bounds-Ascending, above, frame, points,
  append-Chain,
}
use kotatsu.Async.Cancellation.Remove.{
  pick, unlinked, next-points, prev-near, remove-Chain, remove-last, remove-Ascending, has-remove,
}

-- What the pointers of a source stand for.
pub record IsQueue (s : State) (xs : List ℕ) : Type 0 where
  pub at_head : s.head ≡ first xs
  pub at_tail : s.tail ≡ last_of none xs
  pub chain : Chain s.nodes none xs
  pub ordered : Ascending s.fresh 0 xs
  pub marks : (n : ℕ) → (s.nodes n).linked ≡ has n xs

unlink_by :
    (s : State) (n : ℕ) (prev next : Option ℕ)
    → (s.nodes n).prev ≡ prev
    → (s.nodes n).next ≡ next
    → points prev n ≡ false
    → points next n ≡ false
    → let u = unlink n s in
      ((m : ℕ) → u.nodes m ≡ unlinked prev next n s.nodes m)
      × (u.head ≡ pick prev next s.head)
      × (u.tail ≡ pick next prev s.tail)
unfolding unlink
unlink_by s n none none e e' a a' = rw (e, e') (λ m. ground arith, ground arith, ground arith)
unlink_by s n none (some r) e e' a a' = rw (e, e') (λ m. ground arith, ground arith, ground arith)
unlink_by s n (some q) none e e' a a' =
    rw (e, e', a) (λ m. ground arith, ground arith, ground arith)
unlink_by s n (some q) (some r) e e' a a' =
    rw (e, e', a) (λ m. ground arith, ground arith, ground arith)

-- What a change of pointers keeps.
abbrev Kept : State → State → Type 0
Kept s t =
    (t.fired ≡ s.fired)
    × (t.fresh ≡ s.fresh)
    × (t.ran ≡ s.ran)
    × (t.gone ≡ s.gone)
    × (t.calls ≡ s.calls)
    × ((m : ℕ) → (t.nodes m).work ≡ (s.nodes m).work)

set_next-Kept : (o to : Option ℕ) (s : State) → Kept s (set_next o to s)
set_next-Kept none to s = (refl, refl, refl, refl, refl, λ m. refl)
set_next-Kept (some q) to s = (refl, refl, refl, refl, refl, λ m. ground arith)

set_prev-Kept : (o to : Option ℕ) (s : State) → Kept s (set_prev o to s)
set_prev-Kept none to s = (refl, refl, refl, refl, refl, λ m. refl)
set_prev-Kept (some q) to s = (refl, refl, refl, refl, refl, λ m. ground arith)

-- `unlink` changes pointers only, and the mark of the node.
pub unlink-Kept :
    (s : State) (n : ℕ)
    → let u = unlink n s in
      (u.fired ≡ s.fired)
      × (u.fresh ≡ s.fresh)
      × (u.ran ≡ s.ran)
      × (u.gone ≡ s.gone)
      × (u.calls ≡ s.calls)
      × ((m : ℕ) → (u.nodes m).work ≡ (s.nodes m).work)
unfolding unlink
unlink-Kept s n =
    let s1 = set_next (s.nodes n).prev (s.nodes n).next s in
    let k = set_next-Kept (s.nodes n).prev (s.nodes n).next s in
    let k' = set_prev-Kept (s1.nodes n).next (s1.nodes n).prev s1 in
    (
      k'.0 ∙ k.0,
      k'.1 ∙ k.1,
      k'.2 ∙ k.2,
      k'.3 ∙ k.3,
      k'.4 ∙ k.4,
      λ m. ground (arith, k.5 m, k'.5 m, k.5 n, k'.5 n),
    )

prev-points :
    {s : State} {xs : List ℕ} (n : ℕ)
    → IsQueue s xs
    → has n xs ≡ true
    → points (s.nodes n).prev n ≡ false
prev-points {xs = []} n q h = absurd (ground arith)
prev-points {xs = x ∷ ys} n q h = elim (prev-near n x q.chain q.ordered h) [
  | inl k ↦ rw k.1 refl
  | inr k ↦ rw k.1 (ground (arith, k.3))
]

remove-head :
    {s : State} {xs : List ℕ} (n : ℕ)
    → IsQueue s xs
    → has n xs ≡ true
    → pick (s.nodes n).prev (s.nodes n).next s.head ≡ first (remove n xs)
remove-head {xs = []} n q h = absurd (ground arith)
remove-head {s} {xs = x ∷ ys} n q h = elim (prev-near n x q.chain q.ordered h) [
  | inl k ↦ let e : (n == x) ≡ true = ground (arith, k) in rw (k.1, e) (first_next q.chain (k.0))
  | inr k ↦ let e : (n == x) ≡ false = ground (arith, k.2, k.3) in rw (k.1, e) q.at_head
]
  where
    first_next :
        {f : ℕ → Node} {p : Option ℕ} {x : ℕ} {ys : List ℕ} {n : ℕ}
        → Chain f p (x ∷ ys)
        → n ≡ x
        → (f n).next ≡ first ys
    first_next {f} (cons b b' c) e = ap (λ m. (f m).next) e ∙ b'

-- Taking a node of the list off it leaves the list of the others, in order.
pub unlink-IsQueue :
    {s : State} {xs : List ℕ} (n : ℕ)
    → IsQueue s xs
    → has n xs ≡ true
    → IsQueue (unlink n s) (remove n xs)
unlink-IsQueue {s} {xs} n q h =
    let apart = next-points n n q.chain q.ordered h (omega arith) in
    let by = unlink_by s n (s.nodes n).prev (s.nodes n).next refl refl (prev-points n q h) apart in
    let kept = unlink-Kept s n in
    record {
      at_head = by.1 ∙ remove-head n q h;
      at_tail =
          by.2
          ∙ ap (pick (s.nodes n).next (s.nodes n).prev) q.at_tail
          ∙ remove-last n q.chain q.ordered h;
      chain = frame (remove-Chain n q.chain q.ordered h (λ m k. refl)) (λ m k. by.0 m);
      ordered = rw kept.1 (remove-Ascending n q.ordered);
      marks = λ m. rw (by.0 m, has-remove n m q.ordered) (ground (arith, q.marks m));
    }

pub append-Ascending :
    {n low : ℕ} {xs : List ℕ} → Ascending n low xs → Ascending (n + 1) low (xs ++ (n ∷ []))
append-Ascending (nil l) = cons l (nil (omega arith))
append-Ascending (cons l a) = cons l (append-Ascending a)

pub has-append : (m n : ℕ) (xs : List ℕ) → has m (xs ++ (n ∷ [])) ≡ (has m xs || m == n)
has-append m n [] = ground arith
has-append m n (x ∷ xs) = ground (arith, has-append m n xs)

last_of-append : (p : Option ℕ) (n : ℕ) (xs : List ℕ) → last_of p (xs ++ (n ∷ [])) ≡ some n
last_of-append p n [] = refl
last_of-append p n (x ∷ xs) = last_of-append (some x) n xs

pick-last_of : (x : ℕ) (xs : List ℕ) (a b : Option ℕ) → pick (last_of (some x) xs) a b ≡ b
pick-last_of x [] a b = refl
pick-last_of x (y ∷ ys) a b = pick-last_of y ys a b

first-append :
    (n : ℕ) (xs : List ℕ) (h : Option ℕ)
    → h ≡ first xs
    → pick (last_of none xs) (some n) h ≡ first (xs ++ (n ∷ []))
first-append n [] h e = refl
first-append n (x ∷ xs) h e = pick-last_of x xs (some n) h ∙ e

points-last_of :
    {high low : ℕ} (n : ℕ) (p : Option ℕ) (xs : List ℕ)
    → Ascending high low xs
    → high ≤ n
    → points p n ≡ false
    → points (last_of p xs) n ≡ false
points-last_of n p [] a h e = e
points-last_of n p (x ∷ xs) (cons l a) h e =
    points-last_of n (some x) xs a h (ground (arith, bounds-Ascending a))

-- What `register` does to each node.
abbrev registered : Option ℕ → Callback → ℕ → (ℕ → Node) → ℕ → Node
registered tail c n f m =
    if m == n
    then record { linked = true; work = c; prev = tail; next = none }
    else record (f m) { next = if points tail m then some n else (f m).next }

pub register_by :
    (s : State) (c : Callback) (t : Option ℕ)
    → s.tail ≡ t
    → points t s.fresh ≡ false
    → let r = register c s in
      (r.head ≡ pick t (some s.fresh) s.head)
      × (r.tail ≡ some s.fresh)
      × (r.fresh ≡ s.fresh + 1)
      × ((m : ℕ) → r.nodes m ≡ registered t c s.fresh s.nodes m)
      × (r.fired ≡ s.fired)
      × (r.ran ≡ s.ran)
      × (r.gone ≡ s.gone)
      × (r.calls ≡ s.calls)
unfolding register link
register_by s c none e a = rw e (refl, refl, refl, λ m. ground arith, refl, refl, refl, refl)
register_by s c (some q) e a = rw e (refl, refl, refl, λ m. ground arith, refl, refl, refl, refl)

-- A callback is registered behind all others.
pub register-IsQueue :
    {s : State} {xs : List ℕ} (c : Callback)
    → IsQueue s xs
    → IsQueue (register c s) (xs ++ (s.fresh ∷ []))
register-IsQueue {s} {xs} c q =
    let n = s.fresh in
    let apart = points-last_of n none xs q.ordered (omega arith) refl in
    let by = register_by s c (last_of none xs) q.at_tail apart in
    let old : (m : ℕ) → has m xs ≡ true → (m == n) ≡ false =
      λ m h. ground (arith, above m q.ordered h) in
    record {
      at_head = by.0 ∙ first-append n xs s.head q.at_head;
      at_tail = by.1 ∙ sym (last_of-append none n xs);
      chain =
          append-Chain n q.chain q.ordered (rw (by.3 n) (ground arith)) (rw (by.3 n) (ground arith))
            (λ m h. rw (by.3 m, old m h) refl) (λ m h. rw (by.3 m, old m h) refl);
      ordered = rw by.2 (append-Ascending q.ordered);
      marks = λ m. rw (by.3 m, has-append m n xs) (ground (arith, q.marks m));
    }

-- What is recorded beside the list changes nothing of it.
pub recorded-IsQueue :
    {s : State} {xs : List ℕ} (fired : Bool) (ran gone : List ℕ) (calls : Calls)
    → IsQueue s xs
    → IsQueue (record s { fired = fired; ran = ran; gone = gone; calls = calls }) xs
recorded-IsQueue fired ran gone calls q = record {
  at_head = q.at_head;
  at_tail = q.at_tail;
  chain = q.chain;
  ordered = q.ordered;
  marks = q.marks;
}

pub weaken-Ascending :
    {high high' low : ℕ} {xs : List ℕ}
    → high ≤ high'
    → Ascending high low xs
    → Ascending high' low xs
weaken-Ascending h (nil l) = nil (omega arith)
weaken-Ascending h (cons l a) = cons l (weaken-Ascending h a)

-- A number that no registration is given.
pub passed-IsQueue :
    {s : State} {xs : List ℕ} → IsQueue s xs → IsQueue (record s { fresh = s.fresh + 1 }) xs
passed-IsQueue q = record {
  at_head = q.at_head;
  at_tail = q.at_tail;
  chain = q.chain;
  ordered = weaken-Ascending (omega arith) q.ordered;
  marks = q.marks;
}

-- No registration has the number of the next one.
pub tail-fresh : {s : State} {xs : List ℕ} → IsQueue s xs → points s.tail s.fresh ≡ false
tail-fresh {s} {xs} q =
    ap (λ t. points t s.fresh) q.at_tail
    ∙ points-last_of s.fresh none xs q.ordered (omega arith) refl
