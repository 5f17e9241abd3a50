-- ===== src/Async/Cancellation/Weight.antt =====
-- The steps that are still to go, as the size of what is on the stack and of the callbacks on the list.
use kotatsu.Base.{
  ℕ, ◌+◌, ◌≤◌, Bool, true, false, List, [], ◌∷◌, ◌++◌, ◌≡◌, inl, inr, refl, arith, Bool-cases,
}
use kotatsu.Async.Cancellation.{
  Callback, callback, Program, returns, registers, destroys, cancels, body, Node, State, Frame,
  running, draining, unlink, destroy, register, size, size_of,
}
use kotatsu.Async.Cancellation.Links.{has, remove, above}
use kotatsu.Async.Cancellation.Queue.{IsQueue, unlink-Kept, register_by, tail-fresh}

-- Whether the loop of `cancel` is among the calls that have not returned.
abbrev pub drains : List Frame → Bool
drains [] = false
drains (running p ∷ stack) = drains stack
drains (draining ∷ stack) = true

abbrev pub weight : List Frame → ℕ
weight [] = 0
weight (running p ∷ stack) = size p + weight stack
weight (draining ∷ stack) = 1 + weight stack

abbrev pub waiting : (ℕ → Node) → List ℕ → ℕ
waiting nodes [] = 0
waiting nodes (x ∷ xs) = size_of (nodes x).work + 1 + waiting nodes xs

pub size_pos : (p : Program) → 1 ≤ size p
unfolding size
size_pos returns = omega arith
size_pos (registers c p) = omega arith
size_pos (destroys n p) = omega arith
size_pos (cancels p) = omega arith

pub size_of-body : (c : Callback) → size_of c ≡ size (body c)
unfolding size
size_of-body (callback p) = refl

waiting_same :
    (f g : ℕ → Node) (xs : List ℕ)
    → ((m : ℕ) → has m xs ≡ true → (g m).work ≡ (f m).work)
    → waiting g xs ≡ waiting f xs
waiting_same f g [] h = refl
waiting_same f g (x ∷ xs) h =
    ground (arith, h x (ground arith), waiting_same f g xs (λ m k. h m (ground (arith, k))))

waiting-append :
    (f : ℕ → Node) (xs : List ℕ) (n : ℕ)
    → waiting f (xs ++ (n ∷ [])) ≡ waiting f xs + (size_of (f n).work + 1)
waiting-append f [] n = omega arith
waiting-append f (x ∷ xs) n = omega (arith, waiting-append f xs n)

waiting-remove : (f : ℕ → Node) (n : ℕ) (xs : List ℕ) → waiting f (remove n xs) ≤ waiting f xs
waiting-remove f n [] = omega arith
waiting-remove f n (x ∷ xs) = ground (arith, waiting-remove f n xs)

pub waiting-register :
    {s : State} {xs : List ℕ} (c : Callback)
    → IsQueue s xs
    → waiting (register c s).nodes (xs ++ (s.fresh ∷ [])) ≡ waiting s.nodes xs + (size_of c + 1)
waiting-register {s} {xs} c q =
    let n = s.fresh in
    let by = register_by s c s.tail refl (tail-fresh q) in
    let own : size_of ((register c s).nodes n).work ≡ size_of c = rw (by.3 n) (ground arith) in
    let others : waiting (register c s).nodes xs ≡ waiting s.nodes xs =
      waiting_same s.nodes (register c s).nodes xs
        (λ m h. rw (by.3 m) (ground (arith, above m q.ordered h))) in
    omega (arith, own, others, waiting-append (register c s).nodes xs n)

pub waiting-unlink :
    (s : State) (xs : List ℕ) (n : ℕ) → waiting (unlink n s).nodes xs ≡ waiting s.nodes xs
waiting-unlink s xs n = waiting_same s.nodes (unlink n s).nodes xs (λ m h. (unlink-Kept s n).5 m)

pub waiting-destroy :
    (s : State) (xs : List ℕ) (n : ℕ)
    → waiting (destroy n s).nodes (remove n xs) ≤ waiting s.nodes xs
unfolding destroy
waiting-destroy s xs n =
    let fewer = waiting-remove s.nodes n xs in
    elim (Bool-cases (s.nodes n).linked) [
      | inl e ↦ rw e (omega (arith, fewer, waiting-unlink s (remove n xs) n))
      | inr e ↦ rw e fewer
    ]

pub fired-destroy : (s : State) (n : ℕ) → (destroy n s).fired ≡ s.fired
unfolding destroy
fired-destroy s n = elim (Bool-cases (s.nodes n).linked) [
  | inl e ↦ rw e (unlink-Kept s n).0
  | inr e ↦ rw e refl
]
