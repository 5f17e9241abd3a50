-- ===== src/Async/Sync/Grants.antt =====
-- Who gets what is given up: `unlock`, `release` and the cancel of a granted wait.
use kotatsu.Base.{
  ℕ, ◌%◌, ◌^◌, zero, suc, ◌+◌, ◌-◌, true, false, List, [], ◌∷◌, ◌++◌, append_assoc, append-nil,
  none, ◌≡◌, refl, sym, ap, ◌∙◌, arith, ◌==◌, ==_iff, length, take, drop, take-nil, drop-nil, min,
}
use mathlib.Core.Path.{subst}
use kotatsu.Async.Sync.State.{
  Kind, mutex, event, Wait, Store, update, set_prim, set_wait, is_kind, change_woken, increment,
  decrement, defer_resume,
}
use kotatsu.Async.Sync.Primitives.{
  remove, try_relock, grant, wake_first, wake_one, unlock, release_one, release,
}
use kotatsu.Async.Sync.WaitNode.{cancel, cancel_wait, give_back, give_back_to}
use kotatsu.Async.Sync.Fair.{SameWait, same-update}
use kotatsu.Async.Sync.Rounds.{erase_first}

-- Waits of kind `k` on the primitive `p`, none of which locks a mutex again.
abbrev pub Plain : Kind → ℕ → (ℕ → Wait) → List ℕ → Type 0
Plain k p waits [] = Unit {0}
Plain k p waits (w ∷ ws) =
    ((waits w).owner ≡ p)
    × ((waits w).owner_kind ≡ k)
    × ((waits w).relock ≡ none)
    × Plain k p waits ws

Plain-same :
    (k : Kind) (p : ℕ) (u v : ℕ → Wait) (ws : List ℕ)
    → ((j : ℕ) → SameWait (v j) (u j))
    → Plain k p u ws
    → Plain k p v ws
Plain-same k p u v [] same h = tt
Plain-same k p u v (w ∷ ws) same h = (
  (same w).owner ∙ h.0,
  (same w).owner_kind ∙ h.1,
  (same w).relock ∙ h.2,
  Plain-same k p u v ws same h.3,
)

-- `t` is `s` with the first wait of `p` taken off and handed to the loop.
pub record IsHandedOver (w : ℕ) (ws : List ℕ) (p : ℕ) (s t : Store) : Type 0 where
  pub prim : t.prims p ≡ record (s.prims p) { queue = ws; woken = increment (s.prims p).woken }
  pub deferred : t.deferred ≡ s.deferred ++ w ∷ []
  pub waits : (j : ℕ) → SameWait (t.waits j) (s.waits j)

update-here : {A : Type 0} (f : ℕ → A) (p : ℕ) (v : A) → update f p v p ≡ v
update-here f p v = let e : (p == p) ≡ true = (==_iff p p).1 refl in rw e

grant-plain :
    (k : Kind) (w p : ℕ) (s : Store)
    → is_kind k event ≡ false
    → (s.waits w).owner ≡ p
    → (s.waits w).owner_kind ≡ k
    → (s.waits w).relock ≡ none
    → grant w p s ≡ defer_resume w (change_woken increment p s)
unfolding grant try_relock
grant-plain k w p s other o e r =
    let here : (p == p) ≡ true = (==_iff p p).1 refl in rw (o, here, e, other, r)

-- What `unlock` does, by the mutex's queue.
abbrev pub Unlocked : List ℕ → ℕ → Store → Store → Type 0
Unlocked [] p s t = t ≡ set_prim s p (record (s.prims p) { locked = false })
Unlocked (w ∷ ws) p s t = IsHandedOver w ws p s t

-- What `release(n)` does to a semaphore with the waits `q`.
pub record IsReleased (n : ℕ) (q : List ℕ) (p : ℕ) (s t : Store) : Type 0 where
  pub queue : (t.prims p).queue ≡ drop n q
  pub deferred : t.deferred ≡ s.deferred ++ take n q
  pub count : (t.prims p).count ≡ (s.prims p).count + (n - length q)
  pub woken : (t.prims p).woken % 2 ^ 64 ≡ ((s.prims p).woken + min n (length q)) % 2 ^ 64

IsReleased-handed :
    (n w : ℕ) (ws : List ℕ) (p : ℕ) {s t u : Store}
    → IsHandedOver w ws p s t
    → IsReleased n ws p t u
    → IsReleased (suc n) (w ∷ ws) p s u
IsReleased-handed n w ws p {s} {t} {u} over r = record {
  queue = r.queue;
  deferred =
      r.deferred
      ∙ ap (λ d. d ++ take n ws) over.deferred
      ∙ append_assoc s.deferred (w ∷ []) (take n ws);
  count = r.count ∙ ap (λ v. v.count + (n - length ws)) over.prim ∙ omega arith;
  woken = r.woken ∙ ap (λ v. (v.woken + min n (length ws)) % 2 ^ 64) over.prim ∙ omega arith;
}

IsReleased-kept :
    (n p : ℕ) {s t u : Store}
    → t.prims p ≡ record (s.prims p) { count = (s.prims p).count + 1 }
    → t.deferred ≡ s.deferred
    → IsReleased n [] p t u
    → IsReleased (suc n) [] p s u
IsReleased-kept n p {s} {t} {u} e f r = record {
  queue = r.queue ∙ drop-nil ℕ n;
  deferred = r.deferred ∙ ap (λ d. d ++ take n []) f ∙ ap (λ q. s.deferred ++ q) (take-nil ℕ n);
  count = r.count ∙ ap (λ v. v.count + (n - 0)) e ∙ omega arith;
  woken = r.woken ∙ ap (λ v. (v.woken + min n 0) % 2 ^ 64) e ∙ omega arith;
}

module _ (k : Kind) (p : ℕ) (other : is_kind k event ≡ false) where
  handed : ℕ → Store → Store
  handed w s = defer_resume w (change_woken increment p (remove p w s))

  handed-IsHandedOver :
      (w : ℕ) (ws : List ℕ) (s : Store)
      → (s.prims p).queue ≡ w ∷ ws
      → IsHandedOver w ws p s (handed w s)
  unfolding handed remove
  handed-IsHandedOver w ws s h =
      let here : (p == p) ≡ true = (==_iff p p).1 refl in
      record {
        prim = rw (here, h, erase_first w ws);
        deferred = refl;
        waits = λ j.
            same-update s.waits w j _ (record { owner = refl; owner_kind = refl; relock = refl });
      }

  wake_one-Plain :
      (w : ℕ) (ws : List ℕ) (s : Store)
      → (s.prims p).queue ≡ w ∷ ws
      → Plain k p s.waits (w ∷ ws)
      → wake_one p s ≡ (true, handed w s)
  unfolding wake_one wake_first
  wake_one-Plain w ws s h plain =
      let same =
        same-update s.waits w w (record (s.waits w) { queue = none })
          (record { owner = refl; owner_kind = refl; relock = refl }) in
      let granted : grant w p (remove p w s) ≡ handed w s =
        unfold remove handed in
        grant-plain k w p (remove p w s) other (same.owner ∙ plain.0) (same.owner_kind ∙ plain.1)
          (same.relock ∙ plain.2) in
      rw (h, granted)

  wake_one-nil : (s : Store) → (s.prims p).queue ≡ [] → wake_one p s ≡ (false, s)
  unfolding wake_one wake_first
  wake_one-nil s h = rw h

  -- A mutex that is unlocked goes to the wait that has been queued the longest, and stays locked, so
  -- that no task that comes later takes it first; it is free only if none is queued. The waits, `q`,
  -- are plain waits on it.
  pub unlock_lem :
      (q : List ℕ) (s : Store)
      → (s.prims p).queue ≡ q
      → Plain k p s.waits q
      → Unlocked q p s (unlock p s)
  unfolding unlock
  unlock_lem [] s h plain = rw (wake_one-nil s h)
  unlock_lem (w ∷ ws) s h plain = rw (wake_one-Plain w ws s h plain) (handed-IsHandedOver w ws s h)

  -- `n` units given back go to the first `n` waits in their order, and only the units that no wait
  -- is left for are kept. The waits, `q`, are plain waits on the semaphore.
  pub release_lem :
      (n : ℕ) (q : List ℕ) (s : Store)
      → (s.prims p).queue ≡ q
      → Plain k p s.waits q
      → IsReleased n q p s (release n p s)
  unfolding release release_one
  release_lem zero q s h plain = record {
    queue = h;
    deferred = sym (append-nil _);
    count = omega arith;
    woken = omega arith;
  }
  release_lem (suc n) [] s h plain =
      let v = record (s.prims p) { count = (s.prims p).count + 1 } in
      let kept : (set_prim s p v).prims p ≡ v = update-here s.prims p v in
      let one : release_one p s ≡ set_prim s p v = rw (wake_one-nil s h) in
      let rest = release_lem n [] (set_prim s p v) (ap (λ u. u.queue) kept ∙ h) tt in
      subst (λ t. IsReleased (suc n) [] p s (release n p t)) (sym one)
        (IsReleased-kept n p kept refl rest)
  release_lem (suc n) (w ∷ ws) s h plain =
      let one : release_one p s ≡ handed w s = rw (wake_one-Plain w ws s h plain) in
      let over = handed-IsHandedOver w ws s h in
      let later = Plain-same k p s.waits (handed w s).waits ws over.waits plain.3 in
      let rest = release_lem n ws (handed w s) (ap (λ u. u.queue) over.prim) later in
      subst (λ t. IsReleased (suc n) (w ∷ ws) p s (release n p t)) (sym one)
        (IsReleased-handed n w ws p over rest)

-- The store in which a cancelled wait `w` has given its grant from `p` back.
abbrev pub spent : ℕ → ℕ → Store → Store
spent w p s =
    change_woken decrement p (set_wait s w (record (s.waits w) { cancel_requested = true }))

-- A grant is not lost with the task that it went to: a wait on the mutex `p` that was granted and is
-- cancelled before the loop resumes it hands the mutex to the next wait in the queue, or frees it if
-- there is none. The waits that are queued are plain waits on `p`.
pub cancel-granted_lem :
    (p w : ℕ) (s : Store)
    → (s.waits w).owner ≡ p
    → (s.waits w).owner_kind ≡ mutex
    → (s.waits w).queue ≡ none
    → (s.waits w).on_loop ≡ true
    → (s.waits w).ended ≡ false
    → (s.waits w).cancel_requested ≡ false
    → Plain mutex p s.waits (s.prims p).queue
    → Unlocked (s.prims p).queue p (spent w p s) (cancel w s)
unfolding cancel cancel_wait give_back give_back_to
cancel-granted_lem p w s o k q l e c plain =
    let here : (w == w) ≡ true = (==_iff w w).1 refl in
    let here' : (p == p) ≡ true = (==_iff p p).1 refl in
    let same = λ (j : ℕ).
      same-update s.waits w j (record (s.waits w) { cancel_requested = true })
        (record { owner = refl; owner_kind = refl; relock = refl }) in
    let queue : ((spent w p s).prims p).queue ≡ (s.prims p).queue = rw here' in
    let plain' = Plain-same mutex p s.waits (spent w p s).waits (s.prims p).queue same plain in
    let cancels : cancel w s ≡ unlock p (spent w p s) = rw (e, c, here, q, l, k, o) in
    rw cancels (unlock_lem mutex p refl (s.prims p).queue (spent w p s) queue plain')
