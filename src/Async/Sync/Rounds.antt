-- ===== src/Async/Sync/Rounds.antt =====
-- `sync_primitive::wake_all` of an event, and the queue that it leaves.
use kotatsu.Base.{
  ℕ, true, List, [], ◌∷◌, Option, none, some, ◌≡◌, ◌≢◌, inl, inr, refl, sym, ap, ◌∙◌, ◌==◌, ==_iff,
  length, Bool-cases,
}
use kotatsu.Async.Sync.State.{
  mutex, event, Primitive, Store, set_prim, erase, is_kind, change_woken, increment,
}
use kotatsu.Async.Sync.Primitives.{
  insert, remove, try_lock, try_relock, queue_or_resume, grant, wake_first, wake_one, wake_rounds,
}
use kotatsu.Async.Sync.Fair.{Layout, relocks_lem, InvBut}
use kotatsu.Async.Sync.Wakes.{remove-Inv, wake_first-Inv}

abbrev waiting : Store → ℕ → List ℕ
waiting s p = (s.prims p).queue

waiting-update :
    (s : Store) (q p : ℕ) (v : Primitive)
    → v.queue ≡ (s.prims q).queue
    → waiting (set_prim s q v) p ≡ waiting s p
waiting-update s q p v h = elim (Bool-cases (p == q)) [
  | inl e ↦ rw (e, waiting) (h ∙ ap (λ k. (s.prims k).queue) (sym ((==_iff p q).0 e)))
  | inr e ↦ rw (e, waiting)
]

waiting-update_ne :
    (s : Store) (q p : ℕ) (v : Primitive) → p ≢ q → waiting (set_prim s q v) p ≡ waiting s p
waiting-update_ne s q p v h = elim (Bool-cases (p == q)) [
  | inl e ↦ absurd (h ((==_iff p q).0 e))
  | inr e ↦ rw (e, waiting)
]

pub erase_first : (w : ℕ) (ws : List ℕ) → erase w (w ∷ ws) ≡ ws
unfolding erase
erase_first w ws = let e : (w == w) ≡ true = (==_iff w w).1 refl in rw e

module _ (l : Layout) (E : ℕ → Type 0) (p : ℕ) (is_event : l.kind_of p ≡ event) where
  not_mutex : (m : ℕ) → l.kind_of m ≡ mutex → p ≢ m
  not_mutex m k e = absurd (different (sym is_event ∙ ap l.kind_of e ∙ k))
    where
      different : event ≡ mutex → ⊥
      different h = cc

  waiting-relock :
      (w : ℕ) (r : Option ℕ) (s : Store)
      → ((m : ℕ) → r ≡ some m → l.kind_of m ≡ mutex)
      → waiting (queue_or_resume w (try_relock r s)) p ≡ waiting s p
  unfolding try_relock try_lock insert
  waiting-relock w none s typed = refl
  waiting-relock w (some m) s typed = elim (Bool-cases (s.prims m).locked) [
    | inl e ↦ rw e (waiting-update_ne s m p _ (not_mutex m (typed m refl)))
    | inr e ↦ rw e (waiting-update_ne s m p _ (not_mutex m (typed m refl)))
  ]

  pub waiting-grant :
      (w from : ℕ) (s : Store) → InvBut l E s → waiting (grant w from s) p ≡ waiting s p
  unfolding grant
  waiting-grant w from s inv =
      let typed = λ (m : ℕ) (h : (s.waits w).relock ≡ some m). (relocks_lem l E s w m inv h).0 in
      elim (Bool-cases (from == (s.waits w).owner)) [
        | inl e ↦ elim (Bool-cases (is_kind (s.waits w).owner_kind event)) [
          | inl k ↦ rw (e, k) (waiting-relock w (s.waits w).relock s typed)
          | inr k ↦
              let owner = (s.waits w).owner in
              rw (e, k)
                (waiting-relock w (s.waits w).relock (change_woken increment owner s) typed
                  ∙ waiting-update s owner p _ refl)
        ]
        | inr e ↦ rw e
      ]

  -- An event wakes its first wait.
  pub waiting-wake_first :
      (w : ℕ) (ws : List ℕ) (s : Store)
      → InvBut l E s
      → waiting s p ≡ w ∷ ws
      → waiting (wake_first (w ∷ ws) p s).1 p ≡ ws
  unfolding wake_first
  waiting-wake_first w ws s inv h =
      waiting-grant w p (remove p w s) (remove-Inv l E p w s inv) ∙ removed w ws s h
    where
      removed :
          (w : ℕ) (ws : List ℕ) (s : Store) → waiting s p ≡ w ∷ ws → waiting (remove p w s) p ≡ ws
      removed w ws s h =
          let e : (p == p) ≡ true = (==_iff p p).1 refl in
          unfold remove in rw (e, waiting) (ap (erase w) h ∙ erase_first w ws)

  wake_one-first :
      (w : ℕ) (ws : List ℕ) (s : Store)
      → waiting s p ≡ w ∷ ws
      → wake_one p s ≡ wake_first (w ∷ ws) p s
  unfolding wake_one
  wake_one-first w ws s h = ap (λ q. wake_first q p s) h

  -- All rounds of `wake_all` leave none waiting.
  pub waiting-wake_rounds :
      (ws : List ℕ) (s : Store)
      → InvBut l E s
      → waiting s p ≡ ws
      → waiting (wake_rounds (length ws) p s) p ≡ []
  unfolding wake_rounds
  waiting-wake_rounds [] s inv h = h
  waiting-wake_rounds (w ∷ ws) s inv h =
      let next = (wake_first (w ∷ ws) p s).1 in
      let woke : (wake_first (w ∷ ws) p s).0 ≡ true = unfold wake_first in refl in
      rw (wake_one-first w ws s h, woke)
        (waiting-wake_rounds ws next (wake_first-Inv l E (w ∷ ws) p s inv)
          (waiting-wake_first w ws s inv h))
