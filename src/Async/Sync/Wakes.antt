-- ===== src/Async/Sync/Wakes.antt =====
-- The invariant of `Fair` through the operations of the primitives.
use kotatsu.Base.{
  ℕ, zero, suc, true, false, List, [], ◌∷◌, ◌++◌, Option, none, some, ◌≡◌, inl, inr, refl, ◌∙◌,
  ◌==◌, Bool-cases,
}
use kotatsu.Async.Sync.State.{
  mutex, event, Primitive, Wait, Store, set_prim, set_wait, erase, is_kind, change_woken, increment,
}
use kotatsu.Async.Sync.Primitives.{
  insert, remove, try_lock, try_relock, queue_or_resume, grant, wake_first, wake_one, wake_rounds,
  unlock, release_one, release,
}
use kotatsu.Async.Sync.Fair.{
  Layout, InvBut, set_prim-Inv, set_wait-Inv, lists-Inv, relocks_lem, fair_erase, fair_busy,
  fair_woken, fair_empty, fair_locked, locked_busy, BusyKind,
}

module _ (l : Layout) (E : ℕ → Type 0) where
  pub remove-Inv : (p w : ℕ) (s : Store) → InvBut l E s → InvBut l E (remove p w s)
  unfolding remove
  remove-Inv p w s inv =
      let v : Primitive = record (s.prims p) { queue = erase w (s.prims p).queue } in
      let u : Wait = record (s.waits w) { queue = none } in
      lists-Inv l E (set_wait (set_prim s p v) w u) refl refl (
        set_wait-Inv l E (set_prim s p v) w u
          (set_prim-Inv l E s p v inv refl
            (λ i. fair_erase (s.prims p).kind (s.prims p) w (inv.fair p i)))
          (record { owner = refl; owner_kind = refl; relock = refl }))

  pub insert-Inv :
      (p w : ℕ) (s : Store)
      → InvBut l E s
      → (¬ E p → BusyKind (s.prims p).kind (s.prims p))
      → InvBut l E (insert p w s)
  unfolding insert
  insert-Inv p w s inv busy =
      let q : List ℕ = (s.prims p).queue ++ w ∷ [] in
      let v : Primitive = record (s.prims p) { queue = q } in
      let u : Wait = record (s.waits w) { queue = some p } in
      lists-Inv l E (set_wait (set_prim s p v) w u) refl refl (
        set_wait-Inv l E (set_prim s p v) w u
          (set_prim-Inv l E s p v inv refl (λ i. fair_busy (s.prims p).kind (s.prims p) q (busy i)))
          (record { owner = refl; owner_kind = refl; relock = refl }))

  pub woken-Inv : (f : ℕ → ℕ) (p : ℕ) (s : Store) → InvBut l E s → InvBut l E (change_woken f p s)
  woken-Inv f p s inv =
      set_prim-Inv l E s p _ inv refl
        (λ i. fair_woken (s.prims p).kind (s.prims p) (f (s.prims p).woken) (inv.fair p i))

  pub lock-Inv :
      (m : ℕ) (s : Store)
      → InvBut l E s
      → InvBut l E (set_prim s m (record (s.prims m) { locked = true }))
  lock-Inv m s inv =
      set_prim-Inv l E s m _ inv refl (λ i. fair_locked (s.prims m).kind (s.prims m) (inv.fair m i))

  pub try_lock-Inv : (m : ℕ) (s : Store) → InvBut l E s → InvBut l E (try_lock m s).1
  unfolding try_lock
  try_lock-Inv m s inv = elim (Bool-cases (s.prims m).locked) [
    | inl e ↦ rw e inv
    | inr e ↦ rw e (lock-Inv m s inv)
  ]

  -- What a wait that has its grant does next: it queues on the mutex that it locks again, if that is
  -- taken, or it is handed to the loop.
  pub relock-Inv :
      (w : ℕ) (relock : Option ℕ) (s : Store)
      → InvBut l E s
      → ((m : ℕ) → relock ≡ some m → l.kind_of m ≡ mutex)
      → InvBut l E (queue_or_resume w (try_relock relock s))
  unfolding try_relock try_lock
  relock-Inv w none s inv typed = lists-Inv l E s refl refl inv
  relock-Inv w (some m) s inv typed = elim (Bool-cases (s.prims m).locked) [
    | inl e ↦
        rw e (insert-Inv m w s inv (λ i. locked_busy (s.prims m) (inv.kinds m ∙ typed m refl) e))
    | inr e ↦ rw e (lists-Inv l E _ refl refl (lock-Inv m s inv))
  ]

  pub grant-Inv : (w from : ℕ) (s : Store) → InvBut l E s → InvBut l E (grant w from s)
  unfolding grant
  grant-Inv w from s inv = elim (Bool-cases (from == (s.waits w).owner)) [
    | inl e ↦ elim (Bool-cases (is_kind (s.waits w).owner_kind event)) [
      | inl k ↦
          rw (e, k) (relock-Inv w (s.waits w).relock s inv (λ m h. (relocks_lem l E s w m inv h).0))
      | inr k ↦
          let owner = (s.waits w).owner in
          let s' = change_woken increment owner s in
          let inv' = woken-Inv increment owner s inv in
          rw (e, k)
            (relock-Inv w (s.waits w).relock s' inv' (λ m h. (relocks_lem l E s w m inv h).0))
    ]
    | inr e ↦ rw e (lists-Inv l E s refl refl inv)
  ]

  pub wake_first-Inv :
      (q : List ℕ) (p : ℕ) (s : Store) → InvBut l E s → InvBut l E (wake_first q p s).1
  unfolding wake_first
  wake_first-Inv [] p s inv = inv
  wake_first-Inv (w ∷ ws) p s inv = grant-Inv w p (remove p w s) (remove-Inv p w s inv)

  pub wake_one-Inv : (p : ℕ) (s : Store) → InvBut l E s → InvBut l E (wake_one p s).1
  unfolding wake_one
  wake_one-Inv p s inv = wake_first-Inv (s.prims p).queue p s inv

  pub wake_rounds-Inv : (n p : ℕ) (s : Store) → InvBut l E s → InvBut l E (wake_rounds n p s)
  unfolding wake_rounds
  wake_rounds-Inv zero p s inv = inv
  wake_rounds-Inv (suc n) p s inv = elim (Bool-cases (wake_one p s).0) [
    | inl e ↦ rw e (wake_rounds-Inv n p (wake_one p s).1 (wake_one-Inv p s inv))
    | inr e ↦ rw e (wake_one-Inv p s inv)
  ]

  -- A primitive that wakes nothing has no waits, and is as it was.
  wake_none :
      (q : List ℕ) (p : ℕ) (s : Store)
      → (s.prims p).queue ≡ q
      → (wake_first q p s).0 ≡ false
      → ((wake_first q p s).1.prims p).queue ≡ []
  unfolding wake_first
  wake_none [] p s h e = h
  wake_none (w ∷ ws) p s h e = absurd (impossible e)
    where
      impossible : true ≡ false → ⊥
      impossible e = cc

  -- Once nothing waits, a primitive may be made free.
  free-Inv :
      (p : ℕ) (s : Store) (v : Primitive)
      → InvBut l E s
      → v.kind ≡ (s.prims p).kind
      → v.queue ≡ []
      → InvBut l E (set_prim s p v)
  free-Inv p s v inv e h = set_prim-Inv l E s p v inv e (λ i. fair_empty v.kind v h)

  pub unlock-Inv : (m : ℕ) (s : Store) → InvBut l E s → InvBut l E (unlock m s)
  unfolding unlock
  unlock-Inv m s inv = elim (Bool-cases (wake_one m s).0) [
    | inl e ↦ rw e (wake_one-Inv m s inv)
    | inr e ↦ rw e (
        free-Inv m (wake_one m s).1 _ (wake_one-Inv m s inv) refl
          (unfold wake_one in wake_none (s.prims m).queue m s refl e))
  ]

  pub release_one-Inv : (p : ℕ) (s : Store) → InvBut l E s → InvBut l E (release_one p s)
  unfolding release_one
  release_one-Inv p s inv = elim (Bool-cases (wake_one p s).0) [
    | inl e ↦ rw e (wake_one-Inv p s inv)
    | inr e ↦ rw e (
        free-Inv p (wake_one p s).1 _ (wake_one-Inv p s inv) refl
          (unfold wake_one in wake_none (s.prims p).queue p s refl e))
  ]

  pub release-Inv : (n p : ℕ) (s : Store) → InvBut l E s → InvBut l E (release n p s)
  unfolding release
  release-Inv zero p s inv = inv
  release-Inv (suc n) p s inv = release-Inv n p (release_one p s) (release_one-Inv p s inv)
