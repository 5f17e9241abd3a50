-- ===== src/Async/Sync/Cancels.antt =====
-- The invariant of `Fair` through the cancel and the end of a wait, and through the event loop.
use kotatsu.Base.{
  ℕ, true, false, not, ◌&&◌, ◌||◌, List, [], ◌∷◌, Option, none, some, ◌≡◌, inl, inr, refl, ◌∙◌,
  Bool-cases,
}
use kotatsu.Async.Sync.State.{
  Kind, mutex, semaphore, event, condition_variable, Wait, Store, set_wait, is_kind, decrement,
}
use kotatsu.Async.Sync.Primitives.{remove, try_lock, try_relock, notify_one}
use kotatsu.Async.Sync.WaitNode.{
  give_back_to, give_back, queued_at, end_cancelled, queue_or_end, cancel_wait, cancel,
  remove_queued, abandon, resume, resume_first, drain_one,
}
use kotatsu.Async.Sync.Fair.{
  Nothing, Inv, Layout, relocks_lem, locked_busy, set_wait-Inv, lists-Inv,
}
use kotatsu.Async.Sync.Wakes.{
  remove-Inv, insert-Inv, woken-Inv, lock-Inv, wake_one-Inv, unlock-Inv, release_one-Inv,
}

module _ (l : Layout) where
  pub notify_one-Inv : (p : ℕ) (s : Store) → Inv l s → Inv l (notify_one p s)
  unfolding notify_one
  notify_one-Inv p s inv = wake_one-Inv l Nothing p s inv

  give_back-Inv : (k : Kind) (p : ℕ) (s : Store) → Inv l s → Inv l (give_back_to k p s)
  unfolding give_back_to
  give_back-Inv mutex p s inv = unlock-Inv l Nothing p _ (woken-Inv l Nothing decrement p s inv)
  give_back-Inv semaphore p s inv =
      release_one-Inv l Nothing p _ (woken-Inv l Nothing decrement p s inv)
  give_back-Inv condition_variable p s inv =
      notify_one-Inv p _ (woken-Inv l Nothing decrement p s inv)
  give_back-Inv event p s inv = inv

  end_cancelled-Inv : (w : ℕ) (s : Store) → Inv l s → Inv l (end_cancelled w s)
  end_cancelled-Inv w s inv =
      let u : Wait = record (s.waits w) { ended = true } in
      lists-Inv l Nothing (set_wait s w u) refl refl (
        set_wait-Inv l Nothing s w u inv
          (record { owner = refl; owner_kind = refl; relock = refl }))

  -- The end of a cancelled wait, on the mutex that it locks again.
  relock_end-Inv :
      (w : ℕ) (relock : Option ℕ) (s : Store)
      → Inv l s
      → ((m : ℕ) → relock ≡ some m → l.kind_of m ≡ mutex)
      → Inv l (queue_or_end w (try_relock relock s))
  unfolding try_relock try_lock
  relock_end-Inv w none s inv typed = end_cancelled-Inv w s inv
  relock_end-Inv w (some m) s inv typed = elim (Bool-cases (s.prims m).locked) [
    | inl e ↦ elim (Bool-cases (s.waits w).on_loop) [
      | inl here ↦
          rw (e, here)
            (insert-Inv l Nothing m w s inv
              (λ i. locked_busy (s.prims m) (inv.kinds m ∙ typed m refl) e))
      | inr gone ↦ rw (e, gone) inv
    ]
    | inr e ↦ rw e (end_cancelled-Inv w _ (lock-Inv l Nothing m s inv))
  ]

  cancel_wait-Inv : (w : ℕ) (s : Store) → Inv l s → Inv l (cancel_wait w s)
  unfolding cancel_wait
  cancel_wait-Inv w s inv = elim (Bool-cases (queued_at (s.waits w).queue (s.waits w).owner)) [
    | inl e ↦
        let p = (s.waits w).owner in
        let inv' = remove-Inv l Nothing p w s inv in
        rw e (
          relock_end-Inv w (s.waits w).relock (remove p w s) inv'
            (λ m h. (relocks_lem l Nothing s w m inv h).0))
    | inr e ↦ elim (Bool-cases (s.waits w).on_loop) [
      | inl here ↦
          rw (e, here)
            (unfold give_back in give_back-Inv (s.waits w).owner_kind (s.waits w).owner s inv)
      | inr gone ↦
          rw (e, gone)
            (relock_end-Inv w (s.waits w).relock s inv
              (λ m h. (relocks_lem l Nothing s w m inv h).0))
    ]
  ]

  pub cancel-Inv : (w : ℕ) (s : Store) → Inv l s → Inv l (cancel w s)
  unfolding cancel
  cancel-Inv w s inv = elim (Bool-cases ((s.waits w).ended || (s.waits w).cancel_requested)) [
    | inl e ↦ rw e inv
    | inr e ↦ rw e (
        cancel_wait-Inv w _ (
          set_wait-Inv l Nothing s w _ inv
            (record { owner = refl; owner_kind = refl; relock = refl })))
  ]

  remove_queued-Inv : (q : Option ℕ) (w : ℕ) (s : Store) → Inv l s → Inv l (remove_queued q w s)
  remove_queued-Inv none w s inv = inv
  remove_queued-Inv (some q) w s inv = remove-Inv l Nothing q w s inv

  pub abandon-Inv : (w : ℕ) (s : Store) → Inv l s → Inv l (abandon w s)
  unfolding abandon
  abandon-Inv w s inv =
      elim (Bool-cases
        (not (queued_at (s.waits w).queue (s.waits w).owner) && not (s.waits w).cancel_requested)) [
          | inl e ↦ rw e (
              ends (
                remove_queued-Inv (s.waits w).queue w _
                  (woken-Inv l Nothing decrement (s.waits w).owner s inv)))
          | inr e ↦ rw e (ends (remove_queued-Inv (s.waits w).queue w s inv))
        ]
    where
      ends : {t : Store} → Inv l t → Inv l (set_wait t w (record (t.waits w) { on_loop = false }))
      ends {t} i =
          set_wait-Inv l Nothing t w _ i (record { owner = refl; owner_kind = refl; relock = refl })

  pub resume-Inv : (w : ℕ) (s : Store) → Inv l s → Inv l (resume w s)
  unfolding resume
  resume-Inv w s inv = elim (Bool-cases (s.waits w).cancel_requested) [
    | inl e ↦ rw e (lists-Inv l Nothing s refl refl inv)
    | inr e ↦ elim (Bool-cases (is_kind (s.waits w).owner_kind event)) [
      | inl k ↦ rw (e, k) (lists-Inv l Nothing s refl refl inv)
      | inr k ↦
          rw (e, k)
            (lists-Inv l Nothing _ refl refl
              (woken-Inv l Nothing decrement (s.waits w).owner s inv))
    ]
  ]

  resume_first-Inv : (d : List ℕ) (s : Store) → Inv l s → Inv l (resume_first d s)
  unfolding resume_first
  resume_first-Inv [] s inv = inv
  resume_first-Inv (w ∷ ws) s inv = resume-Inv w _ (lists-Inv l Nothing s refl refl inv)

  pub drain_one-Inv : (s : Store) → Inv l s → Inv l (drain_one s)
  unfolding drain_one
  drain_one-Inv s inv = resume_first-Inv s.deferred s inv
