-- ===== src/Async/Sync/Waits.antt =====
-- The invariant of `Fair` through the awaiting of a primitive.
use kotatsu.Base.{
  ℕ, ◌-◌, true, false, Option, none, some, ◌≡◌, inl, inr, refl, sym, ap, ◌∙◌, arith, ltb,
  Bool-cases,
}
use mathlib.Core.Path.{subst}
use kotatsu.Async.Sync.State.{
  Kind, mutex, semaphore, event, condition_variable, Primitive, Store, set_wait,
}
use kotatsu.Async.Sync.Primitives.{insert, try_acquire, unlock}
use kotatsu.Async.Sync.WaitNode.{unlock_relock, await_ready, wait, co_await}
use kotatsu.Async.Sync.Fair.{
  Nothing, Inv, Layout, relocks_lem, FairKind, BusyKind, set_prim-Inv, set_wait-Inv,
}
use kotatsu.Async.Sync.Wakes.{insert-Inv, lock-Inv, unlock-Inv}

cv_busy : (v : Primitive) → v.kind ≡ condition_variable → BusyKind v.kind v
cv_busy v k = rw k tt

-- A unit taken leaves fewer.
fewer_units :
    (k : Kind) (v : Primitive) → FairKind k v → FairKind k (record v { count = v.count - 1 })
fewer_units mutex v h = h
fewer_units semaphore v h = ground arith
fewer_units event v h = h
fewer_units condition_variable v h = tt

module _ (l : Layout) where
  pub try_acquire-Inv : (p : ℕ) (s : Store) → Inv l s → Inv l (try_acquire p s).1
  unfolding try_acquire
  try_acquire-Inv p s inv = elim (Bool-cases (ltb 0 (s.prims p).count)) [
    | inl e ↦ rw e (
        set_prim-Inv l Nothing s p _ inv refl
          (λ i. fewer_units (s.prims p).kind (s.prims p) (inv.fair p i)))
    | inr e ↦ rw e inv
  ]

  await_ready-Inv :
      (k : Kind) (p : ℕ) (s : Store)
      → Inv l s
      → Inv l (await_ready k p s).1
        × ((await_ready k p s).0 ≡ false → ((await_ready k p s).1 ≡ s) × BusyKind k (s.prims p))
  unfolding await_ready
  await_ready-Inv mutex p s inv = elim (Bool-cases (s.prims p).locked) [
    | inl e ↦ rw e (inv, λ f. (refl, refl))
    | inr e ↦ rw e (lock-Inv l Nothing p s inv, λ f. cc)
  ]
  await_ready-Inv semaphore p s inv = elim (Bool-cases (ltb 0 (s.prims p).count)) [
    | inl e ↦ rw e (unfold try_acquire in rw e at (try_acquire-Inv p s inv), λ f. cc)
    | inr e ↦ rw e (inv, λ f. (refl, ground arith))
  ]
  await_ready-Inv event p s inv = (inv, λ f. (refl, f))
  await_ready-Inv condition_variable p s inv = (inv, λ f. (refl, tt))

  wait-Inv :
      (w : ℕ) (s : Store)
      → Inv l s
      → BusyKind (s.waits w).owner_kind (s.prims (s.waits w).owner)
      → Inv l (wait w s)
  unfolding wait
  wait-Inv w s inv busy = waits (s.waits w).relock refl
    where
      p : ℕ
      p = (s.waits w).owner

      kind-p : l.kind_of p ≡ (s.waits w).owner_kind
      kind-p = ap l.kind_of (inv.laid_out w).owner ∙ sym (inv.laid_out w).owner_kind

      s' : Store
      s' = set_wait s w (record (s.waits w) { on_loop = true })

      inv' : Inv l s'
      inv' =
          set_wait-Inv l Nothing s w _ inv
            (record { owner = refl; owner_kind = refl; relock = refl })

      waits : (r : Option ℕ) → (s.waits w).relock ≡ r → Inv l (insert p w (unlock_relock r s'))
      waits none e =
          insert-Inv l Nothing p w s' inv'
            (λ i. subst (λ k. BusyKind k (s.prims p)) (sym (inv.kinds p ∙ kind-p)) busy)
      waits (some m) e =
          let inv'' = unlock-Inv l Nothing m s' inv' in
          insert-Inv l Nothing p w (unlock m s') inv''
            (λ i. cv_busy _ (inv''.kinds p ∙ kind-p ∙ (relocks_lem l Nothing s w m inv e).1))

  pub co_await-Inv : (w : ℕ) (s : Store) → Inv l s → Inv l (co_await w s).1
  unfolding co_await
  co_await-Inv w s inv =
      let k = (s.waits w).owner_kind in
      let p = (s.waits w).owner in
      let tried = await_ready-Inv k p s inv in
      elim (Bool-cases (await_ready k p s).0) [
        | inl e ↦ rw e tried.0
        | inr e ↦ rw (e, (tried.1 e).0) (wait-Inv w s inv (tried.1 e).1)
      ]
