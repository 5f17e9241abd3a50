-- ===== src/Async/Sync/Tests.antt =====
-- Primitives of each kind with waits on them, at fixed inputs.
use kotatsu.Base.{ℕ, true, false, List, [], ◌∷◌, Option, none, some, ◌≡◌, refl, ◌==◌, if◌then◌else◌}
use kotatsu.Async.Sync.State.{Kind, mutex, semaphore, Primitive, Wait, Store}
use kotatsu.Async.Sync.Primitives.{unlock, release}
use kotatsu.Async.Sync.WaitNode.{co_await, cancel}
use kotatsu.Async.Sync.Fair.{Layout, IsFair}
use kotatsu.Async.Sync.Grants.{
  Unlocked, IsReleased, unlock_lem, release_lem, spent, cancel-granted_lem,
}
use kotatsu.Async.Sync.Reach.{awaits, unlocks, Reach, here, next, Reach-IsFair}

-- Address 0 is a mutex and every other one a semaphore; a wait w is on the mutex.
abbrev kinds : ℕ → Kind
kinds p = if p == 0 then mutex else semaphore

abbrev a_primitive : Kind → List ℕ → Primitive
a_primitive k q = record {
  kind = k;
  queue = q;
  woken = 0;
  locked = false;
  count = 0;
  signaled = false;
}

abbrev a_wait : ℕ → Kind → Wait
a_wait p k = record {
  owner = p;
  owner_kind = k;
  relock = none;
  queue = none;
  on_loop = true;
  cancel_requested = false;
  ended = false;
}

abbrev idle : Store
idle = record {
  prims = λ p. a_primitive (kinds p) [];
  waits = λ _. a_wait 0 mutex;
  tracked = [];
  deferred = [];
  outcomes = [];
}

no_mutex : (m : ℕ) → ◌≡◌ {A = Option ℕ} none (some m) → ⊥
no_mutex m h = cc

abbrev layout : Layout
layout = record {
  kind_of = kinds;
  owner_of = λ _. 0;
  relock_of = λ _. none;
  relocks = λ w m h. absurd (no_mutex m h);
}

-- A first wait takes the mutex, a second one queues, and the unlock hands the mutex to it.
abbrev taken : Store
taken = (co_await 4 idle).1

abbrev queued : Store
queued = (co_await 5 taken).1

a-Reach : Reach layout idle (unlock 0 queued)
a-Reach = next (next (next here (awaits 4 idle)) (awaits 5 taken)) (unlocks 0 queued)

Reach-IsFair_example : IsFair ((unlock 0 queued).prims 0)
Reach-IsFair_example =
    Reach-IsFair layout idle (λ _. refl) (λ _. refl)
      (λ _. record { owner = refl; owner_kind = refl; relock = refl }) a-Reach 0

-- A primitive of a kind with the waits 4 and 5.
abbrev two_waits : Kind → Store
two_waits k = record idle { prims = λ p. a_primitive k (4 ∷ 5 ∷ []); waits = λ _. a_wait 0 k }

unlock_lem_example : Unlocked (4 ∷ 5 ∷ []) 0 (two_waits mutex) (unlock 0 (two_waits mutex))
unlock_lem_example =
    unlock_lem mutex 0 refl (4 ∷ 5 ∷ []) (two_waits mutex) refl
      (refl, refl, refl, (refl, refl, refl, tt))

release_lem_example :
    IsReleased 3 (4 ∷ 5 ∷ []) 0 (two_waits semaphore) (release 3 0 (two_waits semaphore))
release_lem_example =
    release_lem semaphore 0 refl 3 (4 ∷ 5 ∷ []) (two_waits semaphore) refl
      (refl, refl, refl, (refl, refl, refl, tt))

-- The wait 3 holds a grant, and 4 and 5 are queued behind it.
cancel-granted_lem_example :
    Unlocked (4 ∷ 5 ∷ []) 0 (spent 3 0 (two_waits mutex)) (cancel 3 (two_waits mutex))
cancel-granted_lem_example =
    cancel-granted_lem 0 3 (two_waits mutex) refl refl refl refl refl refl
      (refl, refl, refl, (refl, refl, refl, tt))
