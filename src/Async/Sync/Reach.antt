-- ===== src/Async/Sync/Reach.antt =====
-- Every store that a program can reach.
use kotatsu.Base.{
  ℕ, true, false, [], ◌≡◌, inl, inr, refl, ap, ◌∙◌, ◌==◌, ==_iff, length, Bool-cases,
}
use native.Mathlib.Decide.{ℕ_discrete}
use kotatsu.Async.Sync.State.{
  Kind, mutex, semaphore, event, condition_variable, Primitive, Store, set_prim,
}
use kotatsu.Async.Sync.Primitives.{
  try_lock, try_acquire, wake_all, unlock, release, set_event, reset_event, notify_one, notify_all,
}
use kotatsu.Async.Sync.WaitNode.{co_await, cancel, abandon, drain_one}
use kotatsu.Async.Sync.Fair.{
  Inv, Layout, IsFair, FairKind, InvBut, set_prim-Inv, kind-update, fair_empty, IsLaidOut,
}
use kotatsu.Async.Sync.Wakes.{try_lock-Inv, wake_rounds-Inv, unlock-Inv, release-Inv}
use kotatsu.Async.Sync.Waits.{try_acquire-Inv, co_await-Inv}
use kotatsu.Async.Sync.Cancels.{notify_one-Inv, cancel-Inv, abandon-Inv, drain_one-Inv}
use kotatsu.Async.Sync.Rounds.{waiting-wake_rounds}

reset_fair : (k : Kind) (v : Primitive) → FairKind k v → FairKind k (record v { signaled = false })
reset_fair mutex v h = h
reset_fair semaphore v h = h
reset_fair event v h = inr refl
reset_fair condition_variable v h = tt

-- Setting an event wakes all that waits on it, so that the event is free with none waiting.
module _ (l : Layout) where
  pub set_event-Inv : (p : ℕ) (s : Store) → l.kind_of p ≡ event → Inv l s → Inv l (set_event p s)
  unfolding set_event
  set_event-Inv p s is_event inv = record {
    fair = λ j outside. elim (ℕ_discrete j p) [
      | yes e ↦ fair_empty _ _ (ap (λ k. (after.prims k).queue) e ∙ none_left)
      | no ne ↦ inv''.fair j ne
    ];
    kinds = inv''.kinds;
    laid_out = inv''.laid_out;
  }
    where
      E : ℕ → Type 0
      E j = j ≡ p

      signal : Store
      signal = set_prim s p (record (s.prims p) { signaled = true })

      inv' : InvBut l E signal
      inv' = record {
        fair = λ j ne. elim (Bool-cases (j == p)) [
          | inl e ↦ absurd (ne ((==_iff j p).0 e))
          | inr e ↦ rw e (inv.fair j (λ b. b))
        ];
        kinds = λ j. kind-update s.prims p j _ refl ∙ inv.kinds j;
        laid_out = inv.laid_out;
      }

      after : Store
      after = wake_all p signal

      inv'' : InvBut l E after
      inv'' = wake_rounds-Inv l E (length (signal.prims p).queue) p signal inv'

      none_left : (after.prims p).queue ≡ []
      none_left = waiting-wake_rounds l E p is_event (signal.prims p).queue signal inv' refl

  reset_event-Inv : (p : ℕ) (s : Store) → Inv l s → Inv l (reset_event p s)
  unfolding reset_event
  reset_event-Inv p s inv =
      set_prim-Inv l (λ _. ⊥) s p _ inv refl
        (λ i. reset_fair (s.prims p).kind (s.prims p) (inv.fair p i))

  notify_all-Inv : (p : ℕ) (s : Store) → Inv l s → Inv l (notify_all p s)
  unfolding notify_all
  notify_all-Inv p s inv = wake_rounds-Inv l (λ _. ⊥) (length (s.prims p).queue) p s inv

  -- One step of a program: a call of an operation, a cancel of a wait, the loop resuming the first
  -- task that it deferred, or the loop going while a wait is queued.
  pub data Step : Store → Store → Type 0 where
    awaits : (w : ℕ) (s : Store) → Step s (co_await w s).1
    locks : (m : ℕ) (s : Store) → Step s (try_lock m s).1
    unlocks : (m : ℕ) (s : Store) → Step s (unlock m s)
    acquires : (p : ℕ) (s : Store) → Step s (try_acquire p s).1
    releases : (n p : ℕ) (s : Store) → Step s (release n p s)
    sets : (p : ℕ) (s : Store) → l.kind_of p ≡ event → Step s (set_event p s)
    resets : (p : ℕ) (s : Store) → Step s (reset_event p s)
    notifies_one : (p : ℕ) (s : Store) → Step s (notify_one p s)
    notifies_all : (p : ℕ) (s : Store) → Step s (notify_all p s)
    cancels : (w : ℕ) (s : Store) → Step s (cancel w s)
    abandons : (w : ℕ) (s : Store) → Step s (abandon w s)
    resumes : (s : Store) → Step s (drain_one s)

  pub data Reach (s : Store) : Store → Type 0 where
    here : Reach s s
    next : {t u : Store} → Reach s t → Step t u → Reach s u

  Step-Inv : {s t : Store} → Step s t → Inv l s → Inv l t
  Step-Inv (awaits w s) inv = co_await-Inv l w s inv
  Step-Inv (locks m s) inv = try_lock-Inv l (λ _. ⊥) m s inv
  Step-Inv (unlocks m s) inv = unlock-Inv l (λ _. ⊥) m s inv
  Step-Inv (acquires p s) inv = try_acquire-Inv l p s inv
  Step-Inv (releases n p s) inv = release-Inv l (λ _. ⊥) n p s inv
  Step-Inv (sets p s e) inv = set_event-Inv p s e inv
  Step-Inv (resets p s) inv = reset_event-Inv p s inv
  Step-Inv (notifies_one p s) inv = notify_one-Inv l p s inv
  Step-Inv (notifies_all p s) inv = notify_all-Inv p s inv
  Step-Inv (cancels w s) inv = cancel-Inv l w s inv
  Step-Inv (abandons w s) inv = abandon-Inv l w s inv
  Step-Inv (resumes s) inv = drain_one-Inv l s inv

  -- Nothing ever waits for what is free: from primitives with no waits, no sequence of operations,
  -- cancels and resumptions leads to a mutex that is unlocked, a semaphore with a unit or an event
  -- that is set while a wait is queued on it.
  pub Reach-IsFair :
      (s : Store) {t : Store}
      → ((p : ℕ) → (s.prims p).queue ≡ [])
      → ((p : ℕ) → (s.prims p).kind ≡ l.kind_of p)
      → ((w : ℕ) → IsLaidOut l w (s.waits w))
      → Reach s t
      → (p : ℕ) → IsFair (t.prims p)
  Reach-IsFair s {t} empty kinds laid_out run p = (reach-Inv run).fair p (λ b. b)
    where
      start : Inv l s
      start = record { fair = λ p i. fair_empty _ _ (empty p); kinds = kinds; laid_out = laid_out }

      reach-Inv : {t : Store} → Reach s t → Inv l t
      reach-Inv here = start
      reach-Inv (next run step) = Step-Inv step (reach-Inv run)
