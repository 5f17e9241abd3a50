-- ===== src/Async/Sync/Fair.antt =====
-- The invariant that relates a primitive's state and its queue, and the changes to a store under it.
use kotatsu.Base.{
  ℕ, true, false, List, [], Option, some, ◌≡◌, ◌⊎◌, inl, inr, refl, sym, ap, ◌∙◌, arith, ◌==◌,
  ==_iff, Bool-cases,
}
use mathlib.Core.Path.{subst}
use kotatsu.Async.Sync.State.{
  Kind, mutex, semaphore, event, condition_variable, Primitive, Wait, Store, update, set_prim,
  set_wait, erase,
}

-- A primitive that has waits is not free: a mutex is locked, a semaphore has no unit left, an event
-- is not set.
abbrev pub FairKind : Kind → Primitive → Type 0
FairKind mutex v = (v.queue ≡ []) ⊎ (v.locked ≡ true)
FairKind semaphore v = (v.queue ≡ []) ⊎ (v.count ≡ 0)
FairKind event v = (v.queue ≡ []) ⊎ (v.signaled ≡ false)
FairKind condition_variable v = Unit {0}

abbrev pub IsFair : Primitive → Type 0
IsFair v = FairKind v.kind v

-- A primitive that a wait may be queued on.
abbrev pub BusyKind : Kind → Primitive → Type 0
BusyKind mutex v = v.locked ≡ true
BusyKind semaphore v = v.count ≡ 0
BusyKind event v = v.signaled ≡ false
BusyKind condition_variable v = Unit {0}

-- What an address holds for good: a primitive's kind, a wait's owner, and the mutex that the wait
-- locks again, which only a wait on a condition variable does.
pub record Layout : Type 0 where
  pub kind_of : ℕ → Kind
  pub owner_of : ℕ → ℕ
  pub relock_of : ℕ → Option ℕ
  pub relocks :
      (w m : ℕ)
      → relock_of w ≡ some m
      → (kind_of m ≡ mutex) × (kind_of (owner_of w) ≡ condition_variable)

-- A wait as its layout has it.
pub record IsLaidOut (l : Layout) (w : ℕ) (v : Wait) : Type 0 where
  pub owner : v.owner ≡ l.owner_of w
  pub owner_kind : v.owner_kind ≡ l.kind_of (l.owner_of w)
  pub relock : v.relock ≡ l.relock_of w

-- The invariant, but for the primitives in `E`: every primitive is fair, and all is as laid out.
pub record InvBut (l : Layout) (E : ℕ → Type 0) (s : Store) : Type 0 where
  pub fair : (p : ℕ) → ¬ E p → IsFair (s.prims p)
  pub kinds : (p : ℕ) → (s.prims p).kind ≡ l.kind_of p
  pub laid_out : (w : ℕ) → IsLaidOut l w (s.waits w)

pub fair_erase :
    (k : Kind) (v : Primitive) (w : ℕ)
    → FairKind k v
    → FairKind k (record v { queue = erase w v.queue })
unfolding erase
fair_erase mutex v w h = ground arith
fair_erase semaphore v w h = ground arith
fair_erase event v w h = ground arith
fair_erase condition_variable v w h = tt

pub fair_busy :
    (k : Kind) (v : Primitive) (q : List ℕ) → BusyKind k v → FairKind k (record v { queue = q })
fair_busy mutex v q h = inr h
fair_busy semaphore v q h = inr h
fair_busy event v q h = inr h
fair_busy condition_variable v q h = tt

pub fair_woken :
    (k : Kind) (v : Primitive) (n : ℕ) → FairKind k v → FairKind k (record v { woken = n })
fair_woken mutex v n h = h
fair_woken semaphore v n h = h
fair_woken event v n h = h
fair_woken condition_variable v n h = tt

pub fair_empty : (k : Kind) (v : Primitive) → v.queue ≡ [] → FairKind k v
fair_empty mutex v h = inl h
fair_empty semaphore v h = inl h
fair_empty event v h = inl h
fair_empty condition_variable v h = tt

pub fair_locked :
    (k : Kind) (v : Primitive) → FairKind k v → FairKind k (record v { locked = true })
fair_locked mutex v h = inr refl
fair_locked semaphore v h = h
fair_locked event v h = h
fair_locked condition_variable v h = tt

pub locked_busy : (v : Primitive) → v.kind ≡ mutex → v.locked ≡ true → BusyKind v.kind v
locked_busy v k h = rw k h

pub kind-update :
    (f : ℕ → Primitive) (p j : ℕ) (v : Primitive)
    → v.kind ≡ (f p).kind
    → (update f p v j).kind ≡ (f j).kind
kind-update f p j v h = elim (Bool-cases (j == p)) [
  | inl e ↦ rw e (h ∙ ap (λ k. (f k).kind) (sym ((==_iff j p).0 e)))
  | inr e ↦ rw e
]

-- What a change to a wait must leave alone.
pub record SameWait (u v : Wait) : Type 0 where
  pub owner : u.owner ≡ v.owner
  pub owner_kind : u.owner_kind ≡ v.owner_kind
  pub relock : u.relock ≡ v.relock

pub same-update :
    (f : ℕ → Wait) (w j : ℕ) (v : Wait) → SameWait v (f w) → SameWait (update f w v j) (f j)
same-update f w j v h = elim (Bool-cases (j == w)) [
  | inl e ↦ rw e (subst (λ k. SameWait v (f k)) (sym ((==_iff j w).0 e)) h)
  | inr e ↦ rw e (record { owner = refl; owner_kind = refl; relock = refl })
]

module _ (l : Layout) (E : ℕ → Type 0) where
  -- A primitive may change that keeps its kind and is fair.
  pub set_prim-Inv :
      (s : Store) (p : ℕ) (v : Primitive)
      → InvBut l E s
      → v.kind ≡ (s.prims p).kind
      → (¬ E p → IsFair v)
      → InvBut l E (set_prim s p v)
  set_prim-Inv s p v inv same f = record {
    fair = λ j outside. elim (Bool-cases (j == p)) [
      | inl e ↦ rw e (f (λ i. outside (subst E (sym ((==_iff j p).0 e)) i)))
      | inr e ↦ rw e (inv.fair j outside)
    ];
    kinds = λ j. kind-update s.prims p j v same ∙ inv.kinds j;
    laid_out = inv.laid_out;
  }

  -- A wait may change but for what it waits on.
  pub set_wait-Inv :
      (s : Store) (w : ℕ) (v : Wait)
      → InvBut l E s
      → SameWait v (s.waits w)
      → InvBut l E (set_wait s w v)
  set_wait-Inv s w v inv h = record {
    fair = inv.fair;
    kinds = inv.kinds;
    laid_out = λ j.
        let same = same-update s.waits w j v h in
        let old = inv.laid_out j in
        record {
          owner = same.owner ∙ old.owner;
          owner_kind = same.owner_kind ∙ old.owner_kind;
          relock = same.relock ∙ old.relock;
        };
  }

  -- The loop's lists and the outcomes are not looked at.
  pub lists-Inv :
      (s : Store) {t : Store} → t.prims ≡ s.prims → t.waits ≡ s.waits → InvBut l E s → InvBut l E t
  lists-Inv s {t} e f inv = record {
    fair = λ p outside. rw e (inv.fair p outside);
    kinds = λ p. rw e (inv.kinds p);
    laid_out = λ w. rw f (inv.laid_out w);
  }

  -- A wait that locks a mutex again waits on a condition variable.
  pub relocks_lem :
      (s : Store) (w m : ℕ)
      → InvBut l E s
      → (s.waits w).relock ≡ some m
      → (l.kind_of m ≡ mutex) × ((s.waits w).owner_kind ≡ condition_variable)
  relocks_lem s w m inv h =
      let v = inv.laid_out w in
      let law = l.relocks w m (sym v.relock ∙ h) in (law.0, v.owner_kind ∙ law.1)

abbrev pub Nothing : ℕ → Type 0
Nothing _ = ⊥

-- The invariant of all primitives and waits.
abbrev pub Inv : Layout → Store → Type 0
Inv l = InvBut l Nothing
