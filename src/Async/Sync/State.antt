-- ===== src/Async/Sync/State.antt =====
-- The state of the synchronisation primitives of src/async/runtime/sync.cpp.
-- One store holds every primitive and every wait, named by numbers, which stand for addresses; a
-- primitive's intrusive queue is the list of its waits, first one first. Coroutine handles are
-- outcomes: which task goes on, and which ends cancelled. There is one event loop; what a resumed
-- task does next is the environment's next step. An address stands for one object: that of an object
-- that is gone is not used again.
use kotatsu.Base.{
  ℕ, ◌+◌, ◌-◌, ◌%◌, ◌^◌, Bool, true, false, List, [], ◌∷◌, ◌++◌, Option, ◌==◌, if◌then◌else◌,
}

-- `sync_primitive::Kind`
pub data Kind : Type 0 where
  mutex semaphore event condition_variable : Kind

-- A primitive of any kind: `locked` is a mutex's, `count` a semaphore's, `signaled` an event's.
pub record Primitive : Type 0 where
  pub kind : Kind
  pub queue : List ℕ
  pub woken : ℕ
  pub locked : Bool
  pub count : ℕ
  pub signaled : Bool

-- `wait_node`: `queue` is where it is queued, `on_loop` whether its loop is still there, `ended`
-- whether its state is Cancelled.
pub record Wait : Type 0 where
  pub owner : ℕ
  pub owner_kind : Kind
  pub relock : Option ℕ
  pub queue : Option ℕ
  pub on_loop : Bool
  pub cancel_requested : Bool
  pub ended : Bool

pub data Outcome : Type 0 where
  goes_on ends_cancelled : ℕ → Outcome

-- `tracked` and `deferred` are the loop's lists; `outcomes` is what became of waits, in order.
pub record Store : Type 0 where
  pub prims : ℕ → Primitive
  pub waits : ℕ → Wait
  pub tracked : List ℕ
  pub deferred : List ℕ
  pub outcomes : List Outcome

abbrev pub update {ℓ} : {A : Type ℓ} → (ℕ → A) → ℕ → A → ℕ → A
update f k v j = if j == k then v else f j

abbrev pub set_prim : Store → ℕ → Primitive → Store
set_prim s p v = record s { prims = update s.prims p v }

abbrev pub set_wait : Store → ℕ → Wait → Store
set_wait s w v = record s { waits = update s.waits w v }

unfoldable pub erase : ℕ → List ℕ → List ℕ
erase w [] = []
erase w (x ∷ xs) = if x == w then xs else x ∷ erase w xs

abbrev pub is_kind : Kind → Kind → Bool
is_kind mutex mutex = true
is_kind semaphore semaphore = true
is_kind event event = true
is_kind condition_variable condition_variable = true
is_kind _ _ = false

-- `woken += 1` of a size_t
abbrev pub increment : ℕ → ℕ
increment n = (n + 1) % 2 ^ 64

-- `woken -= 1` of a size_t
abbrev pub decrement : ℕ → ℕ
decrement n = (n + 2 ^ 64 - 1) % 2 ^ 64

abbrev pub change_woken : (ℕ → ℕ) → ℕ → Store → Store
change_woken f p s = set_prim s p (record (s.prims p) { woken = f (s.prims p).woken })

-- `event_loop::defer_resume`
abbrev pub defer_resume : ℕ → Store → Store
defer_resume w s = record s { deferred = s.deferred ++ w ∷ [] }
