-- ===== src/Async/Sync/Primitives.antt =====
-- src/async/runtime/sync.cpp, `sync_primitive` and `wait_node::grant`, and the operations that a
-- program calls on mutexes, semaphores, events and condition variables
-- (include/kotatsu/async/runtime/sync.h).
use kotatsu.Base.{
  ℕ, zero, suc, ◌+◌, ◌-◌, Bool, true, false, List, [], ◌∷◌, ◌++◌, Option, none, some, ◌==◌, length,
  if◌then◌else◌, ltb,
}
use kotatsu.Async.Sync.State.{
  event, Store, update, set_prim, erase, is_kind, change_woken, increment, defer_resume,
}

-- `sync_primitive::insert`, with the loop's `track`.
unfoldable pub insert : ℕ → ℕ → Store → Store
insert p w s = record s {
  prims = update s.prims p (record (s.prims p) { queue = (s.prims p).queue ++ w ∷ [] });
  waits = update s.waits w (record (s.waits w) { queue = some p });
  tracked = w ∷ s.tracked;
}

-- `sync_primitive::remove`, with the loop's `untrack`.
unfoldable pub remove : ℕ → ℕ → Store → Store
remove p w s = record s {
  prims = update s.prims p (record (s.prims p) { queue = erase w (s.prims p).queue });
  waits = update s.waits w (record (s.waits w) { queue = none });
  tracked = erase w s.tracked;
}

-- `mutex::try_lock`
unfoldable pub try_lock : ℕ → Store → Bool × Store
try_lock m s =
    if (s.prims m).locked
    then (false, s)
    else (true, set_prim s m (record (s.prims m) { locked = true }))

-- `semaphore::try_acquire`
unfoldable pub try_acquire : ℕ → Store → Bool × Store
try_acquire p s =
    if ltb 0 (s.prims p).count
    then (true, set_prim s p (record (s.prims p) { count = (s.prims p).count - 1 }))
    else (false, s)

-- `relock != nullptr && !relock->try_lock()`: the mutex to queue on, if it is taken, and the store
-- behind the attempt.
unfoldable pub try_relock : Option ℕ → Store → Option ℕ × Store
unfolding try_lock
try_relock none s = (none, s)
try_relock (some m) s = let (taken, s') = try_lock m s in (if taken then none else some m, s')

abbrev pub queue_or_resume : ℕ → Option ℕ × Store → Store
queue_or_resume w (some m, s) = insert m w s
queue_or_resume w (none, s) = defer_resume w s

-- `wait_node::grant`, by the primitive `from`.
unfoldable pub grant : ℕ → ℕ → Store → Store
unfolding insert try_relock
grant w from s =
    let v = s.waits w in
    if from == v.owner
    then queue_or_resume w (
        try_relock v.relock
          (if is_kind v.owner_kind event then s else change_woken increment v.owner s))
    else defer_resume w s

unfoldable pub wake_first : List ℕ → ℕ → Store → Bool × Store
wake_first [] p s = (false, s)
wake_first (w ∷ ws) p s = (true, grant w p (remove p w s))

-- `sync_primitive::wake_one`
unfoldable pub wake_one : ℕ → Store → Bool × Store
unfolding wake_first
wake_one p s = wake_first (s.prims p).queue p s

-- `sync_primitive::wake_all`; each round takes a wait off the queue, so that its length is fuel
-- enough.
unfoldable pub wake_rounds : ℕ → ℕ → Store → Store
wake_rounds zero p s = s
wake_rounds (suc n) p s =
    let (woke, s') = wake_one p s in let later = wake_rounds n p s' in if woke then later else s'

abbrev pub wake_all : ℕ → Store → Store
wake_all p s = wake_rounds (length (s.prims p).queue) p s

-- `mutex::unlock`
unfoldable pub unlock : ℕ → Store → Store
unlock m s =
    let (woke, s') = wake_one m s in
    if woke then s' else set_prim s' m (record (s'.prims m) { locked = false })

-- One round of the loop of `semaphore::release`.
unfoldable pub release_one : ℕ → Store → Store
release_one p s =
    let (woke, s') = wake_one p s in
    if woke then s' else set_prim s' p (record (s'.prims p) { count = (s'.prims p).count + 1 })

-- `semaphore::release(n)`
unfoldable pub release : ℕ → ℕ → Store → Store
release zero p s = s
release (suc n) p s = release n p (release_one p s)

-- `event::set`
unfoldable pub set_event : ℕ → Store → Store
unfolding wake_rounds
set_event p s = wake_all p (set_prim s p (record (s.prims p) { signaled = true }))

-- `event::reset`
unfoldable pub reset_event : ℕ → Store → Store
reset_event p s = set_prim s p (record (s.prims p) { signaled = false })

-- `condition_variable::notify_one` and `notify_all`
unfoldable pub notify_one : ℕ → Store → Store
notify_one p s = (wake_one p s).1

unfoldable pub notify_all : ℕ → Store → Store
unfolding wake_rounds
notify_all p s = wake_all p s
