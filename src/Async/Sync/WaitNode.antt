-- ===== src/Async/Sync/WaitNode.antt =====
-- src/async/runtime/sync.cpp, `wait_node`: awaiting a primitive, cancelling and abandoning a wait,
-- and resuming it from the event loop.
use kotatsu.Base.{
  ℕ, Bool, true, false, not, ◌&&◌, ◌||◌, List, [], ◌∷◌, ◌++◌, Option, none, some, ◌==◌,
  if◌then◌else◌,
}
use kotatsu.Async.Sync.State.{
  Kind, mutex, semaphore, event, condition_variable, goes_on, ends_cancelled, Store, update,
  set_wait, is_kind, decrement, change_woken,
}
use kotatsu.Async.Sync.Primitives.{
  insert, remove, try_lock, try_acquire, try_relock, unlock, release_one, notify_one,
}

-- `wait_node::await_ready`, on the kind of its owner.
unfoldable pub await_ready : Kind → ℕ → Store → Bool × Store
unfolding try_lock try_acquire
await_ready mutex p s = try_lock p s
await_ready semaphore p s = try_acquire p s
await_ready event p s = ((s.prims p).signaled, s)
await_ready condition_variable p s = (false, s)

abbrev pub unlock_relock : Option ℕ → Store → Store
unlock_relock none s = s
unlock_relock (some m) s = unlock m s

-- `wait_node::wait` of a task that no cancel reached: one that did ends at the checkpoint, with
-- nothing changed.
unfoldable pub wait : ℕ → Store → Store
unfolding unlock insert
wait w s =
    let v = s.waits w in
    insert v.owner w (unlock_relock v.relock (set_wait s w (record v { on_loop = true })))

-- `co_await` of a wait: whether the task goes on at once, and the store.
unfoldable pub co_await : ℕ → Store → Bool × Store
unfolding await_ready wait
co_await w s =
    let (ready, s') = await_ready (s.waits w).owner_kind (s.waits w).owner s in
    if ready then (true, s') else (false, wait w s')

-- The switch of `wait_node::give_back`, behind its first test.
unfoldable pub give_back_to : Kind → ℕ → Store → Store
unfolding unlock release_one notify_one
give_back_to mutex p s = unlock p (change_woken decrement p s)
give_back_to semaphore p s = release_one p (change_woken decrement p s)
give_back_to condition_variable p s = notify_one p (change_woken decrement p s)
give_back_to event p s = s

-- `wait_node::give_back`
unfoldable pub give_back : ℕ → Store → Store
unfolding give_back_to
give_back w s = give_back_to (s.waits w).owner_kind (s.waits w).owner s

abbrev pub queued_at : Option ℕ → ℕ → Bool
queued_at none p = false
queued_at (some q) p = q == p

abbrev pub end_cancelled : ℕ → Store → Store
end_cancelled w s = record s {
  waits = update s.waits w (record (s.waits w) { ended = true });
  outcomes = s.outcomes ++ ends_cancelled w ∷ [];
}

abbrev pub queue_or_end : ℕ → Option ℕ × Store → Store
queue_or_end w (some m, s) = if (s.waits w).on_loop then insert m w s else s
queue_or_end w (none, s) = end_cancelled w s

-- `wait_node::cancel_wait`
unfoldable pub cancel_wait : ℕ → Store → Store
unfolding give_back remove try_relock insert
cancel_wait w s =
    let v = s.waits w in
    if queued_at v.queue v.owner
    then queue_or_end w (try_relock v.relock (remove v.owner w s))
    else if v.on_loop
    then give_back w s
    else queue_or_end w (try_relock v.relock s)

-- `async_node::cancel` of a wait
unfoldable pub cancel : ℕ → Store → Store
unfolding cancel_wait
cancel w s =
    if (s.waits w).ended || (s.waits w).cancel_requested
    then s
    else cancel_wait w (set_wait s w (record (s.waits w) { cancel_requested = true }))

abbrev pub remove_queued : Option ℕ → ℕ → Store → Store
remove_queued none w s = s
remove_queued (some q) w s = remove q w s

-- `wait_node::abandon`, of a wait that is queued.
unfoldable pub abandon : ℕ → Store → Store
unfolding remove
abandon w s =
    let v = s.waits w in
    let spent =
      if not (queued_at v.queue v.owner) && not v.cancel_requested
      then change_woken decrement v.owner s
      else s in
    let s' = remove_queued v.queue w spent in
    set_wait s' w (record (s'.waits w) { on_loop = false })

-- `wait_node::resume`
unfoldable pub resume : ℕ → Store → Store
resume w s =
    let v = s.waits w in
    if v.cancel_requested
    then record s { outcomes = s.outcomes ++ ends_cancelled w ∷ [] }
    else let s' = if is_kind v.owner_kind event then s else change_woken decrement v.owner s in
      record s' { outcomes = s'.outcomes ++ goes_on w ∷ [] }

unfoldable pub resume_first : List ℕ → Store → Store
resume_first [] s = s
resume_first (w ∷ ws) s = resume w (record s { deferred = ws })

-- One round of `event_loop::Self::drain_deferred`.
unfoldable pub drain_one : Store → Store
unfolding resume_first resume
drain_one s = resume_first s.deferred s
