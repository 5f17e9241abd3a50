-- ===== src/Async/Cancellation/Finish.antt =====
-- Programs that use a source, run step by step to their end.
use kotatsu.Base.{
  ℕ, zero, suc, ◌+◌, ◌≤◌, ◌<◌, true, false, ◌||◌, List, [], ◌∷◌, ◌++◌, ◌≡◌, ◌⊎◌, inl, inr, refl, ap,
  arith,
}
use kotatsu.Async.Cancellation.{Program, Frame, running, draining, Machine, step, start, run, size}
use kotatsu.Async.Cancellation.Links.{has, nil, bounds-Ascending}
use kotatsu.Async.Cancellation.Queue.{IsQueue}
use kotatsu.Async.Cancellation.Inv.{
  Descending, none_ran, none_above, Interleaved, neither, Above-Descending, weaken-Descending,
}
use kotatsu.Async.Cancellation.Weight.{drains, weight, waiting, size_pos}
use kotatsu.Async.Cancellation.Steps.{Going, step-Going, weaken-Going}

run-Going : (steps more : ℕ) (m : Machine) → Going m (steps + more) → Going (run steps m) more
unfolding run
run-Going zero more m g = weaken-Going (omega arith) g
run-Going (suc steps) more m g =
    let e : suc steps + more ≡ suc (steps + more) = omega arith in
    run-Going steps more (step m) (step-Going m.state m.stack (steps + more) (rw e at g))

pub start-IsQueue : (p : Program) → IsQueue (start p).state []
start-IsQueue p = record {
  at_head = refl;
  at_tail = refl;
  chain = nil;
  ordered = nil (omega arith);
  marks = λ n. refl;
}

start-Going : (p : Program) → Going (start p) (size p)
start-Going p = record {
  queue = [];
  low = 0;
  until = 0;
  ordered = record {
    queue = start-IsQueue p;
    later = nil (omega arith);
    earlier = none_ran;
    at_once = none_above (omega arith);
    before = inr (refl, refl);
    called = neither;
    gone_neither = λ n h. absurd (ground arith);
    accounted = λ n h. absurd (omega arith);
  };
  drained = inl refl;
  small = inr (omega arith);
}

-- After any number of steps.
after-Going : (p : Program) (steps : ℕ) → Going (run steps (start p)) (size p)
after-Going p steps =
    run-Going steps (size p) (start p) (weaken-Going (omega arith) (start-Going p))

-- After as many steps as the program is large.
end-Going : (p : Program) → Going (run (size p) (start p)) 0
end-Going p = run-Going (size p) 0 (start p) (weaken-Going (omega arith) (start-Going p))

stopped : (stack : List Frame) (a : ℕ) → ((stack ≡ []) ⊎ (weight stack + a ≤ 0)) → stack ≡ []
stopped [] a h = refl
stopped (running p ∷ stack) a (inl e) = e
stopped (running p ∷ stack) a (inr h) = absurd (omega (arith, size_pos p))
stopped (draining ∷ stack) a (inl e) = e
stopped (draining ∷ stack) a (inr h) = absurd (omega arith)

-- A program's size is enough steps.
run-size : (p : Program) → (run (size p) (start p)).stack ≡ []
run-size p =
    let g = end-Going p in
    stopped (run (size p) (start p)).stack (waiting (run (size p) (start p)).state.nodes g.queue)
      g.small

-- After any number of steps, the callbacks that `on_cancel` called at once and, behind them, those that
-- `cancel` called, each the latest first, descend in the order of their `on_cancel`s, and what was
-- called are these two lists, interleaved. So each callback has been called once at most, by one of
-- the two, `cancel` calls them in the order of registration, and what it calls was registered before
-- all that is called at once.
pub run-Descending :
    (p : Program) (steps : ℕ)
    → let s = (run steps (start p)).state in
      Descending s.fresh (s.calls.at_once ++ s.calls.drained)
      × Interleaved s.calls.at_once s.calls.drained s.ran
run-Descending p steps =
    let o = (after-Going p steps).ordered in
    (Above-Descending o.at_once (weaken-Descending (bounds-Ascending o.later) o.earlier), o.called)

-- After any number of steps, a callback that was deregistered before it ran has not run.
pub run-gone :
    (p : Program) (steps n : ℕ)
    → has n (run steps (start p)).state.gone ≡ true
    → has n (run steps (start p)).state.ran ≡ false
run-gone p steps n h = ((after-Going p steps).ordered.gone_neither n h).2

-- When a program that fires its source has ended, each callback that it gave to `on_cancel` has run, or
-- was deregistered.
pub run-fired :
    (p : Program) (n : ℕ)
    → (run (size p) (start p)).state.fired ≡ true
    → n < (run (size p) (start p)).state.fresh
    → (has n (run (size p) (start p)).state.ran || has n (run (size p) (start p)).state.gone) ≡ true
run-fired p n f h =
    let g = end-Going p in
    let empty : g.queue ≡ [] = elim g.drained [
      | inl e ↦ absurd (ground (arith, f, e))
      | inr (inl e) ↦ e
      | inr (inr e) ↦ absurd (ground (arith, ap drains (run-size p), e))
    ] in
    let all = g.ordered.accounted n h in rw empty at all
