-- ===== src/Async/Cancellation/Tests.antt =====
-- Runs of programs that use a source, and the theorems at one of them.
use kotatsu.Base.{true, false, ◌||◌, [], ◌∷◌, ◌++◌, ◌≡◌, refl, arith}
use kotatsu.Async.Cancellation.{
  Callback, callback, Program, returns, registers, destroys, cancels, State, start, step, run, size,
  register, unlink, link, destroy,
}
use kotatsu.Async.Cancellation.Links.{has}
use kotatsu.Async.Cancellation.Queue.{IsQueue, register-IsQueue, unlink-IsQueue}
use kotatsu.Async.Cancellation.Inv.{Descending, Interleaved}
use kotatsu.Async.Cancellation.Finish.{run-Descending, run-gone, run-fired, start-IsQueue}

abbrev quiet : Callback
quiet = callback returns

-- Three callbacks, the first of which destroys the second and registers another, which is called at
-- once.
abbrev program : Program
program =
    registers (callback (destroys 1 (registers quiet returns)))
      (registers quiet (registers quiet (cancels (cancels returns))))

run_order : (run (size program) (start program)).state.ran ≡ 2 ∷ 3 ∷ 0 ∷ []
unfolding run step size register unlink link destroy
run_order = refl

run_gone : (run (size program) (start program)).state.gone ≡ 1 ∷ []
unfolding run step size register unlink link destroy
run_gone = refl

-- The callback that the first one registers while the source fires is called at once.
run_calls :
    (run (size program) (start program)).state.calls
    ≡ record { drained = 2 ∷ 0 ∷ []; at_once = 3 ∷ [] }
unfolding run step size register unlink link destroy
run_calls = refl

run-Descending_example :
    let s = (run 12 (start program)).state in
    Descending s.fresh (s.calls.at_once ++ s.calls.drained)
    × Interleaved s.calls.at_once s.calls.drained s.ran
run-Descending_example = run-Descending program 12

run-gone_example : has 1 (run 12 (start program)).state.ran ≡ false
unfolding run step size register unlink link destroy
run-gone_example = run-gone program 12 1 refl

run-fired_example :
    (has 1 (run (size program) (start program)).state.ran
      || has 1 (run (size program) (start program)).state.gone)
    ≡ true
unfolding run step size register unlink link destroy
run-fired_example = run-fired program 1 refl (omega arith)

abbrev two : State
two = register quiet (register quiet (start returns).state)

two-IsQueue : IsQueue two (0 ∷ 1 ∷ [])
unfolding register link
two-IsQueue = register-IsQueue quiet (register-IsQueue quiet (start-IsQueue returns))

unlink-IsQueue_example : IsQueue (unlink 0 two) (1 ∷ [])
unlink-IsQueue_example = unlink-IsQueue 0 two-IsQueue refl
