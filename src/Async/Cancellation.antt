-- ===== src/Async/Cancellation.antt =====
-- src/async/runtime/cancellation.cpp: a cancellation source, its tokens and the callbacks registered with
-- them. A registration is the number of its node; a node whose `state` is null is not `linked`. What the
-- caller's code does is a parameter, `Program`: what it and each callback do when they are called, which
-- is to register callbacks, destroy registrations and cancel. Each of these is one step of `Machine`,
-- whose stack holds the calls that have not returned. A program is finite: that it ends is supposed of
-- the caller's code, not shown. A callback that registers itself anew is written with what it does each
-- time, as often as it is called; one that does so without end, on a source that has fired, is followed
-- by a program as far as one likes, but by none to its end, which it does not have.
pub mod Links
pub mod Remove
pub mod Queue
pub mod Inv
pub mod Weight
pub mod Steps
pub mod Finish
mod Tests
use kotatsu.Base.{
  ℕ, zero, suc, ◌+◌, Bool, true, false, List, [], ◌∷◌, ◌++◌, Option, none, some, ◌==◌,
  if◌then◌else◌,
}

-- What a caller does with a source and its tokens.
mutual
  pub data Callback : Type 0 where
    callback : Program → Callback

  pub data Program : Type 0 where
    returns : Program
    registers : Callback → Program → Program
    destroys : ℕ → Program → Program
    cancels : Program → Program

abbrev pub body : Callback → Program
body (callback p) = p

-- `CancellationNode`
pub record Node : Type 0 where
  pub linked : Bool
  pub work : Callback
  pub prev : Option ℕ
  pub next : Option ℕ

-- The callbacks that were called, the latest first: by the loop of `cancel`, and by `on_cancel` at once.
pub record Calls : Type 0 where
  pub drained : List ℕ
  pub at_once : List ℕ

-- `CancellationState`, with the nodes that it shares with the registrations. A callback has the number
-- of the `on_cancel` that took it, and so has its node: `fresh` is the next number, `ran` the callbacks
-- that were called, `calls` the same with what called them, and `gone` what was deregistered while on
-- the list, the latest first.
pub record State : Type 0 where
  pub fired : Bool
  pub head : Option ℕ
  pub tail : Option ℕ
  pub nodes : ℕ → Node
  pub fresh : ℕ
  pub ran : List ℕ
  pub calls : Calls
  pub gone : List ℕ

abbrev pub change : State → ℕ → Node → State
change s n v = record s { nodes = λ m. if m == n then v else s.nodes m }

-- `(node.prev ? node.prev->next : head) = to`
abbrev pub set_next : Option ℕ → Option ℕ → State → State
set_next none to s = record s { head = to }
set_next (some q) to s = change s q (record (s.nodes q) { next = to })

-- `(node.next ? node.next->prev : tail) = to`
abbrev pub set_prev : Option ℕ → Option ℕ → State → State
set_prev none to s = record s { tail = to }
set_prev (some r) to s = change s r (record (s.nodes r) { prev = to })

-- `CancellationState::link`
unfoldable pub link : ℕ → State → State
link n s =
    let s1 = change s n (record (s.nodes n) { prev = s.tail }) in
    let s2 = set_next s1.tail (some n) s1 in record s2 { tail = some n }

-- `CancellationState::unlink`
unfoldable pub unlink : ℕ → State → State
unlink n s =
    let s1 = set_next (s.nodes n).prev (s.nodes n).next s in
    let s2 = set_prev (s1.nodes n).next (s1.nodes n).prev s1 in
    change s2 n (record (s2.nodes n) { prev = none; next = none; linked = false })

-- A new node, on no list.
abbrev pub make_node : Callback → State → State
make_node c s =
    record (change s s.fresh (record { linked = true; work = c; prev = none; next = none })) {
      fresh = s.fresh + 1;
    }

-- `~cancellation_callback`
unfoldable pub destroy : ℕ → State → State
destroy n s = if (s.nodes n).linked then record (unlink n s) { gone = n ∷ s.gone } else s

-- The registration that `on_cancel` gives when the source has not fired.
unfoldable pub register : Callback → State → State
register c s = link s.fresh (make_node c s)

-- A call that has not returned: the rest of a program, or the loop of `cancel`.
pub data Frame : Type 0 where
  running : Program → Frame
  draining : Frame

pub record Machine : Type 0 where
  pub state : State
  pub stack : List Frame

-- One round of the loop of `cancel`: a node is taken off, and its callback is called.
abbrev pub drain : Option ℕ → State → List Frame → Machine
drain none s stack = record { state = s; stack = stack }
drain (some n) s stack =
    let u = unlink n s in
    record {
      state = record u {
        ran = n ∷ s.ran;
        calls = record s.calls { drained = n ∷ s.calls.drained };
      };
      stack = running (body (s.nodes n).work) ∷ draining ∷ stack;
    }

-- `on_cancel`, which calls the callback at once when the source has fired.
abbrev pub on_cancel : Callback → State → List Frame → Machine
on_cancel c s stack =
    if s.fired
    then record {
      state = record s {
        fresh = s.fresh + 1;
        ran = s.fresh ∷ s.ran;
        calls = record s.calls { at_once = s.fresh ∷ s.calls.at_once };
      };
      stack = running (body c) ∷ stack;
    }
    else record { state = register c s; stack = stack }

-- `cancel`, as far as the loop.
abbrev pub cancel : State → List Frame → Machine
cancel s stack =
    if s.fired
    then record { state = s; stack = stack }
    else record { state = record s { fired = true }; stack = draining ∷ stack }

unfoldable pub step : Machine → Machine
step m = elim m.stack [
  | [] ↦ m
  | running returns ∷ stack ↦ record { state = m.state; stack = stack }
  | running (registers c p) ∷ stack ↦ on_cancel c m.state (running p ∷ stack)
  | running (destroys n p) ∷ stack ↦ record { state = destroy n m.state; stack = running p ∷ stack }
  | running (cancels p) ∷ stack ↦ cancel m.state (running p ∷ stack)
  | draining ∷ stack ↦ drain m.state.head m.state stack
]

-- A source, and a program that uses it.
abbrev pub idle : Node
idle = record { linked = false; work = callback returns; prev = none; next = none }

abbrev pub start : Program → Machine
start p = record {
  state = record {
    fired = false;
    head = none;
    tail = none;
    nodes = λ n. idle;
    fresh = 0;
    ran = [];
    calls = record { drained = []; at_once = [] };
    gone = [];
  };
  stack = running p ∷ [];
}

unfoldable pub run : ℕ → Machine → Machine
run zero m = m
run (suc steps) m = run steps (step m)

-- The steps that a program takes at most.
unfoldable mutual
  pub size : Program → ℕ
  size returns = 1
  size (registers c p) = size_of c + size p + 2
  size (destroys n p) = size p + 1
  size (cancels p) = size p + 2

  pub size_of : Callback → ℕ
  size_of (callback p) = size p
