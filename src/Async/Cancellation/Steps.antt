-- ===== src/Async/Cancellation/Steps.antt =====
-- One step of a program that uses a source, and what holds of the machine between steps.
use kotatsu.Base.{
  ℕ, suc, ◌+◌, ◌≤◌, Bool, true, false, List, [], ◌∷◌, ◌++◌, Option, ◌≡◌, ◌⊎◌, inl, inr, refl, ap,
  ◌∙◌, arith, if◌then◌else◌, Bool-cases,
}
use kotatsu.Async.Cancellation.{
  Callback, returns, registers, destroys, cancels, State, Frame, running, draining, Machine, step,
  drain, on_cancel, cancel, size, size_of,
}
use kotatsu.Async.Cancellation.Links.{first, remove}
use kotatsu.Async.Cancellation.Queue.{register_by, recorded-IsQueue, tail-fresh}
use kotatsu.Async.Cancellation.Inv.{
  Ordered, register-Ordered, destroy-Ordered, take-Ordered, call-Ordered,
}
use kotatsu.Async.Cancellation.Weight.{
  drains, weight, waiting, size_of-body, waiting-register, waiting-unlink, waiting-destroy,
  fired-destroy,
}

-- A machine with steps to go, or none.
pub record Going (m : Machine) (bound : ℕ) : Type 0 where
  pub queue : List ℕ
  pub low : ℕ
  pub until : ℕ
  pub ordered : Ordered m.state queue low until
  pub drained : (m.state.fired ≡ false) ⊎ (queue ≡ []) ⊎ (drains m.stack ≡ true)
  pub small : (m.stack ≡ []) ⊎ (weight m.stack + waiting m.state.nodes queue ≤ bound)

-- A machine whose stack is not empty has steps to go.
busy : {f : Frame} {stack : List Frame} {a b : ℕ} → ((f ∷ stack ≡ []) ⊎ (a ≤ b)) → a ≤ b
busy (inl e) = absurd (ground arith)
busy (inr h) = h

when_true :
    (P : Machine → Type 0) (a c : Machine) {b : Bool} → b ≡ true → P a → P (if b then a else c)
when_true P a c e p = rw e p

when_false :
    (P : Machine → Type 0) (a c : Machine) {b : Bool} → b ≡ false → P c → P (if b then a else c)
when_false P a c e p = rw e p

drain-Going :
    {s : State} {xs : List ℕ} {low until bound : ℕ} (h : Option ℕ) (stack : List Frame)
    → h ≡ first xs
    → Ordered s xs low until
    → 1 + weight stack + waiting s.nodes xs ≤ suc bound
    → Going (drain h s stack) bound
drain-Going {s} {xs = []} {low} {until} h stack e o l = rw e (record {
  queue = [];
  low = low;
  until = until;
  ordered = o;
  drained = inr (inl refl);
  small = inr (omega arith);
})
drain-Going {s} {xs = n ∷ xs} {low} {until} h stack e o l = rw e (record {
  queue = xs;
  low = suc n;
  until = until;
  ordered = take-Ordered o;
  drained = inr (inr refl);
  small = inr (omega (arith, waiting-unlink s xs n, size_of-body (s.nodes n).work));
})

cancel-Going :
    {s : State} {xs : List ℕ} {low until bound : ℕ} (stack : List Frame)
    → Ordered s xs low until
    → (s.fired ≡ false) ⊎ (xs ≡ []) ⊎ (drains stack ≡ true)
    → 1 + weight stack + waiting s.nodes xs ≤ bound
    → Going (cancel s stack) bound
cancel-Going {s} {xs} {low} {until} {bound} stack o d h = elim (Bool-cases s.fired) [
  | inl e ↦
      when_true (λ m. Going m bound) _ _ e
        (record {
          queue = xs;
          low = low;
          until = until;
          ordered = o;
          drained = d;
          small = inr (omega arith);
        })
  | inr e ↦
      when_false (λ m. Going m bound) _ _ e
        (record {
          queue = xs;
          low = low;
          until = until;
          ordered = record {
            queue = recorded-IsQueue true s.ran s.gone s.calls o.queue;
            later = o.later;
            earlier = o.earlier;
            at_once = o.at_once;
            before = inl refl;
            called = o.called;
            gone_neither = o.gone_neither;
            accounted = o.accounted;
          };
          drained = inr (inr refl);
          small = inr h;
        })
]

on_cancel-Going :
    {s : State} {xs : List ℕ} {low until bound : ℕ} (c : Callback) (stack : List Frame)
    → Ordered s xs low until
    → (s.fired ≡ false) ⊎ (xs ≡ []) ⊎ (drains stack ≡ true)
    → size_of c + 1 + weight stack + waiting s.nodes xs ≤ bound
    → Going (on_cancel c s stack) bound
on_cancel-Going {s} {xs} {low} {until} {bound} c stack o d h = elim (Bool-cases s.fired) [
  | inl e ↦
      when_true (λ m. Going m bound) _ _ e
        (record {
          queue = xs;
          low = low;
          until = until;
          ordered = call-Ordered o e;
          drained = d;
          small = inr (omega (arith, size_of-body c));
        })
  | inr e ↦
      let by = register_by s c s.tail refl (tail-fresh o.queue) in
      when_false (λ m. Going m bound) _ _ e
        (record {
          queue = xs ++ (s.fresh ∷ []);
          low = low;
          until = s.fresh + 1;
          ordered = register-Ordered c o e;
          drained = inl (by.4 ∙ e);
          small = inr (omega (arith, waiting-register c o.queue));
        })
]

pub step-Going :
    (s : State) (stack : List Frame) (bound : ℕ)
    → Going (record { state = s; stack = stack }) (suc bound)
    → Going (step (record { state = s; stack = stack })) bound
unfolding step size
step-Going s [] bound g = record {
  queue = g.queue;
  low = g.low;
  until = g.until;
  ordered = g.ordered;
  drained = g.drained;
  small = inl refl;
}
step-Going s (running returns ∷ stack) bound g = record {
  queue = g.queue;
  low = g.low;
  until = g.until;
  ordered = g.ordered;
  drained = g.drained;
  small = inr (omega (arith, busy g.small));
}
step-Going s (running (registers c p) ∷ stack) bound g =
    on_cancel-Going c (running p ∷ stack) g.ordered g.drained (omega (arith, busy g.small))
step-Going s (running (destroys n p) ∷ stack) bound g = record {
  queue = remove n g.queue;
  low = g.low;
  until = g.until;
  ordered = destroy-Ordered n g.ordered;
  drained = elim g.drained [
    | inl e ↦ inl (fired-destroy s n ∙ e)
    | inr (inl e) ↦ inr (inl (ap (remove n) e))
    | inr (inr e) ↦ inr (inr e)
  ];
  small = inr (omega (arith, busy g.small, waiting-destroy s g.queue n));
}
step-Going s (running (cancels p) ∷ stack) bound g =
    cancel-Going (running p ∷ stack) g.ordered g.drained (omega (arith, busy g.small))
step-Going s (draining ∷ stack) bound g =
    drain-Going s.head stack g.ordered.queue.at_head g.ordered (busy g.small)

pub weaken-Going : {m : Machine} {a b : ℕ} → a ≤ b → Going m a → Going m b
weaken-Going h g = record {
  queue = g.queue;
  low = g.low;
  until = g.until;
  ordered = g.ordered;
  drained = g.drained;
  small = elim g.small [ inl e ↦ inl e | inr k ↦ inr (omega arith) ];
}
