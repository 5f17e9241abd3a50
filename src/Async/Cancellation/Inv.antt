-- ===== src/Async/Cancellation/Inv.antt =====
-- The order of the callbacks of a source between two steps: those that ran and those still to run.
use kotatsu.Base.{
  ℕ, suc, ◌+◌, ◌≤◌, ◌<◌, true, false, ◌||◌, List, [], ◌∷◌, ◌++◌, ◌≡◌, ◌⊎◌, inl, inr, refl, sym, ap,
  ◌∙◌, arith, ◌==◌, Bool-cases,
}
use kotatsu.Async.Cancellation.{Callback, State, unlink, destroy, register}
use kotatsu.Async.Cancellation.Links.{has, remove, Ascending, cons, above}
use kotatsu.Async.Cancellation.Remove.{remove-Ascending, has-remove}
use kotatsu.Async.Cancellation.Queue.{
  IsQueue, unlink-IsQueue, unlink-Kept, register-IsQueue, register_by, recorded-IsQueue,
  append-Ascending, has-append, tail-fresh, passed-IsQueue,
}

-- Descending, all below a limit.
pub data Descending : ℕ → List ℕ → Type 0 where
  none_ran : {limit : ℕ} → Descending limit []
  one_before : {limit x : ℕ} {xs : List ℕ} → x < limit → Descending x xs → Descending limit (x ∷ xs)

-- Descending, all below a limit and none below `until`.
pub data Above (until : ℕ) : ℕ → List ℕ → Type 0 where
  none_above : {limit : ℕ} → until ≤ limit → Above until limit []
  one_above :
      {limit x : ℕ} {xs : List ℕ} → x < limit → Above until x xs → Above until limit (x ∷ xs)

-- Each of one list and each of the other, once, in the order they have there.
pub data Interleaved : List ℕ → List ℕ → List ℕ → Type 0 where
  neither : Interleaved [] [] []
  from_first : {xs ys zs : List ℕ} (n : ℕ) → Interleaved xs ys zs → Interleaved (n ∷ xs) ys (n ∷ zs)
  from_second :
      {xs ys zs : List ℕ} (n : ℕ) → Interleaved xs ys zs → Interleaved xs (n ∷ ys) (n ∷ zs)

-- What `cancel` has called was registered before all that is still on the list, this before what was
-- called at once, from the number `until` on, and what is gone is none of these.
pub record Ordered (s : State) (xs : List ℕ) (low until : ℕ) : Type 0 where
  pub queue : IsQueue s xs
  pub later : Ascending until low xs
  pub earlier : Descending low s.calls.drained
  pub at_once : Above until s.fresh s.calls.at_once
  pub before : (s.fired ≡ true) ⊎ ((until ≡ s.fresh) × (s.calls.at_once ≡ []))
  pub called : Interleaved s.calls.at_once s.calls.drained s.ran
  pub gone_neither :
      (n : ℕ) → has n s.gone ≡ true → (n < s.fresh) × (has n xs ≡ false) × (has n s.ran ≡ false)
  pub accounted : (n : ℕ) → n < s.fresh → (has n xs || has n s.ran || has n s.gone) ≡ true

below-Descending :
    {limit : ℕ} {xs : List ℕ} (n : ℕ) → Descending limit xs → has n xs ≡ true → n < limit
below-Descending n none_ran h = absurd (ground arith)
below-Descending n (one_before {x} l d) h = elim (Bool-cases (n == x)) [
  | inl e ↦ ground arith
  | inr e ↦ ground (arith, below-Descending n d)
]

pub weaken-Descending :
    {limit limit' : ℕ} {xs : List ℕ} → limit ≤ limit' → Descending limit xs → Descending limit' xs
weaken-Descending h none_ran = none_ran
weaken-Descending h (one_before l d) = one_before (omega arith) d

bounds-Above : {until limit : ℕ} {xs : List ℕ} → Above until limit xs → until ≤ limit
bounds-Above (none_above l) = l
bounds-Above (one_above l d) = omega (arith, bounds-Above d)

least_le :
    {until limit : ℕ} {xs : List ℕ} (n : ℕ) → Above until limit xs → has n xs ≡ true → until ≤ n
least_le n (none_above l) h = absurd (ground arith)
least_le n (one_above {x} l d) h = elim (Bool-cases (n == x)) [
  | inl e ↦ ground (arith, bounds-Above d)
  | inr e ↦ ground (arith, least_le n d)
]

pub Above-Descending :
    {until limit : ℕ} {xs ys : List ℕ}
    → Above until limit xs
    → Descending until ys
    → Descending limit (xs ++ ys)
Above-Descending (none_above l) d = weaken-Descending l d
Above-Descending (one_above l a) d = one_before l (Above-Descending a d)

has-Interleaved :
    {xs ys zs : List ℕ} (n : ℕ) → Interleaved xs ys zs → has n zs ≡ (has n xs || has n ys)
has-Interleaved n neither = refl
has-Interleaved n (from_first m i) = ground (arith, has-Interleaved n i)
has-Interleaved n (from_second m i) = ground (arith, has-Interleaved n i)

parts-Ascending :
    {high low x : ℕ} {xs : List ℕ}
    → Ascending high low (x ∷ xs)
    → (low ≤ x) × Ascending high (suc x) xs
parts-Ascending (cons l a) = (l, a)

pub register-Ordered :
    {s : State} {xs : List ℕ} {low until : ℕ} (c : Callback)
    → Ordered s xs low until
    → s.fired ≡ false
    → Ordered (register c s) (xs ++ (s.fresh ∷ [])) low (s.fresh + 1)
register-Ordered {s} {xs} {low} {until} c o f =
    let now : (until ≡ s.fresh) × (s.calls.at_once ≡ []) = ground (arith, o.before, f) in
    let by = register_by s c s.tail refl (tail-fresh o.queue) in
    record {
      queue = register-IsQueue c o.queue;
      later = append-Ascending (rw now.0 at o.later);
      earlier = rw by.7 o.earlier;
      at_once = rw (by.2, by.7, now.1) (none_above (omega arith));
      before = inr (sym by.2, ap (λ k. k.at_once) by.7 ∙ now.1);
      called = rw (by.5, by.7) o.called;
      gone_neither = λ n h.
          let old = o.gone_neither n (rw (sym by.6) h) in
          rw (by.2, by.5, has-append n s.fresh xs) (ground (arith, old));
      accounted =
          λ n h. ground (arith, by.2, h, o.accounted n, by.5, by.6, has-append n s.fresh xs);
    }

remove-absent : (n : ℕ) (xs : List ℕ) → has n xs ≡ false → remove n xs ≡ xs
remove-absent n [] h = refl
remove-absent n (x ∷ xs) h =
    let e : (n == x) ≡ false = ground arith in
    rw e (ap (λ ys. x ∷ ys) (remove-absent n xs (ground arith)))

pub destroy-Ordered :
    {s : State} {xs : List ℕ} {low until : ℕ} (n : ℕ)
    → Ordered s xs low until
    → Ordered (destroy n s) (remove n xs) low until
unfolding destroy
destroy-Ordered {s} {xs} n o = elim (Bool-cases (s.nodes n).linked) [
  | inl e ↦
      let inside : has n xs ≡ true = sym (o.queue.marks n) ∙ e in
      let kept = unlink-Kept s n in
      let far = above n o.later inside in
      rw e (record {
        queue =
            recorded-IsQueue (unlink n s).fired (unlink n s).ran (n ∷ s.gone) (unlink n s).calls
              (unlink-IsQueue n o.queue inside);
        later = remove-Ascending n o.later;
        earlier = rw kept.4 o.earlier;
        at_once = rw (kept.1, kept.4) o.at_once;
        before = rw (kept.0, kept.1, kept.4) o.before;
        called = rw (kept.2, kept.4) o.called;
        gone_neither = λ m h.
            let old = o.gone_neither m in
            let run_before = below-Descending n o.earlier in
            let run_after = least_le n o.at_once in
            let run = has-Interleaved n o.called in
            let passed = bounds-Above o.at_once in
            rw (kept.1, kept.2, has-remove n m o.later)
              (ground (arith, kept.3, h, old, far, run_before, run_after, run, passed));
        accounted = λ m h.
            let old = o.accounted m (rw (sym kept.1) h) in
            rw (kept.2, has-remove n m o.later) (ground (arith, kept.3, old));
      })
  | inr e ↦
      let absent : remove n xs ≡ xs = remove-absent n xs (sym (o.queue.marks n) ∙ e) in
      rw (e, absent) o
]

-- Taking the first of the list off and running its callback.
pub take-Ordered :
    {s : State} {xs : List ℕ} {low until n : ℕ}
    → Ordered s (n ∷ xs) low until
    → let u = unlink n s in
      Ordered
        (record u { ran = n ∷ s.ran; calls = record s.calls { drained = n ∷ s.calls.drained } })
        xs
        (suc n)
        until
take-Ordered {s} {xs} {low} {until} {n} o =
    let kept = unlink-Kept s n in
    let here : (n == n) ≡ true = ground arith in
    let alone : remove n (n ∷ xs) ≡ xs = rw here refl in
    let inside : has n (n ∷ xs) ≡ true = rw here refl in
    let parts = parts-Ascending o.later in
    record {
      queue =
          recorded-IsQueue (unlink n s).fired (n ∷ s.ran) (unlink n s).gone
            (record s.calls { drained = n ∷ s.calls.drained })
            (rw alone at (unlink-IsQueue n o.queue inside));
      later = parts.1;
      earlier = one_before (omega arith) (weaken-Descending parts.0 o.earlier);
      at_once = rw kept.1 o.at_once;
      before = rw (kept.0, kept.1) o.before;
      called = from_second n o.called;
      gone_neither =
          λ m h. let old = o.gone_neither m (rw (sym kept.3) h) in rw kept.1 (ground (arith, old));
      accounted =
          λ m h. let old = o.accounted m (rw (sym kept.1) h) in rw kept.3 (ground (arith, old));
    }

-- A callback that is called at once, with the source fired.
pub call-Ordered :
    {s : State} {xs : List ℕ} {low until : ℕ}
    → Ordered s xs low until
    → s.fired ≡ true
    → Ordered
        (record s {
          fresh = s.fresh + 1;
          ran = s.fresh ∷ s.ran;
          calls = record s.calls { at_once = s.fresh ∷ s.calls.at_once };
        })
        xs
        low
        until
call-Ordered {s} {xs} o f = record {
  queue =
      recorded-IsQueue s.fired (s.fresh ∷ s.ran) s.gone
        (record s.calls { at_once = s.fresh ∷ s.calls.at_once }) (passed-IsQueue o.queue);
  later = o.later;
  earlier = o.earlier;
  at_once = one_above (omega arith) o.at_once;
  before = inl f;
  called = from_first s.fresh o.called;
  gone_neither = λ n h. ground (arith, o.gone_neither n h);
  accounted = λ n h. ground (arith, h, o.accounted n);
}
