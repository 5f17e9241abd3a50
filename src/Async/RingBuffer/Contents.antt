-- ===== src/Async/RingBuffer/Contents.antt =====
-- What the operations of `ring_buffer` do to the unread bytes, oldest first.
use kotatsu.Base.{
  ℕ, zero, suc, ◌+◌, ◌-◌, ◌%◌, ◌≤◌, ◌<◌, List, [], ◌∷◌, ◌++◌, ◌≡◌, ◌⊎◌, refl, sym, ap, ap₂, ◌∙◌,
  arith, min, length, set, get_or, take, drop, get_or-set_self, get_or-set_ne, length-set, tabulate,
  tabulate_ext, tabulate-add, tabulate-get_or, drop-tabulate, take-tabulate, get_or-drop,
  eq-tabulate, get_or-take, length-take, length-drop, length-tabulate,
}
use native.Mathlib.Nat.{mod-eq_of_lt, mod-add-mod}
use kotatsu.Async.RingBuffer.{
  Ring, Span, fill_bytes, shown, readable, consume, allocate, writable, commit, arrive, receive,
}
use kotatsu.Async.RingBuffer.Inv.{IsValid, IsRoom, tail-cases, writable-IsRoom, writable-IsValid}

-- An element of a filled storage.
get_or-fill_bytes_lt :
    (xs bytes : List ℕ) (at j : ℕ) → j < at → get_or (fill_bytes bytes at xs) j 0 ≡ get_or bytes j 0
unfolding fill_bytes
get_or-fill_bytes_lt [] bytes at j h = refl
get_or-fill_bytes_lt (x ∷ xs) bytes at j h =
    get_or-fill_bytes_lt xs (set bytes at x) (at + 1) j (omega arith)
    ∙ get_or-set_ne bytes {i = at} {j = j} x 0 (omega arith)

get_or-fill_bytes_ge :
    (xs bytes : List ℕ) (at j : ℕ)
    → at + length xs ≤ j
    → get_or (fill_bytes bytes at xs) j 0 ≡ get_or bytes j 0
unfolding fill_bytes
get_or-fill_bytes_ge [] bytes at j h = refl
get_or-fill_bytes_ge (x ∷ xs) bytes at j h =
    get_or-fill_bytes_ge xs (set bytes at x) (at + 1) j (omega arith)
    ∙ get_or-set_ne bytes {i = at} {j = j} x 0 (omega arith)

get_or-fill_bytes_in :
    (xs bytes : List ℕ) (at k : ℕ)
    → at + length xs ≤ length bytes
    → k < length xs
    → get_or (fill_bytes bytes at xs) (at + k) 0 ≡ get_or xs k 0
unfolding fill_bytes
get_or-fill_bytes_in [] bytes at k h l = absurd (omega arith)
get_or-fill_bytes_in (x ∷ xs) bytes at zero h l =
    let e : at + zero ≡ at = omega arith in
    rw e (
      get_or-fill_bytes_lt xs (set bytes at x) (at + 1) at (omega arith)
      ∙ get_or-set_self bytes at x 0 (omega arith))
get_or-fill_bytes_in (x ∷ xs) bytes at (suc k) h l =
    let e : at + suc k ≡ at + 1 + k = omega arith in
    rw e (
      get_or-fill_bytes_in xs (set bytes at x) (at + 1) k (omega (arith, length-set bytes at x))
        (omega arith))

module _ (capacity : ℕ) where
  -- The i-th unread byte lies at `(head + i) % capacity`.
  abbrev pub unread : Ring → ℕ → ℕ
  unread r i = get_or r.bytes ((r.head + i) % capacity) 0

  -- The unread bytes, oldest first.
  abbrev pub contents : Ring → List ℕ
  contents r = tabulate r.size (unread r)

  pub length-contents : (r : Ring) → length (contents r) ≡ r.size
  length-contents r = length-tabulate r.size _

  -- The unread bytes before the end of the storage lie in one piece.
  shown_prefix :
      (r : Ring)
      → IsValid capacity r
      → (c : ℕ) → c ≤ r.size
      → r.head + c ≤ capacity
      → take c (drop r.head r.bytes) ≡ take c (contents r)
  shown_prefix r v c h k =
      eq-tabulate (take c (drop r.head r.bytes)) c (unread r) 0
        (omega
          (arith, length-take c (drop r.head r.bytes), length-drop r.head r.bytes, length_bytes))
        (λ i l.
          get_or-take c i (drop r.head r.bytes) 0 l
          ∙ get_or-drop r.head i r.bytes 0
          ∙ ap (λ j. get_or r.bytes j 0) (sym (mod-eq_of_lt (omega arith))))
      ∙ sym (take-tabulate c r.size (unread r) h)
    where
      length_bytes : (length r.bytes ≡ capacity) ⊎ (r.size ≡ 0)
      length_bytes = ground (arith, v.storage)

  -- What `readable()` shows of a valid ring lies in the storage and is the oldest unread bytes, in
  -- order, and some of them unless there are none.
  pub readable_lem :
      (r : Ring)
      → IsValid capacity r
      → (shown r.bytes (readable capacity r) ≡ take (readable capacity r).count (contents r))
        × (readable capacity r).start + (readable capacity r).count ≤ capacity
        × ((r.size ≡ 0) ⊎ (0 < (readable capacity r).count))
  unfolding readable
  readable_lem r v = (
    shown_prefix r v (min r.size (capacity - r.head)) (omega arith) (omega arith),
    omega arith,
    ground arith,
  )

  -- `consume(n)` drops the n oldest unread bytes.
  pub contents-consume :
      (n : ℕ) (r : Ring) → n ≤ r.size → contents (consume capacity n r) ≡ drop n (contents r)
  unfolding consume
  contents-consume n r h =
      tabulate_ext (r.size - n) _ _ (λ i l.
        ap (λ k. get_or r.bytes k 0)
          (mod-add-mod (r.head + n) capacity i ∙ ap (λ k. k % capacity) (omega arith)))
      ∙ sym (drop-tabulate n r.size (unread r) h)

  allocate_kept :
      (r : Ring) → IsValid capacity r → (i : ℕ) → i < r.size → allocate capacity r.bytes ≡ r.bytes
  unfolding allocate
  allocate_kept r v i l = ground arith

  pub contents-writable :
      (r : Ring) → IsValid capacity r → contents (writable capacity r).0 ≡ contents r
  unfolding writable
  contents-writable r v = tabulate_ext r.size _ _ (λ i l. ground (arith, allocate_kept r v i))

  contents-fill_bytes :
      (r : Ring) (s : Span) (xs : List ℕ)
      → IsValid capacity r
      → IsRoom capacity r s
      → length xs ≤ s.count
      → contents (commit capacity (length xs) (record r { bytes = fill_bytes r.bytes s.start xs }))
        ≡ contents r ++ xs
  unfolding commit
  contents-fill_bytes r s xs v m h =
      tabulate-add r.size (length xs) _
      ∙ ap₂ ◌++◌ (tabulate_ext r.size _ (unread r) (λ i l. old i l))
          (tabulate_ext (length xs) _ (λ i. get_or xs i 0) (λ i l. new i l) ∙ tabulate-get_or xs 0)
    where
      old :
          (i : ℕ)
          → i < r.size
          → get_or (fill_bytes r.bytes s.start xs) ((r.head + i) % capacity) 0 ≡ unread r i
      old i l = ground (
        arith,
        tail-cases capacity r.head i,
        tail-cases capacity r.head r.size,
        get_or-fill_bytes_lt xs r.bytes s.start ((r.head + i) % capacity),
        get_or-fill_bytes_ge xs r.bytes s.start ((r.head + i) % capacity),
      )

      new :
          (i : ℕ)
          → i < length xs
          → get_or (fill_bytes r.bytes s.start xs) ((r.head + (r.size + i)) % capacity) 0
            ≡ get_or xs i 0
      new i l =
          let e : (r.head + (r.size + i)) % capacity ≡ s.start + i =
            ap (λ k. k % capacity) (omega arith)
            ∙ sym (mod-add-mod (r.head + r.size) capacity i)
            ∙ ap (λ k. (k + i) % capacity) (sym m.starts)
            ∙ mod-eq_of_lt (omega arith) in
          rw e (get_or-fill_bytes_in xs r.bytes s.start i (omega arith) l)

  -- Bytes that arrive in the room go behind those unread then.
  pub contents-arrive :
      (xs : List ℕ) (s : Span) (r : Ring)
      → IsValid capacity r
      → IsRoom capacity r s
      → length xs ≤ s.count
      → contents (arrive capacity xs s r) ≡ contents r ++ xs
  unfolding arrive
  contents-arrive xs s r v m h = contents-fill_bytes r s xs v m h

  -- A read puts its bytes behind those unread before it.
  pub contents-receive :
      (xs : List ℕ) (r : Ring)
      → IsValid capacity r
      → r.size < capacity
      → length xs ≤ (writable capacity r).1.count
      → contents (receive capacity xs r) ≡ contents r ++ xs
  unfolding receive
  contents-receive xs r v h k =
      contents-arrive xs (writable capacity r).1 (writable capacity r).0
        (writable-IsValid capacity r v h) (writable-IsRoom capacity r v h) k
      ∙ ap (λ ys. ys ++ xs) (contents-writable r v)
