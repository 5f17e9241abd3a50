-- ===== src/Async/RingBuffer/Inv.antt =====
-- The representation invariant of `ring_buffer`.
use kotatsu.Base.{
  ℕ, ◌+◌, ◌-◌, ◌%◌, ◌≤◌, ◌<◌, List, [], ◌∷◌, ◌≡◌, ◌⊎◌, inl, inr, refl, sym, ap, ◌∙◌, arith, length,
  set, length-set, length-replicate,
}
use native.Mathlib.Nat.{mod-lt, mod-eq_of_lt, mod-eq-sub-mod, mod-add-mod}
use native.Mathlib.Decide.{dec_lt}
use kotatsu.Async.RingBuffer.{
  Ring, Span, initial, fill_bytes, consume, allocate, writable, commit, arrive,
}

-- Before the first read nothing is allocated, and nothing is unread.
pub record IsValid (capacity : ℕ) (r : Ring) : Type 0 where
  pub storage : (length r.bytes ≡ capacity) ⊎ ((r.bytes ≡ []) × (r.size ≡ 0))
  pub head_in : r.head < capacity
  pub size_le : r.size ≤ capacity

-- A room that the ring may fill: inside the storage, not empty, and clear of the unread bytes.
pub record IsRoom (capacity : ℕ) (r : Ring) (s : Span) : Type 0 where
  pub allocated : length r.bytes ≡ capacity
  pub starts : s.start ≡ (r.head + r.size) % capacity
  pub inside : s.start + s.count ≤ capacity
  pub some_room : 0 < s.count
  pub clear : r.size + s.count ≤ capacity

pub initial-IsValid : (capacity : ℕ) → 0 < capacity → IsValid capacity initial
initial-IsValid capacity h = ground arith

pub length-fill_bytes :
    (xs bytes : List ℕ) (at : ℕ) → length (fill_bytes bytes at xs) ≡ length bytes
unfolding fill_bytes
length-fill_bytes [] bytes at = refl
length-fill_bytes (x ∷ xs) bytes at =
    length-fill_bytes xs (set bytes at x) (at + 1) ∙ length-set bytes at x

module _ (capacity : ℕ) where
  length-allocate :
      (bytes : List ℕ)
      → (length bytes ≡ capacity) ⊎ (bytes ≡ [])
      → length (allocate capacity bytes) ≡ capacity
  unfolding allocate
  length-allocate [] h = length-replicate capacity 0
  length-allocate (x ∷ xs) h = ground arith

  -- The unread bytes end at `(head + size) % capacity`, which has wrapped once at most.
  pub tail-cases :
      (head size : ℕ)
      → head < capacity
      → size ≤ capacity
      → ((head + size) % capacity ≡ head + size) × (head + size < capacity)
        ⊎ ((head + size) % capacity ≡ head + size - capacity) × (capacity ≤ head + size)
  tail-cases head size h k = elim (dec_lt (head + size) capacity) [
    | yes p ↦ inl (mod-eq_of_lt p, p)
    | no p ↦ inr (
      mod-eq-sub-mod {n = head + size} {m = capacity} (omega arith)
          ∙ mod-eq_of_lt {n = head + size - capacity} {m = capacity} (omega arith),
      omega arith,
    )
  ]

  pub writable-IsRoom :
      (r : Ring)
      → IsValid capacity r
      → r.size < capacity
      → IsRoom capacity (writable capacity r).0 (writable capacity r).1
  unfolding writable
  writable-IsRoom r v h =
      ground (arith, length-allocate r.bytes, tail-cases r.head r.size, tail-cases 0 r.size)

  pub writable-IsValid :
      (r : Ring) → IsValid capacity r → r.size < capacity → IsValid capacity (writable capacity r).0
  unfolding writable
  writable-IsValid r v h = ground (arith, length-allocate r.bytes)

  pub consume-IsValid :
      (n : ℕ) (r : Ring) → IsValid capacity r → n ≤ r.size → IsValid capacity (consume capacity n r)
  unfolding consume
  consume-IsValid n r v h = ground (arith, mod-lt (r.head + n) {m = capacity})

  pub arrive-IsValid :
      (xs : List ℕ) (s : Span) (r : Ring)
      → IsValid capacity r
      → IsRoom capacity r s
      → length xs ≤ s.count
      → IsValid capacity (arrive capacity xs s r)
  unfolding arrive commit
  arrive-IsValid xs s r v m k = ground (arith, length-fill_bytes xs r.bytes s.start)

  -- Room that the event loop holds stays what it was when the reader takes bytes.
  pub consume-IsRoom :
      (n : ℕ) (r : Ring) (s : Span)
      → IsRoom capacity r s
      → n ≤ r.size
      → IsRoom capacity (consume capacity n r) s
  unfolding consume
  consume-IsRoom n r s m h = record {
    allocated = m.allocated;
    starts =
        m.starts
        ∙ ap (λ k. k % capacity) (omega arith)
        ∙ sym (mod-add-mod (r.head + n) capacity (r.size - n));
    inside = m.inside;
    some_room = m.some_room;
    clear = omega (arith, m.clear);
  }
