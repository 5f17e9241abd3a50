-- ===== src/Async/RingBuffer/Queue.antt =====
-- A stream's buffer over its whole life: what the event loop read and what its reader took.
use kotatsu.Base.{
  ℕ, suc, ◌≤◌, ◌<◌, Bool, not, if-cases, true, false, List, [], ◌∷◌, ◌++◌, append-nil, append_assoc,
  Option, none, some, ◌≡◌, ◌⊎◌, inl, inr, refl, ap, sym, ◌∙◌, arith, length, take, take-take,
  take-append-drop, ◌==◌,
}
use kotatsu.Async.RingBuffer.{Ring, Span, fill_bytes, empty, full, shown, readable, consume, arrive}
use kotatsu.Async.RingBuffer.Stream.{
  Stream, new_stream, failed, read, fill, stop_reading, stop_full, write_room, on_alloc, on_read,
  take_bytes,
}
use kotatsu.Async.RingBuffer.Inv.{
  IsValid, IsRoom, initial-IsValid, consume-IsValid, consume-IsRoom, writable-IsValid,
  writable-IsRoom, arrive-IsValid,
}
use kotatsu.Async.RingBuffer.Contents.{
  contents, readable_lem, contents-consume, contents-writable, contents-arrive,
}

-- `Runs capacity got taken s room`: from a new stream, reads of the bytes `got` in all and a reader that
-- took the bytes `taken` in all, from what `readable()` showed it, lead to `s`, and `room` is the room
-- of the read under way. The reader fills, takes bytes and stops at any time, a read under way or not;
-- the event loop takes room while it is told to read.
pub data Runs (capacity : ℕ) : List ℕ → List ℕ → Stream → Option Span → Type 0 where
  start : Runs capacity [] [] new_stream none
  fills :
      {got taken : List ℕ} {s : Stream} {room : Option Span} (started : Bool)
      → Runs capacity got taken s room
      → Runs capacity got taken (fill started s) room
  stops :
      {got taken : List ℕ} {s : Stream} {room : Option Span}
      → Runs capacity got taken s room
      → Runs capacity got taken (stop_reading s) room
  alloc :
      {got taken : List ℕ} {s : Stream}
      → Runs capacity got taken s none
      → s.reading ≡ true
      → Runs capacity got taken (on_alloc capacity s).0 (some (on_alloc capacity s).1)
  arrives :
      {got taken : List ℕ} {s : Stream} {room : Span} (xs : List ℕ)
      → Runs capacity got taken s (some room)
      → length xs ≤ room.count
      → Runs capacity
          (got ++ xs)
          taken
          (on_read capacity (read (length xs)) (write_room xs room s))
          none
  fails :
      {got taken : List ℕ} {s : Stream} {room : Option Span}
      → Runs capacity got taken s room
      → Runs capacity got taken (on_read capacity failed s) none
  takes :
      {got taken : List ℕ} {s : Stream} {room : Option Span} (n : ℕ)
      → Runs capacity got taken s room
      → n ≤ (readable capacity s.buffer).count
      → Runs capacity got
          (taken ++ take n (shown s.buffer.bytes (readable capacity s.buffer)))
          (take_bytes capacity n s)
          room

module _ (capacity : ℕ) where
  -- The room of a read under way is one that the ring may fill, now as when it was given.
  data Holds (r : Ring) : Option Span → Type 0 where
    no_read : Holds r none
    a_read : {room : Span} → IsRoom capacity r room → Holds r (some room)

  Holds-IsRoom : {r : Ring} {room : Span} → Holds r (some room) → IsRoom capacity r room
  Holds-IsRoom (a_read m) = m

  -- The stream reads only while its ring has room.
  record Fits (got taken : List ℕ) (s : Stream) (room : Option Span) : Type 0 where
    valid : IsValid capacity s.buffer
    holds : Holds s.buffer room
    reads : (s.reading ≡ false) ⊎ (s.buffer.size < capacity)
    kept : got ≡ taken ++ contents capacity s.buffer

  fill-Fits :
      {got taken : List ℕ} {s : Stream} {room : Option Span} (started : Bool)
      → 0 < capacity
      → Fits got taken s room
      → Fits got taken (fill started s) room
  fill-Fits {got} {taken} {s} {room} started pos f =
      let P : Stream → Type 0 = λ t. Fits got taken t room in
      if-cases P (not (empty s.buffer)) (λ e. f)
        (λ e.
          if-cases P s.ended (λ k. f)
            (λ k.
              if-cases P s.reading (λ r. f)
                (λ r. record {
                  valid = f.valid;
                  holds = f.holds;
                  reads = inr (ground arith);
                  kept = f.kept;
                })))

  -- A stream that stops once its ring is full.
  stop_full-Fits :
      (s : Stream) {got taken : List ℕ}
      → IsValid capacity s.buffer
      → got ≡ taken ++ contents capacity s.buffer
      → Fits got taken (stop_full capacity s) none
  stop_full-Fits s {got} {taken} v e =
      if-cases (λ t. Fits got taken t none) (full capacity s.buffer)
        (λ h. record { valid = v; holds = no_read; reads = inl refl; kept = e })
        (λ h. record { valid = v; holds = no_read; reads = inr (ground arith); kept = e })

  -- What the stream is after `on_read` of the bytes in its room, none included.
  read-Fits :
      {got taken : List ℕ} {s : Stream} {room : Span} (xs : List ℕ)
      → Fits got taken s (some room)
      → length xs ≤ room.count
      → Fits (got ++ xs) taken (on_read capacity (read (length xs)) (write_room xs room s)) none
  unfolding on_read fill_bytes arrive
  read-Fits {got} [] f h = record {
    valid = f.valid;
    holds = no_read;
    reads = f.reads;
    kept = append-nil got ∙ f.kept;
  }
  read-Fits {got} {taken} {s} {room} (x ∷ xs) f h =
      let m = Holds-IsRoom f.holds in
      let some_read : (suc (length xs) == 0) ≡ false = ground arith in
      rw some_read (
        stop_full-Fits (record s { buffer = arrive capacity (x ∷ xs) room s.buffer })
          (arrive-IsValid capacity (x ∷ xs) room s.buffer f.valid m h)
          (ap (λ ys. ys ++ (x ∷ xs)) f.kept
            ∙ append_assoc taken (contents capacity s.buffer) (x ∷ xs)
            ∙ sym (
                ap (λ ys. taken ++ ys)
                  (contents-arrive capacity (x ∷ xs) room s.buffer f.valid m h))))

  alloc-Fits :
      {got taken : List ℕ} {s : Stream}
      → Fits got taken s none
      → s.reading ≡ true
      → Fits got taken (on_alloc capacity s).0 (some (on_alloc capacity s).1)
  unfolding on_alloc
  alloc-Fits {s = s} f e =
      let fits : s.buffer.size < capacity = ground (arith, f.reads) in
      record {
        valid = writable-IsValid capacity s.buffer f.valid fits;
        holds = a_read (writable-IsRoom capacity s.buffer f.valid fits);
        reads = inr (omega arith);
        kept = rw (contents-writable capacity s.buffer f.valid) f.kept;
      }

  count-readable_le : (r : Ring) → (readable capacity r).count ≤ r.size
  unfolding readable
  count-readable_le r = omega arith

  consume-Holds :
      (n : ℕ) {r : Ring} {room : Option Span}
      → n ≤ r.size
      → Holds r room
      → Holds (consume capacity n r) room
  consume-Holds n h no_read = no_read
  consume-Holds n {r} h (a_read {room} m) = a_read (consume-IsRoom capacity n r room m h)

  size-consume_lt :
      (n : ℕ) (r : Ring) → n ≤ r.size → r.size < capacity → (consume capacity n r).size < capacity
  unfolding consume
  size-consume_lt n r l k = omega arith

  take_bytes-Fits :
      {got taken : List ℕ} {s : Stream} {room : Option Span} (n : ℕ)
      → Fits got taken s room
      → n ≤ (readable capacity s.buffer).count
      → Fits got
          (taken ++ take n (shown s.buffer.bytes (readable capacity s.buffer)))
          (take_bytes capacity n s)
          room
  unfolding take_bytes
  take_bytes-Fits {s = s} n f h =
      let l : n ≤ s.buffer.size = omega (arith, count-readable_le s.buffer) in
      record {
        valid = consume-IsValid capacity n s.buffer f.valid l;
        holds = consume-Holds n l f.holds;
        reads = elim f.reads [ inl e ↦ inl e | inr k ↦ inr (size-consume_lt n s.buffer l k) ];
        kept =
            rw
              (
                (readable_lem capacity s.buffer f.valid).0,
                take-take n (readable capacity s.buffer).count (contents capacity s.buffer) h,
                contents-consume capacity n s.buffer l,
                append_assoc,
                take-append-drop,
              )
              f.kept;
      }

  Runs-Fits :
      {got taken : List ℕ} {s : Stream} {room : Option Span}
      → 0 < capacity
      → Runs capacity got taken s room
      → Fits got taken s room
  unfolding on_read
  Runs-Fits pos start = record {
    valid = initial-IsValid capacity pos;
    holds = no_read;
    reads = inl refl;
    kept = refl;
  }
  Runs-Fits pos (fills started run) = fill-Fits started pos (Runs-Fits pos run)
  Runs-Fits pos (stops run) =
      let f = Runs-Fits pos run in
      record { valid = f.valid; holds = f.holds; reads = inl refl; kept = f.kept }
  Runs-Fits pos (alloc run e) = alloc-Fits (Runs-Fits pos run) e
  Runs-Fits pos (arrives xs run h) = read-Fits xs (Runs-Fits pos run) h
  Runs-Fits pos (fails run) =
      let f = Runs-Fits pos run in
      record { valid = f.valid; holds = no_read; reads = inl refl; kept = f.kept }
  Runs-Fits pos (takes n run h) = take_bytes-Fits n (Runs-Fits pos run) h

  -- Through any sequence of reads and takes, takes between a read's `on_alloc` and its `on_read`
  -- included, the buffer keeps its invariant, a stream that reads has room in it, and the bytes read are
  -- those taken, in order, followed by those still unread: none is lost, repeated or moved. The
  -- capacity is above 0.
  pub Runs-fifo :
      {got taken : List ℕ} {s : Stream} {room : Option Span}
      → 0 < capacity
      → Runs capacity got taken s room
      → IsValid capacity s.buffer
        × ((s.reading ≡ false) ⊎ (s.buffer.size < capacity))
        × (got ≡ taken ++ contents capacity s.buffer)
  Runs-fifo pos run = let f = Runs-Fits pos run in (f.valid, f.reads, f.kept)
