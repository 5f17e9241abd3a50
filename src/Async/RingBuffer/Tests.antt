-- ===== src/Async/RingBuffer/Tests.antt =====
-- A ring of four bytes that has wrapped, at fixed inputs.
use kotatsu.Base.{◌+◌, ◌≤◌, ◌<◌, true, false, [], ◌∷◌, ◌++◌, ◌≡◌, ◌⊎◌, inl, refl, arith, take, none}
use kotatsu.Async.RingBuffer.{
  Ring, shown, fill_bytes, readable, allocate, writable, commit, arrive, receive,
}
use kotatsu.Async.RingBuffer.Stream.{
  Stream, new_stream, read, fill, write_room, on_alloc, on_read, take_bytes,
}
use kotatsu.Async.RingBuffer.Inv.{IsValid, IsRoom, writable-IsRoom}
use kotatsu.Async.RingBuffer.Contents.{contents, readable_lem, contents-receive}
use kotatsu.Async.RingBuffer.Queue.{Runs, start, fills, alloc, arrives, takes, Runs-fifo}

-- The bytes 3 and 4 at the end of the storage, 5 at its start.
abbrev wrapped : Ring
wrapped = record { bytes = 5 ∷ 0 ∷ 3 ∷ 4 ∷ []; head = 2; size = 3 }

wrapped-IsValid : IsValid 4 wrapped
wrapped-IsValid = record { storage = inl refl; head_in = omega arith; size_le = omega arith }

received : receive 4 (6 ∷ []) wrapped ≡ record { bytes = 5 ∷ 6 ∷ 3 ∷ 4 ∷ []; head = 2; size = 4 }
unfolding receive arrive writable allocate fill_bytes commit
received = refl

writable-IsRoom_example : IsRoom 4 (writable 4 wrapped).0 (writable 4 wrapped).1
writable-IsRoom_example = writable-IsRoom 4 wrapped wrapped-IsValid (omega arith)

readable_lem_example :
    (shown wrapped.bytes (readable 4 wrapped)
      ≡ take (readable 4 wrapped).count (contents 4 wrapped))
    × (readable 4 wrapped).start + (readable 4 wrapped).count ≤ 4
    × ((wrapped.size ≡ 0) ⊎ (0 < (readable 4 wrapped).count))
readable_lem_example = readable_lem 4 wrapped wrapped-IsValid

contents-receive_example : contents 4 (receive 4 (6 ∷ []) wrapped) ≡ contents 4 wrapped ++ 6 ∷ []
unfolding writable allocate
contents-receive_example =
    contents-receive 4 (6 ∷ []) wrapped wrapped-IsValid (omega arith) (omega arith)

-- A stream reads two bytes; the next read has its room when the reader takes both, and brings one byte.
abbrev asked : Stream
asked = fill true new_stream

abbrev two_read : Stream
two_read = on_read 4 (read 2) (write_room (7 ∷ 8 ∷ []) (on_alloc 4 asked).1 (on_alloc 4 asked).0)

abbrev again : Stream
again = (on_alloc 4 two_read).0

abbrev ending : Stream
ending = on_read 4 (read 1) (write_room (9 ∷ []) (on_alloc 4 two_read).1 (take_bytes 4 2 again))

a_run :
    Runs 4
      (([] ++ 7 ∷ 8 ∷ []) ++ 9 ∷ [])
      ([] ++ take 2 (shown again.buffer.bytes (readable 4 again.buffer)))
      ending
      none
unfolding readable writable on_alloc on_read commit fill_bytes allocate take_bytes
a_run =
    arrives (9 ∷ [])
      (takes 2 (alloc (arrives (7 ∷ 8 ∷ []) (alloc (fills true start) refl) (omega arith)) refl)
        (omega arith))
      (omega arith)

Runs-fifo_example :
    IsValid 4 ending.buffer
    × ((ending.reading ≡ false) ⊎ (ending.buffer.size < 4))
    × (([] ++ 7 ∷ 8 ∷ []) ++ 9 ∷ []
        ≡ ([] ++ take 2 (shown again.buffer.bytes (readable 4 again.buffer)))
          ++ contents 4 ending.buffer)
Runs-fifo_example = Runs-fifo 4 (omega arith) a_run

-- The byte that came into the room behind the two is the one that is left.
left_over : contents 4 ending.buffer ≡ 9 ∷ []
unfolding readable writable on_alloc on_read commit fill_bytes allocate take_bytes
left_over = refl

-- A read that fills the ring stops the stream.
stopped :
    (on_read 4 (read 1) (record { buffer = wrapped; reading = true; ended = false })).reading
    ≡ false
unfolding on_read commit
stopped = refl
