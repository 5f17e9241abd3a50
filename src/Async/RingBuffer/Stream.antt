-- ===== src/Async/RingBuffer/Stream.antt =====
-- Of src/async/io/stream.cpp and stream_self.h, what fills a stream's buffer: `fill`, `on_alloc`, `on_read`
-- and `stop_reading`. The waiting reader, whom `slot` wakes, is left out, and the error that ended
-- reading is whether there was one. What `uv_read_start` answers is a parameter.
use kotatsu.Base.{ℕ, Bool, true, false, not, List, ◌==◌, if◌then◌else◌}
use kotatsu.Async.RingBuffer.{
  Ring, Span, fill_bytes, initial, empty, full, consume, writable, commit,
}

-- `stream::Self`
pub record Stream : Type 0 where
  pub buffer : Ring
  pub reading : Bool
  pub ended : Bool

abbrev pub new_stream : Stream
new_stream = record { buffer = initial; reading = false; ended = false }

-- What `on_read` is told: an error, or how many bytes, 0 where there was nothing to read.
pub data Nread : Type 0 where
  failed : Nread
  read : ℕ → Nread

abbrev pub stop_reading : Stream → Stream
stop_reading s = record s { reading = false }

-- `fill`, where `uv_read_start` answers `started` to a call that is made.
abbrev pub fill : Bool → Stream → Stream
fill started s =
    if not (empty s.buffer)
    then s
    else if s.ended
    then s
    else if s.reading
    then s
    else record s { reading = started }

-- The event loop puts bytes into the room that it took from `on_alloc`.
abbrev pub write_room : List ℕ → Span → Stream → Stream
write_room xs room s = record s {
  buffer = record s.buffer { bytes = fill_bytes s.buffer.bytes room.start xs };
}

module _ (capacity : ℕ) where
  unfoldable pub on_alloc : Stream → Stream × Span
  unfolding writable
  on_alloc s =
      let (buffer, room) = writable capacity s.buffer in (record s { buffer = buffer }, room)

  abbrev pub stop_full : Stream → Stream
  stop_full s = if full capacity s.buffer then stop_reading s else s

  unfoldable pub on_read : Nread → Stream → Stream
  unfolding commit
  on_read failed s = stop_reading (record s { ended = true })
  on_read (read n) s =
      if n == 0 then s else stop_full (record s { buffer = commit capacity n s.buffer })

  -- What a reader takes of what it was shown.
  unfoldable pub take_bytes : ℕ → Stream → Stream
  unfolding consume
  take_bytes n s = record s { buffer = consume capacity n s.buffer }
