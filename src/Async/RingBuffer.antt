-- ===== src/Async/RingBuffer.antt =====
-- src/async/io/ring_buffer.{h,cpp}: the bytes a stream has read and its reader has not consumed. `Stream`
-- has what src/async/io/stream.cpp does with it.
-- The class's constant `capacity` is a parameter here, `stream_capacity` its value. A span is its
-- offset in the storage and its length. `assert`s are premises of the theorems.
pub mod Contents
pub mod Inv
pub mod Stream
pub mod Queue
mod Tests
use kotatsu.Base.{
  ℕ, ◌+◌, ◌-◌, ◌*◌, ◌%◌, Bool, List, [], ◌∷◌, min, length, set, replicate, take, drop, ltb, ◌==◌,
  if◌then◌else◌,
}

pub record Ring : Type 0 where
  pub bytes : List ℕ
  pub head : ℕ
  pub size : ℕ

pub record Span : Type 0 where
  pub start : ℕ
  pub count : ℕ

abbrev pub stream_capacity : ℕ
stream_capacity = 64 * 1024

-- The state of a new ring: nothing is allocated before the first read.
abbrev pub initial : Ring
initial = record { bytes = []; head = 0; size = 0 }

abbrev pub empty : Ring → Bool
empty r = r.size == 0

-- The bytes that a span of the storage shows.
abbrev pub shown : List ℕ → Span → List ℕ
shown bytes s = take s.count (drop s.start bytes)

-- What the event loop's read does between `writable()` and `commit()`: it puts bytes at an offset.
pub fill_bytes : List ℕ → ℕ → List ℕ → List ℕ
fill_bytes bytes at [] = bytes
fill_bytes bytes at (x ∷ xs) = fill_bytes (set bytes at x) (at + 1) xs

module _ (capacity : ℕ) where
  abbrev pub full : Ring → Bool
  full r = r.size == capacity

  unfoldable pub readable : Ring → Span
  readable r = record { start = r.head; count = min r.size (capacity - r.head) }

  unfoldable pub consume : ℕ → Ring → Ring
  consume n r = record r { size = r.size - n; head = (r.head + n) % capacity }

  -- `if(data.empty()) data.resize(capacity);`
  allocate : List ℕ → List ℕ
  allocate [] = replicate capacity 0
  allocate (x ∷ xs) = x ∷ xs

  unfoldable pub writable : Ring → Ring × Span
  unfolding allocate
  writable r =
      let r' : Ring = record r { bytes = allocate r.bytes; head = if empty r then 0 else r.head } in
      let tail = (r'.head + r'.size) % capacity in
      (
        r',
        record {
          start = tail;
          count = if ltb tail r'.head then r'.head - tail else capacity - tail;
        },
      )

  unfoldable pub commit : ℕ → Ring → Ring
  commit n r = record r { size = r.size + n }

  -- Bytes that the event loop has put at the front of the room `s`, committed.
  unfoldable pub arrive : List ℕ → Span → Ring → Ring
  unfolding commit
  arrive xs s r = commit (length xs) (record r { bytes = fill_bytes r.bytes s.start xs })

  -- A read with no take between `writable` and `commit`.
  unfoldable pub receive : List ℕ → Ring → Ring
  unfolding writable arrive
  receive xs r = let (r', room) = writable r in arrive xs room r'
