-- ===== src/Ipc/Framing/BodyChunks.antt =====
-- The payload of a frame, read or skipped, in pieces.
use kotatsu.Base.{
  ℕ, ◌+◌, ◌-◌, ◌≤◌, ◌<◌, [], ◌++◌, append_assoc, none, ◌≡◌, refl, sym, ap, ap₂, ◌∙◌, arith,
  append-nil, length, length-append, length-take, length-drop, take, drop, take-all, take-append_ge,
  take-append_le, drop-append_le, drop-append_ge, min, Expected, value, unexpected,
}
use native.Mathlib.Decide.{dec_le}
use kotatsu.Support.Text.{Bytes}
use kotatsu.Ipc.Framing.{
  FrameParser, in_payload, in_skip, Step, skipped_prefix_size, sub64, malformed_step, feed_payload,
  feed_skip, feed_length, feed, oversized_error,
}

-- A step that comes `k` bytes into the input.
abbrev pub advance : ℕ → Step × FrameParser → Step × FrameParser
advance k (s, p) = (record s { consumed = k + s.consumed }, p)

module _ (p : FrameParser) (a b : Bytes) (c : ℕ) (inside : c ≤ length a) where
  drop_both : drop c (a ++ b) ≡ drop c a ++ b
  drop_both = drop-append_le c a b inside

  take_through :
      (n : ℕ)
      → length a - c ≤ n
      → take n (drop c (a ++ b)) ≡ drop c a ++ take (n - (length a - c)) b
  take_through n h =
      rw drop_both
        (rw (← length-drop c a) (take-append_ge n (drop c a) b (omega (arith, length-drop c a))))

  pub feed_payload_more :
      (feed_payload p a c).0.frame ≡ none
      → feed_payload p (a ++ b) c ≡ advance (length a) (feed_payload (feed_payload p a c).1 b 0)
  unfolding feed_payload
  feed_payload_more h =
      let more : length a - c < p.remaining = ground arith in
      let n = min p.remaining (length (a ++ b) - c) in
      let e : n - (length a - c) ≡ min (p.remaining - (length a - c)) (length b) =
        omega (arith, length-append a b) in
      ground (
        arith,
        more,
        length-append a b,
        length-drop c a,
        take-all (min p.remaining (length a - c)) (drop c a),
        take_through n,
        e,
        append_assoc p.payload (drop c a) (take (n - (length a - c)) b),
      )

  -- The bounded part of a skipped frame that is kept.
  keep_through :
      (n room : ℕ)
      → length a - c ≤ n
      → take (min n room) (drop c (a ++ b))
        ≡ take (min (length a - c) room) (drop c a)
          ++ take (min (n - (length a - c)) (room - min (length a - c) room)) b
  keep_through n room h = elim (dec_le (length a - c) room) [
    | yes l ↦
        take_through (min n room) (omega arith)
        ∙ ap₂ ◌++◌
            (sym (take-all (min (length a - c) room) (drop c a) (omega (arith, length-drop c a))))
            (ap (λ k. take k b) (omega arith))
    | no g ↦
        let e : min n room ≡ min (length a - c) room = omega arith in
        let z : min (n - (length a - c)) (room - min (length a - c) room) ≡ 0 = omega arith in
        rw (drop_both, e, z)
          (take-append_le (min (length a - c) room) (drop c a) b (omega (arith, length-drop c a))
            ∙ sym (append-nil _))
  ]

  -- The part of the first piece that is kept, and the parser behind the piece.
  kept : Bytes
  kept = take (min (length a - c) (sub64 skipped_prefix_size (length p.prefix))) (drop c a)

  abbrev behind : FrameParser
  behind = record p { prefix = p.prefix ++ kept; remaining = p.remaining - (length a - c) }

  feed_skip_first :
      length a - c < p.remaining
      → feed_skip p a c ≡ (record { consumed = length a; frame = none }, behind)
  unfolding feed_skip kept
  feed_skip_first more =
      let e : min p.remaining (length a - c) ≡ length a - c = omega arith in rw e (ground arith)

  -- The size of the part of both pieces that is taken, and that of the second one.
  abbrev both : ℕ
  both = min p.remaining (length (a ++ b) - c)

  abbrev second : ℕ
  second = min (p.remaining - (length a - c)) (length b - 0)

  both_eq : length a - c < p.remaining → both ≡ length a - c + second
  both_eq more = omega (arith, length-append a b)

  room_behind :
      length p.prefix ≤ skipped_prefix_size
      → sub64 skipped_prefix_size (length (p.prefix ++ kept))
        ≡ sub64 skipped_prefix_size (length p.prefix)
          - min (length a - c) (sub64 skipped_prefix_size (length p.prefix))
  unfolding kept
  room_behind v =
      let room = sub64 skipped_prefix_size (length p.prefix) in
      omega (
        arith,
        length-append p.prefix kept,
        length-take (min (length a - c) room) (drop c a),
        length-drop c a,
      )

  prefix_joined :
      length p.prefix ≤ skipped_prefix_size
      → length a - c < p.remaining
      → p.prefix ++ take (min both (sub64 skipped_prefix_size (length p.prefix))) (drop c (a ++ b))
        ≡ (p.prefix ++ kept)
          ++ take (min second (sub64 skipped_prefix_size (length (p.prefix ++ kept)))) b
  unfolding kept
  prefix_joined v more =
      let room = sub64 skipped_prefix_size (length p.prefix) in
      let e : both - (length a - c) ≡ second = omega (arith, both_eq more) in
      ap (◌++◌ p.prefix) (keep_through both room (omega (arith, both_eq more)))
      ∙ sym (append_assoc p.prefix kept _)
      ∙ ap₂ (λ n m. (p.prefix ++ kept) ++ take (min n m) b) e (sym (room_behind v))

  feed_skip-behind :
      length p.prefix ≤ skipped_prefix_size
      → length a - c < p.remaining
      → feed_skip p (a ++ b) c ≡ advance (length a) (feed_skip behind b 0)
  unfolding feed_skip oversized_error
  feed_skip-behind v more = rw (prefix_joined v more, both_eq more) (ground arith)

  unfinished : (feed_skip p a c).0.frame ≡ none → length a - c < p.remaining
  unfolding feed_skip
  unfinished h = ground arith

  pub feed_skip_more :
      length p.prefix ≤ skipped_prefix_size
      → (feed_skip p a c).0.frame ≡ none
      → feed_skip p (a ++ b) c ≡ advance (length a) (feed_skip (feed_skip p a c).1 b 0)
  feed_skip_more v h = rw (feed_skip_first (unfinished h)) (feed_skip-behind v (unfinished h))

  pub phase-feed_payload :
      (feed_payload p a c).0.frame ≡ none → (feed_payload p a c).1.phase ≡ p.phase
  unfolding feed_payload
  phase-feed_payload h = ground arith

  pub phase-feed_skip : (feed_skip p a c).0.frame ≡ none → (feed_skip p a c).1.phase ≡ p.phase
  unfolding feed_skip
  phase-feed_skip h = ground arith

module _ (p : FrameParser) (a b : Bytes) (c : ℕ) (inside : c ≤ length a) where
  pub feed_length_more :
      (size : Expected ℕ Bytes)
      → (feed_length p a c size).0.frame ≡ none
      → feed_length p (a ++ b) c size ≡ advance (length a) (feed (feed_length p a c size).1 b)
  unfolding feed_length malformed_step feed
  feed_length_more (unexpected reason) h = absurd (ground arith)
  feed_length_more (value size) h =
      let q : FrameParser = record p { header = []; payload = []; prefix = []; remaining = size } in
      let qs : FrameParser = record q { phase = in_skip; skipped_size = size } in
      let qp : FrameParser = record q { phase = in_payload } in
      ground (
        arith,
        feed_skip_more qs a b c inside,
        feed_payload_more qp a b c inside,
        phase-feed_skip qs a b c inside,
        phase-feed_payload qp a b c inside,
      )

-- Behind a piece that the header has taken whole.
module _ (p : FrameParser) (a b : Bytes) (c : ℕ) where
  pub feed_length_later :
      (size : Expected ℕ Bytes)
      → feed_length p (a ++ b) (length a + c) size ≡ advance (length a) (feed_length p b c size)
  unfolding feed_length feed_payload feed_skip malformed_step oversized_error
  feed_length_later (unexpected reason) = refl
  feed_length_later (value size) =
      let e : length (a ++ b) - (length a + c) ≡ length b - c = omega (arith, length-append a b) in
      let e' : drop (length a + c) (a ++ b) ≡ drop c b =
        drop-append_ge (length a + c) a b (omega arith) ∙ ap (λ n. drop n b) (omega arith) in
      rw (e, e') (ground arith)
