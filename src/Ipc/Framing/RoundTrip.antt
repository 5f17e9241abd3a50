-- ===== src/Ipc/Framing/RoundTrip.antt =====
-- Whole frames written with `frame_header`, in `FrameParser::feed`.
use kotatsu.Base.{
  ℕ, ◌+◌, ◌-◌, ◌≤◌, ◌<◌, ◌^◌, [], ◌++◌, some, ◌≡◌, refl, ap, ◌∙◌, arith, length, length-append,
  take-append_self, drop-append_self, take-min_append, take, take-append_ge, min, Expected, value,
  unexpected,
}
use kotatsu.Support.Text.{Bytes}
use kotatsu.Ipc.Framing.{
  FrameParser, in_header, in_payload, in_skip, feed_skip, oversized_error, skipped_prefix_size,
  feed, feed_in, feed_header_at, feed_length, feed_payload, window_of, max_header_size, sub64,
}
use kotatsu.Ipc.Framing.Chunks.{feed_header_eq, feed-phase}
use kotatsu.Ipc.Framing.Header.{header_end, content_length, frame_header}
use kotatsu.Ipc.Framing.HeaderTrip.{
  length-frame_header_le, header_end-frame_header, content_length-frame_header,
}

feed_payload_whole :
    (p : FrameParser) (a payload rest : Bytes)
    → p.payload ≡ []
    → p.remaining ≡ length payload
    → feed_payload p (a ++ (payload ++ rest)) (length a) ≡ (
      record { consumed = length a + length payload; frame = some (value payload) },
      record p { phase = in_header; payload = []; remaining = 0 },
    )
unfolding feed_payload
feed_payload_whole p a payload rest e f = ground (
  arith,
  drop-append_self a (payload ++ rest),
  take-append_self payload rest,
  length-append a (payload ++ rest),
  length-append payload rest,
)

feed_header_at_read :
    (p : FrameParser) (input window header : Bytes) (end : ℕ) (size : Expected ℕ Bytes)
    → p.header ++ take end window ≡ header
    → length header ≤ max_header_size
    → content_length header ≡ size
    → feed_header_at p input 0 window (some end)
      ≡ feed_length (record p { header = header }) input (0 + end) size
unfolding feed_header_at
feed_header_at_read p input window header end size e h k = rw (e, k) (ground arith)

-- A parser that has read the whole header of a frame goes on with the payload.
feed-header_read :
    (p : FrameParser) (n : ℕ) (rest : Bytes)
    → p.phase ≡ in_header
    → p.header ≡ []
    → n < 2 ^ 64
    → feed p (frame_header n ++ rest)
      ≡ feed_length
          (record p { header = frame_header n })
          (frame_header n ++ rest)
          (length (frame_header n))
          (value n)
feed-header_read p n rest here empty small =
    feed-phase p (frame_header n ++ rest) here
    ∙ unfold feed_in in
      feed_header_eq p (frame_header n ++ rest) window (some (length (frame_header n))) windowed
        ended
      ∙ feed_header_at_read p (frame_header n ++ rest) window (frame_header n)
          (length (frame_header n)) (value n) (rw (empty, take-append_self))
          (omega (arith, length-frame_header_le n small)) (content_length-frame_header n small)
      ∙ ap
          (λ k.
            feed_length (record p { header = frame_header n }) (frame_header n ++ rest) k (value n))
          (omega arith)
  where
    behind : Bytes
    behind = take (8193 - length (frame_header n)) rest

    window : Bytes
    window = frame_header n ++ behind

    windowed : window_of p (frame_header n ++ rest) 0 ≡ window
    windowed =
        rw empty (
          take-append_ge 8193 (frame_header n) rest (omega (arith, length-frame_header_le n small)))

    ended : header_end p.header window ≡ some (length (frame_header n))
    ended = rw empty (header_end-frame_header n behind)

-- A whole frame, with the bytes of what follows it: a parser between frames takes the frame and no
-- more, gives its payload, and is again as it was but for the room that it last measured.
pub feed-frame_header :
    (p : FrameParser) (payload rest : Bytes)
    → p.phase ≡ in_header
    → p.header ≡ []
    → length payload < 2 ^ 64
    → length payload ≤ p.max_payload
    → feed p (frame_header (length payload) ++ (payload ++ rest)) ≡ (
      record {
        consumed = length (frame_header (length payload) ++ payload);
        frame = some (value payload);
      },
      record p { payload = []; prefix = []; remaining = 0 },
    )
unfolding feed_length
feed-frame_header p payload rest here empty small fits =
    let header : Bytes = frame_header (length payload) in
    let q : FrameParser = record p {
      phase = in_payload;
      header = [];
      payload = [];
      prefix = [];
      remaining = length payload;
    } in
    feed-header_read p (length payload) (payload ++ rest) here empty small
    ∙ ground
        (arith, feed_payload_whole q header payload rest refl refl, length-append header payload)

feed_skip_whole :
    (p : FrameParser) (a payload rest : Bytes)
    → p.prefix ≡ []
    → p.remaining ≡ length payload
    → feed_skip p (a ++ (payload ++ rest)) (length a) ≡ (
      record {
        consumed = length a + length payload;
        frame = some (unexpected (oversized_error p (take skipped_prefix_size payload)));
      },
      record p { phase = in_header; prefix = []; remaining = 0 },
    )
unfolding feed_skip
feed_skip_whole p a payload rest e f =
    let size = min p.remaining (length (a ++ (payload ++ rest)) - length a) in
    let same : size ≡ length payload =
      omega (arith, length-append a (payload ++ rest), length-append payload rest) in
    let room : sub64 skipped_prefix_size (length p.prefix) ≡ skipped_prefix_size =
      rw e (omega arith) in
    ground (
      arith,
      same,
      room,
      drop-append_self a (payload ++ rest),
      take-min_append skipped_prefix_size payload rest,
    )

-- A whole frame larger than the limit is taken, and no more; the error that is given for it has its
-- size and its first bytes, and the parser is between frames again.
pub feed-oversized :
    (p : FrameParser) (payload rest : Bytes)
    → p.phase ≡ in_header
    → p.header ≡ []
    → length payload < 2 ^ 64
    → p.max_payload < length payload
    → feed p (frame_header (length payload) ++ (payload ++ rest)) ≡ (
      record {
        consumed = length (frame_header (length payload) ++ payload);
        frame = some (
            unexpected (
              oversized_error
                (record p { skipped_size = length payload })
                (take skipped_prefix_size payload)));
      },
      record p { payload = []; prefix = []; remaining = 0; skipped_size = length payload },
    )
unfolding feed_length oversized_error
feed-oversized p payload rest here empty small large =
    let header : Bytes = frame_header (length payload) in
    let q : FrameParser = record p {
      phase = in_skip;
      header = [];
      payload = [];
      prefix = [];
      remaining = length payload;
      skipped_size = length payload;
    } in
    feed-header_read p (length payload) (payload ++ rest) here empty small
    ∙ ground (arith, feed_skip_whole q header payload rest refl refl, length-append header payload)
