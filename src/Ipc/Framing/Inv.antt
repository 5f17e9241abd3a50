-- ===== src/Ipc/Framing/Inv.antt =====
-- The invariant of `FrameParser`, and how much of its input a call of `feed` takes.
use kotatsu.Base.{
  ℕ, ◌+◌, ◌-◌, ◌≤◌, ◌<◌, [], ◌++◌, Option, none, some, ◌≡◌, inl, inr, refl, sym, ap, ◌∙◌, arith,
  length, length-append, length-take, length-drop, take, drop, min, ltb, Bool-cases, Option-cases,
  Expected, value, unexpected,
}
use kotatsu.Support.Text.{Bytes, shift, find}
use kotatsu.Support.Text.Find.{find_le}
use kotatsu.Ipc.Framing.{
  FrameParser, Phase, in_header, in_payload, in_skip, broken, Step, skipped_prefix_size,
  max_header_size, sub64, malformed_step, feed_payload, feed_skip, feed_length, feed_header_at,
  window_of, feed_in, feed,
}
use kotatsu.Ipc.Framing.Header.{blank_line, header_end, content_length}
use kotatsu.Ipc.Framing.HeaderEnd.{first_end, header_end_lem}

-- What each phase knows: a header has no blank line yet and keeps to its limit; a payload fits the
-- limit with what is still to come of it; a frame that is skipped is larger than the limit, and a
-- bounded part of it is kept.
abbrev pub PhaseInv : Phase → FrameParser → Type 0
PhaseInv in_header p = (find blank_line p.header ≡ none) × (length p.header ≤ max_header_size)
PhaseInv in_payload p =
    (p.header ≡ []) × (0 < p.remaining) × (length p.payload + p.remaining ≤ p.max_payload)
PhaseInv in_skip p =
    (p.header ≡ [])
    × (0 < p.remaining)
    × (length p.prefix ≤ skipped_prefix_size)
    × (p.max_payload < p.skipped_size)
PhaseInv broken p = Unit {0}

abbrev pub IsValid : FrameParser → Type 0
IsValid p = PhaseInv p.phase p

-- A step takes no more than its input, and all of it where it finishes no frame.
abbrev pub Takes : ℕ → Step → Type 0
Takes size s = (s.consumed ≤ size) × (s.frame ≡ none → s.consumed ≡ size)

feed_payload_inv :
    (p : FrameParser) (input : Bytes) (consumed : ℕ)
    → consumed ≤ length input
    → p.phase ≡ in_payload
    → p.header ≡ []
    → length p.payload + p.remaining ≤ p.max_payload
    → IsValid (feed_payload p input consumed).1
      × Takes (length input) (feed_payload p input consumed).0
unfolding feed_payload find
feed_payload_inv p input consumed h e f k =
    let n = min p.remaining (length input - consumed) in
    ground (
      arith,
      length-append p.payload (take n (drop consumed input)),
      length-take n (drop consumed input),
      length-drop consumed input,
    )

feed_skip_inv :
    (p : FrameParser) (input : Bytes) (consumed : ℕ)
    → consumed ≤ length input
    → p.phase ≡ in_skip
    → p.header ≡ []
    → length p.prefix ≤ skipped_prefix_size
    → p.max_payload < p.skipped_size
    → IsValid (feed_skip p input consumed).1 × Takes (length input) (feed_skip p input consumed).0
unfolding feed_skip find
feed_skip_inv p input consumed h e f k l =
    let n = min p.remaining (length input - consumed) in
    let m = min n (sub64 skipped_prefix_size (length p.prefix)) in
    ground (
      arith,
      length-append p.prefix (take m (drop consumed input)),
      length-take m (drop consumed input),
    )

feed_length_inv :
    (p : FrameParser) (input : Bytes) (consumed : ℕ) (size : Expected ℕ Bytes)
    → consumed ≤ length input
    → IsValid (feed_length p input consumed size).1
      × Takes (length input) (feed_length p input consumed size).0
unfolding feed_length malformed_step
feed_length_inv p input consumed (unexpected reason) h = ground arith
feed_length_inv p input consumed (value size) h = elim (Bool-cases (ltb p.max_payload size)) [
  | inl e ↦ rw e (feed_skip_inv _ input consumed h refl refl (omega arith) (ground arith))
  | inr e ↦ rw e (feed_payload_inv _ input consumed h refl refl (ground arith))
]

-- What `header_end` says of the whole header.
pub header_end-some :
    (header next : Bytes) (taken : ℕ)
    → find blank_line header ≡ none
    → header_end header next ≡ some taken
    → (first_end (header ++ next) ≡ some (length header + taken)) × (taken ≤ length next)
header_end-some header next taken h e =
    let found : first_end (header ++ next) ≡ some (length header + taken) =
      sym (header_end_lem header next h) ∙ ap (shift (length header)) e in
    (
      found,
      elim (Option-cases (find blank_line (header ++ next))) [
        | inl none_found ↦ absurd (impossible none_found found)
        | inr (i, at) ↦
            ground
              (arith, found, find_le blank_line (header ++ next) i at, length-append header next)
      ],
    )
  where
    impossible :
        find blank_line (header ++ next) ≡ none
        → first_end (header ++ next) ≡ some (length header + taken)
        → ⊥
    impossible a b = ground arith

pub header_end-none :
    (header next : Bytes)
    → find blank_line header ≡ none
    → header_end header next ≡ none
    → find blank_line (header ++ next) ≡ none
header_end-none header next h e =
    let found : first_end (header ++ next) ≡ none =
      sym (header_end_lem header next h) ∙ ap (shift (length header)) e in
    elim (Option-cases (find blank_line (header ++ next))) [
      | inl none_found ↦ none_found
      | inr (i, at) ↦ absurd (impossible i at found)
    ]
  where
    impossible :
        (i : ℕ) → find blank_line (header ++ next) ≡ some i → first_end (header ++ next) ≡ none → ⊥
    impossible i a b = ground arith

feed_header_at_inv :
    (p : FrameParser) (input : Bytes) (end : Option ℕ)
    → p.phase ≡ in_header
    → IsValid p
    → header_end p.header (window_of p input 0) ≡ end
    → IsValid (feed_header_at p input 0 (window_of p input 0) end).1
      × Takes (length input) (feed_header_at p input 0 (window_of p input 0) end).0
unfolding feed_header_at malformed_step
feed_header_at_inv p input none h v e = ground (
  arith,
  header_end-none p.header (window_of p input 0),
  length-append p.header (window_of p input 0),
  length-take (sub64 (max_header_size + 1) (length p.header)) input,
)
feed_header_at_inv p input (some end) h v e = ground (
  arith,
  header_end-some p.header (window_of p input 0) end,
  length-take (sub64 (max_header_size + 1) (length p.header)) input,
  feed_length_inv (record p { header = p.header ++ take end (window_of p input 0) }) input (0 + end)
      (content_length (p.header ++ take end (window_of p input 0))),
)

feed_in_inv :
    (phase : Phase) (p : FrameParser) (input : Bytes)
    → p.phase ≡ phase
    → PhaseInv phase p
    → IsValid (feed_in phase p input).1 × Takes (length input) (feed_in phase p input).0
unfolding feed_in malformed_step
feed_in_inv broken p input h v = ground arith
feed_in_inv in_header p input h v =
    ground (arith, feed_header_at_inv p input (header_end p.header (window_of p input 0)))
feed_in_inv in_payload p input h v = ground (arith, feed_payload_inv p input 0)
feed_in_inv in_skip p input h v = ground (arith, feed_skip_inv p input 0)

-- `feed` keeps the parser's invariant, whatever its input is.
pub feed-IsValid : (p : FrameParser) (input : Bytes) → IsValid p → IsValid (feed p input).1
unfolding feed
feed-IsValid p input v = (feed_in_inv p.phase p input refl v).0

feed-Takes : (p : FrameParser) (input : Bytes) → IsValid p → Takes (length input) (feed p input).0
unfolding feed
feed-Takes p input v = (feed_in_inv p.phase p input refl v).1

-- `feed` of a parser with the invariant takes no more than its input.
pub consumed-feed_le :
    (p : FrameParser) (input : Bytes) → IsValid p → (feed p input).0.consumed ≤ length input
consumed-feed_le p input v = (feed-Takes p input v).0

-- Where `feed` of a parser with the invariant gives no frame, it takes its whole input.
pub consumed-feed :
    (p : FrameParser) (input : Bytes)
    → IsValid p
    → (feed p input).0.frame ≡ none
    → (feed p input).0.consumed ≡ length input
consumed-feed p input v h = (feed-Takes p input v).1 h
