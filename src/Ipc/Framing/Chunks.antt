-- ===== src/Ipc/Framing/Chunks.antt =====
-- `FrameParser::feed` of an input in pieces.
use kotatsu.Base.{
  ℕ, ◌+◌, ◌-◌, ◌≤◌, ◌++◌, append_assoc, Option, none, some, ◌≡◌, inl, inr, refl, sym, ap, ap₂, ◌∙◌,
  arith, length, length-append, length-take, take, take-all, take-append_ge, take-append_le,
  take-append, Option-cases,
}
use kotatsu.Support.Text.{Bytes, shift}
use kotatsu.Ipc.Framing.HeaderChunks.{header_end-append, header_end-later}
use kotatsu.Ipc.Framing.{
  FrameParser, Phase, in_header, in_payload, in_skip, broken, max_header_size, sub64,
  malformed_step, feed_payload, feed_skip, feed_header_at, window_of, feed_header, feed_in, feed,
}
use kotatsu.Ipc.Framing.Header.{header_end, content_length}
use kotatsu.Ipc.Framing.Inv.{IsValid, PhaseInv, header_end-some}
use kotatsu.Ipc.Framing.BodyChunks.{
  advance, feed_payload_more, feed_skip_more, feed_length_more, phase-feed_payload, phase-feed_skip,
  feed_length_later,
}

module _ (p : FrameParser) where
  pub feed_header_eq :
      (input window : Bytes) (o : Option ℕ)
      → window_of p input 0 ≡ window
      → header_end p.header window ≡ o
      → feed_header p input 0 ≡ feed_header_at p input 0 window o
  unfolding feed_header
  feed_header_eq input window o e f = rw (e, f)

pub feed-phase :
    {phase : Phase} (p : FrameParser) (input : Bytes)
    → p.phase ≡ phase
    → feed p input ≡ feed_in phase p input
unfolding feed
feed-phase p input here = ap (λ phase. feed_in phase p input) here

module _ (p : FrameParser) (a b : Bytes) where
  -- The header ended in the first piece, and its frame did not.
  feed_header_at_ended :
      (w x : Bytes) (e : ℕ)
      → e ≤ length a
      → e ≤ length w
      → (feed_header_at p a 0 w (some e)).0.frame ≡ none
      → feed_header_at p (a ++ b) 0 (w ++ x) (some e)
        ≡ advance (length a) (feed (feed_header_at p a 0 w (some e)).1 b)
  unfolding feed_header_at malformed_step
  feed_header_at_ended w x e h k f =
      let read : FrameParser = record p { header = p.header ++ take e w } in
      rw (take-append_le e w x k) (
        ground
          (arith, feed_length_more read a b (0 + e) (omega arith) (content_length read.header)))

  -- The first piece was all header.
  feed_header_at_later :
      (w : Bytes) (o : Option ℕ)
      → feed_header_at p (a ++ b) 0 (a ++ w) (shift (length a) o)
        ≡ advance (length a) (feed_header_at (record p { header = p.header ++ a }) b 0 w o)
  unfolding feed_header_at malformed_step
  feed_header_at_later w none = ground (arith, append_assoc p.header a w, length-append a w)
  feed_header_at_later w (some e) =
      let joined : p.header ++ take (length a + e) (a ++ w) ≡ (p.header ++ a) ++ take e w =
        ap (◌++◌ p.header)
          (take-append_ge (length a + e) a w (omega arith) ∙ ap (λ n. a ++ take n w) (omega arith))
        ∙ sym (append_assoc p.header a (take e w)) in
      let read : FrameParser = record p { header = (p.header ++ a) ++ take e w } in
      rw joined (ground (arith, feed_length_later read a b e (content_length read.header)))

  header_fits :
      (w : Bytes)
      → (feed_header_at p a 0 w none).0.frame ≡ none
      → length (p.header ++ w) ≤ max_header_size
  unfolding feed_header_at malformed_step
  header_fits w f = ground arith

  header_behind :
      length p.header + length a ≤ max_header_size
      → feed_header_at p a 0 a none
        ≡ (record { consumed = length a; frame = none }, record p { header = p.header ++ a })
  unfolding feed_header_at malformed_step
  header_behind h = ground (arith, length-append p.header a)

  module _ (v : PhaseInv in_header p) where
    abbrev limit : ℕ
    limit = sub64 (max_header_size + 1) (length p.header)

    feed_header_ended :
        (e : ℕ)
        → header_end p.header (window_of p a 0) ≡ some e
        → (feed_header p a 0).0.frame ≡ none
        → feed_header p (a ++ b) 0 ≡ advance (length a) (feed (feed_header p a 0).1 b)
    feed_header_ended e found f =
        let w : Bytes = window_of p a 0 in
        let first = feed_header_eq p a w (some e) refl found in
        let bound : e ≤ length w = (header_end-some p.header w e v.0 found).1 in
        rw first (
          feed_header_eq p (a ++ b) (w ++ take (limit - length a) b) (some e)
            (take-append limit a b)
            (header_end-append p.header w (take (limit - length a) b) e v.0 found)
          ∙ feed_header_at_ended w (take (limit - length a) b) e
              (omega (arith, bound, length-take limit a)) bound (rw first at f))

    feed_header_later :
        p.phase ≡ in_header
        → header_end p.header (window_of p a 0) ≡ none
        → (feed_header p a 0).0.frame ≡ none
        → feed_header p (a ++ b) 0 ≡ advance (length a) (feed (feed_header p a 0).1 b)
    feed_header_later here missing f =
        let fits =
          header_fits (window_of p a 0)
            (rw (feed_header_eq p a (window_of p a 0) none refl missing) at f) in
        let short : length p.header + length a ≤ max_header_size =
          omega (arith, fits, length-append p.header (window_of p a 0), length-take limit a) in
        let whole : window_of p a 0 ≡ a = take-all limit a (omega arith) in
        let missing' : header_end p.header a ≡ none = rw whole at missing in
        let next : FrameParser = record p { header = p.header ++ a } in
        let w : Bytes = window_of next b 0 in
        let e : limit - length a ≡ sub64 (max_header_size + 1) (length (p.header ++ a)) =
          omega (arith, length-append p.header a) in
        let joined : window_of p (a ++ b) 0 ≡ a ++ w =
          take-append limit a b ∙ ap₂ (λ u n. u ++ take n b) whole e in
        rw (feed_header_eq p a a none whole missing' ∙ header_behind short) (
          feed_header_eq p (a ++ b) (a ++ w) _ joined (header_end-later p.header a w v.0 missing')
          ∙ feed_header_at_later w (header_end (p.header ++ a) w)
          ∙ ap (advance (length a)) (
              sym (feed_header_eq next b w (header_end (p.header ++ a) w) refl refl)
              ∙ sym (unfold feed_in in feed-phase next b here)))

feed_in-append :
    (phase : Phase) (p : FrameParser) (a b : Bytes)
    → p.phase ≡ phase
    → PhaseInv phase p
    → (feed_in phase p a).0.frame ≡ none
    → feed_in phase p (a ++ b) ≡ advance (length a) (feed (feed_in phase p a).1 b)
unfolding feed_in malformed_step
feed_in-append broken p a b here v f = absurd (ground arith)
feed_in-append in_header p a b here v f =
    elim (Option-cases (header_end p.header (window_of p a 0))) [
      | inl missing ↦ feed_header_later p a b v here missing f
      | inr (e, found) ↦ feed_header_ended p a b v e found f
    ]
feed_in-append in_payload p a b here v f =
    feed_payload_more p a b 0 (omega arith) f
    ∙ ap (advance (length a)) (
        sym
          (feed-phase (feed_payload p a 0).1 b (phase-feed_payload p a b 0 (omega arith) f ∙ here)))
feed_in-append in_skip p a b here v f =
    feed_skip_more p a b 0 (omega arith) v.2 f
    ∙ ap (advance (length a))
        (sym (feed-phase (feed_skip p a 0).1 b (phase-feed_skip p a b 0 (omega arith) f ∙ here)))

-- What a parser did with a piece that finished no frame, and then with the next one, is what it
-- does with both at once: the same bytes taken, the same frame, the same state.
pub feed-append :
    (p : FrameParser) (a b : Bytes)
    → IsValid p
    → (feed p a).0.frame ≡ none
    → feed p (a ++ b) ≡ advance (length a) (feed (feed p a).1 b)
feed-append p a b v f = unfold feed in feed_in-append p.phase p a b refl v f
