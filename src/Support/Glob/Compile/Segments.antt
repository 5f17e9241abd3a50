-- ===== src/Support/Glob/Compile/Segments.antt =====
-- The segments of a compiled arm: their literals are valid texts and not empty.
use mathlib.Core.Path.{subst}
use kotatsu.Base.{
  ap, ℕ, zero, suc, ◌==◌, Bool, true, false, not, ◌&&◌, ◌||◌, List, [], ◌∷◌, ◌++◌, none, ◌≡◌, inl,
  inr, arith, drop, if-cases, Expected, value, unexpected, Expected-cases,
}
use kotatsu.Support.Text.{Bytes, equal, starts_with}
use kotatsu.Support.Glob.{GlobError, find_invalid_utf8}
use kotatsu.Support.Glob.Atoms.{IsContinuation}
use kotatsu.Support.Glob.Braces.{slice}
use kotatsu.Support.Glob.Compile.{
  Token, Segment, Taken, take_token, two_stars, close_segment, Compiling, closed, add_token,
  compile_at, segments_from,
}
use kotatsu.Support.Glob.Compile.Plan.{
  Arm, is_recursive, is_literal, no_tokens, amend_last, Annotated, annotate_one, annotate, arm_of,
  arm_from, compile_arm,
}
use kotatsu.Support.Glob.Compile.Writing.{Writing, start, Writing-whole}
use kotatsu.Support.Glob.Compile.Literals.{Took, refused, took, take_token-Took, behind_ascii}
use kotatsu.Support.Glob.Tokens.Meaning.{Utf8Tokens, no_token, a_star}

pub data Utf8Segments : List Segment → Type 0 where
  no_segment : Utf8Segments []
  a_segment :
      {s : Segment} {ss : List Segment}
      → Utf8Tokens s.tokens
      → Utf8Segments ss
      → Utf8Segments (s ∷ ss)

Utf8Segments-append :
    {ss ts : List Segment} → Utf8Segments ss → Utf8Segments ts → Utf8Segments (ss ++ ts)
Utf8Segments-append no_segment k = k
Utf8Segments-append (a_segment u w) k = a_segment u (Utf8Segments-append w k)

close_segment-Utf8Tokens :
    (whole : Bool) (raw : Bytes) {ts : List Token}
    → Utf8Tokens ts
    → Utf8Tokens (close_segment whole raw ts).tokens
unfolding close_segment
close_segment-Utf8Tokens whole raw w =
    if-cases (λ (s : Segment). Utf8Tokens s.tokens) (whole && equal raw two_stars) (λ h. no_token)
      (λ h. w)

closed-Utf8Segments :
    (s : Bytes) (b : Bool) (i : ℕ) (k : Compiling)
    → Utf8Tokens k.tokens
    → Utf8Segments k.segments
    → Utf8Segments (closed s b i k)
closed-Utf8Segments s b i k u w = Utf8Segments-append w (
    a_segment (close_segment-Utf8Tokens (not (k.raw_begin == 0) || b) (slice k.raw_begin i s) u)
      no_segment)

data Going (cs : Bytes) : Expected Compiling GlobError → Type 0 where
  stopped : {e : GlobError} → Going cs (unexpected e)
  going :
      {k : Compiling}
      → Writing k.tokens (drop k.skip cs)
      → Utf8Segments k.segments
      → Going cs (value k)

data ResultUtf8 : Expected (List Segment) GlobError → Type 0 where
  no_result : {e : GlobError} → ResultUtf8 (unexpected e)
  a_result : {ss : List Segment} → Utf8Segments ss → ResultUtf8 (value ss)

add_token-Going :
    (k : Compiling) (cs : Bytes) (r : Taken)
    → Took cs r
    → Utf8Segments k.segments
    → Going cs (add_token k r)
add_token-Going k cs (unexpected e) refused w = stopped
add_token-Going k cs (value (skip, ts)) (took u) w = going u w

compile_at-Going :
    (s : Bytes) (b : Bool) (i c : ℕ) (cs : Bytes) (k : Compiling)
    → Writing k.tokens (c ∷ cs)
    → Utf8Segments k.segments
    → Going cs (compile_at s b i c cs k)
unfolding compile_at
compile_at-Going s b i c cs k w u =
    if-cases (Going cs) (c == b'/')
      (λ h.
        if-cases (Going cs) (starts_with cs (b'/' ∷ [])) (λ e. stopped)
          (λ e.
            let (x, y) = Writing-whole (λ (q : IsContinuation c). ground arith) w in
            going (start (behind_ascii c cs (ground arith) y)) (closed-Utf8Segments s b i k x u)))
      (λ h. add_token-Going k cs (take_token i c cs k.tokens) (take_token-Took i c cs w) u)

going-Writing :
    {cs : Bytes} {k : Compiling} → Going cs (value k) → Writing k.tokens (drop k.skip cs)
going-Writing (going w u) = w

going-Utf8Segments : {cs : Bytes} {k : Compiling} → Going cs (value k) → Utf8Segments k.segments
going-Utf8Segments (going w u) = u

segments_from-Utf8 :
    (s : Bytes) (b : Bool) (skip i : ℕ) (k : Compiling) (cs : Bytes)
    → Writing k.tokens (drop skip cs)
    → Utf8Segments k.segments
    → ResultUtf8 (segments_from s b skip i k cs)
unfolding segments_from
segments_from-Utf8 s b zero i k [] w u =
    a_result (closed-Utf8Segments s b i k (Writing-whole (λ q. omega arith) w).0 u)
segments_from-Utf8 s b (suc skip) i k [] w u =
    a_result (closed-Utf8Segments s b i k (Writing-whole (λ q. omega arith) w).0 u)
segments_from-Utf8 s b (suc skip) i k (c ∷ cs) w u = segments_from-Utf8 s b skip (suc i) k cs w u
segments_from-Utf8 s b zero i k (c ∷ cs) w u =
    let step = compile_at-Going s b i c cs k w u in
    elim (Expected-cases (compile_at s b i c cs k)) [
      | inl (e, h) ↦ rw (segments_from, h) no_result
      | inr (m, h) ↦
          let on = rw h at step in
          rw (segments_from, h)
            (segments_from-Utf8 s b m.skip (suc i) m cs (going-Writing on) (going-Utf8Segments on))
    ]

amend_last-Utf8Segments : {ss : List Segment} → Utf8Segments ss → Utf8Segments (amend_last ss)
unfolding amend_last
amend_last-Utf8Segments no_segment = no_segment
amend_last-Utf8Segments (a_segment u no_segment) = a_segment u no_segment
amend_last-Utf8Segments (a_segment {s = a} u (a_segment {s = b} v no_segment)) =
    if-cases Utf8Segments (is_recursive a.kind && (is_literal b.kind && no_tokens b.tokens))
      (λ h. a_segment u (a_segment (a_star no_token) no_segment))
      (λ h. a_segment u (a_segment v no_segment))
amend_last-Utf8Segments (a_segment u (a_segment v (a_segment x w))) =
    a_segment u (amend_last-Utf8Segments (a_segment v (a_segment x w)))

annotate_one-Utf8Segments :
    (last : Bool) (s : Segment) (a : Annotated)
    → Utf8Tokens s.tokens
    → Utf8Segments a.segments
    → Utf8Segments (annotate_one last s a).segments
annotate_one-Utf8Segments last s a u w = a_segment u w

annotate-Utf8Segments : {ss : List Segment} → Utf8Segments ss → Utf8Segments (annotate ss).segments
unfolding annotate
annotate-Utf8Segments no_segment = no_segment
annotate-Utf8Segments (a_segment {s} u no_segment) =
    annotate_one-Utf8Segments true s (annotate []) u no_segment
annotate-Utf8Segments (a_segment {s} u (a_segment {s = t} {ss} v w)) =
    annotate_one-Utf8Segments false s (annotate (t ∷ ss)) u
      (annotate-Utf8Segments (a_segment {s = t} v w))

segments_of : Expected Arm GlobError → List Segment
segments_of (unexpected e) = []
segments_of (value arm) = arm.segments

value-Utf8Segments :
    (r : Expected (List Segment) GlobError) {arm : Arm}
    → ResultUtf8 r
    → arm_from r ≡ value arm
    → Utf8Segments arm.segments
unfolding arm_of segments_of
value-Utf8Segments (unexpected e) no_result h = absurd (ground arith)
value-Utf8Segments (value ss) {arm} (a_result w) h =
    subst Utf8Segments (ap segments_of h) (annotate-Utf8Segments (amend_last-Utf8Segments w))

-- In every segment of an arm that is compiled from valid UTF-8 the literals are valid UTF-8 and not
-- empty, as the matcher of tokens asks.
pub compile_arm-Utf8Segments :
    (s : Bytes) (at_segment_start : Bool) (arm : Arm)
    → find_invalid_utf8 s ≡ none
    → compile_arm s at_segment_start ≡ value arm
    → Utf8Segments arm.segments
unfolding compile_arm find_invalid_utf8
compile_arm-Utf8Segments s b arm v h =
    let fresh : Compiling = record { skip = 0; raw_begin = 0; tokens = []; segments = [] } in
    value-Utf8Segments (segments_from s b 0 0 fresh s)
      (segments_from-Utf8 s b 0 0 fresh s (start v) no_segment) h
