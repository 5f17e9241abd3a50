-- ===== src/Support/Glob/Execute/Total.antt =====
-- The loop of `execute` ends: a globstar's place only moves forward, and between two of its moves the
-- segments only get fewer.
use kotatsu.Base.{
  ℕ, zero, suc, ◌+◌, ◌*◌, ◌≤◌, ◌<◌, Bool, ◌&&◌, List, [], ◌∷◌, Option, none, some, ◌≡◌, inl, inr,
  refl, arith, length, ◌==◌, if◌then◌else◌, Bool-cases,
}
use kotatsu.Support.Text.{Bytes}
use kotatsu.Support.Glob.Compile.{SegmentKind, recursive, literal_only, affix, general, Segment}
use kotatsu.Support.Glob.Compile.Plan.{Arm}
use kotatsu.Support.Glob.Execute.{find_segment, segment_end, match_kind}
use kotatsu.Support.Glob.Execute.Loop.{
  Globstar, Turn, verdict, go_on, jump_to, retry_from, back_to, enter, pass_globstar, advance,
  advance_if, starts_at, turn_kind, turn, turns, execute,
}
use kotatsu.Support.Glob.Execute.Bounds.{find_segment_bounds, segment_end_bounds, match_kind_bounds}

-- `length str` bounds every place, and all segments in play are fewer than `k`.
module _ (str : Bytes) (k : ℕ) where
  abbrev Saved : ℕ → ℕ → Globstar → Type 0
  Saved m offset none = length str ≤ m
  Saved m offset (some (ss, at)) = (at ≤ offset) × (length str ≤ at + m) × (length ss < k)

  record Inv (f m : ℕ) (ss : List Segment) (offset : ℕ) (back : Globstar) : Type 0 where
    inside : offset ≤ length str
    fewer : length ss < k
    saved : Saved m offset back
    fuel : m * k + length ss < f

  data Good : ℕ → Turn → Type 0 where
    ended : {f : ℕ} {b : Bool} → Good f (verdict b)
    goes :
        {f : ℕ} {ss : List Segment} {offset : ℕ} {back : Globstar} (m : ℕ)
        → Inv f m ss offset back
        → Good f (go_on ss offset back)

  -- The segments behind a globstar, from a place that is further on or with fewer segments.
  jump_to-Good :
      {f : ℕ} (m : ℕ) (ss : List Segment) (from : ℕ) (o : Option ℕ)
      → ((at : ℕ) → o ≡ some at → (from ≤ at) × (at ≤ length str))
      → length ss < k
      → length str ≤ from + m
      → m * k + length ss < f
      → Good f (jump_to ss o)
  jump_to-Good m ss from none b w l e = ended
  jump_to-Good m ss from (some at) b w l e =
      let near = b at refl in
      goes m
        (record { inside = near.1; fewer = w; saved = (omega arith, omega arith, w); fuel = e })

  retry_from-Good :
      {f : ℕ} (m : ℕ) (ss : List Segment) (at : ℕ) (first : Option ℕ)
      → at < length str
      → length ss < k
      → length str ≤ at + suc m
      → m * k + length ss < f
      → Good f (retry_from str ss at first)
  retry_from-Good m ss at none h w l e =
      let b = segment_end_bounds str at (omega arith) in
      let further : ℕ =
        if segment_end str at == length str then segment_end str at else segment_end str at + 1 in
      let past : (at + 1 ≤ further) × (further ≤ length str) = ground arith in
      goes m (record {
        inside = past.1;
        fewer = w;
        saved = (omega arith, omega (arith, past), w);
        fuel = e;
      })
  retry_from-Good m ss at (some c) h w l e =
      jump_to-Good m ss (at + 1) (find_segment str (at + 1) c [])
        (λ found q. let b = find_segment_bounds str (at + 1) c [] found q in omega arith) w
        (omega arith) e

  back_to-Good :
      {f : ℕ} (m offset : ℕ) (back : Globstar)
      → offset < length str
      → Saved m offset back
      → m * k < f
      → Good f (back_to str back)
  unfolding back_to
  back_to-Good m offset none h s e = ended
  back_to-Good m offset (some ([], at)) h s e = ended
  back_to-Good zero offset (some (p ∷ ss, at)) h (l, near, w) e = absurd (omega arith)
  back_to-Good (suc m) offset (some (p ∷ ss, at)) h (l, near, w) e =
      retry_from-Good m (p ∷ ss) at p.first (omega arith) w near (omega arith)

  pass_globstar-Good :
      {f : ℕ} (m : ℕ) (ss : List Segment) (offset : ℕ)
      → offset ≤ length str
      → length ss < k
      → length str ≤ offset + m
      → m * k + length ss < f
      → Good f (pass_globstar str ss offset)
  unfolding pass_globstar
  pass_globstar-Good m [] offset h w l e = ended
  pass_globstar-Good {f} m (p ∷ ss) offset h w l e = enter-Good p.first
    where
      enter-Good : (first : Option ℕ) → Good f (enter str (p ∷ ss) offset first)
      enter-Good none =
          goes m (record { inside = h; fewer = w; saved = (omega arith, l, w); fuel = e })
      enter-Good (some c) =
          jump_to-Good m (p ∷ ss) offset (find_segment str offset c [])
            (λ found q. let b = find_segment_bounds str offset c [] found q in omega arith) w l e

  -- How far there is still to go, from a place and the globstar.
  Saved-reach : (m offset : ℕ) (back : Globstar) → Saved m offset back → length str ≤ offset + m
  Saved-reach m offset none s = omega arith
  Saved-reach m offset (some (ss, at)) (l, near, w) = omega arith

  Saved-further :
      (m offset offset' : ℕ) (back : Globstar)
      → offset ≤ offset'
      → Saved m offset back
      → Saved m offset' back
  Saved-further m offset offset' none h s = s
  Saved-further m offset offset' (some (ss, at)) h (l, near, w) = (omega arith, near, w)

  advance-Good :
      {f : ℕ} (m : ℕ) (part : Segment) (rest : List Segment) (offset end : ℕ) (back : Globstar)
      → offset < length str
      → offset ≤ end
      → end ≤ length str
      → length rest < k
      → Saved m offset back
      → m * k + length rest < f
      → Good f (advance str part rest end back)
  advance-Good m part [] offset end back h l l' w s e =
      elim (Bool-cases (end == length str && part.optional_rest)) [
        | inl t ↦ rw t ended
        | inr t ↦ rw t (back_to-Good m offset back h s (omega arith))
      ]
  advance-Good m part (p ∷ ss) offset end back h l l' w s e =
      elim (Bool-cases (end == length str)) [
        | inl t ↦ elim (Bool-cases part.optional_rest) [
          | inl o ↦ rw (t, o) ended
          | inr o ↦ rw (t, o) (back_to-Good m offset back h s (omega arith))
        ]
        | inr t ↦
            let inside : end + 1 ≤ length str = ground arith in
            rw t (
              goes m (record {
                inside = inside;
                fewer = w;
                saved = Saved-further m offset (end + 1) back (omega arith) s;
                fuel = e;
              }))
      ]

  match-Good :
      {f : ℕ} (m : ℕ) (kind : SegmentKind) (part : Segment) (rest : List Segment) (offset : ℕ)
      (back : Globstar)
      → offset < length str
      → length rest < k
      → Saved m offset back
      → m * k + length rest < f
      → Good f (
          if starts_at str part.first offset
          then advance_if str part rest back (match_kind kind part.tokens str offset)
          else back_to str back)
  match-Good m kind part rest offset back h w s e =
      elim (Bool-cases (starts_at str part.first offset)) [
        | inl t ↦ elim (Bool-cases (match_kind kind part.tokens str offset).1) [
          | inl y ↦
              let b = match_kind_bounds kind part.tokens str offset (omega arith) y in
              rw (t, y)
                (advance-Good m part rest offset (match_kind kind part.tokens str offset).0 back h
                  b.0 b.1 w s e)
          | inr y ↦ rw (t, y) (back_to-Good m offset back h s (omega arith))
        ]
        | inr t ↦ rw t (back_to-Good m offset back h s (omega arith))
      ]

  kind-Good :
      {f : ℕ} (m : ℕ) (kind : SegmentKind) (part : Segment) (rest : List Segment) (offset : ℕ)
      (back : Globstar)
      → offset < length str
      → length rest < k
      → Saved m offset back
      → m * k + length rest < f
      → Good f (turn_kind kind str part rest offset back)
  unfolding turn_kind
  kind-Good m recursive part rest offset back h w s e =
      pass_globstar-Good m rest offset (omega arith) w (Saved-reach m offset back s) e
  kind-Good m literal_only part rest offset back h w s e =
      match-Good m literal_only part rest offset back h w s e
  kind-Good m affix part rest offset back h w s e = match-Good m affix part rest offset back h w s e
  kind-Good m general part rest offset back h w s e =
      match-Good m general part rest offset back h w s e

  turn-Good :
      {f : ℕ} (m : ℕ) (ss : List Segment) (offset : ℕ) (back : Globstar)
      → Inv (suc f) m ss offset back
      → Good f (turn str ss offset back)
  unfolding turn
  turn-Good m [] offset back i = ended
  turn-Good m (part ∷ rest) offset back i = elim (Bool-cases (offset == length str)) [
    | inl t ↦ rw t ended
    | inr t ↦
        let enough = i.fuel in
        let w = i.fewer in
        let l = i.inside in
        let h : offset < length str = ground arith in
        rw t (kind-Good m part.kind part rest offset back h (omega arith) i.saved (omega arith))
  ]

  turns-total : (f : ℕ) (t : Turn) → Good f t → (b : Bool) × (turns f str t ≡ some b)
  unfolding turns
  turns-total zero (verdict b) g = (b, refl)
  turns-total (suc f) (verdict b) g = (b, refl)
  turns-total zero (go_on ss offset back) (goes m i) = let enough = i.fuel in absurd (omega arith)
  turns-total (suc f) (go_on ss offset back) (goes m i) =
      turns-total f (turn str ss offset back) (turn-Good m ss offset back i)

-- `execute` comes to an answer within the fuel it is given, for every arm and every input.
pub execute-total : (arm : Arm) (str : Bytes) → (b : Bool) × (execute arm str ≡ some b)
unfolding execute
execute-total arm str =
    let n : ℕ = length str in
    let k : ℕ = length arm.segments + 1 in
    turns-total str k ((n + 2) * k) (go_on arm.segments 0 none) (
      goes (n + 1) (record {
        inside = omega arith;
        fewer = omega arith;
        saved = omega arith;
        fuel = omega arith;
      }))
