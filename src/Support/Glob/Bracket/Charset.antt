-- ===== src/Support/Glob/Bracket/Charset.antt =====
-- The class of a bracket expression: sorted and coalesced, its ranges hold the same code points.
use kotatsu.Base.{
  ℕ, zero, suc, ◌+◌, ◌≤◌, ◌<◌, max, Bool, false, not, ◌&&◌, ◌||◌, List, [], ◌∷◌, ◌++◌, Option, none,
  some, ◌≡◌, inl, inr, refl, ap, ◌∙◌, arith, ltb, leb, ◌==◌, if◌then◌else◌, Bool-cases, Expected,
  value, unexpected, Expected-cases,
}
use kotatsu.Support.Text.{Bytes}
use kotatsu.Support.Glob.{GlobError}
use kotatsu.Support.Glob.Bracket.{
  Range, Members, held, end_range, hold, member_at, next_member, written_ranges, range_le,
  insert_range, sort_ranges, merge_onto, merge, merged, parse_bracket_charset, lower_bound, is_hit,
  contains, is_end,
}
use kotatsu.Support.Glob.Bracket.Search.{
  Ascending, no_bound, a_bound, weaken-Ascending, first_reaching, lower_bound-first_reaching,
}

-- Whether some range holds the code point.
unfoldable pub covers : List Range → ℕ → Bool
covers [] cp = false
covers ((low, high) ∷ rs) cp = (leb low cp && leb cp high) || covers rs cp

-- No range is the wrong way round.
data Ordered : List Range → Type 0 where
  no_range : Ordered []
  a_range : {a b : ℕ} {rs : List Range} → a ≤ b → Ordered rs → Ordered ((a, b) ∷ rs)

-- And they start in order, at `low` at least.
data Sorted : ℕ → List Range → Type 0 where
  empty : {low : ℕ} → Sorted low []
  cons : {low a b : ℕ} {rs : List Range} → low ≤ a → a ≤ b → Sorted a rs → Sorted low ((a, b) ∷ rs)

weaken-Sorted : {low low' : ℕ} {rs : List Range} → low' ≤ low → Sorted low rs → Sorted low' rs
weaken-Sorted h empty = empty
weaken-Sorted h (cons l o s) = cons (omega arith) o s

insert_range-Sorted :
    {low : ℕ} (a b : ℕ) {rs : List Range}
    → low ≤ a
    → a ≤ b
    → Sorted low rs
    → Sorted low (insert_range (a, b) rs)
unfolding insert_range
insert_range-Sorted a b l o empty = cons l o empty
insert_range-Sorted a b l o (cons {a = c} {b = d} l' o' s) =
    elim (Bool-cases (range_le (a, b) (c, d))) [
      | inl e ↦ rw e (cons l o (cons (ground arith) o' s))
      | inr e ↦ rw e (cons l' o' (insert_range-Sorted a b (ground arith) o s))
    ]

sort_ranges-Sorted : {rs : List Range} → Ordered rs → Sorted 0 (sort_ranges rs)
unfolding sort_ranges
sort_ranges-Sorted no_range = empty
sort_ranges-Sorted (a_range {a} {b} o w) =
    insert_range-Sorted a b (omega arith) o (sort_ranges-Sorted w)

covers-insert_range :
    (r : Range) (rs : List Range) (cp : ℕ) → covers (insert_range r rs) cp ≡ covers (r ∷ rs) cp
unfolding covers insert_range
covers-insert_range r [] cp = refl
covers-insert_range (a, b) ((c, d) ∷ rs) cp = elim (Bool-cases (range_le (a, b) (c, d))) [
  | inl e ↦ rw e
  | inr e ↦ rw (e, covers-insert_range (a, b) rs cp) (ground arith)
]

covers-sort_ranges : (rs : List Range) (cp : ℕ) → covers (sort_ranges rs) cp ≡ covers rs cp
unfolding covers sort_ranges
covers-sort_ranges [] cp = refl
covers-sort_ranges ((a, b) ∷ rs) cp =
    covers-insert_range (a, b) (sort_ranges rs) cp
    ∙ ap (λ r. (leb a cp && leb cp b) || r) (covers-sort_ranges rs cp)

-- Below the first range nothing is held.
covers-below :
    {low : ℕ} {rs : List Range} (cp : ℕ) → Sorted low rs → cp < low → covers rs cp ≡ false
unfolding covers
covers-below cp empty h = refl
covers-below cp (cons l o s) h = ground (arith, covers-below cp s (omega arith))

hit-merge_onto :
    (low high : ℕ) (rs : List Range) (cp : ℕ)
    → low ≤ high
    → Sorted low rs
    → is_hit (first_reaching (merge_onto low high rs) cp) cp ≡ covers ((low, high) ∷ rs) cp
unfolding first_reaching merge_onto covers
hit-merge_onto low high [] cp o s = ground arith
hit-merge_onto low high ((a, b) ∷ rs) cp o (cons l o' s) = elim (Bool-cases (leb a (high + 1))) [
  | inl e ↦ rw e (
      hit-merge_onto low (max high b) rs cp (omega arith) (weaken-Sorted l s)
      ∙ wider low high a b cp (covers rs cp) l o o' (ground arith))
  | inr e ↦ elim (Bool-cases (ltb high cp)) [
    | inl k ↦ rw (e, k) (hit-merge_onto a b rs cp o' s ∙ ground arith)
    | inr k ↦ rw (e, k) (ground (arith, covers-below cp s (ground arith)))
  ]
]
  where
    wider :
        (low high a b cp : ℕ) (r : Bool)
        → low ≤ a
        → low ≤ high
        → a ≤ b
        → a ≤ high + 1
        → ((leb low cp && leb cp (max high b)) || r)
          ≡ ((leb low cp && leb cp high) || ((leb a cp && leb cp b) || r))
    wider low high a b cp r l o o' t = ground arith

-- Coalesced, the ranges' upper bounds ascend.
merge_onto-Ascending :
    (low high : ℕ) (rs : List Range)
    → Sorted low rs
    → low ≤ high
    → Ascending high (merge_onto low high rs)
unfolding merge_onto
merge_onto-Ascending low high [] s o = a_bound (omega arith) no_bound
merge_onto-Ascending low high ((a, b) ∷ rs) (cons l o' s) o = elim (Bool-cases (leb a (high + 1))) [
  | inl e ↦ rw e (
      weaken-Ascending (omega arith)
        (merge_onto-Ascending low (max high b) rs (weaken-Sorted l s) (omega arith)))
  | inr e ↦
      rw e
        (a_bound (omega arith) (weaken-Ascending (ground arith) (merge_onto-Ascending a b rs s o')))
]

hit-merge :
    (rs : List Range) (cp : ℕ) → Sorted 0 rs → is_hit (lower_bound (merge rs) cp) cp ≡ covers rs cp
unfolding merge covers lower_bound
hit-merge [] cp s = refl
hit-merge ((a, b) ∷ rs) cp (cons l o s) =
    ap (λ r. is_hit r cp)
      (lower_bound-first_reaching (merge_onto a b rs) cp (merge_onto-Ascending a b rs s o))
    ∙ hit-merge_onto a b rs cp o s

Ordered-append : {rs ss : List Range} → Ordered rs → Ordered ss → Ordered (rs ++ ss)
Ordered-append no_range k = k
Ordered-append (a_range o w) k = a_range o (Ordered-append w k)

held-Ordered : (pending : Option (ℕ × ℕ)) → Ordered (held pending)
held-Ordered none = no_range
held-Ordered (some (cp, begin)) = a_range (omega arith) no_range

-- The ranges of a result, where there is one.
data OrderedMembers : Expected Members GlobError → Type 0 where
  no_members : {e : GlobError} → OrderedMembers (unexpected e)
  some_members : {m : Members} → Ordered m.ranges → OrderedMembers (value m)

data OrderedRanges : Expected (List Range) GlobError → Type 0 where
  no_ranges : {e : GlobError} → OrderedRanges (unexpected e)
  some_ranges : {rs : List Range} → Ordered rs → OrderedRanges (value rs)

hold-Ordered :
    (it : ℕ) (r : ℕ × ℕ) (pending : Option (ℕ × ℕ)) {ranges : List Range}
    → Ordered ranges
    → OrderedMembers (hold it r pending ranges)
hold-Ordered it (cp, len) pending o = some_members (Ordered-append o (held-Ordered pending))

end_range-Ordered :
    (cp begin it : ℕ) (r : ℕ × ℕ) {ranges : List Range}
    → Ordered ranges
    → OrderedMembers (end_range cp begin it r ranges)
end_range-Ordered cp begin it (hi, len) o = elim (Bool-cases (ltb hi cp)) [
  | inl e ↦ rw e no_members
  | inr e ↦ rw e (some_members (Ordered-append o (a_range (ground arith) no_range)))
]

member_at-Ordered :
    (it c : ℕ) (cs : Bytes) (pending : Option (ℕ × ℕ)) {ranges : List Range}
    → Ordered ranges
    → OrderedMembers (member_at it c cs pending ranges)
unfolding member_at
member_at-Ordered it c cs none o = hold-Ordered it (next_member (c ∷ cs)) none o
member_at-Ordered it c cs (some (cp, begin)) o = elim (Bool-cases (c == b'-' && not (is_end cs))) [
  | inl e ↦ rw e (end_range-Ordered cp begin it (next_member cs) o)
  | inr e ↦ rw e (hold-Ordered it (next_member (c ∷ cs)) (some (cp, begin)) o)
]

members-Ordered : {m : Members} → OrderedMembers (value m) → Ordered m.ranges
members-Ordered (some_members o) = o

-- The loop only gives ranges that are the right way round.
written_ranges-Ordered :
    (skip it : ℕ) (pending : Option (ℕ × ℕ)) {ranges : List Range} (s : Bytes)
    → Ordered ranges
    → OrderedRanges (written_ranges skip it pending ranges s)
unfolding written_ranges
written_ranges-Ordered zero it pending [] o = some_ranges (Ordered-append o (held-Ordered pending))
written_ranges-Ordered (suc skip) it pending [] o =
    some_ranges (Ordered-append o (held-Ordered pending))
written_ranges-Ordered (suc skip) it pending (c ∷ cs) o =
    written_ranges-Ordered skip (suc it) pending cs o
written_ranges-Ordered zero it pending {ranges} (c ∷ cs) o =
    let o' = member_at-Ordered it c cs pending o in
    elim (Expected-cases (member_at it c cs pending ranges)) [
      | inl (e, h) ↦ rw (written_ranges, h) no_ranges
      | inr (m, h) ↦
          rw (written_ranges, h)
            (written_ranges-Ordered m.skip (suc it) m.pending cs (members-Ordered (rw h at o')))
    ]

value-Ordered : {rs : List Range} → OrderedRanges (value rs) → Ordered rs
value-Ordered (some_ranges o) = o

-- Where the ranges of a bracket expression can be read, the class that is parsed holds just the code
-- points in one of them, or, negated, just the others.
pub contains-parse_bracket_charset :
    (s : Bytes) (written : List Range) (negated : Bool) (cp : ℕ)
    → written_ranges 0 0 none [] s ≡ value written
    → (ranges : List Range) × (parse_bracket_charset s ≡ value ranges)
      × (contains (record { negated = negated; ranges = ranges }) cp
          ≡ (if negated then not (covers written cp) else covers written cp))
unfolding parse_bracket_charset contains
contains-parse_bracket_charset s written negated cp h =
    let o = written_ranges-Ordered 0 0 none s no_range in
    let sorted = sort_ranges-Sorted (value-Ordered (rw h at o)) in
    let hit = hit-merge (sort_ranges written) cp sorted ∙ covers-sort_ranges written cp in
    (merge (sort_ranges written), ap merged h, ap (λ b. if negated then not b else b) hit)
