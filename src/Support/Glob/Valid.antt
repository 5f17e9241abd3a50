-- ===== src/Support/Glob/Valid.antt =====
-- Texts in which `find_invalid_utf8` finds nothing.
use kotatsu.Base.{
  ℕ, zero, suc, ◌-◌, ◌≤◌, true, false, [], ◌∷◌, ◌++◌, none, ◌≡◌, inl, inr, refl, sym, arith, length,
  drop, leb, drop-append_le, Option-cases,
}
use kotatsu.Support.Text.{Bytes, starts_with}
use kotatsu.Support.Text.Equal.{starts_with-split}
use kotatsu.Support.Glob.{decode_utf8_atom, invalid_atom_base, after, find_invalid_from}
use kotatsu.Support.Glob.Atoms.{
  IsContinuation, len-atom, length-after, atom-append, atom-lead, Reaches, here, next,
}

abbrev pub IsValid : Bytes → Type 0
IsValid s = find_invalid_from 0 s ≡ none

find_invalid_from-drop :
    (k : ℕ) (s : Bytes) → find_invalid_from k s ≡ none → find_invalid_from 0 (drop k s) ≡ none
unfolding find_invalid_from
find_invalid_from-drop zero s h = h
find_invalid_from-drop (suc k) [] h = refl
find_invalid_from-drop (suc k) (c ∷ cs) h = elim (Option-cases (find_invalid_from k cs)) [
  | inl e ↦ find_invalid_from-drop k cs e
  | inr (i, e) ↦ absurd (ground arith)
]

drop-find_invalid_from :
    (k : ℕ) (s : Bytes)
    → k ≤ length s
    → find_invalid_from 0 (drop k s) ≡ none
    → find_invalid_from k s ≡ none
unfolding find_invalid_from
drop-find_invalid_from zero s l h = h
drop-find_invalid_from (suc k) [] l h = refl
drop-find_invalid_from (suc k) (c ∷ cs) l h = rw (drop-find_invalid_from k cs (omega arith) h)

-- The first atom of a valid text, and what follows it.
pub IsValid-cons :
    (c : ℕ) (cs : Bytes)
    → IsValid (c ∷ cs)
    → (leb invalid_atom_base (decode_utf8_atom (c ∷ cs)).cp ≡ false) × IsValid (after (c ∷ cs))
unfolding find_invalid_from
IsValid-cons c cs h =
    let len : ℕ = (decode_utf8_atom (c ∷ cs)).len in
    let known = find_invalid_from-drop (len - 1) cs in
    let more : len ≡ suc (len - 1) = omega (arith, len-atom c cs) in
    elim (Option-cases (find_invalid_from (len - 1) cs)) [
      | inl e ↦ (ground arith, rw more (known e))
      | inr (i, e) ↦ absurd (ground arith)
    ]

pub cons-IsValid :
    (c : ℕ) (cs : Bytes)
    → leb invalid_atom_base (decode_utf8_atom (c ∷ cs)).cp ≡ false
    → IsValid (after (c ∷ cs))
    → IsValid (c ∷ cs)
unfolding find_invalid_from
cons-IsValid c cs h k =
    let len : ℕ = (decode_utf8_atom (c ∷ cs)).len in
    let more : len ≡ suc (len - 1) = omega (arith, len-atom c cs) in
    let rest : find_invalid_from (len - 1) cs ≡ none =
      drop-find_invalid_from (len - 1) cs (inside c cs) (rw more at k) in
    rw (h, rest)
  where
    inside : (c : ℕ) (cs : Bytes) → (decode_utf8_atom (c ∷ cs)).len - 1 ≤ length cs
    inside c cs = omega (arith, len-atom c cs)

pub IsValid-lead : (c : ℕ) (cs : Bytes) → IsValid (c ∷ cs) → IsContinuation c → ⊥
IsValid-lead c cs h = atom-lead c cs (IsValid-cons c cs h).0

-- An atom starts behind a valid text.
pub Reaches-append : (n : ℕ) (t more : Bytes) → length t ≤ n → IsValid t → Reaches (t ++ more) more
Reaches-append n [] more l h = here
Reaches-append zero (c ∷ cs) more l h = absurd (omega arith)
Reaches-append (suc n) (c ∷ cs) more l h =
    let (valid, later) = IsValid-cons c cs h in
    let len : ℕ = (decode_utf8_atom (c ∷ cs)).len in
    let inside : len ≤ length (c ∷ cs) = omega (arith, len-atom c cs) in
    let same : after (c ∷ cs ++ more) ≡ after (c ∷ cs) ++ more =
      rw (atom-append c cs more valid) (drop-append_le len (c ∷ cs) more inside) in
    let rest = Reaches-append n (after (c ∷ cs)) more (omega (arith, length-after c cs)) later in
    next (rw same rest)

-- An atom starts behind a valid text at the front.
pub Reaches-behind :
    (s t : Bytes) → IsValid t → starts_with s t ≡ true → Reaches s (drop (length t) s)
Reaches-behind s t v h =
    let rest : Bytes = drop (length t) s in
    let e : s ≡ t ++ rest = starts_with-split s t h in
    let g = Reaches-append (length t) t rest (omega arith) v in rw (sym e) at g
