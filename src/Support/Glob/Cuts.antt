-- ===== src/Support/Glob/Cuts.antt =====
-- Valid texts cut where no byte continues a sequence, and put together.
use mathlib.Core.Path.{subst}
use kotatsu.Base.{
  ℕ, zero, suc, ◌-◌, ◌≤◌, ◌<◌, false, [], ◌∷◌, ◌++◌, ◌≡◌, inl, inr, refl, sym, ap, ◌∙◌, arith,
  length, get_or, drop, leb, length-append, take-append_le, drop-append_le, take-append-drop,
  Bool-cases,
}
use kotatsu.Support.Text.{Bytes}
use kotatsu.Support.Glob.{Utf8Atom, decode_utf8_atom, invalid_atom_base, after, find_invalid_from}
use kotatsu.Support.Glob.Atoms.{
  IsContinuation, len-atom, length-after, atom-continues, atom-append, atom-replace, Reaches, here,
  next, Reaches-drop,
}
use kotatsu.Support.Glob.Valid.{IsValid, IsValid-cons, cons-IsValid, Reaches-append}

-- No sequence goes on in the text.
abbrev pub IsCut : Bytes → Type 0
IsCut s = IsContinuation (get_or s 0 0) → ⊥

pub Reaches-IsValid : {s u : Bytes} → Reaches s u → IsValid s → IsValid u
Reaches-IsValid here v = v
Reaches-IsValid (next {c} {cs} r) v = Reaches-IsValid r (IsValid-cons c cs v).1

pub drop-IsValid :
    (s : Bytes) (k : ℕ)
    → IsValid s
    → k < length s
    → (IsContinuation (get_or s k 0) → ⊥)
    → IsValid (drop k s)
drop-IsValid s k v l b = Reaches-IsValid (Reaches-drop (length s) s k (omega arith) l b) v

append-IsValid : (n : ℕ) (s t : Bytes) → length s ≤ n → IsValid s → IsValid t → IsValid (s ++ t)
append-IsValid n [] t l v w = w
append-IsValid zero (c ∷ cs) t l v w = absurd (omega arith)
append-IsValid (suc n) (c ∷ cs) t l v w =
    let (valid, later) = IsValid-cons c cs v in
    let len : ℕ = (decode_utf8_atom (c ∷ cs)).len in
    let inside : len ≤ length (c ∷ cs) = omega (arith, len-atom c cs) in
    let same = atom-append c cs t valid in
    let cut : after (c ∷ cs ++ t) ≡ after (c ∷ cs) ++ t =
      ap (λ (a : Utf8Atom). drop a.len (c ∷ cs ++ t)) same ∙ drop-append_le len (c ∷ cs) t inside in
    let ok : leb invalid_atom_base (decode_utf8_atom (c ∷ cs ++ t)).cp ≡ false =
      ap (λ (a : Utf8Atom). leb invalid_atom_base a.cp) same ∙ valid in
    cons-IsValid c (cs ++ t) ok (
      subst IsValid (sym cut)
        (append-IsValid n (after (c ∷ cs)) t (omega (arith, length-after c cs)) later w))

pub IsValid-append : (s t : Bytes) → IsValid s → IsValid t → IsValid (s ++ t)
IsValid-append s t v w = append-IsValid (length s) s t (omega arith) v w

get_or-append : (p rest : Bytes) → get_or (p ++ rest) (length p) 0 ≡ get_or rest 0 0
get_or-append [] rest = refl
get_or-append (c ∷ cs) rest = get_or-append cs rest

-- The first atom of a text lies in front of every cut.
atom_inside :
    (c : ℕ) (cs rest : Bytes)
    → IsCut rest
    → (decode_utf8_atom (c ∷ cs ++ rest)).len ≤ length (c ∷ cs)
atom_inside c cs [] h = omega (arith, len-atom c (cs ++ []), length-append cs [])
atom_inside c cs (d ∷ ds) h =
    let len : ℕ = (decode_utf8_atom (c ∷ cs ++ d ∷ ds)).len in
    elim (Bool-cases (leb len (length (c ∷ cs)))) [
      | inl e ↦ ground arith
      | inr e ↦
          let b : suc (length cs) < len = ground arith in
          let k = atom-continues c (cs ++ d ∷ ds) (length cs) b in
          absurd (h (subst IsContinuation (get_or-append cs (d ∷ ds)) k))
    ]

cut-IsValid : (n : ℕ) (p rest : Bytes) → length p ≤ n → IsCut rest → IsValid (p ++ rest) → IsValid p
unfolding find_invalid_from
cut-IsValid n [] rest l h v = refl
cut-IsValid zero (c ∷ cs) rest l h v = absurd (omega arith)
cut-IsValid (suc n) (c ∷ cs) rest l h v =
    let (valid, later) = IsValid-cons c (cs ++ rest) v in
    let len : ℕ = (decode_utf8_atom (c ∷ cs ++ rest)).len in
    let inside = atom_inside c cs rest h in
    let near : len - 1 ≤ length cs = omega arith in
    let same : decode_utf8_atom (c ∷ cs) ≡ decode_utf8_atom (c ∷ cs ++ rest) =
      ap (λ x. decode_utf8_atom (c ∷ x))
        (sym (take-append-drop (len - 1) cs)
          ∙ ap (λ x. x ++ drop (len - 1) cs) (sym (take-append_le (len - 1) cs rest near)))
      ∙ atom-replace c (cs ++ rest) (drop (len - 1) cs) valid in
    let ok : leb invalid_atom_base (decode_utf8_atom (c ∷ cs)).cp ≡ false =
      ap (λ (a : Utf8Atom). leb invalid_atom_base a.cp) same ∙ valid in
    let split : after (c ∷ cs ++ rest) ≡ after (c ∷ cs) ++ rest =
      drop-append_le len (c ∷ cs) rest inside
      ∙ ap (λ (a : Utf8Atom). drop a.len (c ∷ cs) ++ rest) (sym same) in
    cons-IsValid c cs ok (
      cut-IsValid n (after (c ∷ cs)) rest (omega (arith, length-after c cs)) h
        (subst IsValid split later))

-- Both parts of a valid text cut in two are valid.
pub IsValid-cut : (p rest : Bytes) → IsCut rest → IsValid (p ++ rest) → IsValid p × IsValid rest
IsValid-cut p rest h v =
    let front = cut-IsValid (length p) p rest (omega arith) h v in
    (front, Reaches-IsValid (Reaches-append (length p) p rest (omega arith) front) v)
