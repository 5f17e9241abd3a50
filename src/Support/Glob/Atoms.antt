-- ===== src/Support/Glob/Atoms.antt =====
-- The atoms of a text: where they start, and those of a valid text at the front of another one.
use kotatsu.Base.{
  ℕ, zero, suc, ◌+◌, ◌-◌, ◌≤◌, ◌<◌, true, false, [], ◌∷◌, ◌++◌, ◌≡◌, ◌⊎◌, inl, inr, refl, sym, ap,
  ◌∙◌, arith, length, get_or, take, drop, ltb, leb, length-drop, drop-nil, Bool-cases,
}
use kotatsu.Support.Text.{Bytes}
use kotatsu.Support.Unicode.{decode_utf8, decode_sequence}
use kotatsu.Support.Unicode.Decode.{count-decode_sequence}
use kotatsu.Support.Unicode.Sequences.{
  decode_utf8-continues, decode_utf8-append, decode_utf8-lead, decode_utf8-replace,
}
use kotatsu.Support.Glob.{decode_utf8_atom, invalid_atom_base, after}

abbrev pub IsContinuation : ℕ → Type 0
IsContinuation byte = (0x80 ≤ byte) × (byte ≤ 0xBF)

pub len-atom :
    (c : ℕ) (cs : Bytes) → let n = (decode_utf8_atom (c ∷ cs)).len in (1 ≤ n) × (n ≤ 1 + length cs)
unfolding decode_utf8_atom decode_utf8
len-atom c cs = ground (arith, count-decode_sequence c cs false)

pub atom-continues :
    (c : ℕ) (cs : Bytes) (i : ℕ)
    → suc i < (decode_utf8_atom (c ∷ cs)).len
    → IsContinuation (get_or cs i 0)
unfolding decode_utf8_atom
atom-continues c cs i h = ground (arith, decode_utf8-continues c cs i)

pub atom-valid :
    (c : ℕ) (cs : Bytes)
    → leb invalid_atom_base (decode_utf8_atom (c ∷ cs)).cp ≡ false
    → (decode_utf8 (c ∷ cs)).valid ≡ true
unfolding decode_utf8_atom
atom-valid c cs h = ground arith

-- A valid atom is read alike whatever follows the text.
pub atom-append :
    (c : ℕ) (cs more : Bytes)
    → leb invalid_atom_base (decode_utf8_atom (c ∷ cs)).cp ≡ false
    → decode_utf8_atom (c ∷ cs ++ more) ≡ decode_utf8_atom (c ∷ cs)
unfolding decode_utf8_atom
atom-append c cs more h = rw (decode_utf8-append (c ∷ cs) more (atom-valid c cs h))

-- What follows a valid atom does not matter to it.
pub atom-replace :
    (c : ℕ) (cs more : Bytes)
    → leb invalid_atom_base (decode_utf8_atom (c ∷ cs)).cp ≡ false
    → decode_utf8_atom (c ∷ take ((decode_utf8_atom (c ∷ cs)).len - 1) cs ++ more)
      ≡ decode_utf8_atom (c ∷ cs)
unfolding decode_utf8_atom
atom-replace c cs more h =
    let v = atom-valid c cs h in rw (v, decode_utf8-replace c cs more v) (rw v)

-- A byte that continues a sequence is no atom of a valid text.
pub atom-lead :
    (c : ℕ) (cs : Bytes)
    → leb invalid_atom_base (decode_utf8_atom (c ∷ cs)).cp ≡ false
    → IsContinuation c
    → ⊥
atom-lead c cs h k = decode_utf8-lead c cs (atom-valid c cs h) k.0 k.1

-- Some atom of the first text starts where the second one does.
pub data Reaches : Bytes → Bytes → Type 0 where
  here : {s : Bytes} → Reaches s s
  next : {c : ℕ} {cs u : Bytes} → Reaches (after (c ∷ cs)) u → Reaches (c ∷ cs) u

pub length-after : (c : ℕ) (cs : Bytes) → length (after (c ∷ cs)) ≤ length cs
length-after c cs =
    omega (arith, len-atom c cs, length-drop (decode_utf8_atom (c ∷ cs)).len (c ∷ cs))

pub length-Reaches : {s u : Bytes} → Reaches s u → length u ≤ length s
length-Reaches here = omega arith
length-Reaches (next {c} {cs} r) = omega (arith, length-Reaches r, length-after c cs)

pub Reaches-all : {s u : Bytes} → Reaches s u → length s ≤ length u → s ≡ u
Reaches-all here h = refl
Reaches-all (next {c} {cs} r) h = absurd (omega (arith, length-Reaches r, length-after c cs))

pub Reaches-trans : {s u v : Bytes} → Reaches s u → Reaches u v → Reaches s v
Reaches-trans here q = q
Reaches-trans (next r) q = next (Reaches-trans r q)

-- Of two atoms of a text the later one is reached from the earlier one.
pub Reaches-linear : {s u v : Bytes} → Reaches s u → Reaches s v → Reaches u v ⊎ Reaches v u
Reaches-linear here q = inl q
Reaches-linear (next r) here = inr (next r)
Reaches-linear (next r) (next q) = Reaches-linear r q

-- Where two atoms stand is told by the lengths behind them.
pub Reaches-shorter :
    {s u v : Bytes} → Reaches s u → Reaches s v → length v ≤ length u → Reaches u v
Reaches-shorter {u} {v} r q h = elim (Reaches-linear r q) [
  | inl p ↦ p
  | inr p ↦ let e : v ≡ u = Reaches-all p h in rw e here
]

pub Reaches-end : (n : ℕ) (s : Bytes) → length s ≤ n → Reaches s []
Reaches-end n [] h = here
Reaches-end zero (c ∷ cs) h = absurd (omega arith)
Reaches-end (suc n) (c ∷ cs) h =
    next (Reaches-end n (after (c ∷ cs)) (omega (arith, length-after c cs)))

get_or-drop : (n k : ℕ) (s : Bytes) → get_or (drop n s) k 0 ≡ get_or s (n + k) 0
get_or-drop zero k s = ap (λ i. get_or s i 0) (omega arith)
get_or-drop (suc n) k [] = refl
get_or-drop (suc n) k (c ∷ cs) =
    let e : suc n + k ≡ suc (n + k) = omega arith in rw e (get_or-drop n k cs)

drop-sub : (n k : ℕ) (s : Bytes) → n ≤ k → drop (k - n) (drop n s) ≡ drop k s
drop-sub zero k s h = ap (λ i. drop i s) (omega arith)
drop-sub (suc n) zero s h = absurd (omega arith)
drop-sub (suc n) (suc k) [] h = drop-nil ℕ (suc k - suc n)
drop-sub (suc n) (suc k) (c ∷ cs) h =
    let e : suc k - suc n ≡ k - n = omega arith in rw e (drop-sub n k cs (omega arith))

-- An atom starts at every byte that continues none.
pub Reaches-drop :
    (n : ℕ) (s : Bytes) (k : ℕ)
    → length s ≤ n
    → k < length s
    → (IsContinuation (get_or s k 0) → ⊥)
    → Reaches s (drop k s)
Reaches-drop n [] k h l b = absurd (omega arith)
Reaches-drop zero (c ∷ cs) k h l b = absurd (omega arith)
Reaches-drop (suc n) (c ∷ cs) zero h l b = here
Reaches-drop (suc n) (c ∷ cs) (suc k) h l b =
    let len : ℕ = (decode_utf8_atom (c ∷ cs)).len in
    elim (Bool-cases (leb len (suc k))) [
      | inl e ↦
          let inside : len ≤ suc k = ground arith in
          let there : len + (suc k - len) ≡ suc k = omega arith in
          let same = get_or-drop len (suc k - len) (c ∷ cs) ∙ ap (λ i. get_or (c ∷ cs) i 0) there in
          let later =
            Reaches-drop n (drop len (c ∷ cs)) (suc k - len) (omega (arith, length-after c cs))
              (omega (arith, length-drop len (c ∷ cs)))
              (λ (q : IsContinuation (get_or (drop len (c ∷ cs)) (suc k - len) 0)).
                b (rw same at q)) in
          next (rw (sym (drop-sub len (suc k) (c ∷ cs) inside)) later)
      | inr e ↦ absurd (b (atom-continues c cs k (ground arith)))
    ]

-- A byte of ASCII is an atom.
pub ascii_atom :
    (c : ℕ) (cs : Bytes) → c < 0x80 → decode_utf8_atom (c ∷ cs) ≡ record { cp = c; len = 1 }
unfolding decode_utf8_atom decode_utf8 decode_sequence
ascii_atom c cs h = let e : ltb c 0x80 ≡ true = ground arith in rw e
