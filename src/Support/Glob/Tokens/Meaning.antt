-- ===== src/Support/Glob/Tokens/Meaning.antt =====
-- What it means for tokens to match an input, with no search order in it: a star passes any number of
-- atoms, `?` and a class one, a literal its own bytes.
use kotatsu.Base.{ℕ, ◌≤◌, true, List, [], ◌∷◌, ◌≡◌, arith, length, drop, length-drop}
use kotatsu.Support.Text.{Bytes, starts_with}
use kotatsu.Support.Glob.{decode_utf8_atom, after}
use kotatsu.Support.Glob.Atoms.{Reaches, here, next, length-Reaches, Reaches-trans, Reaches-shorter}
use kotatsu.Support.Glob.Valid.{IsValid, Reaches-behind}
use kotatsu.Support.Glob.Bracket.{CharClass, contains}
use kotatsu.Support.Glob.Compile.{Token, literal, star, any, class}

-- A token that is no star takes the front of the first text and leaves the second one.
pub data Takes : Token → Bytes → Bytes → Type 0 where
  text : {t s : Bytes} → starts_with s t ≡ true → Takes (literal t) s (drop (length t) s)
  one : {c : ℕ} {cs : Bytes} → Takes any (c ∷ cs) (after (c ∷ cs))
  member :
      {k : CharClass} {c : ℕ} {cs : Bytes}
      → contains k (decode_utf8_atom (c ∷ cs)).cp ≡ true
      → Takes (class k) (c ∷ cs) (after (c ∷ cs))

pub data Matches : List Token → Bytes → Type 0 where
  done : Matches [] []
  take :
      {t : Token} {ts : List Token} {s u : Bytes} → Takes t s u → Matches ts u → Matches (t ∷ ts) s
  leave : {ts : List Token} {s : Bytes} → Matches ts s → Matches (star ∷ ts) s
  pass :
      {ts : List Token} {c : ℕ} {cs : Bytes}
      → Matches (star ∷ ts) (after (c ∷ cs))
      → Matches (star ∷ ts) (c ∷ cs)

-- Tokens whose literals are valid texts and not empty, as those of a valid pattern are.
pub data Utf8Tokens : List Token → Type 0 where
  no_token : Utf8Tokens []
  a_literal :
      {c : ℕ} {cs : Bytes} {ts : List Token}
      → IsValid (c ∷ cs)
      → Utf8Tokens ts
      → Utf8Tokens (literal (c ∷ cs) ∷ ts)
  a_star : {ts : List Token} → Utf8Tokens ts → Utf8Tokens (star ∷ ts)
  an_any : {ts : List Token} → Utf8Tokens ts → Utf8Tokens (any ∷ ts)
  a_class : {k : CharClass} {ts : List Token} → Utf8Tokens ts → Utf8Tokens (class k ∷ ts)

pub Utf8Tokens-rest : {t : Token} {ts : List Token} → Utf8Tokens (t ∷ ts) → Utf8Tokens ts
Utf8Tokens-rest (a_literal v w) = w
Utf8Tokens-rest (a_star w) = w
Utf8Tokens-rest (an_any w) = w
Utf8Tokens-rest (a_class w) = w

pub Utf8Tokens-literal :
    {t : Bytes} {ts : List Token} → Utf8Tokens (literal t ∷ ts) → IsValid t × (1 ≤ length t)
Utf8Tokens-literal (a_literal v w) = (v, omega arith)

-- A star is a choice of an atom to go on from.
pub Matches→Reaches :
    {ts : List Token} {s : Bytes} → Matches (star ∷ ts) s → (u : Bytes) × Reaches s u × Matches ts u
Matches→Reaches (leave {s} m) = (s, here, m)
Matches→Reaches (take d _) = elim d [ ]
Matches→Reaches (pass m) = let (u, r, k) = Matches→Reaches m in (u, next r, k)

pub Reaches→Matches :
    {ts : List Token} {s u : Bytes} → Reaches s u → Matches ts u → Matches (star ∷ ts) s
Reaches→Matches here m = leave m
Reaches→Matches (next r) m = pass (Reaches→Matches r m)

pub must_pass :
    {ts : List Token} {c : ℕ} {cs : Bytes}
    → Matches (star ∷ ts) (c ∷ cs)
    → ¬ Matches ts (c ∷ cs)
    → Matches (star ∷ ts) (after (c ∷ cs))
must_pass (leave m) n = absurd (n m)
must_pass (pass m) n = m
must_pass (take d _) n = elim d [ ]

pub two_stars : {ts : List Token} {s : Bytes} → Matches (star ∷ star ∷ ts) s → Matches (star ∷ ts) s
two_stars (leave m) = m
two_stars (take d _) = elim d [ ]
two_stars (pass m) = pass (two_stars m)

pub literal_inv :
    {t : Bytes} {ts : List Token} {s : Bytes}
    → Matches (literal t ∷ ts) s
    → (starts_with s t ≡ true) × Matches ts (drop (length t) s)
literal_inv (take (text h) m) = (h, m)

pub any_inv :
    {ts : List Token} {c : ℕ} {cs : Bytes}
    → Matches (any ∷ ts) (c ∷ cs)
    → Matches ts (after (c ∷ cs))
any_inv (take one m) = m

pub class_inv :
    {k : CharClass} {ts : List Token} {c : ℕ} {cs : Bytes}
    → Matches (class k ∷ ts) (c ∷ cs)
    → (contains k (decode_utf8_atom (c ∷ cs)).cp ≡ true) × Matches ts (after (c ∷ cs))
class_inv (take (member h) m) = (h, m)

Takes-Reaches :
    {t : Token} {ts : List Token} {s u : Bytes} → Utf8Tokens (t ∷ ts) → Takes t s u → Reaches s u
Takes-Reaches w (text {t} {s} h) = Reaches-behind s t (Utf8Tokens-literal w).0 h
Takes-Reaches w one = next here
Takes-Reaches w (member h) = next here

-- A token taken at a later atom leaves less.
Takes-later :
    {t : Token} {ts : List Token} {s u s' u' : Bytes}
    → Utf8Tokens (t ∷ ts)
    → Takes t s u
    → Reaches s s'
    → Takes t s' u'
    → Reaches u u'
Takes-later w (text {t} {s} h) r (text {s = s'} h') =
    let e = length-drop (length t) s in
    let e' = length-drop (length t) s' in
    Reaches-shorter (Takes-Reaches w (text h)) (Reaches-trans r (Takes-Reaches w (text h')))
      (omega (arith, e, e', length-Reaches r))
Takes-later w one here one = here
Takes-later w one (next r) one = Reaches-trans r (next here)
Takes-later w (member h) here (member h') = here
Takes-later w (member h) (next r) (member h') = Reaches-trans r (next here)

-- The latest star loses nothing by the token behind it being taken where it first matches.
pub drop_token :
    {t : Token} {ts : List Token} {s u : Bytes}
    → Utf8Tokens (t ∷ ts)
    → Takes t s u
    → Matches (star ∷ t ∷ ts) s
    → Matches (star ∷ ts) u
drop_token w d m = let (s', r, k) = Matches→Reaches m in behind w d r k
  where
    behind :
        {t : Token} {ts : List Token} {s u s' : Bytes}
        → Utf8Tokens (t ∷ ts)
        → Takes t s u
        → Reaches s s'
        → Matches (t ∷ ts) s'
        → Matches (star ∷ ts) u
    behind w d r (take d' m) = Reaches→Matches (Takes-later w d r d') m
    behind w d r (leave m) = elim d [ ]
    behind w d r (pass m) = elim d [ ]
