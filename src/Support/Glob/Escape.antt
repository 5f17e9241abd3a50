-- ===== src/Support/Glob/Escape.antt =====
-- `GlobPattern::escape`: the pattern of a literal, and what `create` makes of it.
use mathlib.Core.Path.{subst}
use kotatsu.Base.{
  ℕ, zero, suc, ◌-◌, ◌≤◌, ◌<◌, true, false, [], ◌∷◌, ◌++◌, none, ◌≡◌, ◌↔◌, inl, inr, refl, sym, ap,
  ◌∙◌, arith, length, get_or, take, drop, ltb, leb, ◌==◌, take-all, length-take, drop_whole,
  take-append-drop, drop-append_self, Bool-cases, Option-cases, value,
}
use kotatsu.Support.Text.{Bytes, codes, starts_with, find}
use kotatsu.Support.Text.Equal.{equal-eq, equal_self}
use kotatsu.Support.Glob.{
  Utf8Atom, LiteralHead, head_more, is_special, is_wildcard, literal_head, literal_head_from,
  decode_utf8_atom, invalid_atom_base, after, find_invalid_utf8, find_invalid_from, escape,
}
use kotatsu.Support.Glob.Atoms.{len-atom, atom-continues, ascii_atom, atom-replace, length-after}
use kotatsu.Support.Glob.Valid.{IsValid, IsValid-cons, cons-IsValid}
use kotatsu.Support.Glob.Create.Arms.{GlobPattern}
use kotatsu.Support.Glob.Create.{double_slash, literal_pattern, create_head, create, match}

escape_special :
    (c : ℕ) (cs : Bytes) → is_special c ≡ true → escape (c ∷ cs) ≡ b'\\' ∷ c ∷ escape cs
unfolding escape
escape_special c cs e = rw e

escape_plain : (c : ℕ) (cs : Bytes) → is_special c ≡ false → escape (c ∷ cs) ≡ c ∷ escape cs
unfolding escape
escape_plain c cs e = rw e

head_special :
    (c : ℕ) (x : Bytes)
    → is_special c ≡ true
    → literal_head_from false (b'\\' ∷ c ∷ x)
      ≡ head_more [] (head_more (c ∷ []) (literal_head_from false x))
unfolding literal_head_from
head_special c x e = let k : (c == b'/') ≡ false = ground arith in rw k

head_plain :
    (c : ℕ) (x : Bytes)
    → is_special c ≡ false
    → literal_head_from false (c ∷ x) ≡ head_more (c ∷ []) (literal_head_from false x)
unfolding literal_head_from
head_plain c x e =
    let w : is_wildcard c ≡ false = ground arith in
    let b : (c == b'\\') ≡ false = ground arith in rw (w, b)

abbrev whole_head : Bytes → Bytes → LiteralHead
whole_head text pattern = record { text = text; end = length pattern }

-- The head of an escaped literal is the literal, and ends where the pattern does.
pub literal_head-escape : (s : Bytes) → literal_head_from false (escape s) ≡ whole_head s (escape s)
unfolding literal_head_from escape
literal_head-escape [] = refl
literal_head-escape (c ∷ cs) = elim (Bool-cases (is_special c)) [
  | inl e ↦
      ap (literal_head_from false) (escape_special c cs e)
      ∙ head_special c (escape cs) e
      ∙ ap (λ h. head_more [] (head_more (c ∷ []) h)) (literal_head-escape cs)
      ∙ ap (whole_head (c ∷ cs)) (sym (escape_special c cs e))
  | inr e ↦
      ap (literal_head_from false) (escape_plain c cs e)
      ∙ head_plain c (escape cs) e
      ∙ ap (head_more (c ∷ [])) (literal_head-escape cs)
      ∙ ap (whole_head (c ∷ cs)) (sym (escape_plain c cs e))
]

-- Escapes neither join slashes nor part them.
starts_with-escape : (s : Bytes) → starts_with (escape s) (b'/' ∷ []) ≡ starts_with s (b'/' ∷ [])
unfolding escape starts_with
starts_with-escape [] = refl
starts_with-escape (c ∷ cs) = ground arith

double_slash-find : (s : Bytes) → double_slash s ≡ find (b'/' ∷ b'/' ∷ []) s
unfolding double_slash find starts_with
double_slash-find [] = refl
double_slash-find (c ∷ cs) = rw (double_slash-find cs)

pub double_slash-escape : (s : Bytes) → double_slash s ≡ none → double_slash (escape s) ≡ none
unfolding double_slash escape
double_slash-escape [] h = refl
double_slash-escape (c ∷ cs) h = elim (Option-cases (double_slash cs)) [
  | inl e ↦ ground (arith, double_slash-escape cs e, starts_with-escape cs)
  | inr (i, e) ↦ absurd (ground arith)
]

-- Bytes outside ASCII are not escaped.
abbrev IsWide : Bytes → Type 0
IsWide s = (i : ℕ) → i < length s → 0x80 ≤ get_or s i 0

escape-wide : (s : Bytes) → IsWide s → escape s ≡ s
unfolding escape
escape-wide [] h = refl
escape-wide (c ∷ cs) h =
    let wide : 0x80 ≤ c = h 0 (omega arith) in
    let e : is_special c ≡ false = ground arith in
    rw e (ap (λ ds. c ∷ ds) (escape-wide cs (λ i l. h (suc i) (omega arith))))

escape-append : (s t : Bytes) → escape (s ++ t) ≡ escape s ++ escape t
unfolding escape
escape-append [] t = refl
escape-append (c ∷ cs) t = elim (Bool-cases (is_special c)) [
  | inl e ↦ rw (e, escape-append cs t)
  | inr e ↦ rw (e, escape-append cs t)
]

get_or-take : (n i : ℕ) (s : Bytes) → i < length (take n s) → get_or (take n s) i 0 ≡ get_or s i 0
get_or-take zero i s h = absurd (omega arith)
get_or-take (suc n) i [] h = absurd (omega arith)
get_or-take (suc n) zero (c ∷ cs) h = refl
get_or-take (suc n) (suc i) (c ∷ cs) h = get_or-take n i cs (omega arith)

-- The bytes of an atom outside ASCII.
atom-IsWide :
    (c : ℕ) (cs : Bytes) → 0x80 ≤ c → IsWide (c ∷ take ((decode_utf8_atom (c ∷ cs)).len - 1) cs)
atom-IsWide c cs h zero l = h
atom-IsWide c cs h (suc i) l =
    let n : ℕ = (decode_utf8_atom (c ∷ cs)).len - 1 in
    let inside : i < length (take n cs) = omega arith in
    let same = get_or-take n i cs inside in
    let k = length-take n cs in
    let b : suc i < (decode_utf8_atom (c ∷ cs)).len = omega arith in
    rw same (atom-continues c cs i b).0

ascii-IsValid : (c : ℕ) (cs : Bytes) → c < 0x80 → IsValid cs → IsValid (c ∷ cs)
ascii-IsValid c cs h v =
    let a = ascii_atom c cs h in
    let k : leb invalid_atom_base (decode_utf8_atom (c ∷ cs)).cp ≡ false = rw a (ground arith) in
    cons-IsValid c cs k (rw a v)

-- A wide atom, in front of the escape of what follows it.
wide-IsValid :
    (c : ℕ) (cs : Bytes)
    → 0x80 ≤ c
    → leb invalid_atom_base (decode_utf8_atom (c ∷ cs)).cp ≡ false
    → IsValid (escape (after (c ∷ cs)))
    → IsValid (escape (c ∷ cs))
wide-IsValid c cs w h v =
    let len : ℕ = (decode_utf8_atom (c ∷ cs)).len in
    let tail : Bytes = take (len - 1) cs in
    let rest : Bytes = drop (len - 1) cs in
    let more : len ≡ suc (len - 1) = omega (arith, len-atom c cs) in
    let size : length tail ≡ len - 1 = omega (arith, len-atom c cs, length-take (len - 1) cs) in
    let cut : after (c ∷ cs) ≡ rest = ap (λ n. drop n (c ∷ cs)) more in
    let parts : escape (c ∷ cs) ≡ c ∷ tail ++ escape rest =
      ap (λ x. escape (c ∷ x)) (sym (take-append-drop (len - 1) cs))
      ∙ escape-append (c ∷ tail) rest
      ∙ ap (λ x. x ++ escape rest) (escape-wide (c ∷ tail) (atom-IsWide c cs w)) in
    let same = atom-replace c cs (escape rest) h in
    let behind : after (c ∷ tail ++ escape rest) ≡ escape rest =
      ap (λ (a : Utf8Atom). drop a.len (c ∷ tail ++ escape rest)) same
      ∙ ap (λ n. drop n (c ∷ tail ++ escape rest)) (more ∙ ap suc (sym size))
      ∙ drop-append_self tail (escape rest) in
    let valid : leb invalid_atom_base (decode_utf8_atom (c ∷ tail ++ escape rest)).cp ≡ false =
      ap (λ (a : Utf8Atom). leb invalid_atom_base a.cp) same ∙ h in
    let later : IsValid (after (c ∷ tail ++ escape rest)) =
      subst IsValid (ap escape cut ∙ sym behind) v in
    subst IsValid (sym parts) (cons-IsValid c (tail ++ escape rest) valid later)

escape-IsValid : (n : ℕ) (s : Bytes) → length s ≤ n → IsValid s → IsValid (escape s)
unfolding escape find_invalid_from
escape-IsValid n [] l h = refl
escape-IsValid zero (c ∷ cs) l h = absurd (omega arith)
escape-IsValid (suc n) (c ∷ cs) l h =
    let (valid, later) = IsValid-cons c cs h in
    elim (Bool-cases (ltb c 0x80)) [
      | inl e ↦
          let b : c < 0x80 = ground arith in
          let a = ascii_atom c cs b in
          let v = escape-IsValid n cs (omega arith) (rw a at later) in
          elim (Bool-cases (is_special c)) [
            | inl k ↦ subst IsValid (sym (escape_special c cs k)) (
                ascii-IsValid b'\\' (c ∷ escape cs) (omega arith) (ascii-IsValid c (escape cs) b v))
            | inr k ↦ subst IsValid (sym (escape_plain c cs k)) (ascii-IsValid c (escape cs) b v)
          ]
      | inr e ↦
          wide-IsValid c cs (ground arith) valid
            (escape-IsValid n (after (c ∷ cs)) (omega (arith, length-after c cs)) later)
    ]

created :
    (s : Bytes) (m : ℕ) (head : LiteralHead)
    → head ≡ whole_head s (escape s)
    → double_slash (escape s) ≡ none
    → create_head (escape s) m head ≡ value (literal_pattern s)
unfolding starts_with
created s m head e h =
    let all : take (length (escape s)) (escape s) ≡ escape s =
      take-all (length (escape s)) (escape s) (omega arith) in
    let end : (length (escape s) == length (escape s)) ≡ true = ground arith in
    rw (e, drop_whole (escape s), all, h, end)

-- The escape of a literal that is valid UTF-8 and holds no `//` compiles, however many arms are
-- allowed, to a pattern that matches the literal and nothing else.
pub create-escape :
    (s : Bytes) (max_arms : ℕ)
    → find_invalid_utf8 s ≡ none
    → find (codes "//") s ≡ none
    → (p : GlobPattern) × (create (escape s) max_arms ≡ value p)
      × ((x : Bytes) → (match p x ≡ true) ↔ (x ≡ s))
unfolding create match find_invalid_utf8 literal_head
create-escape s max_arms v h =
    let valid = escape-IsValid (length s) s (omega arith) v in
    let slashes = double_slash-escape s (double_slash-find s ∙ h) in
    (
      literal_pattern s,
      rw valid
          (created s max_arms (literal_head_from false (escape s)) (literal_head-escape s) slashes),
      λ x. (equal-eq x s, λ e. rw e (equal_self s)),
    )
