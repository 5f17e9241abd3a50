-- ===== src/Support/Glob/Compile/Literals.antt =====
-- The tokens of a round of `compile_arm`: literals are runs of the pattern between bytes of ASCII.
use kotatsu.Base.{
  ℕ, zero, suc, ◌+◌, ◌-◌, ◌<◌, Bool, true, false, ◌&&◌, List, [], ◌∷◌, ◌≡◌, inl, inr, refl, ap,
  arith, length, get_or, drop, ltb, ◌==◌, if-cases, Bool-cases, Expected, value, unexpected,
}
use mathlib.Core.Path.{subst}
use kotatsu.Support.Text.{Bytes}
use kotatsu.Support.Glob.{GlobError, Utf8Atom, after}
use kotatsu.Support.Glob.Atoms.{IsContinuation, ascii_atom}
use kotatsu.Support.Glob.Valid.{IsValid, IsValid-cons}
use kotatsu.Support.Glob.Cuts.{drop-IsValid}
use kotatsu.Support.Glob.Bracket.{
  Range, scan_members, scan_leading, negates, scan_bracket, parse_bracket_charset,
}
use kotatsu.Support.Glob.Braces.{slice}
use kotatsu.Support.Glob.Compile.{
  Token, count_stars_front, Taken, class_of, class_body, take_class, take_stars, take_escaped,
  take_token,
}
use kotatsu.Support.Glob.Tokens.Meaning.{Utf8Tokens, no_token, an_any, a_class}
use kotatsu.Support.Glob.Compile.Writing.{
  Writing, Writing-whole, Utf8Tokens-append, Utf8Tokens-Writing, push_literal-Writing,
  push_star-Utf8Tokens,
}

-- Where `scan_bracket` gives a place, a `]` stands there.
data Closes (opened : ℕ) (cs : Bytes) : Expected ℕ GlobError → Type 0 where
  unclosed : {e : GlobError} → Closes opened cs (unexpected e)
  closes :
      {close : ℕ} (k : ℕ)
      → close ≡ opened + 1 + k
      → k < length cs
      → get_or cs k 0 ≡ b']'
      → Closes opened cs (value close)

later-Closes :
    {opened c : ℕ} {cs : Bytes} {r : Expected ℕ GlobError}
    → Closes (suc opened) cs r
    → Closes opened (c ∷ cs) r
later-Closes unclosed = unclosed
later-Closes (closes k e l g) = closes (suc k) (omega arith) (omega arith) g

scan_members-Closes :
    (escaped : Bool) (opened at j : ℕ) (cs : Bytes)
    → j ≡ at + 1
    → Closes at cs (scan_members escaped opened j cs)
unfolding scan_members
scan_members-Closes true opened at j [] h = unclosed
scan_members-Closes false opened at j [] h = unclosed
scan_members-Closes true opened at j (c ∷ cs) h =
    if-cases (Closes at (c ∷ cs)) (c == b']' && false) (λ e. absurd (ground arith))
      (λ e. later-Closes (scan_members-Closes false opened (suc at) (suc j) cs (omega arith)))
scan_members-Closes false opened at j (c ∷ cs) h =
    if-cases (Closes at (c ∷ cs)) (c == b']' && true)
      (λ e. closes 0 (omega arith) (omega arith) (ground arith))
      (λ e.
        later-Closes (scan_members-Closes (c == b'\\') opened (suc at) (suc j) cs (omega arith)))

scan_leading-Closes :
    (opened at j : ℕ) (cs : Bytes) → j ≡ at + 1 → Closes at cs (scan_leading opened j cs)
scan_leading-Closes opened at j [] h = scan_members-Closes false opened at j [] h
scan_leading-Closes opened at j (c ∷ cs) h =
    if-cases (Closes at (c ∷ cs)) (c == b']')
      (λ e. later-Closes (scan_members-Closes false opened (suc at) (suc j) cs (omega arith)))
      (λ e. scan_members-Closes false opened at j (c ∷ cs) h)

scan_bracket-Closes : (opened : ℕ) (cs : Bytes) → Closes opened cs (scan_bracket opened cs)
unfolding scan_bracket
scan_bracket-Closes opened [] = unclosed
scan_bracket-Closes opened (c ∷ cs) =
    if-cases (Closes opened (c ∷ cs)) (negates c)
      (λ e. later-Closes (scan_leading-Closes opened (suc opened) (opened + 2) cs (omega arith)))
      (λ e. scan_leading-Closes opened opened (opened + 1) (c ∷ cs) refl)

-- What follows a byte of ASCII in a valid text.
pub behind_ascii : (c : ℕ) (cs : Bytes) → c < 0x80 → IsValid (c ∷ cs) → IsValid cs
behind_ascii c cs l v =
    let a = ascii_atom c cs l in
    let e : after (c ∷ cs) ≡ cs = ap (λ (a : Utf8Atom). drop a.len (c ∷ cs)) a in
    subst IsValid e (IsValid-cons c cs v).1

drop-suc : (k : ℕ) (cs : Bytes) → k < length cs → drop k cs ≡ get_or cs k 0 ∷ drop (suc k) cs
drop-suc k [] l = absurd (omega arith)
drop-suc zero (c ∷ cs) l = refl
drop-suc (suc k) (c ∷ cs) l = drop-suc k cs (omega arith)

-- The rest behind a byte of ASCII at a place.
drop-behind_ascii :
    (k : ℕ) (cs : Bytes)
    → k < length cs
    → get_or cs k 0 < 0x80
    → IsValid cs
    → IsValid (drop (suc k) cs)
drop-behind_ascii k cs l a v =
    let w = drop-IsValid cs k v l (λ (q : IsContinuation (get_or cs k 0)). omega arith) in
    behind_ascii (get_or cs k 0) (drop (suc k) cs) a (subst IsValid (drop-suc k cs l) w)

stars-IsValid : (cs : Bytes) → IsValid cs → IsValid (drop (count_stars_front cs) cs)
unfolding count_stars_front
stars-IsValid [] v = v
stars-IsValid (c ∷ cs) v = elim (Bool-cases (c == b'*')) [
  | inl e ↦ rw e (stars-IsValid cs (behind_ascii c cs (ground arith) v))
  | inr e ↦ rw e v
]

-- What a round gives, in front of the rest behind the bytes it passes.
pub data Took (cs : Bytes) : Taken → Type 0 where
  refused : {e : GlobError} → Took cs (unexpected e)
  took : {skip : ℕ} {ts : List Token} → Writing ts (drop skip cs) → Took cs (value (skip, ts))

class_of-Took :
    (i skip : ℕ) (negated : Bool) {ts : List Token} (cs : Bytes)
    (r : Expected (List Range) GlobError)
    → Utf8Tokens ts
    → IsValid (drop skip cs)
    → Took cs (class_of i skip negated ts r)
class_of-Took i skip negated cs (unexpected e) w v = refused
class_of-Took i skip negated cs (value ranges) w v =
    took (Utf8Tokens-Writing (Utf8Tokens-append w (a_class no_token)) v)

class_body-Took :
    (i skip : ℕ) {ts : List Token} (cs body : Bytes)
    → Utf8Tokens ts
    → IsValid (drop skip cs)
    → Took cs (class_body i skip ts body)
class_body-Took i skip cs [] w v = class_of-Took i skip false cs (parse_bracket_charset []) w v
class_body-Took i skip cs (c ∷ body) w v =
    if-cases (Took cs) (negates c)
      (λ h. class_of-Took i skip true cs (parse_bracket_charset body) w v)
      (λ h. class_of-Took i skip false cs (parse_bracket_charset (c ∷ body)) w v)

take_class-Took :
    (i : ℕ) {ts : List Token} (cs : Bytes) (r : Expected ℕ GlobError)
    → Closes i cs r
    → Utf8Tokens ts
    → IsValid cs
    → Took cs (take_class i ts cs r)
take_class-Took i cs (unexpected e) unclosed w v = refused
take_class-Took i cs (value close) (closes k e l g) w v =
    let n : suc k ≡ close - i = omega arith in
    let rest = drop-behind_ascii k cs l (omega (arith, g)) v in
    class_body-Took i (close - i) cs (slice 0 (close - i - 1) cs) w
      (subst (λ m. IsValid (drop m cs)) n rest)

take_stars-Took :
    (i : ℕ) {ts : List Token} (cs : Bytes)
    → Utf8Tokens ts
    → IsValid cs
    → Took cs (take_stars i ts (count_stars_front cs))
take_stars-Took i cs w v =
    if-cases (Took cs) (ltb 2 (suc (count_stars_front cs))) (λ h. refused)
      (λ h. took (Utf8Tokens-Writing (push_star-Utf8Tokens w) (stars-IsValid cs v)))

take_escaped-Took :
    (i : ℕ) {ts : List Token} (cs : Bytes)
    → Utf8Tokens ts
    → IsValid cs
    → Took cs (take_escaped i ts cs)
take_escaped-Took i [] w v = refused
take_escaped-Took i (c ∷ cs) w v =
    if-cases (Took (c ∷ cs)) (c == b'/') (λ h. refused)
      (λ h. took (push_literal-Writing c cs (Utf8Tokens-Writing w v)))

pub take_token-Took :
    (i c : ℕ) (cs : Bytes) {ts : List Token} → Writing ts (c ∷ cs) → Took cs (take_token i c cs ts)
unfolding take_token
take_token-Took i c cs {ts} w =
    let whole : c < 0x80 → Utf8Tokens ts × IsValid cs = λ l.
      let (x, y) = Writing-whole (λ (q : IsContinuation c). omega arith) w in
      (x, behind_ascii c cs l y) in
    if-cases (Took cs) (c == b'[')
      (λ h.
        let (x, y) = whole (ground arith) in
        take_class-Took i cs (scan_bracket i cs) (scan_bracket-Closes i cs) x y)
      (λ h.
        if-cases (Took cs) (c == b'*')
          (λ h. let (x, y) = whole (ground arith) in take_stars-Took i cs x y)
          (λ h.
            if-cases (Took cs) (c == b'?')
              (λ h.
                let (x, y) = whole (ground arith) in
                took (Utf8Tokens-Writing (Utf8Tokens-append x (an_any no_token)) y))
              (λ h.
                if-cases (Took cs) (c == b'\\')
                  (λ h. let (x, y) = whole (ground arith) in take_escaped-Took i cs x y)
                  (λ h. took (push_literal-Writing c cs w)))))
