-- ===== src/Support/Glob/Compile/Writing.antt =====
-- Tokens as `compile_arm` writes them, byte by byte.
use kotatsu.Base.{
  ℕ, ◌≤◌, List, [], ◌∷◌, ◌++◌, ◌≡◌, refl, sym, ap, ◌∙◌, arith, length, length-append, append_assoc,
  append-nil,
}
use mathlib.Core.Path.{subst}
use kotatsu.Support.Text.{Bytes}
use kotatsu.Support.Glob.{find_invalid_from}
use kotatsu.Support.Glob.Valid.{IsValid}
use kotatsu.Support.Glob.Cuts.{IsCut, IsValid-cut, IsValid-append}
use kotatsu.Support.Glob.Bracket.{CharClass}
use kotatsu.Support.Glob.Compile.{Token, literal, star, any, class, push_literal, push_star}
use kotatsu.Support.Glob.Tokens.Meaning.{Utf8Tokens, no_token, a_literal, a_star, an_any, a_class}

-- The tokens written so far, in front of the rest of the pattern: the last literal may end inside an
-- atom, which the rest then goes on with.
pub data Writing : List Token → Bytes → Type 0 where
  start : {rest : Bytes} → IsValid rest → Writing [] rest
  in_literal :
      {text rest : Bytes} (whole part : Bytes)
      → text ≡ whole ++ part
      → 1 ≤ length text
      → IsValid whole
      → IsValid (part ++ rest)
      → Writing (literal text ∷ []) rest
  at_star : {rest : Bytes} → IsValid rest → Writing (star ∷ []) rest
  at_any : {rest : Bytes} → IsValid rest → Writing (any ∷ []) rest
  at_class : {k : CharClass} {rest : Bytes} → IsValid rest → Writing (class k ∷ []) rest
  behind :
      {t : Token} {ts : List Token} {rest : Bytes}
      → Utf8Tokens (t ∷ [])
      → 1 ≤ length ts
      → Writing ts rest
      → Writing (t ∷ ts) rest

Utf8Tokens-cons :
    {t : Token} {ts : List Token} → Utf8Tokens (t ∷ []) → Utf8Tokens ts → Utf8Tokens (t ∷ ts)
Utf8Tokens-cons (a_literal v w) k = a_literal v k
Utf8Tokens-cons (a_star w) k = a_star k
Utf8Tokens-cons (an_any w) k = an_any k
Utf8Tokens-cons (a_class w) k = a_class k

pub Utf8Tokens-append : {ts us : List Token} → Utf8Tokens ts → Utf8Tokens us → Utf8Tokens (ts ++ us)
Utf8Tokens-append no_token k = k
Utf8Tokens-append (a_literal v w) k = a_literal v (Utf8Tokens-append w k)
Utf8Tokens-append (a_star w) k = a_star (Utf8Tokens-append w k)
Utf8Tokens-append (an_any w) k = an_any (Utf8Tokens-append w k)
Utf8Tokens-append (a_class w) k = a_class (Utf8Tokens-append w k)

literal-Utf8Tokens :
    (text : Bytes) → IsValid text → 1 ≤ length text → Utf8Tokens (literal text ∷ [])
literal-Utf8Tokens [] v l = absurd (omega arith)
literal-Utf8Tokens (c ∷ cs) v l = a_literal v no_token

-- At a cut all tokens are whole, and the rest of the pattern is valid.
pub Writing-whole :
    {ts : List Token} {rest : Bytes} → IsCut rest → Writing ts rest → Utf8Tokens ts × IsValid rest
Writing-whole b (start v) = (no_token, v)
Writing-whole {rest} b (in_literal {text} whole part e l v w) =
    let (x, y) = IsValid-cut part rest b w in
    (literal-Utf8Tokens text (subst IsValid (sym e) (IsValid-append whole part v x)) l, y)
Writing-whole b (at_star v) = (a_star no_token, v)
Writing-whole b (at_any v) = (an_any no_token, v)
Writing-whole b (at_class v) = (a_class no_token, v)
Writing-whole b (behind k l w) = let (x, y) = Writing-whole b w in (Utf8Tokens-cons k x, y)

pub nil-IsValid : IsValid []
unfolding find_invalid_from
nil-IsValid = refl

-- Whole tokens, in front of any valid rest.
pub Utf8Tokens-Writing :
    {ts : List Token} {rest : Bytes} → Utf8Tokens ts → IsValid rest → Writing ts rest
Utf8Tokens-Writing no_token v = start v
Utf8Tokens-Writing (a_literal {c} {cs} {ts = []} u w) v =
    in_literal (c ∷ cs) [] (sym (append-nil (c ∷ cs))) (omega arith) u v
Utf8Tokens-Writing (a_star {ts = []} w) v = at_star v
Utf8Tokens-Writing (an_any {ts = []} w) v = at_any v
Utf8Tokens-Writing (a_class {ts = []} w) v = at_class v
Utf8Tokens-Writing (a_literal {ts = t ∷ ts} u w) v =
    behind (a_literal u no_token) (omega arith) (Utf8Tokens-Writing w v)
Utf8Tokens-Writing (a_star {ts = t ∷ ts} w) v =
    behind (a_star no_token) (omega arith) (Utf8Tokens-Writing w v)
Utf8Tokens-Writing (an_any {ts = t ∷ ts} w) v =
    behind (an_any no_token) (omega arith) (Utf8Tokens-Writing w v)
Utf8Tokens-Writing (a_class {ts = t ∷ ts} w) v =
    behind (a_class no_token) (omega arith) (Utf8Tokens-Writing w v)

begin_literal : (c : ℕ) (cs : Bytes) → IsValid (c ∷ cs) → Writing (literal (c ∷ []) ∷ []) cs
begin_literal c cs v = in_literal [] (c ∷ []) refl (omega arith) nil-IsValid v

length-push_literal : (ts : List Token) (c : ℕ) → 1 ≤ length (push_literal ts c)
unfolding push_literal
length-push_literal [] c = omega arith
length-push_literal (literal text ∷ []) c = omega arith
length-push_literal (star ∷ []) c = omega arith
length-push_literal (any ∷ []) c = omega arith
length-push_literal (class k ∷ []) c = omega arith
length-push_literal (t ∷ t' ∷ ts) c = omega arith

pub push_literal-Writing :
    (c : ℕ) (cs : Bytes) {ts : List Token} → Writing ts (c ∷ cs) → Writing (push_literal ts c) cs
unfolding push_literal
push_literal-Writing c cs (start v) = begin_literal c cs v
push_literal-Writing c cs (in_literal {text} whole part e l v w) =
    in_literal whole (part ++ c ∷ []) (ap (λ x. x ++ c ∷ []) e ∙ append_assoc whole part (c ∷ []))
      (omega (arith, length-append text (c ∷ []))) v
      (subst IsValid (sym (append_assoc part (c ∷ []) cs)) w)
push_literal-Writing c cs (at_star v) =
    behind (a_star no_token) (omega arith) (begin_literal c cs v)
push_literal-Writing c cs (at_any v) = behind (an_any no_token) (omega arith) (begin_literal c cs v)
push_literal-Writing c cs (at_class v) =
    behind (a_class no_token) (omega arith) (begin_literal c cs v)
push_literal-Writing c cs (behind {ts = []} k l w) = absurd (omega arith)
push_literal-Writing c cs (behind {ts = t' ∷ ts} k l w) =
    behind k (length-push_literal (t' ∷ ts) c) (push_literal-Writing c cs w)

pub push_star-Utf8Tokens : {ts : List Token} → Utf8Tokens ts → Utf8Tokens (push_star ts)
unfolding push_star
push_star-Utf8Tokens no_token = a_star no_token
push_star-Utf8Tokens (a_star {ts = []} w) = a_star no_token
push_star-Utf8Tokens (a_literal {ts = []} v w) = a_literal v (a_star no_token)
push_star-Utf8Tokens (an_any {ts = []} w) = an_any (a_star no_token)
push_star-Utf8Tokens (a_class {ts = []} w) = a_class (a_star no_token)
push_star-Utf8Tokens (a_star {ts = t ∷ ts} w) = a_star (push_star-Utf8Tokens w)
push_star-Utf8Tokens (a_literal {ts = t ∷ ts} v w) = a_literal v (push_star-Utf8Tokens w)
push_star-Utf8Tokens (an_any {ts = t ∷ ts} w) = an_any (push_star-Utf8Tokens w)
push_star-Utf8Tokens (a_class {ts = t ∷ ts} w) = a_class (push_star-Utf8Tokens w)
