-- ===== src/Sys/Cmd/Posix.antt =====
-- POSIX command lines that `join` writes, in `split`.
use kotatsu.Base.{
  ℕ, zero, suc, ◌+◌, ◌≤◌, Bool, true, false, List, [], ◌∷◌, ◌++◌, append_assoc, some, ◌≡◌, refl,
  sym, ap, ◌∙◌, arith, length, length-append, ◌==◌, ==_iff, append-nil, inl, inr, Bool-cases,
}
use kotatsu.Support.Text.{Bytes}
use kotatsu.Sys.Cmd.Join.{
  posix, is_plain, contains, posix_character, posix_characters, posix_argument, join_rest, join,
}
use kotatsu.Sys.Cmd.Split.{
  posix_line, separates, Piece, put, quotes, posix_step, unquote_posix, skip_separators,
  next_argument, arguments_from, split,
}
use kotatsu.Sys.Cmd.Borrow.{
  stops, unquote_posix-ends, unquote_posix-pushes, posix_step-plain, scan_lem,
}

abbrev plain_read : Bytes → Piece
plain_read line = unquote_posix posix_line 0 line

unquote_posix-quotes :
    (quote q c : ℕ) (cs : Bytes)
    → ((more : Bool) → posix_step posix_line quote c more ≡ quotes q)
    → unquote_posix posix_line quote (c ∷ cs) ≡ unquote_posix posix_line q cs
unfolding unquote_posix
unquote_posix-quotes quote q c [] h = rw (h false, unquote_posix)
unquote_posix-quotes quote q c (d ∷ rest) h = rw (h true, unquote_posix)

plain_read-newline :
    (tail : Bytes) → plain_read (b'\'' ∷ b'\n' ∷ b'\'' ∷ tail) ≡ put (b'\n' ∷ []) (plain_read tail)
plain_read-newline tail =
    unquote_posix-quotes 0 b'\'' b'\'' (b'\n' ∷ b'\'' ∷ tail) (λ more. unfold posix_step in refl)
    ∙ unquote_posix-pushes posix_line b'\'' b'\n' (b'\'' ∷ tail) (λ more. unfold posix_step in refl)
    ∙ ap (put (b'\n' ∷ []))
        (unquote_posix-quotes b'\'' 0 b'\'' tail (λ more. unfold posix_step in refl))

plain_read-escaped :
    (c : ℕ) (tail : Bytes) → plain_read (b'\\' ∷ c ∷ tail) ≡ put (c ∷ []) (plain_read tail)
unfolding unquote_posix posix_step
plain_read-escaped c tail = refl

is_plain-stops : (c : ℕ) → is_plain c ≡ true → (separates posix_line c ≡ false) × (stops c ≡ false)
unfolding is_plain contains
is_plain-stops c h = ground arith

-- A character that `append_posix` wrote is read as itself, whatever follows it.
plain_read-posix_character :
    (c : ℕ) (tail : Bytes) → plain_read (posix_character c ++ tail) ≡ put (c ∷ []) (plain_read tail)
unfolding posix_character
plain_read-posix_character c tail = elim (Bool-cases (c == b'\n')) [
  | inl e ↦ rw e (
      plain_read-newline tail
      ∙ ap (λ k. put (k ∷ []) (plain_read tail)) (sym ((==_iff c b'\n').0 e)))
  | inr e ↦ elim (Bool-cases (is_plain c)) [
    | inl k ↦
        let stop = is_plain-stops c k in
        rw (e, k)
          (unquote_posix-pushes posix_line 0 c tail
            (λ more. posix_step-plain posix_line c more stop.0 stop.1))
    | inr k ↦ rw (e, k) (plain_read-escaped c tail)
  ]
]

plain_read-posix_characters :
    (cs tail : Bytes) → plain_read (posix_characters cs ++ tail) ≡ put cs (plain_read tail)
unfolding posix_characters
plain_read-posix_characters [] tail = refl
plain_read-posix_characters (c ∷ cs) tail =
    ap plain_read (append_assoc (posix_character c) (posix_characters cs) tail)
    ∙ plain_read-posix_character c (posix_characters cs ++ tail)
    ∙ ap (put (c ∷ [])) (plain_read-posix_characters cs tail)

-- An argument ends where the line does or at the blank that `join` writes.
plain_read-join_rest :
    (args : List Bytes)
    → plain_read (join_rest posix args) ≡ record { text = []; rest = join_rest posix args }
unfolding join_rest
plain_read-join_rest [] = unfold unquote_posix in refl
plain_read-join_rest (a ∷ args) =
    unquote_posix-ends posix_line 0 b' ' (posix_argument a ++ join_rest posix args)
      (λ more. unfold posix_step in refl)

plain_read-posix_argument :
    (a : Bytes) (args : List Bytes)
    → plain_read (posix_argument a ++ join_rest posix args)
      ≡ record { text = a; rest = join_rest posix args }
unfolding posix_argument
plain_read-posix_argument [] args =
    unquote_posix-quotes 0 b'\'' b'\'' (b'\'' ∷ join_rest posix args)
      (λ more. unfold posix_step in refl)
    ∙ unquote_posix-quotes b'\'' 0 b'\'' (join_rest posix args) (λ more. unfold posix_step in refl)
    ∙ plain_read-join_rest args
plain_read-posix_argument (c ∷ cs) args =
    plain_read-posix_characters (c ∷ cs) (join_rest posix args)
    ∙ ap (put (c ∷ cs)) (plain_read-join_rest args)
    ∙ ap (λ text. record { text = text; rest = join_rest posix args }) (append-nil (c ∷ cs))

-- What `append_posix` writes starts with no separator.
posix_character-cons :
    (c : ℕ)
    → (d : ℕ) × (ds : Bytes) × (posix_character c ≡ d ∷ ds) × (separates posix_line d ≡ false)
unfolding posix_character
posix_character-cons c = elim (Bool-cases (c == b'\n')) [
  | inl e ↦ (b'\'', b'\n' ∷ b'\'' ∷ [], rw e, refl)
  | inr e ↦ elim (Bool-cases (is_plain c)) [
    | inl k ↦ (c, [], rw (e, k), (is_plain-stops c k).0)
    | inr k ↦ (b'\\', c ∷ [], rw (e, k), refl)
  ]
]

posix_argument-cons :
    (a : Bytes)
    → (d : ℕ) × (ds : Bytes) × (posix_argument a ≡ d ∷ ds) × (separates posix_line d ≡ false)
unfolding posix_argument posix_characters
posix_argument-cons [] = (b'\'', b'\'' ∷ [], refl, refl)
posix_argument-cons (c ∷ cs) =
    let (d, ds, e, s) = posix_character-cons c in
    (d, ds ++ posix_characters cs, ap (λ k. k ++ posix_characters cs) e, s)

next_argument-start :
    (d : ℕ) (ds : Bytes)
    → separates posix_line d ≡ false
    → next_argument posix_line false (d ∷ ds) ≡ some (plain_read (d ∷ ds))
unfolding next_argument skip_separators
next_argument-start d ds s =
    rw s (ap some (scan_lem (length (d ∷ ds)) posix_line (d ∷ ds) refl (omega arith)))

next_argument-posix_argument :
    (a : Bytes) (args : List Bytes)
    → next_argument posix_line false (posix_argument a ++ join_rest posix args)
      ≡ some (record { text = a; rest = join_rest posix args })
next_argument-posix_argument a args =
    let (d, ds, e, s) = posix_argument-cons a in
    let start : next_argument posix_line false (posix_argument a ++ join_rest posix args)
        ≡ some (plain_read (posix_argument a ++ join_rest posix args)) =
      rw e (next_argument-start d (ds ++ join_rest posix args) s) in
    start ∙ ap some (plain_read-posix_argument a args)

arguments_from-cons :
    (fuel : ℕ) (line : Bytes) {p : Piece}
    → next_argument posix_line false line ≡ some p
    → arguments_from (suc fuel) posix_line false line
      ≡ p.text ∷ arguments_from fuel posix_line false p.rest
unfolding arguments_from
arguments_from-cons fuel line e = rw (e, arguments_from)

arguments_from-join_rest :
    (fuel : ℕ) (args : List Bytes)
    → length args ≤ fuel
    → arguments_from fuel posix_line false (join_rest posix args) ≡ args
unfolding arguments_from join_rest
arguments_from-join_rest zero [] h = refl
arguments_from-join_rest (suc fuel) [] h = unfold next_argument skip_separators in refl
arguments_from-join_rest zero (a ∷ args) h = absurd (omega arith)
arguments_from-join_rest (suc fuel) (a ∷ args) h =
    let blank : next_argument posix_line false (b' ' ∷ (posix_argument a ++ join_rest posix args))
        ≡ next_argument posix_line false (posix_argument a ++ join_rest posix args) =
      unfold next_argument skip_separators in refl in
    arguments_from-cons fuel (b' ' ∷ (posix_argument a ++ join_rest posix args))
      (blank ∙ next_argument-posix_argument a args)
    ∙ ap (λ k. a ∷ k) (arguments_from-join_rest fuel args (omega arith))

length-join_rest : (args : List Bytes) → length args ≤ length (join_rest posix args)
unfolding join_rest
length-join_rest [] = omega arith
length-join_rest (a ∷ args) =
    omega (arith, length-append (posix_argument a) (join_rest posix args), length-join_rest args)

-- Any list of arguments, empty ones and those of quotes, blanks, backslashes and newlines included, that
-- `join` writes as a POSIX command line are what `split` reads from it.
pub split-join : (args : List Bytes) → split posix (join posix args) ≡ args
unfolding split join arguments_from
split-join [] = unfold next_argument skip_separators in refl
split-join (a ∷ args) =
    let line : Bytes = posix_argument a ++ join_rest posix args in
    let enough : length args ≤ length line =
      omega
        (arith, length-append (posix_argument a) (join_rest posix args), length-join_rest args) in
    let one_more : length line + 1 ≡ suc (length line) = omega arith in
    ap (λ fuel. arguments_from fuel posix_line false line) one_more
    ∙ arguments_from-cons (length line) line (next_argument-posix_argument a args)
    ∙ ap (λ k. a ∷ k) (arguments_from-join_rest (length line) args enough)
