-- ===== src/Fs/Path/Join.antt =====
-- POSIX paths: the names of a path put onto another.
use kotatsu.Base.{
  ℕ, suc, ◌+◌, ◌-◌, Bool, true, false, ◌||◌, [], ◌∷◌, ◌++◌, append-nil, append_assoc, ◌≡◌, refl,
  sym, ap, ap₂, ◌∙◌, arith, length, length-take, take, drop, get_or, ◌⊎◌, inl, inr, ltb,
  length-drop, Bool-cases,
}
use kotatsu.Support.Text.{Bytes}
use kotatsu.Fs.Path.{
  Style, posix, is_separator, separates, count_front, root, is_empty, is_absolute, root_end,
}
use kotatsu.Fs.Path.Names.{components}
use kotatsu.Fs.Path.Edit.{push, between, last_separator, first_separator}
use kotatsu.Fs.Path.Words.{words, words-skip, words-append, names_from-words, count_front_le}

abbrev pub separator : ℕ → Bool
separator c = is_separator c posix

-- The names of a path are the words behind its root.
pub components-words :
    (p : Bytes) (style : Style)
    → let r = root p style in
      components p style ≡ words (λ c. separates c style r.prefix) (drop (root_end r) p)
unfolding components
components-words p style =
    let r = root p style in
    names_from-words (λ c. separates c style r.prefix) (length p) (drop (root_end r) p)
      (omega (arith, length-drop (root_end r) p))

pub components-posix : (p : Bytes) → components p posix ≡ words separator p
unfolding root
components-posix p =
    let n = count_front separator p in
    let size : 0 + length (take n p) ≡ n =
      omega (arith, length-take n p, count_front_le separator p) in
    components-words p posix ∙ ap (λ m. words separator (drop m p)) size ∙ words-skip separator p

pub is_separator-last_separator :
    (p : Bytes) (style : Style) (sep : ℕ)
    → is_separator sep style ≡ true
    → is_separator (last_separator p style sep) style ≡ true
unfolding last_separator
is_separator-last_separator [] style sep e = e
is_separator-last_separator (c ∷ cs) style sep e = elim (Bool-cases (is_separator c style)) [
  | inl k ↦ rw k (is_separator-last_separator cs style c k)
  | inr k ↦ rw k (is_separator-last_separator cs style sep e)
]

pub is_separator-first_separator :
    (p : Bytes) (style : Style) (sep : ℕ)
    → is_separator sep style ≡ true
    → is_separator (first_separator p style sep) style ≡ true
unfolding first_separator
is_separator-first_separator [] style sep e = e
is_separator-first_separator (c ∷ cs) style sep e = elim (Bool-cases (is_separator c style)) [
  | inl k ↦ rw k k
  | inr k ↦ rw k (is_separator-first_separator cs style sep e)
]

push-posix :
    (base p : Bytes)
    → is_empty base ≡ false
    → is_absolute p posix ≡ false
    → push base p posix ≡ (base ++ between base (root base posix) p (root p posix) posix) ++ p
unfolding push root
push-posix base p e a = rw (e, a)

-- A text that is not empty, as what its last character ends.
last-split :
    (c : ℕ) (cs : Bytes)
    → c ∷ cs ≡ take (length cs) (c ∷ cs) ++ (get_or (c ∷ cs) (length cs) 0 ∷ [])
last-split c [] = refl
last-split c (d ∷ ds) = ap (λ xs. c ∷ xs) (last-split d ds)

-- A separator at the end of a path adds no name.
pub words-closed :
    (t : ℕ → Bool) (c : ℕ) (cs p : Bytes)
    → t (get_or (c ∷ cs) (length cs) 0) ≡ true
    → words t ((c ∷ cs) ++ p) ≡ words t (c ∷ cs) ++ words t p
unfolding words
words-closed t c cs p e =
    let init = take (length cs) (c ∷ cs) in
    let s = get_or (c ∷ cs) (length cs) 0 in
    let whole : (c ∷ cs) ++ p ≡ init ++ (s ∷ p) =
      ap (λ xs. xs ++ p) (last-split c cs) ∙ append_assoc init (s ∷ []) p in
    let own : words t (c ∷ cs) ≡ words t init =
      ap (words t) (last-split c cs) ∙ words-append t init s [] e ∙ append-nil (words t init) in
    ap (words t) whole ∙ words-append t init s p e ∙ sym (ap (λ ws. ws ++ words t p) own)

pub words-nil : (t : ℕ → Bool) → words t [] ≡ []
unfolding words
words-nil t = refl

-- What `push` puts between two POSIX paths ends the names of the first.
between-posix :
    (c : ℕ) (cs : Bytes) (d : ℕ) (ds : Bytes)
    → let gap = between (c ∷ cs) (root (c ∷ cs) posix) (d ∷ ds) (root (d ∷ ds) posix) posix in
      ((separator (get_or (c ∷ cs) (length cs) 0) ≡ true) × (gap ≡ []))
      ⊎ ((s : ℕ) × (separator s ≡ true) × (gap ≡ s ∷ []))
unfolding root
between-posix c cs d ds =
    let before : suc (length cs) - 1 ≡ length cs = omega arith in
    let longer : ltb 0 (suc (length cs)) ≡ true = ground arith in
    let s = last_separator (c ∷ cs) posix (first_separator (d ∷ ds) posix b'/') in
    let fine : separator s ≡ true =
      is_separator-last_separator (c ∷ cs) posix (first_separator (d ∷ ds) posix b'/')
        (is_separator-first_separator (d ∷ ds) posix b'/' refl) in
    elim (Bool-cases (separator (get_or (c ∷ cs) (length cs) 0))) [
      | inl k ↦ inl (k, rw (before, k, longer) refl)
      | inr k ↦ inr (s, fine, rw (before, k, longer) refl)
    ]

components-push_under :
    (base p : Bytes)
    → is_empty base ≡ false
    → is_absolute p posix ≡ false
    → components (push base p posix) posix ≡ components base posix ++ components p posix
components-push_under [] p e a = absurd (ground arith)
components-push_under (c ∷ cs) [] e a =
    components-posix (push (c ∷ cs) [] posix)
    ∙ ap (words separator) (push-posix (c ∷ cs) [] e a ∙ append-nil _ ∙ append-nil (c ∷ cs))
    ∙ sym (append-nil (words separator (c ∷ cs)))
    ∙ sym (
        ap₂ (λ xs ys. xs ++ ys) (components-posix (c ∷ cs))
          (components-posix [] ∙ words-nil separator))
components-push_under (c ∷ cs) (d ∷ ds) e a =
    components-posix (push (c ∷ cs) (d ∷ ds) posix)
    ∙ ap (words separator) (push-posix (c ∷ cs) (d ∷ ds) e a)
    ∙ put
    ∙ sym (ap₂ (λ xs ys. xs ++ ys) (components-posix (c ∷ cs)) (components-posix (d ∷ ds)))
  where
    gap : Bytes
    gap = between (c ∷ cs) (root (c ∷ cs) posix) (d ∷ ds) (root (d ∷ ds) posix) posix

    put :
        words separator (((c ∷ cs) ++ gap) ++ (d ∷ ds))
        ≡ words separator (c ∷ cs) ++ words separator (d ∷ ds)
    put = elim (between-posix c cs d ds) [
      | inl k ↦ rw k.1 (
          ap (λ xs. words separator (xs ++ (d ∷ ds))) (append-nil (c ∷ cs))
          ∙ words-closed separator c cs (d ∷ ds) k.0)
      | inr k ↦ rw k.2 (
          ap (words separator) (append_assoc (c ∷ cs) (k.0 ∷ []) (d ∷ ds))
          ∙ words-append separator (c ∷ cs) k.0 (d ∷ ds) k.1)
    ]

-- A POSIX path put onto an empty one, or an absolute path put onto any, takes its place; the names of any
-- other path with one put onto it are the names of the one and then of the other.
pub components-push :
    (base p : Bytes)
    → (((is_empty base || is_absolute p posix) ≡ true) × (push base p posix ≡ p))
      ⊎ (((is_empty base || is_absolute p posix) ≡ false)
          × (components (push base p posix) posix ≡ components base posix ++ components p posix))
unfolding push
components-push base p = elim (Bool-cases (is_empty base || is_absolute p posix)) [
  | inl e ↦ inl (e, rw e refl)
  | inr e ↦ inr (e, components-push_under base p (ground arith) (ground arith))
]
