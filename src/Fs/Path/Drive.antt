-- ===== src/Fs/Path/Drive.antt =====
-- Windows paths on a drive: the names of one with a path put onto it that has no prefix of its own.
use kotatsu.Base.{
  ℕ, suc, ◌+◌, ◌-◌, Bool, true, false, [], ◌∷◌, ◌++◌, append-nil, append_assoc, ◌≡◌, ◌⊎◌, inl, inr,
  refl, sym, ap, ap₂, ◌∙◌, arith, length, length-take, take, drop, get_or, ltb, ◌==◌, if◌then◌else◌,
  Bool-cases,
}
use kotatsu.Support.Text.{Bytes, starts_with}
use kotatsu.Fs.Path.{
  windows, drive, no_prefix, no_root, is_separator, is_ascii_letter, count_front, back_over,
  has_root, windows_prefix, root, is_empty,
}
use kotatsu.Fs.Path.Names.{components}
use kotatsu.Fs.Path.Edit.{push, between, last_separator, first_separator}
use kotatsu.Fs.Path.Words.{words, words-skip, words-append, count_front_le}
use kotatsu.Fs.Path.Join.{
  components-words, words-closed, words-nil, is_separator-last_separator,
  is_separator-first_separator,
}

abbrev pub divides : ℕ → Bool
divides c = is_separator c windows

-- The text of a path on a drive.
abbrev pub on_drive : ℕ → Bytes → Bytes
on_drive letter rest = letter ∷ b':' ∷ rest

windows_prefix-on_drive :
    (l : ℕ) (xs : Bytes)
    → is_ascii_letter l ≡ true
    → windows_prefix (on_drive l xs)
      ≡ record { prefix = drive; name = on_drive l []; directory = [] }
unfolding windows_prefix starts_with back_over
windows_prefix-on_drive l xs h =
    let forward : (l == b'/') ≡ false = ground arith in
    let backward : (l == b'\\') ≡ false = ground arith in rw (h, forward, backward) (ground arith)

root-on_drive :
    (l : ℕ) (xs : Bytes)
    → is_ascii_letter l ≡ true
    → root (on_drive l xs) windows ≡ record {
      prefix = drive;
      name = on_drive l [];
      directory = take (count_front divides xs) xs;
    }
unfolding root
root-on_drive l xs h = rw (windows_prefix-on_drive l xs h) refl

components-on_drive :
    (l : ℕ) (xs : Bytes)
    → is_ascii_letter l ≡ true
    → components (on_drive l xs) windows ≡ words divides xs
components-on_drive l xs h =
    components-words (on_drive l xs) windows ∙ rw (root-on_drive l xs h) (skipped xs)
  where
    skipped :
        (xs : Bytes)
        → words divides (drop (2 + length (take (count_front divides xs) xs)) (on_drive l xs))
          ≡ words divides xs
    skipped xs =
        let n = count_front divides xs in
        let size : 2 + length (take n xs) ≡ suc (suc n) =
          omega (arith, length-take n xs, count_front_le divides xs) in
        ap (λ m. words divides (drop m (on_drive l xs))) size ∙ words-skip divides xs

root-relative :
    (p : Bytes)
    → windows_prefix p ≡ no_root
    → root p windows
      ≡ record { prefix = no_prefix; name = []; directory = take (count_front divides p) p }
unfolding root
root-relative p h = rw h refl

components-relative :
    (p : Bytes) → windows_prefix p ≡ no_root → components p windows ≡ words divides p
components-relative p h =
    let n = count_front divides p in
    let size : 0 + length (take n p) ≡ n =
      omega (arith, length-take n p, count_front_le divides p) in
    components-words p windows
    ∙ rw (root-relative p h) (ap (λ m. words divides (drop m p)) size ∙ words-skip divides p)

-- What `push` puts between a path on a drive and one that does not start at a root.
gap : ℕ → Bytes → Bytes → Bytes
gap l xs p = between (on_drive l xs) (root (on_drive l xs) windows) p (root p windows) windows

push-on_drive :
    (l : ℕ) (xs p : Bytes)
    → is_ascii_letter l ≡ true
    → windows_prefix p ≡ no_root
    → push (on_drive l xs) p windows
      ≡ on_drive l (if has_root p windows then p else (xs ++ gap l xs p) ++ p)
unfolding push gap
push-on_drive l xs p h k =
    rw (root-on_drive l xs h, root-relative p k)
      (elim (Bool-cases (is_empty (take (count_front divides p) p))) [
        | inl e ↦ rw e refl
        | inr e ↦ rw e refl
      ])

-- The gap between names ends those in front.
gap-cases :
    (l c : ℕ) (cs : Bytes) (d : ℕ) (ds : Bytes)
    → is_ascii_letter l ≡ true
    → windows_prefix (d ∷ ds) ≡ no_root
    → ((divides (get_or (c ∷ cs) (length cs) 0) ≡ true) × (gap l (c ∷ cs) (d ∷ ds) ≡ []))
      ⊎ ((s : ℕ) × (divides s ≡ true) × (gap l (c ∷ cs) (d ∷ ds) ≡ s ∷ []))
unfolding gap
gap-cases l c cs d ds h k =
    let before : suc (suc (suc (length cs))) - 1 ≡ suc (suc (length cs)) = omega arith in
    let longer : ltb 2 (suc (suc (suc (length cs)))) ≡ true = ground arith in
    let s = last_separator (on_drive l (c ∷ cs)) windows (first_separator (d ∷ ds) windows b'/') in
    let fine : divides s ≡ true =
      is_separator-last_separator (on_drive l (c ∷ cs)) windows
        (first_separator (d ∷ ds) windows b'/')
        (is_separator-first_separator (d ∷ ds) windows b'/' refl) in
    elim (Bool-cases (divides (get_or (c ∷ cs) (length cs) 0))) [
      | inl e ↦
          inl (e, rw (root-on_drive l (c ∷ cs) h, root-relative (d ∷ ds) k, before, e, longer) refl)
      | inr e ↦ inr (
        s,
        fine,
        rw (root-on_drive l (c ∷ cs) h, root-relative (d ∷ ds) k, before, e, longer) refl,
      )
    ]

gap-end : (l : ℕ) (xs : Bytes) → gap l xs [] ≡ []
unfolding gap
gap-end l xs = refl

gap-start :
    (l : ℕ) (p : Bytes) → is_ascii_letter l ≡ true → windows_prefix p ≡ no_root → gap l [] p ≡ []
unfolding gap
gap-start l p h k = rw (root-on_drive l [] h, root-relative p k) (ground arith)

words-gap :
    (l : ℕ) (xs p : Bytes)
    → is_ascii_letter l ≡ true
    → windows_prefix p ≡ no_root
    → words divides ((xs ++ gap l xs p) ++ p) ≡ words divides xs ++ words divides p
words-gap l xs [] h k =
    ap (λ g. words divides ((xs ++ g) ++ [])) (gap-end l xs)
    ∙ ap (words divides) (append-nil (xs ++ []) ∙ append-nil xs)
    ∙ sym (ap (λ ws. words divides xs ++ ws) (words-nil divides) ∙ append-nil (words divides xs))
words-gap l [] (d ∷ ds) h k =
    ap (λ g. words divides (g ++ (d ∷ ds))) (gap-start l (d ∷ ds) h k)
    ∙ sym (ap (λ ws. ws ++ words divides (d ∷ ds)) (words-nil divides))
words-gap l (c ∷ cs) (d ∷ ds) h k = elim (gap-cases l c cs d ds h k) [
  | inl g ↦ rw g.1 (
      ap (λ xs. words divides (xs ++ (d ∷ ds))) (append-nil (c ∷ cs))
      ∙ words-closed divides c cs (d ∷ ds) g.0)
  | inr g ↦ rw g.2 (
      ap (words divides) (append_assoc (c ∷ cs) (g.0 ∷ []) (d ∷ ds))
      ∙ words-append divides (c ∷ cs) g.0 (d ∷ ds) g.1)
]

-- On Windows, a path with no prefix of its own that is put onto one on a drive stays on the drive: the
-- names of a rooted one take the place of the base's, and those of any other go behind them.
pub components-push-on_drive :
    (l : ℕ) (xs p : Bytes)
    → is_ascii_letter l ≡ true
    → windows_prefix p ≡ no_root
    → let base = on_drive l xs in
      ((root (push base p windows) windows).prefix ≡ drive)
      × ((root (push base p windows) windows).name ≡ (root base windows).name)
      × (components (push base p windows) windows ≡ (
          if has_root p windows
          then components p windows
          else components base windows ++ components p windows))
components-push-on_drive l xs p h k =
    let rest = if has_root p windows then p else (xs ++ gap l xs p) ++ p in
    rw (push-on_drive l xs p h k, root-on_drive l rest h, root-on_drive l xs h)
      (
        refl,
        refl,
        components-on_drive l rest h ∙ elim (Bool-cases (has_root p windows)) [
          | inl e ↦ rw e (sym (components-relative p k))
          | inr e ↦ rw e (
              words-gap l xs p h k
              ∙ sym
                  (ap₂ (λ ws vs. ws ++ vs) (components-on_drive l xs h) (components-relative p k)))
        ],
      )
