-- ===== src/Fs/Path/Within.antt =====
-- `strip_prefix` and `is_within`: a path in a directory, by the names of both.
use kotatsu.Base.{
  ℕ, zero, suc, ◌+◌, Bool, true, false, not, ◌&&◌, ◌||◌, List, [], ◌∷◌, ◌++◌, Option, none, some,
  ◌≡◌, refl, sym, ap, ap₂, ◌∙◌, arith, length, drop, ◌⊎◌, inl, inr, ltb, ◌==◌, drop-drop,
  if◌then◌else◌,
}
use kotatsu.Support.Text.{Bytes, equal}
use kotatsu.Support.Text.Equal.{equal-eq}
use kotatsu.Fs.Path.{Style, separates, count_front, root, root_end}
use kotatsu.Fs.Path.Names.{components}
use kotatsu.Fs.Path.Edit.{same_root}
use kotatsu.Fs.Path.Words.{words, words-skip, words-first, others, first_other}
use kotatsu.Fs.Path.Join.{components-words, words-nil}

-- The text from the name with the given number on.
unfoldable pub rest_from : (ℕ → Bool) → ℕ → Bytes → Bytes
rest_from t zero p = drop (count_front t p) p
rest_from t (suc k) p =
    let rest = drop (count_front t p) p in
    rest_from t k (drop (count_front (λ c. not (t c)) rest) rest)

-- `std::equal` of the names of the ancestor and as many of the path.
unfoldable pub leads : List Bytes → List Bytes → Bool
leads [] names = true
leads (a ∷ ancestor) [] = false
leads (a ∷ ancestor) (name ∷ names) = equal a name && leads ancestor names

unfoldable pub strip_prefix : Bytes → Bytes → Style → Option Bytes
unfolding leads rest_from
strip_prefix p prefix style =
    let r = root p style in
    let names = components p style in
    let ancestor = components prefix style in
    if not (same_root r (root prefix style) style)
    then none
    else if ltb (length names) (length ancestor) || not (leads ancestor names)
    then none
    else if length ancestor == length names
    then some []
    else some (rest_from (λ c. separates c style r.prefix) (length ancestor) (drop (root_end r) p))

unfoldable pub is_within : Bytes → Bytes → Style → Bool
unfolding strip_prefix
is_within p ancestor style = elim (strip_prefix p ancestor style) [ none ↦ false | some r ↦ true ]

leads-take :
    (ancestor names : List Bytes)
    → leads ancestor names ≡ true
    → names ≡ ancestor ++ drop (length ancestor) names
unfolding leads
leads-take [] names h = refl
leads-take (a ∷ ancestor) [] h = absurd (ground arith)
leads-take (a ∷ ancestor) (name ∷ names) h =
    ap₂ (λ x xs. x ∷ xs) (sym (equal-eq a name (ground arith)))
      (leads-take ancestor names (ground arith))

words-tail :
    (t : ℕ → Bool) (rest : Bytes)
    → ((c : ℕ) (cs : Bytes) → rest ≡ c ∷ cs → t c ≡ false)
    → words t (drop (count_front (others t) rest) rest) ≡ drop 1 (words t rest)
unfolding count_front words
words-tail t [] other = refl
words-tail t (c ∷ cs) other = sym (ap (drop 1) (words-first t c cs (other c cs refl)))

-- Behind as many names there are the names behind them.
words-rest_from :
    (t : ℕ → Bool) (k : ℕ) (p : Bytes) → words t (rest_from t k p) ≡ drop k (words t p)
unfolding rest_from
words-rest_from t zero p = words-skip t p
words-rest_from t (suc k) p =
    let rest = drop (count_front t p) p in
    let e : 1 + k ≡ suc k = omega arith in
    words-rest_from t k (drop (count_front (others t) rest) rest)
    ∙ ap (drop k) (words-tail t rest (λ c cs e. first_other t p e))
    ∙ drop-drop k 1 (words t rest)
    ∙ ap₂ drop e (words-skip t p)

-- What `strip_prefix` gives, where it gives a text.
strip_prefix-gives :
    (p prefix : Bytes) (style : Style) {r : Bytes}
    → strip_prefix p prefix style ≡ some r
    → let names = components p style in
      let ancestor = components prefix style in
      (leads ancestor names ≡ true)
      × (((length ancestor ≡ length names) × (r ≡ []))
          ⊎ (r
              ≡ rest_from
                  (λ c. separates c style (root p style).prefix)
                  (length ancestor)
                  (drop (root_end (root p style)) p)))
unfolding strip_prefix
strip_prefix-gives p prefix style h = ground arith

drop-length : (xs : List Bytes) → drop (length xs) xs ≡ []
drop-length [] = refl
drop-length (x ∷ xs) = drop-length xs

-- What is left of a path in a directory has the names of the path behind those of the directory.
pub components-strip_prefix :
    (p prefix : Bytes) (style : Style) {r : Bytes}
    → strip_prefix p prefix style ≡ some r
    → components p style
      ≡ components prefix style ++ words (λ c. separates c style (root p style).prefix) r
components-strip_prefix p prefix style {r} h =
    let t : ℕ → Bool = λ c. separates c style (root p style).prefix in
    let names = components p style in
    let ancestor = components prefix style in
    let given = strip_prefix-gives p prefix style h in
    leads-take ancestor names given.0
    ∙ ap (λ ws. ancestor ++ ws)
        (elim given.1 [
          | inl k ↦
              ap (λ n. drop n names) k.0 ∙ drop-length names ∙ sym (ap (words t) k.1 ∙ words-nil t)
          | inr k ↦
              ap (drop (length ancestor)) (components-words p style)
              ∙ sym (words-rest_from t (length ancestor) (drop (root_end (root p style)) p))
              ∙ sym (ap (words t) k)
        ])
