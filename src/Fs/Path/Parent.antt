-- ===== src/Fs/Path/Parent.antt =====
-- POSIX paths: `pop`, and the names of a path.
use kotatsu.Base.{
  ℕ, zero, suc, ◌+◌, ◌-◌, ◌≤◌, ◌<◌, Bool, true, false, [], ◌∷◌, ◌++◌, ◌≡◌, refl, sym, ap, ap₂, ◌∙◌,
  arith, length, length-take, take, drop, get_or, inl, inr, ◌==◌, Bool-cases, get_or-take,
  take-take, drop-take,
}
use kotatsu.Support.Text.{Bytes}
use kotatsu.Fs.Path.{posix, count_front, back_over, root, is_empty, root_end}
use kotatsu.Fs.Path.Names.{components, filename, filename_span, trimmed_end, parent}
use kotatsu.Fs.Path.Edit.{pop}
use kotatsu.Fs.Path.Words.{
  words, words-skip, words-separator, words-other, join_word, starts, others, count_front_le,
}
use kotatsu.Fs.Path.Join.{components-posix, components-words, separator, words-nil}
use kotatsu.Fs.Path.Runs.{back_over_bounds, back_over_passed, count_front_lem, root_end_le}
use kotatsu.Fs.Path.Last.{Spans, back_over-Spans, words-Spans, words-none, one_word}

count_front_passed :
    (t : ℕ → Bool) (xs : Bytes) (i : ℕ) → i < count_front t xs → t (get_or xs i 0) ≡ true
unfolding count_front
count_front_passed t [] i h = absurd (omega arith)
count_front_passed t (x ∷ xs) zero h = ground arith
count_front_passed t (x ∷ xs) (suc i) h = ground (arith, count_front_passed t xs i)

count_front_next :
    (t : ℕ → Bool) (xs : Bytes)
    → count_front t xs < length xs
    → t (get_or xs (count_front t xs) 0) ≡ false
unfolding count_front
count_front_next t [] h = absurd (omega arith)
count_front_next t (x ∷ xs) h = elim (Bool-cases (t x)) [
  | inl e ↦ rw e (count_front_next t xs (ground arith))
  | inr e ↦ rw e e
]

-- The words of a prefix that holds the separators in front.
words-prefix :
    (t : ℕ → Bool) (p : Bytes) (m : ℕ)
    → count_front t p ≤ m
    → m ≤ length p
    → words t (take m p) ≡ words t (take (m - count_front t p) (drop (count_front t p) p))
words-prefix t p m l h =
    let n = count_front t p in
    let whole : m ≡ n + (m - n) = omega arith in
    let size : length (take m p) ≡ m = omega (arith, length-take m p) in
    let same : count_front t (take m p) ≡ n =
      count_front_lem t (take m p) n (omega arith)
        (λ i k. ap t (get_or-take m i p 0 (omega arith)) ∙ count_front_passed t p i k)
        (elim (Bool-cases (n == m)) [
          | inl e ↦ inl (ground arith)
          | inr e ↦
              inr (ap t (get_or-take m n p 0 (ground arith)) ∙ count_front_next t p (ground arith))
        ]) in
    sym (words-skip t (take m p))
    ∙ ap (λ k. words t (drop k (take m p))) same
    ∙ ap (λ k. words t (drop n (take k p))) whole
    ∙ ap (words t) (drop-take n (m - n) p)

starts-take :
    (t : ℕ → Bool) (xs : Bytes) (e : ℕ)
    → ((i : ℕ) → e ≤ i → i < length xs → t (get_or xs i 0) ≡ true)
    → starts t (take e xs) ≡ starts t xs
starts-take t [] zero h = refl
starts-take t [] (suc e) h = refl
starts-take t (x ∷ xs) zero h = rw (h 0 (omega arith) (omega arith)) refl
starts-take t (x ∷ xs) (suc e) h = refl

-- Separators at the end add no word.
words-trailing :
    (t : ℕ → Bool) (xs : Bytes) (e : ℕ)
    → e ≤ length xs
    → ((i : ℕ) → e ≤ i → i < length xs → t (get_or xs i 0) ≡ true)
    → words t (take e xs) ≡ words t xs
words-trailing t xs zero l h = words-nil t ∙ sym (words-none t xs (λ i k. h i (omega arith) k))
words-trailing t [] (suc e) l h = absurd (omega arith)
words-trailing t (x ∷ xs) (suc e) l h =
    let later : (i : ℕ) → e ≤ i → i < length xs → t (get_or xs i 0) ≡ true =
      λ i j k. h (suc i) (omega arith) (omega arith) in
    let fewer = words-trailing t xs e (omega arith) later in
    elim (Bool-cases (t x)) [
      | inl k ↦ words-separator t x (take e xs) k ∙ fewer ∙ sym (words-separator t x xs k)
      | inr k ↦
          words-other t x (take e xs) k
          ∙ ap₂ (join_word x) (starts-take t xs e later) fewer
          ∙ sym (words-other t x xs k)
    ]

-- The end of the root of a POSIX path.
root_end-posix : (p : Bytes) → root_end (root p posix) ≡ count_front separator p
unfolding root
root_end-posix p =
    omega (arith, length-take (count_front separator p) p, count_front_le separator p)

-- The words in front of the filename are those of the path cut behind the parent.
words-parent :
    (p : Bytes) (stop start end : ℕ)
    → stop ≡ count_front separator p
    → Spans separator p stop start end
    → let before = take start p in
      let e = back_over separator before stop (length before) in
      words separator (take e before) ≡ words separator (take (start - stop) (drop stop p))
words-parent p stop start end c s =
    let before = take start p in
    let e = back_over separator before stop (length before) in
    let size : length before ≡ start = omega (arith, length-take start p, s.inside) in
    let own =
      back_over_bounds separator before stop (length before) (omega (arith, size, s.inside)) in
    words-trailing separator before e own.1
      (λ i l k. back_over_passed separator before stop (length before) i l k)
    ∙ words-prefix separator p start (omega (arith, c, s.inside)) (omega (arith, s.inside))
    ∙ ap (λ n. words separator (take (start - n) (drop n p))) (sym c)

pop-parent :
    (p : Bytes)
    → is_empty (filename p posix) ≡ false
    → let before = take (filename_span p posix).0 p in
      (pop p posix ≡ (take (trimmed_end before (root p posix) posix) before, true))
unfolding pop parent root
pop-parent p h =
    let start = (filename_span p posix).0 in
    let before = take start p in
    let e = trimmed_end before (root p posix) posix in
    let outer =
      back_over_bounds separator p (root_end (root p posix)) (length p) (root_end_le p posix) in
    let inner =
      back_over_bounds (others separator) p (root_end (root p posix)) (filename_span p posix).1
        outer.0 in
    let size : length before ≡ start = omega (arith, length-take start p, inner, outer) in
    let own =
      back_over_bounds separator before (root_end (root p posix)) (length before)
        (omega (arith, size, inner)) in
    let cut : length (take e before) ≡ e = omega (arith, length-take e before, own) in
    let same : take (length (take e before)) p ≡ take e before =
      ap (λ n. take n p) cut ∙ sym (take-take e start p (omega (arith, own, size))) in
    rw h (ap (λ xs. (xs, true)) same)

one_word-name : (n : ℕ) (xs : Bytes) → is_empty (take n xs) ≡ false → one_word n xs ≡ take n xs ∷ []
one_word-name zero xs h = absurd (ground arith)
one_word-name (suc n) xs h = refl

-- `pop` of a POSIX path with a filename takes the last of its names off, and no other.
pub components-pop :
    (p : Bytes)
    → is_empty (filename p posix) ≡ false
    → ((pop p posix).1 ≡ true)
      × (components p posix ≡ components (pop p posix).0 posix ++ (filename p posix ∷ []))
unfolding filename root
components-pop p h =
    let start = (filename_span p posix).0 in
    let end = (filename_span p posix).1 in
    let stop = root_end (root p posix) in
    let s : Spans separator p stop start end =
      back_over-Spans separator p stop (root_end_le p posix) in
    let popped = pop-parent p h in
    let left : components (pop p posix).0 posix
        ≡ words separator (take (start - stop) (drop stop p)) =
      components-posix (pop p posix).0
      ∙ ap (λ r. words separator r.0) popped
      ∙ words-parent p stop start end (root_end-posix p) s in
    (
      ap (λ r. r.1) popped,
      components-words p posix
          ∙ words-Spans s
          ∙ ap₂ (λ xs ys. xs ++ ys) (sym left) (one_word-name (end - start) (drop start p) h),
    )
