-- ===== src/Support/Glob/Execute/Packed.antt =====
-- A packed literal: the compare by words is that of the bytes.
use kotatsu.Base.{
  ℕ, zero, suc, ◌+◌, ◌-◌, ◌≤◌, ◌<◌, Bool, true, false, ◌&&◌, List, [], ◌∷◌, ◌++◌, ◌≡◌, inl, inr,
  refl, sym, ap, ap₂, ◌∙◌, arith, length, take, drop, replicate, leb, ltb, if◌then◌else◌,
  length-drop, length-take, length-replicate, length-append, drop-drop, take-append-drop,
  Bool-cases,
}
use kotatsu.Support.Text.{Bytes, equal, ends_with}
use kotatsu.Support.Glob.Compile.Plan.{pack}
use kotatsu.Support.Glob.Execute.{masked, matches}

equal-append :
    (a b c d : Bytes) → length a ≡ length c → equal (a ++ b) (c ++ d) ≡ (equal a c && equal b d)
unfolding equal
equal-append [] b [] d h = refl
equal-append [] b (x ∷ xs) d h = absurd (omega arith)
equal-append (x ∷ xs) b [] d h = absurd (omega arith)
equal-append (x ∷ xs) b (y ∷ ys) d h = ground (arith, equal-append xs b ys d)

masked-split :
    (n : ℕ) (w : Bytes) (m : List Bool)
    → length w ≡ length m
    → masked w m ≡ masked (take n w) (take n m) ++ masked (drop n w) (drop n m)
unfolding masked
masked-split zero w m h = refl
masked-split (suc n) [] [] h = refl
masked-split (suc n) [] (b ∷ bs) h = absurd (omega arith)
masked-split (suc n) (x ∷ xs) [] h = absurd (omega arith)
masked-split (suc n) (x ∷ xs) (true ∷ bs) h = ap (λ ys. x ∷ ys) (masked-split n xs bs (omega arith))
masked-split (suc n) (x ∷ xs) (false ∷ bs) h =
    ap (λ ys. 0 ∷ ys) (masked-split n xs bs (omega arith))

length-masked : (w : Bytes) (m : List Bool) → length w ≡ length m → length (masked w m) ≡ length w
unfolding masked
length-masked [] m h = refl
length-masked (x ∷ xs) [] h = absurd (omega arith)
length-masked (x ∷ xs) (true ∷ bs) h = ap suc (length-masked xs bs (omega arith))
length-masked (x ∷ xs) (false ∷ bs) h = ap suc (length-masked xs bs (omega arith))

masked_ones : (w : Bytes) (n : ℕ) → length w ≡ n → masked w (replicate n true) ≡ w
unfolding masked
masked_ones [] n h = refl
masked_ones (x ∷ xs) zero h = absurd (omega arith)
masked_ones (x ∷ xs) (suc n) h = ap (λ ys. x ∷ ys) (masked_ones xs n (omega arith))

-- The bytes in front of the literal are masked out.
equal-masked :
    (z n : ℕ) (w t : Bytes)
    → length w ≡ z + n
    → length t ≡ n
    → equal (masked w (replicate z false ++ replicate n true)) (replicate z 0 ++ t)
      ≡ equal (drop z w) t
unfolding masked equal
equal-masked zero n w t h l = rw (masked_ones w n (omega arith))
equal-masked (suc z) n [] t h l = absurd (omega arith)
equal-masked (suc z) n (x ∷ xs) t h l = equal-masked z n xs t (omega arith) l

-- A literal of `n` bytes in words of `k` bytes together.
words-matches :
    (k n : ℕ) (x t : Bytes)
    → n ≤ k
    → k ≤ length x
    → length t ≡ n
    → equal
        (masked (drop (length x - k) x) (replicate (k - n) false ++ replicate n true))
        (replicate (k - n) 0 ++ t)
      ≡ ends_with x t
unfolding ends_with
words-matches k n x t h l e =
    let at : (length x - k) + (k - n) ≡ length x - length t = omega arith in
    let w =
      equal-masked (k - n) n (drop (length x - k) x) t (omega (arith, length-drop (length x - k) x))
        e in
    let d = drop-drop (k - n) (length x - k) x in
    let inside : leb (length t) (length x) ≡ true = ground arith in
    rw inside (w ∙ ap (λ y. equal y t) d ∙ ap (λ i. equal (drop i x) t) at)

-- Cutting the padding of sixteen bytes to one of eight.
drop-pad {ℓ} :
    {A : Type ℓ} (n m : ℕ) (a : A) (xs : List A)
    → n ≤ m
    → drop n (replicate m a ++ xs) ≡ replicate (m - n) a ++ xs
drop-pad zero m a xs h = ap (λ i. replicate i a ++ xs) (omega arith)
drop-pad (suc n) zero a xs h = absurd (omega arith)
drop-pad (suc n) (suc m) a xs h =
    let e : suc m - suc n ≡ m - n = omega arith in rw e (drop-pad n m a xs (omega arith))

take-pad {ℓ} :
    {A : Type ℓ} (n m : ℕ) (a : A) (xs : List A)
    → n ≤ m
    → take n (replicate m a ++ xs) ≡ replicate n a
take-pad zero m a xs h = refl
take-pad (suc n) zero a xs h = absurd (omega arith)
take-pad (suc n) (suc m) a xs h = ap (λ ys. a ∷ ys) (take-pad n m a xs (omega arith))

abbrev value_of : Bytes → Bytes
value_of text = replicate (16 - length text) 0 ++ text

abbrev mask_of : Bytes → List Bool
mask_of text = replicate (16 - length text) false ++ replicate (length text) true

-- A literal of at most eight bytes.
one_word :
    (text input : Bytes)
    → length text ≤ 8
    → 8 ≤ length input
    → equal
        (masked (drop (length input - 8) input) (drop 8 (mask_of text)))
        (drop 8 (value_of text))
      ≡ ends_with input text
one_word text input h l =
    let n : ℕ = length text in
    let e : 16 - n - 8 ≡ 8 - n = omega arith in
    let v : drop 8 (value_of text) ≡ replicate (8 - n) 0 ++ text =
      drop-pad 8 (16 - n) 0 text (omega arith) ∙ ap (λ i. replicate i 0 ++ text) e in
    let m : drop 8 (mask_of text) ≡ replicate (8 - n) false ++ replicate n true =
      drop-pad 8 (16 - n) false (replicate n true) (omega arith)
      ∙ ap (λ i. replicate i false ++ replicate n true) e in
    rw (v, m) (words-matches 8 n input text h l refl)

-- A literal of at most sixteen bytes.
two_words :
    (text input : Bytes)
    → length text ≤ 16
    → 16 ≤ length input
    → (equal
          (masked (drop (length input - 8) input) (drop 8 (mask_of text)))
          (drop 8 (value_of text))
        && equal
            (masked (take 8 (drop (length input - 16) input)) (take 8 (mask_of text)))
            (take 8 (value_of text)))
      ≡ ends_with input text
two_words text input h l =
    let n : ℕ = length text in
    let x : Bytes = drop (length input - 16) input in
    let at : length input - 16 + 8 ≡ length input - 8 = omega arith in
    let size : length x ≡ 16 = omega (arith, length-drop (length input - 16) input) in
    let masks : length (mask_of text) ≡ 16 = omega (
      arith,
      length-append (replicate (16 - n) false) (replicate n true),
      length-replicate (16 - n) false,
      length-replicate n true,
    ) in
    let values : length (value_of text) ≡ 16 =
      omega
        (arith, length-append (replicate (16 - n) 0) text, length-replicate {A = ℕ} (16 - n) 0) in
    let last : drop (length input - 8) input ≡ drop 8 x =
      ap (λ i. drop i input) (sym at) ∙ sym (drop-drop 8 (length input - 16) input) in
    let front : length (masked (take 8 x) (take 8 (mask_of text)))
        ≡ length (take 8 (value_of text)) =
      omega (
        arith,
        length-masked (take 8 x) (take 8 (mask_of text)),
        length-take 8 x,
        length-take 8 (mask_of text),
        length-take 8 (value_of text),
      ) in
    let whole = words-matches 16 n input text h l refl in
    let split =
      ap₂ equal (masked-split 8 x (mask_of text) (omega arith))
        (sym (take-append-drop 8 (value_of text)))
      ∙ equal-append (masked (take 8 x) (take 8 (mask_of text)))
          (masked (drop 8 x) (drop 8 (mask_of text))) (take 8 (value_of text))
          (drop 8 (value_of text)) front in
    rw last (ground (arith, whole, split))

by_size :
    (n x : ℕ) (a b c r : Bool)
    → (x < n → r ≡ false)
    → (n ≤ 8 → 8 ≤ x → a ≡ r)
    → (n ≤ 16 → 16 ≤ x → b ≡ r)
    → c ≡ r
    → (if ltb x n
        then false
        else if leb n 8 && leb 8 x
        then a
        else if leb n 16 && leb 16 x
        then b
        else c)
      ≡ r
by_size n x a b c r h one two bytes = ground arith

ends_with-short : (input text : Bytes) → length input < length text → ends_with input text ≡ false
unfolding ends_with
ends_with-short input text h = ground arith

-- `PackedLiteral::matches` of a packed literal is `ends_with`, whatever the lengths of the literal and of
-- the input: one word, two words, or the bytes.
pub matches-pack : (text input : Bytes) → matches (pack text) input ≡ ends_with input text
unfolding matches pack
matches-pack text input = elim (Bool-cases (leb (length text) 16)) [
  | inl e ↦ rw e (
      by_size (length text) (length input) _ _ _ _ (ends_with-short input text)
        (one_word text input) (two_words text input) refl)
  | inr e ↦
      let long : 16 < length text = ground arith in
      rw e (
        by_size (length text) (length input) _ _ _ _ (ends_with-short input text)
          (λ h k. absurd (omega arith)) (λ h k. absurd (omega arith)) refl)
]
