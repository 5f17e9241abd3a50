-- ===== src/Fs/Path/Words.antt =====
-- The names of a text as words, by recursion on its characters, and words of texts put together.
use kotatsu.Base.{
  ℕ, zero, suc, ◌≤◌, Bool, true, false, not, List, [], ◌∷◌, ◌++◌, ◌≡◌, refl, sym, ap, ap₂, ◌∙◌,
  arith, length, take, drop, ◌⊎◌, inl, inr, length-drop, if◌then◌else◌, Bool-cases,
}
use kotatsu.Support.Text.{Bytes}
use kotatsu.Fs.Path.{count_front, is_empty}
use kotatsu.Fs.Path.Names.{names_from}

-- A character in front of the words of what follows it, which it belongs to the first of, or not.
abbrev pub join_word : ℕ → Bool → List Bytes → List Bytes
join_word c true (w ∷ ws) = (c ∷ w) ∷ ws
join_word c true [] = (c ∷ []) ∷ []
join_word c false ws = (c ∷ []) ∷ ws

abbrev pub starts : (ℕ → Bool) → Bytes → Bool
starts t [] = false
starts t (c ∷ cs) = not (t c)

abbrev pub is_none : List Bytes → Bool
is_none [] = true
is_none (w ∷ ws) = false

-- The words of a text, with the test for what separates them.
unfoldable pub words : (ℕ → Bool) → Bytes → List Bytes
words t [] = []
words t (c ∷ cs) = let rest = words t cs in if t c then rest else join_word c (starts t cs) rest

pub words-separator :
    (t : ℕ → Bool) (c : ℕ) (cs : Bytes) → t c ≡ true → words t (c ∷ cs) ≡ words t cs
unfolding words
words-separator t c cs e = rw e refl

pub words-other :
    (t : ℕ → Bool) (c : ℕ) (cs : Bytes)
    → t c ≡ false
    → words t (c ∷ cs) ≡ join_word c (starts t cs) (words t cs)
unfolding words
words-other t c cs e = rw e refl

pub count_front-yes :
    (t : ℕ → Bool) (c : ℕ) (cs : Bytes)
    → t c ≡ true
    → count_front t (c ∷ cs) ≡ suc (count_front t cs)
unfolding count_front
count_front-yes t c cs e = rw e refl

pub count_front-no : (t : ℕ → Bool) (c : ℕ) (cs : Bytes) → t c ≡ false → count_front t (c ∷ cs) ≡ 0
unfolding count_front
count_front-no t c cs e = rw e refl

pub words-skip : (t : ℕ → Bool) (p : Bytes) → words t (drop (count_front t p) p) ≡ words t p
unfolding words count_front
words-skip t [] = refl
words-skip t (c ∷ cs) = elim (Bool-cases (t c)) [
  | inl e ↦
      ap (λ n. words t (drop n (c ∷ cs))) (count_front-yes t c cs e)
      ∙ words-skip t cs
      ∙ sym (words-separator t c cs e)
  | inr e ↦ ap (λ n. words t (drop n (c ∷ cs))) (count_front-no t c cs e)
]

abbrev pub others : (ℕ → Bool) → ℕ → Bool
others t c = not (t c)

pub others-false : (t : ℕ → Bool) (c : ℕ) → t c ≡ false → others t c ≡ true
others-false t c e = rw e refl

pub others-true : (t : ℕ → Bool) (c : ℕ) → t c ≡ true → others t c ≡ false
others-true t c e = rw e refl

-- A word of the text, with the number of its characters, in front of the words behind it.
abbrev split : (ℕ → Bool) → Bytes → ℕ → List Bytes
split t p n = take n p ∷ words t (drop n p)

count_front-nil : (t : ℕ → Bool) → count_front t [] ≡ 0
unfolding count_front
count_front-nil t = refl

pub words-first :
    (t : ℕ → Bool) (c : ℕ) (cs : Bytes)
    → t c ≡ false
    → words t (c ∷ cs) ≡ split t (c ∷ cs) (count_front (others t) (c ∷ cs))
words-first t c [] e =
    words-other t c [] e
    ∙ words-alone
    ∙ sym (
        ap (split t (c ∷ []))
          (count_front-yes (others t) c [] (others-false t c e) ∙ ap suc counted))
  where
    words-alone : join_word c (starts t []) (words t []) ≡ (c ∷ []) ∷ words t []
    words-alone = refl

    counted : count_front (others t) [] ≡ 0
    counted = count_front-nil (others t)
words-first t c (d ∷ ds) e = elim (Bool-cases (t d)) [
  | inl k ↦
      let alone : join_word c (starts t (d ∷ ds)) (words t (d ∷ ds)) ≡ (c ∷ []) ∷ words t (d ∷ ds) =
        rw k refl in
      let one : count_front (others t) (c ∷ d ∷ ds) ≡ 1 =
        count_front-yes (others t) c (d ∷ ds) (others-false t c e)
        ∙ ap suc (count_front-no (others t) d ds (others-true t d k)) in
      words-other t c (d ∷ ds) e ∙ alone ∙ sym (ap (split t (c ∷ d ∷ ds)) one)
  | inr k ↦
      let n = count_front (others t) (d ∷ ds) in
      let joined : join_word c (starts t (d ∷ ds)) (words t (d ∷ ds))
          ≡ join_word c true (split t (d ∷ ds) n) =
        rw k (ap (join_word c true) (words-first t d ds k)) in
      let longer : count_front (others t) (c ∷ d ∷ ds) ≡ suc n =
        count_front-yes (others t) c (d ∷ ds) (others-false t c e) in
      words-other t c (d ∷ ds) e ∙ joined ∙ sym (ap (split t (c ∷ d ∷ ds)) longer)
]

pub first_other :
    (t : ℕ → Bool) (p : Bytes) {c : ℕ} {cs : Bytes}
    → drop (count_front t p) p ≡ c ∷ cs
    → t c ≡ false
unfolding count_front
first_other t [] e = absurd (ground arith)
first_other t (d ∷ ds) e = elim (Bool-cases (t d)) [
  | inl k ↦ first_other t ds (rw k at e)
  | inr k ↦ ground (arith, rw k at e)
]

-- One round of `operator++`, where the later ones give words.
names-round :
    (t : ℕ → Bool) (fuel : ℕ) (rest : Bytes)
    → ((c : ℕ) (cs : Bytes) → rest ≡ c ∷ cs → t c ≡ false)
    → ((p : Bytes) → length p ≤ fuel → names_from t fuel p ≡ words t p)
    → length rest ≤ suc fuel
    → let size = count_front (others t) rest in
      (if is_empty rest then [] else take size rest ∷ names_from t fuel (drop size rest))
      ≡ words t rest
unfolding words
names-round t fuel [] other later h = refl
names-round t fuel (c ∷ cs) other later h =
    let e = other c cs refl in
    let size = count_front (others t) (c ∷ cs) in
    let some_taken = count_front-yes (others t) c cs (others-false t c e) in
    let shorter : length (drop size (c ∷ cs)) ≤ fuel =
      omega (arith, some_taken, length-drop size (c ∷ cs), h) in
    ap (λ ws. take size (c ∷ cs) ∷ ws) (later (drop size (c ∷ cs)) shorter)
    ∙ sym (words-first t c cs e)

-- The loop of `operator++` gives the words.
pub names_from-words :
    (t : ℕ → Bool) (fuel : ℕ) (p : Bytes) → length p ≤ fuel → names_from t fuel p ≡ words t p
unfolding names_from words
names_from-words t zero [] h = refl
names_from-words t zero (c ∷ cs) h = absurd (omega arith)
names_from-words t (suc fuel) p h =
    names-round t fuel (drop (count_front t p) p) (λ c cs e. first_other t p e)
      (names_from-words t fuel) (omega (arith, length-drop (count_front t p) p))
    ∙ words-skip t p

-- Words put together where one ends.
join_word-append :
    (c : ℕ) (b : Bool) (ws vs : List Bytes)
    → (b ≡ false) ⊎ (is_none ws ≡ false)
    → join_word c b (ws ++ vs) ≡ join_word c b ws ++ vs
join_word-append c false ws vs h = refl
join_word-append c true [] vs (inl e) = absurd (ground arith)
join_word-append c true [] vs (inr e) = absurd (ground arith)
join_word-append c true (w ∷ ws) vs h = refl

words-is_none :
    (t : ℕ → Bool) (c : ℕ) (cs : Bytes) → t c ≡ false → is_none (words t (c ∷ cs)) ≡ false
words-is_none t c cs e = rw (words-first t c cs e) refl

starts-append :
    (t : ℕ → Bool) (xs : Bytes) (s : ℕ) (ys : Bytes)
    → t s ≡ true
    → starts t (xs ++ (s ∷ ys)) ≡ starts t xs
starts-append t [] s ys e = rw e refl
starts-append t (x ∷ xs) s ys e = refl

starts-words : (t : ℕ → Bool) (xs : Bytes) → (starts t xs ≡ false) ⊎ (is_none (words t xs) ≡ false)
starts-words t [] = inl refl
starts-words t (x ∷ xs) = elim (Bool-cases (t x)) [
  | inl e ↦ inl (rw e refl)
  | inr e ↦ inr (words-is_none t x xs e)
]

pub words-append :
    (t : ℕ → Bool) (xs : Bytes) (s : ℕ) (ys : Bytes)
    → t s ≡ true
    → words t (xs ++ (s ∷ ys)) ≡ words t xs ++ words t ys
unfolding words
words-append t [] s ys e = words-separator t s ys e
words-append t (x ∷ xs) s ys e = elim (Bool-cases (t x)) [
  | inl k ↦
      words-separator t x (xs ++ (s ∷ ys)) k
      ∙ words-append t xs s ys e
      ∙ sym (ap (λ ws. ws ++ words t ys) (words-separator t x xs k))
  | inr k ↦
      words-other t x (xs ++ (s ∷ ys)) k
      ∙ ap₂ (join_word x) (starts-append t xs s ys e) (words-append t xs s ys e)
      ∙ join_word-append x (starts t xs) (words t xs) (words t ys) (starts-words t xs)
      ∙ sym (ap (λ ws. ws ++ words t ys) (words-other t x xs k))
]

pub count_front_le : (t : ℕ → Bool) (p : Bytes) → count_front t p ≤ length p
unfolding count_front
count_front_le t [] = omega arith
count_front_le t (c ∷ cs) = ground (arith, count_front_le t cs)
