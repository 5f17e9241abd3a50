-- ===== src/Fs/Path/Last.antt =====
-- `filename`, which looks from the end of a path, and the names of the path, which come from its start.
use kotatsu.Base.{
  ℕ, zero, suc, ◌+◌, ◌-◌, ◌≤◌, ◌<◌, Bool, true, false, List, [], ◌∷◌, ◌++◌, ◌≡◌, refl, sym, ap, ap₂,
  ◌∙◌, arith, length, length-take, take, drop, get_or, ◌⊎◌, inl, inr, ◌==◌, length-drop, Bool-cases,
  get_or-drop, get_or-take, take-append-drop, drop-drop,
}
use kotatsu.Support.Text.{Bytes}
use kotatsu.Fs.Path.{Style, separates, count_front, back_over, root, is_empty, root_end}
use kotatsu.Fs.Path.Names.{components, filename}
use kotatsu.Fs.Path.Words.{words, words-skip, words-first, others, others-false, others-true}
use kotatsu.Fs.Path.Join.{components-words, words-nil, words-closed}
use kotatsu.Fs.Path.Runs.{
  back_over_bounds, back_over_passed, back_over_before, count_front_lem, root_end_le,
}

drop-length : (xs : Bytes) → drop (length xs) xs ≡ []
drop-length [] = refl
drop-length (x ∷ xs) = drop-length xs

pub words-none :
    (t : ℕ → Bool) (xs : Bytes)
    → ((i : ℕ) → i < length xs → t (get_or xs i 0) ≡ true)
    → words t xs ≡ []
words-none t xs h =
    sym (words-skip t xs)
    ∙ ap (λ n. words t (drop n xs)) (count_front_lem t xs (length xs) (omega arith) h (inl refl))
    ∙ ap (words t) (drop-length xs)
    ∙ words-nil t

abbrev pub one_word : ℕ → Bytes → List Bytes
one_word zero xs = []
one_word (suc n) xs = take (suc n) xs ∷ []

-- A word with separators behind it.
words-one :
    (t : ℕ → Bool) (xs : Bytes) (n : ℕ)
    → n ≤ length xs
    → ((i : ℕ) → i < n → t (get_or xs i 0) ≡ false)
    → ((i : ℕ) → n ≤ i → i < length xs → t (get_or xs i 0) ≡ true)
    → words t xs ≡ one_word n xs
words-one t xs zero l h k = words-none t xs (λ i j. k i (omega arith) j)
words-one t [] (suc n) l h k = absurd (omega arith)
words-one t (c ∷ cs) (suc n) l h k =
    let size : count_front (others t) (c ∷ cs) ≡ suc n =
      count_front_lem (others t) (c ∷ cs) (suc n) l (λ i j. others-false t _ (h i j)) (ends l) in
    let behind : words t (drop (suc n) (c ∷ cs)) ≡ [] = words-none t (drop (suc n) (c ∷ cs)) (λ i j.
      ap t (get_or-drop (suc n) i (c ∷ cs) 0)
      ∙ k (suc n + i) (omega arith) (omega (arith, j, length-drop (suc n) (c ∷ cs)))) in
    words-first t c cs (h 0 (omega arith))
    ∙ ap (λ m. take m (c ∷ cs) ∷ words t (drop m (c ∷ cs))) size
    ∙ ap (λ ws. take (suc n) (c ∷ cs) ∷ ws) behind
  where
    ends :
        suc n ≤ length (c ∷ cs)
        → ((suc n ≡ length (c ∷ cs)) ⊎ (others t (get_or (c ∷ cs) (suc n) 0) ≡ false))
    ends l = elim (Bool-cases (suc n == length (c ∷ cs))) [
      | inl e ↦ inl (ground arith)
      | inr e ↦ inr (others-true t _ (k (suc n) (omega arith) (ground arith)))
    ]

-- Words on both sides of an index behind a separator, or of the start.
words-cut :
    (t : ℕ → Bool) (q : Bytes) (a : ℕ)
    → a ≤ length q
    → ((a ≡ 0) ⊎ (t (get_or q (a - 1) 0) ≡ true))
    → words t q ≡ words t (take a q) ++ words t (drop a q)
words-cut t q zero l h = sym (ap (λ ws. ws ++ words t q) (words-nil t))
words-cut t [] (suc a) l h = absurd (omega arith)
words-cut t (c ∷ cs) (suc a) l (inl e) = absurd (omega arith)
words-cut t (c ∷ cs) (suc a) l (inr e) =
    let before : suc a - 1 ≡ a = omega arith in
    let size : length (take a cs) ≡ a = omega (arith, length-take a cs) in
    let closing : t (get_or (c ∷ take a cs) (length (take a cs)) 0) ≡ true =
      ap (λ n. t (get_or (c ∷ take a cs) n 0)) size
      ∙ ap t (get_or-take (suc a) a (c ∷ cs) 0 (omega arith))
      ∙ ap (λ n. t (get_or (c ∷ cs) n 0)) (sym before)
      ∙ e in
    ap (words t) (sym (take-append-drop (suc a) (c ∷ cs)))
    ∙ words-closed t c (take a cs) (drop (suc a) (c ∷ cs)) closing

-- Where the filename starts and ends, behind the root.
pub record Spans (t : ℕ → Bool) (p : Bytes) (stop start end : ℕ) : Type 0 where
  pub inside : (stop ≤ start) × (start ≤ end) × (end ≤ length p)
  pub name : (i : ℕ) → start ≤ i → i < end → t (get_or p i 0) ≡ false
  pub behind : (i : ℕ) → end ≤ i → i < length p → t (get_or p i 0) ≡ true
  pub front : (start ≡ stop) ⊎ ((stop < start) × (t (get_or p (start - 1) 0) ≡ true))
  pub last_in : (end ≡ stop) ⊎ ((stop < end) × (t (get_or p (end - 1) 0) ≡ false))

others_out : (t : ℕ → Bool) (c : ℕ) → others t c ≡ true → t c ≡ false
others_out t c e = ground arith

others_in : (t : ℕ → Bool) (c : ℕ) → others t c ≡ false → t c ≡ true
others_in t c e = ground arith

pub back_over-Spans :
    (t : ℕ → Bool) (p : Bytes) (stop : ℕ)
    → stop ≤ length p
    → let end = back_over t p stop (length p) in
      Spans t p stop (back_over (others t) p stop end) end
back_over-Spans t p stop h =
    let end = back_over t p stop (length p) in
    let outer = back_over_bounds t p stop (length p) h in
    let inner = back_over_bounds (others t) p stop end outer.0 in
    record {
      inside = (inner.0, inner.1, outer.1);
      name = λ i l k. others_out t (get_or p i 0) (back_over_passed (others t) p stop end i l k);
      behind = λ i l k. back_over_passed t p stop (length p) i l k;
      front = elim (back_over_before (others t) p stop end outer.0) [
        | inl e ↦ inl e
        | inr k ↦ inr (k.0, others_in t _ k.1)
      ];
      last_in = back_over_before t p stop (length p) h;
    }

-- The words behind the root are those in front of the filename, and the filename.
pub words-Spans :
    {t : ℕ → Bool} {p : Bytes} {stop start end : ℕ}
    → Spans t p stop start end
    → let q = drop stop p in
      words t q ≡ words t (take (start - stop) q) ++ one_word (end - start) (drop start p)
words-Spans {t} {p} {stop} {start} {end} s =
    let q = drop stop p in
    let a = start - stop in
    let size = length-drop stop p in
    let whole : stop + a ≡ start = omega (arith, s.inside) in
    let rest : drop a q ≡ drop start p = drop-drop a stop p ∙ ap (λ n. drop n p) whole in
    let front : (a ≡ 0) ⊎ (t (get_or q (a - 1) 0) ≡ true) = elim s.front [
      | inl e ↦ inl (omega arith)
      | inr k ↦
          let back : stop + (a - 1) ≡ start - 1 = omega (arith, s.inside, k) in
          inr (ap t (get_or-drop stop (a - 1) p 0 ∙ ap (λ n. get_or p n 0) back) ∙ k.1)
    ] in
    let one : words t (drop start p) ≡ one_word (end - start) (drop start p) =
      words-one t (drop start p) (end - start) (omega (arith, s.inside, length-drop start p))
        (λ i j.
          ap t (get_or-drop start i p 0)
          ∙ s.name (start + i) (omega arith) (omega (arith, j, s.inside)))
        (λ i j k.
          ap t (get_or-drop start i p 0)
          ∙ s.behind (start + i) (omega (arith, j, s.inside))
              (omega (arith, k, length-drop start p))) in
    words-cut t q a (omega (arith, s.inside, size)) front
    ∙ ap (λ xs. words t (take a q) ++ words t xs) rest
    ∙ ap (λ ws. words t (take a q) ++ ws) one

is_empty-take : (n : ℕ) (xs : Bytes) → suc n ≤ length xs → is_empty (take (suc n) xs) ≡ false
is_empty-take n [] h = absurd (omega arith)
is_empty-take n (x ∷ xs) h = refl

-- With no name to take, the filename's place is the end of the root.
no_name :
    {t : ℕ → Bool} {p : Bytes} {stop start end : ℕ}
    → Spans t p stop start end
    → end - start ≡ 0
    → start - stop ≡ 0
no_name {start} {end} s e = elim s.last_in [
  | inl k ↦ omega (arith, s.inside)
  | inr k ↦ elim s.front [
    | inl l ↦ omega arith
    | inr l ↦
        let same : end ≡ start = omega (arith, s.inside) in absurd (ground (arith, k.1, l.1, same))
  ]
]

last_word :
    {t : ℕ → Bool} {p : Bytes} {stop start end : ℕ} (n : ℕ)
    → Spans t p stop start end
    → end - start ≡ n
    → let name = take n (drop start p) in
      ((name ≡ []) × (words t (drop stop p) ≡ []))
      ⊎ ((init : List Bytes) × (is_empty name ≡ false)
          × (words t (drop stop p) ≡ init ++ (name ∷ [])))
last_word {t} {p} {stop} {start} {end} zero s e =
    let none_before = no_name s e in
    inl (
      refl,
      words-Spans s
          ∙ ap₂ (λ a b. words t (take a (drop stop p)) ++ one_word b (drop start p)) none_before e
          ∙ ap (λ ws. ws ++ []) (words-nil t),
    )
last_word {t} {p} {stop} {start} {end} (suc n) s e = inr (
  words t (take (start - stop) (drop stop p)),
  is_empty-take n (drop start p) (omega (arith, e, s.inside, length-drop start p)),
  words-Spans s
      ∙ ap (λ b. words t (take (start - stop) (drop stop p)) ++ one_word b (drop start p)) e,
)

-- The filename, found from the end of the path, is the last of its names, found from its start; it is
-- empty only where the path has no names. It holds of POSIX and of Windows paths, whatever their root.
pub components-filename :
    (p : Bytes) (style : Style)
    → ((filename p style ≡ []) × (components p style ≡ []))
      ⊎ ((init : List Bytes) × (is_empty (filename p style) ≡ false)
          × (components p style ≡ init ++ (filename p style ∷ [])))
unfolding filename
components-filename p style =
    let r = root p style in
    let t : ℕ → Bool = λ c. separates c style r.prefix in
    let s = back_over-Spans t p (root_end r) (root_end_le p style) in
    let names = components-words p style in
    elim (last_word _ s refl) [
      | inl k ↦ inl (k.0, names ∙ k.1)
      | inr k ↦ inr (k.0, k.1, names ∙ k.2)
    ]
