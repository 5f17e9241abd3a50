-- ===== src/Base/Tabulate.antt =====
-- Lists given by their elements: `f 0`, ..., `f (n - 1)`.
use Prim.Native.Nat.{ℕ, zero, suc, ◌+◌, ◌-◌, ◌≤◌, ◌<◌}
use mathlib.Core.Path.{◌≡◌, refl, ap, ap₂, ◌∙◌}
use mathlib.Core.List.{List, [], ◌∷◌, ◌++◌}
use native.Mathlib.Omega.{arith}
use kotatsu.Base.Lists.{length, get_or, take, drop}

module _ {ℓ} {A : Type ℓ} where
  abbrev pub tabulate : ℕ → (ℕ → A) → List A
  tabulate zero f = []
  tabulate (suc n) f = f 0 ∷ tabulate n (λ i. f (suc i))

  pub length-tabulate : (n : ℕ) (f : ℕ → A) → length (tabulate n f) ≡ n
  length-tabulate zero f = refl
  length-tabulate (suc n) f = ap suc (length-tabulate n _)

  pub tabulate_ext :
      (n : ℕ) (f g : ℕ → A) → ((i : ℕ) → i < n → f i ≡ g i) → tabulate n f ≡ tabulate n g
  tabulate_ext zero f g h = refl
  tabulate_ext (suc n) f g h =
      ap₂ ◌∷◌ (h 0 (omega arith))
        (tabulate_ext n (λ i. f (suc i)) (λ i. g (suc i)) (λ i l. h (suc i) (omega arith)))

  pub drop-tabulate :
      (k n : ℕ) (f : ℕ → A) → k ≤ n → drop k (tabulate n f) ≡ tabulate (n - k) (λ i. f (k + i))
  drop-tabulate zero n f h =
      let e : n - 0 ≡ n = omega arith in
      rw e (tabulate_ext n f (λ i. f (0 + i)) (λ i l. ap f (omega arith)))
  drop-tabulate (suc k) zero f h = absurd (omega arith)
  drop-tabulate (suc k) (suc n) f h =
      let e : suc n - suc k ≡ n - k = omega arith in
      rw e (
        drop-tabulate k n (λ i. f (suc i)) (omega arith)
        ∙ tabulate_ext (n - k) _ _ (λ i l. ap f (omega arith)))

  pub take-tabulate : (k n : ℕ) (f : ℕ → A) → k ≤ n → take k (tabulate n f) ≡ tabulate k f
  take-tabulate zero n f h = refl
  take-tabulate (suc k) zero f h = absurd (omega arith)
  take-tabulate (suc k) (suc n) f h = ap (◌∷◌ (f 0)) (take-tabulate k n _ (omega arith))

  pub tabulate-add :
      (n m : ℕ) (f : ℕ → A) → tabulate (n + m) f ≡ tabulate n f ++ tabulate m (λ i. f (n + i))
  tabulate-add zero m f =
      let e : zero + m ≡ m = omega arith in
      rw e (tabulate_ext m f (λ i. f (0 + i)) (λ i l. ap f (omega arith)))
  tabulate-add (suc n) m f =
      let e : suc n + m ≡ suc (n + m) = omega arith in
      rw e (
        ap (◌∷◌ (f 0)) (
          tabulate-add n m (λ i. f (suc i))
          ∙ ap (λ ys. tabulate n (λ i. f (suc i)) ++ ys)
              (tabulate_ext m _ _ (λ i l. ap f (omega arith)))))

  -- A list is the table of its elements.
  pub tabulate-get_or : (xs : List A) (d : A) → tabulate (length xs) (λ i. get_or xs i d) ≡ xs
  tabulate-get_or [] d = refl
  tabulate-get_or (x ∷ xs) d = ap (◌∷◌ x) (tabulate-get_or xs d)

  pub get_or-drop : (k i : ℕ) (xs : List A) (d : A) → get_or (drop k xs) i d ≡ get_or xs (k + i) d
  get_or-drop zero i xs d = ap (λ j. get_or xs j d) (omega arith)
  get_or-drop (suc k) i [] d = refl
  get_or-drop (suc k) i (x ∷ xs) d =
      let e : suc k + i ≡ suc (k + i) = omega arith in rw e (get_or-drop k i xs d)

  pub get_or-take : (k i : ℕ) (xs : List A) (d : A) → i < k → get_or (take k xs) i d ≡ get_or xs i d
  get_or-take zero i xs d h = absurd (omega arith)
  get_or-take (suc k) i [] d h = refl
  get_or-take (suc k) zero (x ∷ xs) d h = refl
  get_or-take (suc k) (suc i) (x ∷ xs) d h = get_or-take k i xs d (omega arith)

  -- A list whose elements are known is their table.
  pub eq-tabulate :
      (xs : List A) (n : ℕ) (f : ℕ → A) (d : A)
      → length xs ≡ n
      → ((i : ℕ) → i < n → get_or xs i d ≡ f i)
      → xs ≡ tabulate n f
  eq-tabulate [] zero f d e h = refl
  eq-tabulate [] (suc n) f d e h = absurd (omega arith)
  eq-tabulate (x ∷ xs) zero f d e h = absurd (omega arith)
  eq-tabulate (x ∷ xs) (suc n) f d e h =
      ap₂ ◌∷◌ (h 0 (omega arith))
        (eq-tabulate xs n (λ i. f (suc i)) d (omega arith) (λ i l. h (suc i) (omega arith)))
