-- ===== src/Fs/Path/Runs.antt =====
-- Runs of characters at either end of a text, and the root of a path as a part of it.
use kotatsu.Base.{
  ℕ, zero, suc, ◌-◌, ◌≤◌, ◌<◌, Bool, true, false, ◌&&◌, [], ◌∷◌, ◌≡◌, arith, length, length-take,
  take, drop, get_or, ◌⊎◌, inl, inr, ltb, ◌==◌, length-drop, if◌then◌else◌, Bool-cases,
}
use kotatsu.Support.Text.{Bytes}
use kotatsu.Fs.Path.{
  Style, posix, windows, Prefix, verbatim_unc, verbatim_drive, verbatim, unc, device, drive, Root,
  separates, count_front, back_over, root, prefix_of, verbatim_prefix, unc_prefix, windows_prefix,
  no_root, with_directory, root_end,
}

-- The run of characters that `back_over` goes over.
pub back_over_bounds :
    (t : ℕ → Bool) (p : Bytes) (stop e : ℕ)
    → stop ≤ e
    → (stop ≤ back_over t p stop e) × (back_over t p stop e ≤ e)
unfolding back_over
back_over_bounds t p stop zero h = (h, omega arith)
back_over_bounds t p stop (suc e) h = ground (arith, back_over_bounds t p stop e)

pub back_over_passed :
    (t : ℕ → Bool) (p : Bytes) (stop e i : ℕ)
    → back_over t p stop e ≤ i
    → i < e
    → t (get_or p i 0) ≡ true
unfolding back_over
back_over_passed t p stop zero i l h = absurd (omega arith)
back_over_passed t p stop (suc e) i l h = elim (Bool-cases (i == e)) [
  | inl k ↦ let same : i ≡ e = ground arith in rw same (ground arith)
  | inr k ↦ ground (arith, back_over_passed t p stop e i)
]

pub back_over_before :
    (t : ℕ → Bool) (p : Bytes) (stop e : ℕ)
    → stop ≤ e
    → let f = back_over t p stop e in (f ≡ stop) ⊎ ((stop < f) × (t (get_or p (f - 1) 0) ≡ false))
unfolding back_over
back_over_before t p stop zero h = inl (omega arith)
back_over_before t p stop (suc e) h =
    let before : suc e - 1 ≡ e = omega arith in
    elim (Bool-cases (ltb stop (suc e) && t (get_or p e 0))) [
      | inl k ↦ rw k (back_over_before t p stop e (ground arith))
      | inr k ↦ rw (k, before) (ground arith)
    ]

-- The root of a path is a part of it.
length-prefix_name : (p : Bytes) (n : ℕ) → length (take n p) ≤ length p
length-prefix_name p n = omega (arith, length-take n p)

record IsShort (n : ℕ) (r : Root) : Type 0 where
  within : length r.name ≤ n

if-IsShort :
    {n : ℕ} (b : Bool) (x y : Root) → IsShort n x → IsShort n y → IsShort n (if b then x else y)
if-IsShort true x y h k = h
if-IsShort false x y h k = k

prefix_of-IsShort :
    (p : Bytes) (kind : Prefix) (end : ℕ) → IsShort (length p) (prefix_of p kind end)
prefix_of-IsShort p kind end = record {
  within = length-prefix_name p (back_over (λ c. separates c windows kind) p 0 end);
}

verbatim_prefix-IsShort : (p : Bytes) → IsShort (length p) (verbatim_prefix p)
verbatim_prefix-IsShort p =
    if-IsShort _ _ _ (prefix_of-IsShort p verbatim_unc _)
      (if-IsShort _ _ _ (prefix_of-IsShort p verbatim_drive 6) (prefix_of-IsShort p verbatim _))

unc_prefix-IsShort : (p : Bytes) → IsShort (length p) (unc_prefix p)
unc_prefix-IsShort p = if-IsShort _ _ _ (prefix_of-IsShort p unc _) (prefix_of-IsShort p unc _)

no_root-IsShort : (p : Bytes) → IsShort (length p) no_root
no_root-IsShort p = record { within = omega arith }

windows_prefix-IsShort : (p : Bytes) → IsShort (length p) (windows_prefix p)
unfolding windows_prefix
windows_prefix-IsShort p = if-IsShort _ _ _ (verbatim_prefix-IsShort p) (
    if-IsShort _ _ _ (prefix_of-IsShort p device _) (
      if-IsShort _ _ _ (unc_prefix-IsShort p)
        (if-IsShort _ _ _ (prefix_of-IsShort p drive 2) (no_root-IsShort p))))

with_directory_le :
    (p : Bytes) (style : Style) (r : Root)
    → length r.name ≤ length p
    → root_end (with_directory p style r) ≤ length p
with_directory_le p style r h =
    let rest = drop (length r.name) p in
    omega (
      arith,
      length-take (count_front (λ c. separates c style r.prefix) rest) rest,
      length-drop (length r.name) p,
    )

pub root_end_le : (p : Bytes) (style : Style) → root_end (root p style) ≤ length p
unfolding root
root_end_le p posix = with_directory_le p posix no_root (omega arith)
root_end_le p windows =
    with_directory_le p windows (windows_prefix p) (windows_prefix-IsShort p).within

-- Where a run of characters in front of a text ends.
tail_case :
    (t : ℕ → Bool) (x n : ℕ) (xs : Bytes)
    → ((suc n ≡ length (x ∷ xs)) ⊎ (t (get_or (x ∷ xs) (suc n) 0) ≡ false))
    → ((n ≡ length xs) ⊎ (t (get_or xs n 0) ≡ false))
tail_case t x n xs (inl e) = inl (omega arith)
tail_case t x n xs (inr e) = inr e

pub count_front_lem :
    (t : ℕ → Bool) (xs : Bytes) (n : ℕ)
    → n ≤ length xs
    → ((i : ℕ) → i < n → t (get_or xs i 0) ≡ true)
    → ((n ≡ length xs) ⊎ (t (get_or xs n 0) ≡ false))
    → count_front t xs ≡ n
unfolding count_front
count_front_lem t [] n l h k = omega arith
count_front_lem t (x ∷ xs) zero l h k = ground (arith, k)
count_front_lem t (x ∷ xs) (suc n) l h k = ground (
  arith,
  h 0 (omega arith),
  count_front_lem t xs n (omega arith) (λ i j. h (suc i) (omega arith)) (tail_case t x n xs k),
)
