-- ===== src/Fs/Path/Ancestors.antt =====
-- `ancestors_view`, and `push` of several parts.
use kotatsu.Base.{
  ℕ, zero, suc, ◌-◌, ◌≤◌, false, List, [], ◌∷◌, ◌≡◌, refl, ap, arith, length, length-take, take,
  drop, Bool-cases, inl, inr,
}
use kotatsu.Support.Text.{Bytes}
use kotatsu.Fs.Path.{Style, separates, root, root_end, is_empty}
use kotatsu.Fs.Path.Names.{filename, filename_span, parent, trimmed_end}
use kotatsu.Fs.Path.Edit.{push}
use kotatsu.Fs.Path.Runs.{back_over_bounds, root_end_le}

-- The path and each parent of it in turn, while there is one. A parent is shorter, so that the length
-- of the path is fuel enough.
unfoldable pub ancestors_from : ℕ → Bytes → Style → List Bytes
ancestors_from fuel [] style = []
ancestors_from zero (c ∷ cs) style = []
ancestors_from (suc fuel) (c ∷ cs) style =
    (c ∷ cs) ∷ ancestors_from fuel (parent (c ∷ cs) style) style

unfoldable pub ancestors : Bytes → Style → List Bytes
unfolding ancestors_from
ancestors p style = ancestors_from (length p) p style

unfoldable pub push_parts : Bytes → List Bytes → Style → Bytes
unfolding push
push_parts path [] style = path
push_parts path (part ∷ parts) style = push_parts (push path part style) parts style

filename-nil : (n : ℕ) (xs : Bytes) → is_empty (take n xs) ≡ false → 1 ≤ n
filename-nil zero xs h = absurd (ground arith)
filename-nil (suc n) xs h = omega arith

-- A parent is shorter than its path.
pub length-parent :
    (c : ℕ) (cs : Bytes) (style : Style) → length (parent (c ∷ cs) style) ≤ length cs
unfolding parent filename
length-parent c cs style =
    let p : Bytes = c ∷ cs in
    let r = root p style in
    let start = (filename_span p style).0 in
    let end = (filename_span p style).1 in
    let before = take start p in
    let outer =
      back_over_bounds (λ x. separates x style r.prefix) p (root_end r) (length p)
        (root_end_le p style) in
    elim (Bool-cases (is_empty (filename p style))) [
      | inl e ↦ rw e (omega arith)
      | inr e ↦
          let taken = filename-nil (end - start) (drop start p) e in
          rw e (
            omega (
              arith,
              taken,
              outer,
              length-take start p,
              length-take (trimmed_end before r style) before,
            ))
    ]

-- Fuel that is enough gives what any other fuel that is enough gives.
pub ancestors_from_stable :
    (fuel fuel' : ℕ) (p : Bytes) (style : Style)
    → length p ≤ fuel
    → length p ≤ fuel'
    → ancestors_from fuel p style ≡ ancestors_from fuel' p style
unfolding ancestors_from
ancestors_from_stable zero zero p style h k = refl
ancestors_from_stable zero (suc fuel') [] style h k = refl
ancestors_from_stable (suc fuel) zero [] style h k = refl
ancestors_from_stable (suc fuel) (suc fuel') [] style h k = refl
ancestors_from_stable zero (suc fuel') (c ∷ cs) style h k = absurd (omega arith)
ancestors_from_stable (suc fuel) zero (c ∷ cs) style h k = absurd (omega arith)
ancestors_from_stable (suc fuel) (suc fuel') (c ∷ cs) style h k =
    let shorter = length-parent c cs style in
    ap (λ ps. (c ∷ cs) ∷ ps)
      (ancestors_from_stable fuel fuel' (parent (c ∷ cs) style) style (omega arith) (omega arith))
