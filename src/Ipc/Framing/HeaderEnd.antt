-- ===== src/Ipc/Framing/HeaderEnd.antt =====
-- `FrameParser::header_end`, and the blank lines of the header read so far with what follows it.
use kotatsu.Base.{
  ℕ, zero, suc, ◌-◌, ◌≤◌, true, false, [], ◌∷◌, ◌++◌, Option, none, some, ◌≡◌, inl, inr, refl, sym,
  ap, ◌∙◌, arith, length, length-take, take, min, Bool-cases,
}
use kotatsu.Support.Text.{Bytes, shift, starts_with, ends_with, find}
use kotatsu.Support.Text.Find.{shift-zero, starts_with-append_le}
use kotatsu.Ipc.Framing.Header.{blank_line, end_across, header_end}

-- The index just behind the first blank line.
abbrev pub first_end : Bytes → Option ℕ
first_end text = shift 4 (find blank_line text)

ends_with-cons :
    (x : ℕ) (xs s : Bytes) → length s ≤ length xs → ends_with (x ∷ xs) s ≡ ends_with xs s
unfolding ends_with
ends_with-cons x xs s h =
    let e : suc (length xs) - length s ≡ suc (length xs - length s) = omega arith in
    rw e (ground arith)

end_across-cons :
    (k : ℕ) (x : ℕ) (xs next : Bytes)
    → k ≤ 3
    → k ≤ length xs
    → end_across k (x ∷ xs) next ≡ end_across k xs next
unfolding end_across
end_across-cons zero x xs next h l = refl
end_across-cons (suc k) x xs next h l = rw (
  ends_with-cons x xs (take (suc k) blank_line) (omega (arith, length-take (suc k) blank_line)),
  end_across-cons k x xs next (omega arith) (omega arith),
)

header_end-nil : (next : Bytes) → header_end [] next ≡ first_end next
unfolding header_end
header_end-nil next = ground arith

header_end-one : (a : ℕ) (next : Bytes) → shift 1 (header_end (a ∷ []) next) ≡ first_end (a ∷ next)
unfolding header_end
header_end-one a next = ground arith

header_end-two :
    (a b : ℕ) (next : Bytes) → shift 2 (header_end (a ∷ b ∷ []) next) ≡ first_end (a ∷ b ∷ next)
unfolding header_end
header_end-two a b next = ground arith

header_end-three :
    (a b c : ℕ) (next : Bytes)
    → shift 3 (header_end (a ∷ b ∷ c ∷ []) next) ≡ first_end (a ∷ b ∷ c ∷ next)
unfolding header_end
header_end-three a b c next = ground arith

header_end-cons :
    (x : ℕ) (xs next : Bytes) → 3 ≤ length xs → header_end (x ∷ xs) next ≡ header_end xs next
unfolding header_end
header_end-cons x xs next h =
    let e : min 3 (suc (length xs)) ≡ 3 = omega arith in
    let e' : min 3 (length xs) ≡ 3 = omega arith in
    let same : end_across (min 3 (suc (length xs))) (x ∷ xs) next
        ≡ end_across (min 3 (length xs)) xs next =
      rw (e, e') (end_across-cons 3 x xs next (omega arith) h) in
    rw (same, header_end)

find-cons_none :
    (x : ℕ) (xs : Bytes)
    → find blank_line (x ∷ xs) ≡ none
    → (starts_with (x ∷ xs) blank_line ≡ false) × (find blank_line xs ≡ none)
unfolding find
find-cons_none x xs h = elim (Bool-cases (starts_with (x ∷ xs) blank_line)) [
  | inl e ↦ absurd (absurd_some x xs e h)
  | inr e ↦ (e, ground arith)
]
  where
    absurd_some :
        (x : ℕ) (xs : Bytes)
        → starts_with (x ∷ xs) blank_line ≡ true
        → find blank_line (x ∷ xs) ≡ none
        → ⊥
    absurd_some x xs e h = ground arith

first_end-cons :
    (x : ℕ) (xs : Bytes)
    → starts_with (x ∷ xs) blank_line ≡ false
    → first_end (x ∷ xs) ≡ shift 1 (first_end xs)
unfolding find
first_end-cons x xs h = ground arith

shift-suc : (n : ℕ) (o : Option ℕ) → shift (suc n) o ≡ shift 1 (shift n o)
shift-suc n none = refl
shift-suc n (some i) = ap some (omega arith)

-- The blank line that `header_end` finds is the first one of the whole header, when what was read
-- of it before has none.
pub header_end_lem :
    (header next : Bytes)
    → find blank_line header ≡ none
    → shift (length header) (header_end header next) ≡ first_end (header ++ next)
header_end_lem [] next h = shift-zero (header_end [] next) ∙ header_end-nil next
header_end_lem (a ∷ []) next h = header_end-one a next
header_end_lem (a ∷ b ∷ []) next h = header_end-two a b next
header_end_lem (a ∷ b ∷ c ∷ []) next h = header_end-three a b c next
header_end_lem (a ∷ b ∷ c ∷ d ∷ rest) next h =
    let earlier : Bytes = b ∷ c ∷ d ∷ rest in
    let (no_start, no_later) = find-cons_none a earlier h in
    ap (shift (suc (length earlier))) (header_end-cons a earlier next (omega arith))
    ∙ shift-suc (length earlier) (header_end earlier next)
    ∙ ap (shift 1) (header_end_lem (b ∷ c ∷ d ∷ rest) next no_later)
    ∙ sym (
        first_end-cons a (earlier ++ next)
          (starts_with-append_le (a ∷ earlier) next blank_line (omega arith) ∙ no_start))
