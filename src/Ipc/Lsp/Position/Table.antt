-- ===== src/Ipc/Lsp/Position/Table.antt =====
-- Where lines start, as `line_starts` gives it and as the conversions read it.
use kotatsu.Base.{
  ℕ, zero, suc, ◌+◌, ◌≤◌, ◌<◌, Bool, List, [], ◌∷◌, ◌≡◌, ◌⊎◌, inl, inr, arith, length, get_or, ltb,
  leb, ◌==◌, Bool-cases,
}
use kotatsu.Support.Text.{Bytes}
use kotatsu.Ipc.Lsp.Text.{line_starts, line_starts_from}
use kotatsu.Ipc.Lsp.Position.{upper_bound, line_of, line_at}

-- Line starts of a text of `size` bytes, ascending from the given one.
pub data IsTable (size : ℕ) : ℕ → List ℕ → Type 0 where
  last : {start : ℕ} → start ≤ size → IsTable size start (start ∷ [])
  more :
      {start next : ℕ} {rest : List ℕ}
      → start < next
      → IsTable size next (next ∷ rest)
      → IsTable size start (start ∷ next ∷ rest)

line_starts_from-IsTable :
    (size start i : ℕ) (cs : Bytes)
    → start ≤ i
    → i + length cs ≡ size
    → IsTable size start (start ∷ line_starts_from i cs)
unfolding line_starts_from
line_starts_from-IsTable size start i [] h e = last (omega arith)
line_starts_from-IsTable size start i (c ∷ cs) h e = elim (Bool-cases (c == b'\n')) [
  | inl q ↦ rw q (
      more (omega arith)
        (line_starts_from-IsTable size (i + 1) (i + 1) cs (omega arith) (omega arith)))
  | inr q ↦ rw q (line_starts_from-IsTable size start (i + 1) cs (omega arith) (omega arith))
]

pub line_starts-IsTable : (content : Bytes) → IsTable (length content) 0 (line_starts content)
unfolding line_starts
line_starts-IsTable content =
    line_starts_from-IsTable (length content) 0 0 content (omega arith) (omega arith)

pub start_bounds :
    {size a : ℕ} {lines : List ℕ} (k : ℕ)
    → IsTable size a lines
    → k < length lines
    → (a ≤ get_or lines k 0) × (get_or lines k 0 ≤ size)
start_bounds zero (last h) k = omega arith
start_bounds (suc n) (last h) k = absurd (omega arith)
start_bounds zero (more h t) k = omega (arith, start_bounds 0 t (omega arith))
start_bounds (suc n) (more h t) k = omega (arith, start_bounds n t (omega arith))

start_lt_suc :
    {size a : ℕ} {lines : List ℕ} (k : ℕ)
    → IsTable size a lines
    → suc k < length lines
    → get_or lines k 0 < get_or lines (suc k) 0
start_lt_suc zero (last h) k = absurd (omega arith)
start_lt_suc (suc n) (last h) k = absurd (omega arith)
start_lt_suc zero (more h t) k = h
start_lt_suc (suc n) (more h t) k = start_lt_suc n t (omega arith)

pub start_lt :
    {size a : ℕ} {lines : List ℕ} (k : ℕ)
    → IsTable size a lines
    → k + 1 < length lines
    → get_or lines k 0 < get_or lines (k + 1) 0
start_lt {lines} k t h =
    let e : k + 1 ≡ suc k = omega arith in rw e (start_lt_suc k t (omega arith))

pub start_mono :
    {size a : ℕ} {lines : List ℕ} (k m : ℕ)
    → IsTable size a lines
    → k ≤ m
    → m < length lines
    → get_or lines k 0 ≤ get_or lines m 0
start_mono zero zero t h i = omega arith
start_mono (suc k) zero t h i = absurd (omega arith)
start_mono zero (suc m) t h i =
    let earlier = start_mono zero m t (omega arith) (omega arith) in
    omega (arith, start_lt_suc m t i)
start_mono (suc k) (suc m) (last j) h i = absurd (omega arith)
start_mono (suc k) (suc m) (more j t) h i = start_mono k m t (omega arith) (omega arith)

-- The last line that starts at or before a byte.
abbrev pub Holds : List ℕ → ℕ → ℕ → Type 0
Holds lines value k =
    (k < length lines)
    × (get_or lines k 0 ≤ value)
    × ((suc k ≡ length lines) ⊎ (value < get_or lines (suc k) 0))

upper_bound-Holds :
    {size a : ℕ} {lines : List ℕ} (value : ℕ)
    → IsTable size a lines
    → a ≤ value
    → (k : ℕ) × (upper_bound lines value ≡ suc k) × Holds lines value k
unfolding upper_bound
upper_bound-Holds value (last h) k = (0, ground arith, ground arith)
upper_bound-Holds value (more {start} {next} {rest} h t) k = elim (Bool-cases (leb next value)) [
  | inl e ↦
      let r = upper_bound-Holds value t (ground arith) in
      (suc r.0, ground (arith, r.1), ground (arith, r.2))
  | inr e ↦ (0, ground arith, ground arith)
]

-- `line_of` is the last line that starts at or before the byte.
pub line_of-Holds :
    {size : ℕ} {lines : List ℕ} (offset : ℕ)
    → IsTable size 0 lines
    → Holds lines offset (line_of lines offset)
line_of-Holds {lines} offset t =
    let r = upper_bound-Holds offset t (omega arith) in
    let e : line_of lines offset ≡ r.0 = omega (arith, r.1) in rw e r.2

-- Where the text of a line starts and ends.
pub line_bounds :
    {size : ℕ} {lines : List ℕ} (number : ℕ) (ascii : ℕ → Bool) (crlf : ℕ → ℕ → Bool)
    → IsTable size 0 lines
    → number < length lines
    → let line = line_at lines number size ascii crlf in
      (line.start ≡ get_or lines number 0)
      × (line.start ≤ line.end)
      × (line.end ≤ size)
      × ((suc number ≡ length lines) ⊎ (line.end < get_or lines (suc number) 0))
unfolding line_at
line_bounds {lines} number ascii crlf t h =
    let e : number + 1 ≡ suc number = omega arith in
    elim (Bool-cases (ltb (number + 1) (length lines))) [
      | inl q ↦
          let inside : suc number < length lines = ground arith in
          let next = start_bounds (suc number) t inside in
          let later = start_lt_suc number t inside in rw (q, e) (ground (arith, next, later))
      | inr q ↦ let own = start_bounds number t h in rw q (ground (arith, own))
    ]
