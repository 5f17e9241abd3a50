-- ===== src/Ipc/Lsp/Text/Resync.antt =====
-- `locate` of a UTF-8 byte, which looks back from the byte, and a scan of the code points from the
-- start of the text.
use kotatsu.Base.{
  ℕ, zero, suc, ◌+◌, ◌-◌, ◌≤◌, ◌<◌, true, false, [], ◌∷◌, ◌≡◌, ◌⊎◌, inl, inr, refl, sym, ap, ap₂,
  ◌∙◌, arith, length, drop, length-drop, drop-drop, get_or-drop, ltb, leb, ◌==◌, if◌then◌else◌,
  Bool-cases,
}
use kotatsu.Support.Text.{Bytes}
use kotatsu.Ipc.Lsp.Text.{
  Located, utf8, continues, next_codepoint_sizes, retreat, locate_at, locate_utf8, locate_from,
  locate, is_continuation,
}
use kotatsu.Ipc.Lsp.Text.Sizes.{sizes_bounds, sizes-continues, sizes-stray}

continues-drop : (n i : ℕ) (text : Bytes) → continues (drop n text) i ≡ continues text (n + i)
continues-drop n i text = ap is_continuation (get_or-drop n i text 0)

retreat_le : (rounds : ℕ) (text : Bytes) (lead : ℕ) → retreat rounds text lead ≤ lead
unfolding retreat
retreat_le zero text lead = omega arith
retreat_le (suc rounds) text lead = ground (arith, retreat_le rounds text (lead - 1))

-- Looking back in what follows a code point and in the whole text: the same place, unless it goes back
-- past the start of what follows, which the one then stops at.
retreat-drop :
    (rounds n : ℕ) (text : Bytes) (j : ℕ)
    → 0 < n
    → (retreat rounds text (n + j) ≡ n + retreat rounds (drop n text) j)
      ⊎ ((retreat rounds (drop n text) j ≡ 0)
          × (continues (drop n text) 0 ≡ true)
          × (retreat rounds text (n + j) < n))
unfolding retreat
retreat-drop zero n text j h = inl refl
retreat-drop (suc rounds) n text zero h =
    ground (arith, continues-drop n 0 text, retreat_le rounds text (n + 0 - 1))
retreat-drop (suc rounds) n text (suc j) h =
    let e : n + suc j - 1 ≡ n + j = omega arith in
    rw e (ground (arith, continues-drop n (suc j) text, retreat-drop rounds n text j h))

-- Back from a byte inside the first code point to its start.
retreat-start :
    (rounds : ℕ) (text : Bytes) (k : ℕ)
    → ((i : ℕ) → i < k → continues text (suc i) ≡ true)
    → k ≤ rounds
    → retreat rounds text k ≡ 0
unfolding retreat
retreat-start zero text k c h = omega arith
retreat-start (suc rounds) text zero c h = ground arith
retreat-start (suc rounds) text (suc k) c h =
    let e : suc k - 1 ≡ k = omega arith in
    rw e (ground (arith, c k (omega arith), retreat-start rounds text k (λ i l. c i (omega arith))))

abbrev shifted : ℕ → Located → Located
shifted n r = record { offset = n + r.offset; exact = r.exact }

-- A byte inside the first code point.
locate_at-first :
    (c : ℕ) (cs : Bytes) (k : ℕ)
    → k < (next_codepoint_sizes (c ∷ cs)).0
    → locate_at (c ∷ cs) k (retreat 3 (c ∷ cs) k) ≡ record { offset = 0; exact = k == 0 }
locate_at-first c cs k h =
    let start : retreat 3 (c ∷ cs) k ≡ 0 =
      retreat-start 3 (c ∷ cs) k (λ i l. sizes-continues c cs i (omega arith))
        (omega (arith, sizes_bounds c cs)) in
    rw start (ground (arith, sizes-stray c cs))

-- A byte behind the first code point.
locate_at-later :
    (c : ℕ) (cs : Bytes) (j : ℕ)
    → let n = (next_codepoint_sizes (c ∷ cs)).0 in
      locate_at (c ∷ cs) (n + j) (retreat 3 (c ∷ cs) (n + j))
      ≡ shifted n (locate_at (drop n (c ∷ cs)) j (retreat 3 (drop n (c ∷ cs)) j))
locate_at-later c cs j =
    let n = (next_codepoint_sizes (c ∷ cs)).0 in
    let text : Bytes = c ∷ cs in
    let l = retreat 3 text (n + j) in
    let l' = retreat 3 (drop n text) j in
    elim (retreat-drop 3 n text j (omega (arith, sizes_bounds c cs))) [
      | inl e ↦ rw e (
          ground (
            arith,
            continues-drop n l' text,
            ap (λ rest. (next_codepoint_sizes rest).0) (drop-drop l' n text),
          ))
      | inr (z, k, b) ↦ ground (arith, sizes-continues c cs (l - 1))
    ]

abbrev unless_past : ℕ → ℕ → Located → Located
unless_past size character found =
    if leb size character then record { offset = size; exact = character == size } else found

unless_past-shifted :
    (n size j : ℕ) (found : Located)
    → unless_past (n + size) (n + j) (shifted n found) ≡ shifted n (unless_past size j found)
unless_past-shifted n size j found = ground arith

locate_utf8-later :
    (c : ℕ) (cs : Bytes) (j : ℕ)
    → let n = (next_codepoint_sizes (c ∷ cs)).0 in
      locate_utf8 (c ∷ cs) (n + j) ≡ shifted n (locate_utf8 (drop n (c ∷ cs)) j)
unfolding locate_utf8
locate_utf8-later c cs j =
    let n = (next_codepoint_sizes (c ∷ cs)).0 in
    let size : length (c ∷ cs) ≡ n + length (drop n (c ∷ cs)) =
      omega (arith, length-drop n (c ∷ cs), sizes_bounds c cs) in
    ap₂ (λ m found. unless_past m (n + j) found) size (locate_at-later c cs j)
    ∙ unless_past-shifted n (length (drop n (c ∷ cs))) j
        (locate_at (drop n (c ∷ cs)) j (retreat 3 (drop n (c ∷ cs)) j))

locate_utf8-first :
    (c : ℕ) (cs : Bytes) (k : ℕ)
    → k < (next_codepoint_sizes (c ∷ cs)).0
    → locate_utf8 (c ∷ cs) k ≡ record { offset = 0; exact = k == 0 }
unfolding locate_utf8
locate_utf8-first c cs k h =
    let inside : leb (length (c ∷ cs)) k ≡ false = ground (arith, sizes_bounds c cs) in
    rw inside (locate_at-first c cs k h)

-- A round of the scan.
abbrev scan_round : ℕ → ℕ → ℕ → Located → Located
scan_round a k n later =
    if a == a + k
    then record { offset = a; exact = true }
    else if ltb (a + k) (a + n)
    then record { offset = a; exact = false }
    else later

scan_round-later : (a k n : ℕ) (later : Located) → 1 ≤ n → n ≤ k → scan_round a k n later ≡ later
scan_round-later a k n later h l = ground arith

scan_round-first :
    (a k n : ℕ) (later : Located)
    → k < n
    → scan_round a k n later ≡ record { offset = a + 0; exact = k == 0 }
scan_round-first a k n later h = ground arith

-- The scan from the `a`-th byte on, for a byte `k` behind it.
locate_from-utf8 :
    (fuel a k : ℕ) (text : Bytes)
    → length text ≤ fuel
    → locate_from fuel utf8 (a + k) a a text ≡ shifted a (locate_utf8 text k)
unfolding locate_from
locate_from-utf8 fuel a k [] h = unfold locate_utf8 in ground arith
locate_from-utf8 zero a k (c ∷ cs) h = absurd (omega arith)
locate_from-utf8 (suc fuel) a k (c ∷ cs) h = elim (Bool-cases (leb n k)) [
  | inl e ↦
      let j = k - n in
      let same : k ≡ n + j = ground arith in
      let reached : n ≤ k = ground arith in
      let reassoc : a + k ≡ a + n + j = omega arith in
      let enough : length (drop n text) ≤ fuel =
        omega (arith, length-drop n text, sizes_bounds c cs) in
      scan_round-later a k n (locate_from fuel utf8 (a + k) (a + n) (a + n) (drop n text))
        (omega (arith, sizes_bounds c cs)) reached
      ∙ ap (λ m. locate_from fuel utf8 m (a + n) (a + n) (drop n text)) reassoc
      ∙ locate_from-utf8 fuel (a + n) j (drop n text) enough
      ∙ shifted-shifted a n (locate_utf8 (drop n text) j)
      ∙ sym (ap (shifted a) (locate_utf8-later c cs j))
      ∙ sym (ap (λ m. shifted a (locate_utf8 text m)) same)
  | inr e ↦
      let short : k < n = ground arith in
      scan_round-first a k n (locate_from fuel utf8 (a + k) (a + n) (a + n) (drop n text)) short
      ∙ sym (ap (shifted a) (locate_utf8-first c cs k short))
]
  where
    n : ℕ
    n = (next_codepoint_sizes (c ∷ cs)).0

    text : Bytes
    text = c ∷ cs

    shifted-shifted : (a n : ℕ) (r : Located) → shifted (a + n) r ≡ shifted a (shifted n r)
    shifted-shifted a n r = ground arith

-- Where `locate` finds the code point of a UTF-8 byte, looking back from it, is where a scan of the
-- code points from the start of the text finds it, for any bytes, well-formed or not.
pub locate-utf8_lem :
    (text : Bytes) (character : ℕ)
    → locate text character utf8 ≡ locate_from (length text) utf8 character 0 0 text
unfolding locate
locate-utf8_lem text character =
    let found : locate_from (length text) utf8 (0 + character) 0 0 text
        ≡ shifted 0 (locate_utf8 text character) =
      locate_from-utf8 (length text) 0 character text (omega arith) in
    let e : 0 + character ≡ character = omega arith in
    let e' : 0 + (locate_utf8 text character).offset ≡ (locate_utf8 text character).offset =
      omega arith in
    ap (λ k. record { offset = k; exact = (locate_utf8 text character).exact }) (sym e')
    ∙ sym found
    ∙ ap (λ k. locate_from (length text) utf8 k 0 0 text) e
