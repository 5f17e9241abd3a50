-- ===== src/Ipc/Lsp/Text/Sizes.antt =====
-- How many bytes and units `next_codepoint_sizes` gives, and the bytes behind the first one.
use kotatsu.Base.{
  ℕ, suc, ◌+◌, ◌≤◌, ◌<◌, true, false, ◌∷◌, Option, none, some, ◌≡◌, refl, arith, ◌⊎◌, inl, length,
}
use kotatsu.Support.Text.{Bytes}
use kotatsu.Support.Unicode.{Lead, read_lead, read_sequence, decode_sequence, decode_utf8}
use kotatsu.Support.Unicode.Decode.{read_lead_need, count-decode_sequence}
use kotatsu.Support.Unicode.Sequences.{decode_utf8-continues}
use kotatsu.Ipc.Lsp.Text.{
  is_continuation, continues, next_codepoint_sizes, width, PositionEncoding, utf8, utf16, utf32,
}

pub sizes_bounds :
    (c : ℕ) (cs : Bytes)
    → let s = next_codepoint_sizes (c ∷ cs) in
      (1 ≤ s.0) × (s.0 ≤ 4) × (s.0 ≤ 1 + length cs) × (1 ≤ s.1)
unfolding next_codepoint_sizes decode_utf8
sizes_bounds c cs = ground (arith, count-decode_sequence c cs false)

-- The bytes of a code point behind its first one continue it.
pub sizes-continues :
    (c : ℕ) (cs : Bytes) (i : ℕ)
    → suc i < (next_codepoint_sizes (c ∷ cs)).0
    → continues (c ∷ cs) (suc i) ≡ true
unfolding next_codepoint_sizes
sizes-continues c cs i h = ground (arith, decode_utf8-continues c cs i)

-- A byte that continues a sequence is, as the first one of a text, a code point of its own.
pub sizes-stray :
    (c : ℕ) (cs : Bytes) → is_continuation c ≡ true → (next_codepoint_sizes (c ∷ cs)).0 ≡ 1
unfolding next_codepoint_sizes decode_utf8 decode_sequence read_lead read_sequence
sizes-stray c cs h = ground arith

read_sequence-wide :
    (rest : Bytes) (o : Option Lead)
    → ((l : Lead) → o ≡ some l → (2 ≤ l.need) × (l.need ≤ 4))
    → let s = read_sequence rest o in ((s.valid ≡ false) ⊎ (2 ≤ s.count))
unfolding read_sequence
read_sequence-wide rest none r = inl refl
read_sequence-wide rest (some l) r = ground (arith, r l refl)

-- No code point has more units than bytes.
pub width_le :
    (encoding : PositionEncoding) (c : ℕ) (cs : Bytes)
    → width encoding (next_codepoint_sizes (c ∷ cs)) ≤ (next_codepoint_sizes (c ∷ cs)).0
unfolding next_codepoint_sizes decode_utf8 decode_sequence
width_le utf8 c cs = omega arith
width_le utf16 c cs = ground (
  arith,
  read_sequence-wide cs (read_lead false c)
      (λ (l : Lead) (e : read_lead false c ≡ some l). read_lead_need false c e),
)
width_le utf32 c cs = omega (arith, sizes_bounds c cs)
