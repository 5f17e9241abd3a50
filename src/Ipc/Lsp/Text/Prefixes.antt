-- ===== src/Ipc/Lsp/Text/Prefixes.antt =====
-- The code points of a prefix of a text, and those of the text.
use kotatsu.Base.{
  ℕ, zero, suc, ◌+◌, ◌*◌, ◌%◌, ◌≤◌, ◌<◌, true, false, [], ◌∷◌, Option, none, some, ◌≡◌, ◌⊎◌, inl,
  inr, refl, arith, take, take-nil, ltb, if◌then◌else◌, Bool-cases,
}
use kotatsu.Support.Text.{Bytes}
use kotatsu.Support.Unicode.{
  Utf8Sequence, Lead, read_lead, read_rest, read_sequence, decode_sequence, decode_utf8,
}
use kotatsu.Support.Unicode.Decode.{read_lead_need, read_rest_bounds}
use kotatsu.Ipc.Lsp.Text.{next_codepoint_sizes}

read_rest_ge :
    (need low high : ℕ) (rest : Bytes) (count code_point : ℕ)
    → count ≤ (read_rest need low high rest count code_point).0
unfolding read_rest
read_rest_ge need low high [] count code_point = omega arith
read_rest_ge need low high (next ∷ rest) count code_point =
    ground (arith, read_rest_ge need 0x80 0xBF rest (count + 1) (code_point * 64 + next % 64))

-- A sequence is read alike from any prefix that holds it.
read_rest-take :
    (need low high : ℕ) (rest : Bytes) (count code_point m : ℕ)
    → (read_rest need low high rest count code_point).0 ≤ count + m
    → read_rest need low high (take m rest) count code_point
      ≡ read_rest need low high rest count code_point
unfolding read_rest
read_rest-take need low high [] count code_point m h = rw take-nil
read_rest-take need low high (next ∷ rest) count code_point zero h =
    ground (arith, read_rest_ge need 0x80 0xBF rest (count + 1) (code_point * 64 + next % 64))
read_rest-take need low high (next ∷ rest) count code_point (suc m) h =
    ground (arith, read_rest-take need 0x80 0xBF rest (count + 1) (code_point * 64 + next % 64) m)

-- No prefix gives more bytes of it.
read_rest-take_le :
    (need low high : ℕ) (rest : Bytes) (count code_point m : ℕ)
    → (read_rest need low high (take m rest) count code_point).0
      ≤ (read_rest need low high rest count code_point).0
unfolding read_rest
read_rest-take_le need low high [] count code_point m = rw take-nil (omega arith)
read_rest-take_le need low high (next ∷ rest) count code_point zero =
    ground (arith, read_rest_ge need 0x80 0xBF rest (count + 1) (code_point * 64 + next % 64))
read_rest-take_le need low high (next ∷ rest) count code_point (suc m) =
    ground
      (arith, read_rest-take_le need 0x80 0xBF rest (count + 1) (code_point * 64 + next % 64) m)

read_sequence-take :
    (rest : Bytes) (o : Option Lead) (m : ℕ)
    → ((l : Lead) → o ≡ some l → (2 ≤ l.need) × (l.need ≤ 4))
    → let s = read_sequence rest o in
      let t = read_sequence (take m rest) o in
      ((s.valid ≡ false) × (t.valid ≡ false)) ⊎ ((s.valid ≡ true) × (m + 1 < s.count)) ⊎ (t ≡ s)
unfolding read_sequence
read_sequence-take rest none m r = inl (refl, refl)
read_sequence-take rest (some l) m r = ground (
  arith,
  r l refl,
  read_rest-take l.need l.low l.high rest 1 l.bits m,
  read_rest-take_le l.need l.low l.high rest 1 l.bits m,
  read_rest_bounds l.need l.low l.high rest 1 l.bits,
)

abbrev sizes_of : Utf8Sequence → ℕ × ℕ
sizes_of s = if s.valid then (s.count, if ltb s.code_point 0x10000 then 1 else 2) else (1, 1)

sizes_of-eq :
    (m : ℕ) (s t : Utf8Sequence)
    → (sizes_of s).0 ≤ suc m
    → ((s.valid ≡ false) × (t.valid ≡ false)) ⊎ ((s.valid ≡ true) × (m + 1 < s.count)) ⊎ (t ≡ s)
    → sizes_of t ≡ sizes_of s
sizes_of-eq m s t h k = ground arith

-- The first code point of a prefix that holds it is that of the text.
pub sizes-take :
    (m c : ℕ) (cs : Bytes)
    → (next_codepoint_sizes (c ∷ cs)).0 ≤ suc m
    → next_codepoint_sizes (c ∷ take m cs) ≡ next_codepoint_sizes (c ∷ cs)
unfolding next_codepoint_sizes decode_utf8 decode_sequence
sizes-take m c cs h = elim (Bool-cases (ltb c 0x80)) [
  | inl e ↦ rw e
  | inr e ↦
      let known = λ (l : Lead) (k : read_lead false c ≡ some l). read_lead_need false c k in
      let g =
        sizes_of-eq m (read_sequence cs (read_lead false c))
          (read_sequence (take m cs) (read_lead false c)) (rw e at h)
          (read_sequence-take cs (read_lead false c) m known) in
      rw e g
]
