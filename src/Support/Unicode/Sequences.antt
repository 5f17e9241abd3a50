-- ===== src/Support/Unicode/Sequences.antt =====
-- The bytes of a sequence behind its first one, and a sequence at the front of a longer text.
use kotatsu.Base.{
  ℕ, zero, suc, ◌+◌, ◌-◌, ◌*◌, ◌%◌, ◌≤◌, ◌<◌, Bool, true, false, [], ◌∷◌, ◌++◌, Option, none, some,
  ◌≡◌, refl, ap, arith, get_or, take, ltb, inl, inr, Bool-cases,
}
use kotatsu.Support.Text.{Bytes}
use kotatsu.Support.Unicode.Decode.{read_lead_need}
use kotatsu.Support.Unicode.{
  Lead, finish, read_lead, read_rest, read_sequence, decode_sequence, decode_utf8,
}

-- The bytes that `read_rest` takes continue the sequence.
read_rest-continues :
    (need low high : ℕ) (rest : Bytes) (count code_point i : ℕ)
    → 0x80 ≤ low
    → high ≤ 0xBF
    → count + i < (read_rest need low high rest count code_point).0
    → (0x80 ≤ get_or rest i 0) × (get_or rest i 0 ≤ 0xBF)
unfolding read_rest
read_rest-continues need low high [] count code_point i l h k = absurd (omega arith)
read_rest-continues need low high (next ∷ rest) count code_point zero l h k = ground arith
read_rest-continues need low high (next ∷ rest) count code_point (suc i) l h k =
    ground
      (arith, read_rest-continues need 0x80 0xBF rest (count + 1) (code_point * 64 + next % 64) i)

read_lead_range :
    (surrogates : Bool) (lead : ℕ) {l : Lead}
    → read_lead surrogates lead ≡ some l
    → (0x80 ≤ l.low) × (l.high ≤ 0xBF)
unfolding read_lead
read_lead_range surrogates lead h = ground arith

read_sequence-continues :
    (rest : Bytes) (o : Option Lead) (i : ℕ)
    → ((l : Lead) → o ≡ some l → (0x80 ≤ l.low) × (l.high ≤ 0xBF))
    → suc i < (read_sequence rest o).count
    → (0x80 ≤ get_or rest i 0) × (get_or rest i 0 ≤ 0xBF)
unfolding read_sequence
read_sequence-continues rest none i r h = absurd (omega arith)
read_sequence-continues rest (some l) i r h =
    ground (arith, r l refl, read_rest-continues l.need l.low l.high rest 1 l.bits i)

-- The bytes of a sequence behind its first one.
pub decode_utf8-continues :
    (c : ℕ) (cs : Bytes) (i : ℕ)
    → suc i < (decode_utf8 (c ∷ cs)).count
    → (0x80 ≤ get_or cs i 0) × (get_or cs i 0 ≤ 0xBF)
unfolding decode_utf8 decode_sequence
decode_utf8-continues c cs i h = ground (
  arith,
  read_sequence-continues cs (read_lead false c) i
      (λ (l : Lead) (e : read_lead false c ≡ some l). read_lead_range false c e),
)

-- A whole sequence is read alike whatever follows the text.
read_rest-append :
    (need low high : ℕ) (rest more : Bytes) (count code_point : ℕ)
    → (read_rest need low high rest count code_point).0 ≡ need
    → read_rest need low high (rest ++ more) count code_point
      ≡ read_rest need low high rest count code_point
unfolding read_rest
read_rest-append need low high [] [] count code_point h = refl
read_rest-append need low high [] (x ∷ more) count code_point h = ground arith
read_rest-append need low high (next ∷ rest) more count code_point h =
    ground
      (arith, read_rest-append need 0x80 0xBF rest more (count + 1) (code_point * 64 + next % 64))

finish_count : (need : ℕ) (r : ℕ × ℕ) → (finish need r).valid ≡ true → r.0 ≡ need
finish_count need r h = ground arith

read_sequence-append :
    (rest more : Bytes) (o : Option Lead)
    → (read_sequence rest o).valid ≡ true
    → read_sequence (rest ++ more) o ≡ read_sequence rest o
unfolding read_sequence
read_sequence-append rest more none h = refl
read_sequence-append rest more (some l) h = ap (finish l.need) (
    read_rest-append l.need l.low l.high rest more 1 l.bits
      (finish_count l.need (read_rest l.need l.low l.high rest 1 l.bits) h))

pub decode_utf8-append :
    (text more : Bytes)
    → (decode_utf8 text).valid ≡ true
    → decode_utf8 (text ++ more) ≡ decode_utf8 text
unfolding decode_utf8 decode_sequence
decode_utf8-append [] more h = absurd (ground arith)
decode_utf8-append (c ∷ cs) more h = elim (Bool-cases (ltb c 0x80)) [
  | inl e ↦ rw e
  | inr e ↦ rw e (read_sequence-append cs more (read_lead false c) (rw e at h))
]

-- A whole sequence is read alike with other bytes behind it.
read_rest-replace :
    (need low high : ℕ) (rest more : Bytes) (count code_point m : ℕ)
    → (read_rest need low high rest count code_point).0 ≡ need
    → need ≡ count + m
    → read_rest need low high (take m rest ++ more) count code_point
      ≡ read_rest need low high rest count code_point
unfolding read_rest
read_rest-replace need low high [] [] count code_point zero h e = refl
read_rest-replace need low high [] (x ∷ more) count code_point zero h e = ground arith
read_rest-replace need low high (next ∷ rest) [] count code_point zero h e = ground arith
read_rest-replace need low high (next ∷ rest) (x ∷ more) count code_point zero h e = ground arith
read_rest-replace need low high [] more count code_point (suc m) h e = absurd (omega arith)
read_rest-replace need low high (next ∷ rest) more count code_point (suc m) h e =
    ground (
      arith,
      read_rest-replace need 0x80 0xBF rest more (count + 1) (code_point * 64 + next % 64) m,
    )

read_sequence-replace :
    (rest more : Bytes) (o : Option Lead)
    → (read_sequence rest o).valid ≡ true
    → ((l : Lead) → o ≡ some l → (2 ≤ l.need) × (l.need ≤ 4))
    → read_sequence (take ((read_sequence rest o).count - 1) rest ++ more) o ≡ read_sequence rest o
unfolding read_sequence
read_sequence-replace rest more none h r = absurd (ground arith)
read_sequence-replace rest more (some l) h r =
    let got = read_rest l.need l.low l.high rest 1 l.bits in
    let n : got.0 ≡ l.need = finish_count l.need got h in
    let c : (finish l.need got).count ≡ l.need = finish_taken l.need got h in
    let e : l.need ≡ 1 + (l.need - 1) = omega (arith, r l refl) in
    rw c (
      ap (finish l.need)
        (read_rest-replace l.need l.low l.high rest more 1 l.bits (l.need - 1) n e))
  where
    finish_taken :
        (need : ℕ) (r : ℕ × ℕ) → (finish need r).valid ≡ true → (finish need r).count ≡ need
    finish_taken need r h = ground arith

-- What follows a valid sequence does not matter to it.
pub decode_utf8-replace :
    (c : ℕ) (cs more : Bytes)
    → (decode_utf8 (c ∷ cs)).valid ≡ true
    → decode_utf8 (c ∷ take ((decode_utf8 (c ∷ cs)).count - 1) cs ++ more) ≡ decode_utf8 (c ∷ cs)
unfolding decode_utf8 decode_sequence
decode_utf8-replace c cs more h = elim (Bool-cases (ltb c 0x80)) [
  | inl e ↦ rw e
  | inr e ↦
      let g =
        read_sequence-replace cs more (read_lead false c) (rw e at h)
          (λ (l : Lead) (k : read_lead false c ≡ some l). read_lead_need false c k) in
      rw e g
]

-- A valid sequence does not start with a byte that continues one.
pub decode_utf8-lead :
    (c : ℕ) (cs : Bytes) → (decode_utf8 (c ∷ cs)).valid ≡ true → 0x80 ≤ c → c ≤ 0xBF → ⊥
unfolding decode_utf8 decode_sequence read_lead read_sequence
decode_utf8-lead c cs h l u = ground arith
