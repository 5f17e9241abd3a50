-- ===== src/Support/Unicode/Decode.antt =====
-- `detail::decode_sequence`: how much it takes, and the code points of `from_utf16` in it.
use kotatsu.Base.{
  ℕ, ◌+◌, ◌*◌, ◌/◌, ◌%◌, ◌≤◌, ◌<◌, Bool, true, false, [], ◌∷◌, ◌++◌, ◌≡◌, refl, ap, ◌∙◌, arith,
  length, ltb, ◌==◌, if◌then◌else◌, Option, none, some,
}
use kotatsu.Support.Text.{Bytes}
use kotatsu.Support.Unicode.{
  Utf8Sequence, Lead, read_lead, read_rest, read_sequence, decode_sequence, put_code_point, finish,
}

-- A sequence has a byte at least, four at most, and lies inside the text.
pub read_rest_bounds :
    (need low high : ℕ) (rest : Bytes) (count code_point : ℕ)
    → count ≤ need
    → let (n, c) = read_rest need low high rest count code_point in
      (count ≤ n) × (n ≤ need) × (n ≤ count + length rest)
unfolding read_rest
read_rest_bounds need low high [] count code_point h = omega arith
read_rest_bounds need low high (next ∷ rest) count code_point h =
    ground (arith, read_rest_bounds need 0x80 0xBF rest (count + 1) (code_point * 64 + next % 64))

pub read_lead_need :
    (surrogates : Bool) (lead : ℕ) {l : Lead}
    → read_lead surrogates lead ≡ some l
    → (2 ≤ l.need) × (l.need ≤ 4)
unfolding read_lead
read_lead_need surrogates lead h = ground arith

count-read_sequence :
    (rest : Bytes) (o : Option Lead)
    → ((l : Lead) → o ≡ some l → (2 ≤ l.need) × (l.need ≤ 4))
    → let s = read_sequence rest o in (1 ≤ s.count) × (s.count ≤ 4) × (s.count ≤ 1 + length rest)
unfolding read_sequence
count-read_sequence rest none h = omega arith
count-read_sequence rest (some l) h =
    ground (arith, h l refl, read_rest_bounds l.need l.low l.high rest 1 l.bits)

-- Whatever the bytes are, `decode_sequence` of a text that is not empty takes one byte at least, four
-- at most, and none behind the end of the text.
pub count-decode_sequence :
    (lead : ℕ) (rest : Bytes) (surrogates : Bool)
    → let s = decode_sequence (lead ∷ rest) surrogates in
      (1 ≤ s.count) × (s.count ≤ 4) × (s.count ≤ 1 + length rest)
unfolding decode_sequence
count-decode_sequence lead rest surrogates = ground (
  arith,
  count-read_sequence rest (read_lead surrogates lead)
      (λ (l : Lead) (e : read_lead surrogates lead ≡ some l). read_lead_need surrogates lead e),
)

-- The rounds of the loop over the bytes behind the lead.
read_rest_step :
    (need low high next : ℕ) (rest : Bytes) (count code_point : ℕ)
    → count < need
    → low ≤ next
    → next ≤ high
    → read_rest need low high (next ∷ rest) count code_point
      ≡ read_rest need 0x80 0xBF rest (count + 1) (code_point * 64 + next % 64)
unfolding read_rest
read_rest_step need low high next rest count code_point h l m = ground arith

read_rest_done :
    (need low high : ℕ) (rest : Bytes) (code_point : ℕ)
    → read_rest need low high rest need code_point ≡ (need, code_point)
unfolding read_rest
read_rest_done need low high [] code_point = refl
read_rest_done need low high (next ∷ rest) code_point = ground arith

abbrev decoded : ℕ → ℕ → Utf8Sequence
decoded c n = record { code_point = c; count = n; valid = true }

decode-lead :
    (lead : ℕ) (rest : Bytes) (l : Lead)
    → 0x80 ≤ lead
    → read_lead true lead ≡ some l
    → decode_sequence (lead ∷ rest) true
      ≡ finish l.need (read_rest l.need l.low l.high rest 1 l.bits)
unfolding decode_sequence
decode-lead lead rest l h e =
    let t : ltb lead 0x80 ≡ false = ground arith in rw (t, e) (unfold read_sequence in refl)

-- A lead byte of each length, as it is written for the leading bits of a code point.
lead_two :
    (b : ℕ)
    → 2 ≤ b
    → b < 32
    → read_lead true (0xC0 + b) ≡ some (record { need = 2; bits = b; low = 0x80; high = 0xBF })
unfolding read_lead
lead_two b g h = ground arith

abbrev low_three : ℕ → ℕ
low_three b = if b == 0 then 0xA0 else 0x80

lead_three :
    (b : ℕ)
    → b < 16
    → read_lead true (0xE0 + b)
      ≡ some (record { need = 3; bits = b; low = low_three b; high = 0xBF })
unfolding read_lead
lead_three b h = ground arith

abbrev low_four : ℕ → ℕ
low_four b = if b == 0 then 0x90 else 0x80

abbrev high_four : ℕ → ℕ
high_four b = if b == 4 then 0x8F else 0xBF

lead_four :
    (b : ℕ)
    → b < 5
    → read_lead true (0xF0 + b)
      ≡ some (record { need = 4; bits = b; low = low_four b; high = high_four b })
unfolding read_lead
lead_four b h = ground arith

module _ (c : ℕ) (rest : Bytes) where
  decode-one : c < 0x80 → decode_sequence (c ∷ rest) true ≡ decoded c 1
  unfolding decode_sequence
  decode-one h = ground arith

  decode-two :
      0x80 ≤ c
      → c < 0x800
      → decode_sequence ((0xC0 + c / 64) ∷ (0x80 + c % 64) ∷ rest) true ≡ decoded c 2
  decode-two g h =
      decode-lead (0xC0 + c / 64) ((0x80 + c % 64) ∷ rest) _ (omega arith)
        (lead_two (c / 64) (omega arith) (omega arith))
      ∙ ap (finish 2) (
          read_rest_step 2 0x80 0xBF (0x80 + c % 64) rest 1 (c / 64) (omega arith) (omega arith)
            (omega arith)
          ∙ read_rest_done 2 0x80 0xBF rest _)
      ∙ ap (λ k. decoded k 2) (omega arith)

  decode-three :
      0x800 ≤ c
      → c < 0x10000
      → decode_sequence ((0xE0 + c / 4096) ∷ (0x80 + c / 64 % 64) ∷ (0x80 + c % 64) ∷ rest) true
        ≡ decoded c 3
  decode-three g h =
      decode-lead (0xE0 + c / 4096) ((0x80 + c / 64 % 64) ∷ (0x80 + c % 64) ∷ rest) _ (omega arith)
        (lead_three (c / 4096) (omega arith))
      ∙ ap (finish 3) (
          read_rest_step 3 (low_three (c / 4096)) 0xBF (0x80 + c / 64 % 64) ((0x80 + c % 64) ∷ rest)
            1 (c / 4096) (omega arith) (ground arith) (omega arith)
          ∙ read_rest_step 3 0x80 0xBF (0x80 + c % 64) rest 2 _ (omega arith) (omega arith)
              (omega arith)
          ∙ read_rest_done 3 0x80 0xBF rest _)
      ∙ ap (λ k. decoded k 3) (omega arith)

  decode-four :
      0x10000 ≤ c
      → c < 0x110000
      → decode_sequence
          ((0xF0 + c / 262144)
            ∷ (0x80 + c / 4096 % 64)
            ∷ (0x80 + c / 64 % 64)
            ∷ (0x80 + c % 64)
            ∷ rest)
          true
        ≡ decoded c 4
  decode-four g h =
      decode-lead (0xF0 + c / 262144)
        ((0x80 + c / 4096 % 64) ∷ (0x80 + c / 64 % 64) ∷ (0x80 + c % 64) ∷ rest) _ (omega arith)
        (lead_four (c / 262144) (omega arith))
      ∙ ap (finish 4) (
          read_rest_step 4 (low_four (c / 262144)) (high_four (c / 262144)) (0x80 + c / 4096 % 64)
            ((0x80 + c / 64 % 64) ∷ (0x80 + c % 64) ∷ rest) 1 (c / 262144) (omega arith)
            (ground arith) (ground arith)
          ∙ read_rest_step 4 0x80 0xBF (0x80 + c / 64 % 64) ((0x80 + c % 64) ∷ rest) 2 _
              (omega arith) (omega arith) (omega arith)
          ∙ read_rest_step 4 0x80 0xBF (0x80 + c % 64) rest 3 _ (omega arith) (omega arith)
              (omega arith)
          ∙ read_rest_done 4 0x80 0xBF rest _)
      ∙ ap (λ k. decoded k 4) (omega arith)

-- The decoder reads back what `from_utf16` writes for a code point, surrogates included.
pub decode_sequence-put_code_point :
    (c : ℕ) (rest : Bytes)
    → c < 0x110000
    → decode_sequence (put_code_point c ++ rest) true
      ≡ record { code_point = c; count = length (put_code_point c); valid = true }
unfolding put_code_point
decode_sequence-put_code_point c rest h =
    ground (arith, decode-one c rest, decode-two c rest, decode-three c rest, decode-four c rest)
