-- ===== src/Ipc/Lsp/Percent/RoundTrip.antt =====
-- `URI::percent_decode` of what `URI::percent_encode` writes.
use kotatsu.Base.{
  ℕ, ◌/◌, ◌%◌, ◌<◌, Bool, false, [], ◌∷◌, some, ◌==◌, value, ◌≡◌, refl, ap, ap₂, ◌∙◌, arith, inl,
  inr, Bool-cases,
}
use kotatsu.Support.Text.{Bytes}
use kotatsu.Ipc.Lsp.Percent.{
  should_encode, hex_digit, percent_encode, hex_value, push, push_escape, percent_decode,
}

-- The bytes of a text are below 256.
abbrev pub IsText : Bytes → Type 0
IsText [] = Unit {0}
IsText (c ∷ cs) = (c < 256) × IsText cs

hex_value-hex_digit : (n : ℕ) → n < 16 → hex_value (hex_digit n) ≡ some n
unfolding hex_value
hex_value-hex_digit n h = ground arith

percent_decode-plain :
    (c : ℕ) (cs : Bytes)
    → (c == b'%') ≡ false
    → percent_decode (c ∷ cs) ≡ push c (percent_decode cs)
unfolding percent_decode
percent_decode-plain c [] h = rw (h, percent_decode)
percent_decode-plain c (d ∷ []) h = rw (h, percent_decode)
percent_decode-plain c (d ∷ e ∷ cs) h = rw (h, percent_decode)

should_encode-percent :
    (encode_slash : Bool) (c : ℕ) → should_encode encode_slash c ≡ false → (c == b'%') ≡ false
unfolding should_encode
should_encode-percent encode_slash c h = ground arith

percent_decode-escape :
    (c : ℕ) (cs : Bytes)
    → c < 256
    → percent_decode (b'%' ∷ hex_digit (c / 16 % 16) ∷ hex_digit (c % 16) ∷ cs)
      ≡ push c (percent_decode cs)
unfolding percent_decode
percent_decode-escape c cs h =
    ap₂ (λ high low. push_escape high low (percent_decode cs))
      (hex_value-hex_digit (c / 16 % 16) (omega arith)) (hex_value-hex_digit (c % 16) (omega arith))
    ∙ ap (λ k. push k (percent_decode cs)) (omega arith)

-- Decoding gives back any text of bytes that was encoded, with slashes encoded or kept.
pub percent_decode-percent_encode :
    (encode_slash : Bool) (text : Bytes)
    → IsText text
    → percent_decode (percent_encode encode_slash text) ≡ value text
unfolding percent_encode
percent_decode-percent_encode encode_slash [] t = unfold percent_decode in refl
percent_decode-percent_encode encode_slash (c ∷ cs) t =
    let rest = ap (push c) (percent_decode-percent_encode encode_slash cs t.1) in
    elim (Bool-cases (should_encode encode_slash c)) [
      | inl e ↦ rw e (percent_decode-escape c (percent_encode encode_slash cs) t.0 ∙ rest)
      | inr e ↦ rw e (
          percent_decode-plain c (percent_encode encode_slash cs)
            (should_encode-percent encode_slash c e)
          ∙ rest)
    ]
