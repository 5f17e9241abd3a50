-- ===== src/Ipc/Framing/HeaderTrip.antt =====
-- The header that `frame_header` writes, in the parser's functions.
use kotatsu.Base.{
  ℕ, suc, ◌+◌, ◌-◌, ◌≤◌, ◌<◌, ◌^◌, Bool, true, [], ◌∷◌, ◌++◌, append_assoc, append-nil, Option,
  none, some, ◌≡◌, ◌≢◌, refl, sym, ap, ◌∙◌, arith, length, length-append, take, drop, take-all,
  take-append_le, Expected, value,
}
use mathlib.Core.Path.{subst}
use kotatsu.Support.Text.{
  Bytes, codes, shift, starts_with, find, find_first_not_of, find_last_not_of, decimal, from_chars,
  parsed,
}
use kotatsu.Support.Text.Find.{shift-zero, shift-shift}
use kotatsu.Support.Text.Decimal.{
  Digits, decimal-Digits, decimal-cons, length-decimal, from_chars-decimal,
}
use kotatsu.Ipc.Framing.HeaderEnd.{header_end_lem}
use kotatsu.Ipc.Framing.Header.{
  header_end, is_blank, trim, equals_ignoring_case, content_length_name, line_end, blank_line,
  length_value, read_line, first_line, content_length, frame_header,
}

-- No carriage return.
abbrev NoReturn : Bytes → Type 0
NoReturn [] = Unit {0}
NoReturn (c ∷ cs) = (c ≢ b'\r') × NoReturn cs

Digits-NoReturn : (cs : Bytes) → Digits cs → NoReturn cs
Digits-NoReturn [] d = tt
Digits-NoReturn (c ∷ cs) d = (ground (arith, d.0), Digits-NoReturn cs d.1)

-- A text that starts with a carriage return is found only where one is.
find-skip :
    (xs p ys : Bytes)
    → NoReturn xs
    → find (b'\r' ∷ p) (xs ++ ys) ≡ shift (length xs) (find (b'\r' ∷ p) ys)
unfolding find
find-skip [] p ys h = shift-zero' (find (b'\r' ∷ p) ys)
  where
    shift-zero' : (o : Option ℕ) → o ≡ shift 0 o
    shift-zero' none = refl
    shift-zero' (some i) = ap some (omega arith)
find-skip (x ∷ xs) p ys h =
    ground (arith, find-skip xs p ys h.1, shift-shift 1 (length xs) (find (b'\r' ∷ p) ys))

find_last-cons :
    (t : ℕ → Bool) (x i : ℕ) (xs : Bytes)
    → find_last_not_of t xs ≡ some i
    → find_last_not_of t (x ∷ xs) ≡ some (suc i)
unfolding find_last_not_of
find_last-cons t x i xs h = rw h

find_last-Digits :
    (c : ℕ) (cs : Bytes) → Digits (c ∷ cs) → find_last_not_of is_blank (c ∷ cs) ≡ some (length cs)
find_last-Digits c [] d = unfold find_last_not_of in ground arith
find_last-Digits c (x ∷ cs) d =
    find_last-cons is_blank c (length cs) (x ∷ cs) (find_last-Digits x cs d.1)

trim_lem :
    (text : Bytes) (start end : ℕ)
    → find_first_not_of is_blank text ≡ some start
    → find_last_not_of is_blank text ≡ some end
    → trim text ≡ take (end - start + 1) (drop start text)
unfolding trim
trim_lem text start end e f = ground arith

-- The blank before the value of a header line is trimmed.
trim-Digits : (c : ℕ) (cs : Bytes) → Digits (c ∷ cs) → trim (b' ' ∷ c ∷ cs) ≡ c ∷ cs
trim-Digits c cs d =
    trim_lem (b' ' ∷ c ∷ cs) 1 (suc (length cs)) (first c cs d)
      (find_last-cons is_blank b' ' (length cs) (c ∷ cs) (find_last-Digits c cs d))
    ∙ take-all (suc (length cs) - 1 + 1) (c ∷ cs) (omega arith)
  where
    first :
        (c : ℕ) (cs : Bytes) → Digits (c ∷ cs) → find_first_not_of is_blank (b' ' ∷ c ∷ cs) ≡ some 1
    first c cs d = unfold find_first_not_of in ground arith

-- The line that `frame_header` writes, up to its end.
abbrev length_line : ℕ → Bytes
length_line n = codes "Content-Length: " ++ decimal n

length_value-decimal : (n : ℕ) → n < 2 ^ 64 → length_value (decimal n) ≡ value n
length_value-decimal n h =
    let (c, cs, e) = decimal-cons n in
    rw e (checked c cs (ap from_chars (sym e) ∙ from_chars-decimal n h))
  where
    checked :
        (c : ℕ) (cs : Bytes) → from_chars (c ∷ cs) ≡ parsed n [] → length_value (c ∷ cs) ≡ value n
    checked c cs e = unfold length_value in rw e

trim-decimal : (n : ℕ) → trim (b' ' ∷ decimal n) ≡ decimal n
trim-decimal n =
    let (c, cs, e) = decimal-cons n in rw e (trim-Digits c cs (subst Digits e (decimal-Digits n)))

read_line_lem :
    (line name text : Bytes) (colon : ℕ) (size : Expected ℕ Bytes)
    → find (b':' ∷ []) line ≡ some colon
    → trim (take colon line) ≡ name
    → equals_ignoring_case name content_length_name ≡ true
    → trim (drop (colon + 1) line) ≡ text
    → length_value text ≡ size
    → read_line line ≡ some size
unfolding read_line
read_line_lem line name text colon size e f g h k = ground arith

read_line-length_line : (n : ℕ) → n < 2 ^ 64 → read_line (length_line n) ≡ some (value n)
read_line-length_line n h =
    read_line_lem (length_line n) content_length_name (decimal n) 14 (value n) (unfold find in refl)
      (unfold trim find_first_not_of find_last_not_of in refl) (unfold equals_ignoring_case in refl)
      (trim-decimal n) (length_value-decimal n h)

first_line-some : (t : Bytes) (k : ℕ) → find line_end t ≡ some k → first_line t ≡ take k t
first_line-some t k h = ground arith

content_length-first :
    (c : ℕ) (cs : Bytes) (found : Expected ℕ Bytes)
    → read_line (first_line (c ∷ cs)) ≡ some found
    → content_length (c ∷ cs) ≡ found
unfolding content_length
content_length-first c cs found h = ground arith

-- What `frame_header` writes, with anything behind it, up to its blank line.
module _ (n : ℕ) where
  NoReturn-append : (xs ys : Bytes) → NoReturn xs → NoReturn ys → NoReturn (xs ++ ys)
  NoReturn-append [] ys h k = k
  NoReturn-append (x ∷ xs) ys h k = (h.0, NoReturn-append xs ys h.1 k)

  length_line-NoReturn : NoReturn (length_line n)
  length_line-NoReturn =
      NoReturn-append (codes "Content-Length: ") (decimal n) (omega arith)
        (Digits-NoReturn (decimal n) (decimal-Digits n))

  frame_header_eq : frame_header n ≡ length_line n ++ blank_line
  unfolding frame_header
  frame_header_eq = sym (append_assoc (codes "Content-Length: ") (decimal n) blank_line)

  find-frame_header :
      (p rest : Bytes)
      → starts_with (blank_line ++ rest) (b'\r' ∷ p) ≡ true
      → find (b'\r' ∷ p) (frame_header n ++ rest) ≡ some (length (length_line n))
  find-frame_header p rest h =
      ap (λ t. find (b'\r' ∷ p) (t ++ rest)) frame_header_eq
      ∙ ap (find (b'\r' ∷ p)) (append_assoc (length_line n) blank_line rest)
      ∙ find-skip (length_line n) p (blank_line ++ rest) length_line-NoReturn
      ∙ ap (shift (length (length_line n))) (found_first h)
      ∙ ap some (omega arith)
    where
      found_first :
          starts_with (blank_line ++ rest) (b'\r' ∷ p) ≡ true
          → find (b'\r' ∷ p) (blank_line ++ rest) ≡ some 0
      found_first h = unfold find in ground arith

  first_line-frame_header : first_line (frame_header n) ≡ length_line n
  first_line-frame_header =
      first_line-some (frame_header n) (length (length_line n)) (
        ap (find line_end) (sym (append-nil (frame_header n)))
        ∙ find-frame_header (b'\n' ∷ []) [] (unfold starts_with in refl))
      ∙ ap (take (length (length_line n))) frame_header_eq
      ∙ take-append_le (length (length_line n)) (length_line n) blank_line (omega arith)
      ∙ take-all (length (length_line n)) (length_line n) (omega arith)

  -- The header that is written for a size is read as that size.
  pub content_length-frame_header : n < 2 ^ 64 → content_length (frame_header n) ≡ value n
  unfolding frame_header
  content_length-frame_header h =
      content_length-first b'C' (codes "ontent-Length: " ++ (decimal n ++ blank_line)) (value n)
        (ap read_line first_line-frame_header ∙ read_line-length_line n h)

  length-frame_header : length (frame_header n) ≡ length (length_line n) + 4
  length-frame_header =
      ap length frame_header_eq ∙ length-append (length_line n) blank_line ∙ omega arith

  pub length-frame_header_le : n < 2 ^ 64 → length (frame_header n) ≤ 40
  length-frame_header_le h = omega (
    arith,
    length-frame_header,
    length-append (codes "Content-Length: ") (decimal n),
    length-decimal n h,
  )

  -- The header ends where it was written to end, whatever stands behind it.
  pub header_end-frame_header :
      (rest : Bytes) → header_end [] (frame_header n ++ rest) ≡ some (length (frame_header n))
  header_end-frame_header rest =
      sym (shift-zero (header_end [] (frame_header n ++ rest)))
      ∙ header_end_lem [] (frame_header n ++ rest) (unfold find in refl)
      ∙ ap (shift 4) (find-frame_header (codes "\n\r\n") rest (unfold starts_with in refl))
      ∙ ap some (omega (arith, length-frame_header))
