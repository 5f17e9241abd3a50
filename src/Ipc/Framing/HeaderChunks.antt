-- ===== src/Ipc/Framing/HeaderChunks.antt =====
-- How `header_end` reads a header that comes in pieces.
use kotatsu.Base.{
  ℕ, ◌+◌, ◌++◌, append_assoc, none, some, ◌≡◌, inl, inr, sym, ap, ◌∙◌, arith, length, length-append,
  Option-cases,
}
use kotatsu.Support.Text.{Bytes, shift, find}
use kotatsu.Support.Text.Find.{shift-injective, shift-shift, find-append}
use kotatsu.Ipc.Framing.Header.{blank_line, header_end}
use kotatsu.Ipc.Framing.HeaderEnd.{first_end, header_end_lem}
use kotatsu.Ipc.Framing.Inv.{header_end-some, header_end-none}

first_end-append :
    (text more : Bytes) (e : ℕ) → first_end text ≡ some e → first_end (text ++ more) ≡ some e
first_end-append text more e h = elim (Option-cases (find blank_line text)) [
  | inl missing ↦ absurd (impossible missing)
  | inr (i, at) ↦ rw (find-append blank_line text more i at) (rw at at h)
]
  where
    impossible : find blank_line text ≡ none → ⊥
    impossible missing = ground (arith, h)

-- A header that ends keeps its end, whatever follows.
pub header_end-append :
    (header next more : Bytes) (e : ℕ)
    → find blank_line header ≡ none
    → header_end header next ≡ some e
    → header_end header (next ++ more) ≡ some e
header_end-append header next more e h k = shift-injective (length header) _ (some e) (
    header_end_lem header (next ++ more) h
    ∙ ap first_end (sym (append_assoc header next more))
    ∙ first_end-append (header ++ next) more (length header + e)
        (header_end-some header next e h k).0)

-- A header that does not end goes on.
pub header_end-later :
    (header next more : Bytes)
    → find blank_line header ≡ none
    → header_end header next ≡ none
    → header_end header (next ++ more) ≡ shift (length next) (header_end (header ++ next) more)
header_end-later header next more h k = shift-injective (length header) _ _ (
    header_end_lem header (next ++ more) h
    ∙ ap first_end (sym (append_assoc header next more))
    ∙ sym (header_end_lem (header ++ next) more (header_end-none header next h k))
    ∙ ap (λ n. shift n (header_end (header ++ next) more)) (length-append header next)
    ∙ sym (shift-shift (length header) (length next) _))
