-- ===== src/Ipc/Lsp/Text.antt =====
-- src/ipc/lsp/text.cpp and include/kotatsu/ipc/lsp/text.h: where the lines of a text start, and units
-- of LSP's encodings as byte offsets. A text has fewer than 2^32 bytes, as the source's conversions of
-- its size to `uint32_t` ask. An index into a text is the text from there on.
pub mod Sizes
pub mod Resync
pub mod Prefixes
pub mod Units
mod Tests
use kotatsu.Base.{
  ℕ, zero, suc, ◌+◌, ◌-◌, ◌*◌, ◌/◌, Bool, true, false, not, ◌&&◌, ◌||◌, List, [], ◌∷◌, Option, none,
  some, length, drop, get_or, ltb, leb, ◌==◌, if◌then◌else◌,
}
use kotatsu.Support.Text.{Bytes}
use kotatsu.Support.Unicode.{decode_utf8}

pub data PositionEncoding : Type 0 where
  utf8 utf16 utf32 : PositionEncoding

-- `(byte & 0xC0) == 0x80`
abbrev pub is_continuation : ℕ → Bool
is_continuation byte = byte / 64 * 64 == 0x80

-- `next_codepoint_sizes`, of the text from the index on.
unfoldable pub next_codepoint_sizes : Bytes → ℕ × ℕ
next_codepoint_sizes text =
    let s = decode_utf8 text in
    if s.valid then (s.count, if ltb s.code_point 0x10000 then 1 else 2) else (1, 1)

abbrev pub width : PositionEncoding → ℕ × ℕ → ℕ
width utf8 sizes = sizes.0
width utf16 sizes = sizes.1
width utf32 sizes = 1

-- `detail::Located`
pub record Located : Type 0 where
  pub offset : ℕ
  pub exact : Bool

-- The loop of `locate` over UTF-16 and UTF-32 units. Each round takes a byte at least, so that the
-- length of the text is fuel enough.
unfoldable pub locate_from : ℕ → PositionEncoding → ℕ → ℕ → ℕ → Bytes → Located
locate_from fuel encoding character units i [] = record { offset = i; exact = units == character }
locate_from zero encoding character units i (c ∷ cs) = record { offset = i; exact = false }
locate_from (suc fuel) encoding character units i (c ∷ cs) =
    let sizes = next_codepoint_sizes (c ∷ cs) in
    let units' = units + width encoding sizes in
    let later = locate_from fuel encoding character units' (i + sizes.0) (drop sizes.0 (c ∷ cs)) in
    if units == character
    then record { offset = i; exact = true }
    else if ltb character units'
    then record { offset = i; exact = false }
    else later

abbrev pub continues : Bytes → ℕ → Bool
continues text at = is_continuation (get_or text at 0)

-- The loop of `locate` back from a UTF-8 byte; `character - lead < 3` is what is left of three rounds.
unfoldable pub retreat : ℕ → Bytes → ℕ → ℕ
retreat zero text lead = lead
retreat (suc rounds) text lead =
    let earlier = retreat rounds text (lead - 1) in
    if continues text lead && ltb 0 lead then earlier else lead

-- The code point that `lead` starts, if it reaches `character`.
abbrev pub locate_at : Bytes → ℕ → ℕ → Located
locate_at text character lead =
    if not (lead == character)
      && not (continues text lead)
      && ltb character (lead + (next_codepoint_sizes (drop lead text)).0)
    then record { offset = lead; exact = false }
    else record { offset = character; exact = true }

unfoldable pub locate_utf8 : Bytes → ℕ → Located
unfolding retreat
locate_utf8 text character =
    if leb (length text) character
    then record { offset = length text; exact = character == length text }
    else locate_at text character (retreat 3 text character)

-- `detail::locate`
unfoldable pub locate : Bytes → ℕ → PositionEncoding → Located
unfolding locate_utf8 locate_from
locate text character utf8 = locate_utf8 text character
locate text character utf16 = locate_from (length text) utf16 character 0 0 text
locate text character utf32 = locate_from (length text) utf32 character 0 0 text

-- The loop of `line_starts`.
unfoldable pub line_starts_from : ℕ → Bytes → List ℕ
line_starts_from i [] = []
line_starts_from i (c ∷ cs) =
    let rest = line_starts_from (i + 1) cs in if c == b'\n' then (i + 1) ∷ rest else rest

unfoldable pub line_starts : Bytes → List ℕ
unfolding line_starts_from
line_starts content = 0 ∷ line_starts_from 0 content

-- The loop of `encoded_length`, on fuel as in `locate_from`.
unfoldable pub encoded_length_from : ℕ → PositionEncoding → Bytes → ℕ
encoded_length_from fuel encoding [] = 0
encoded_length_from zero encoding (c ∷ cs) = 0
encoded_length_from (suc fuel) encoding (c ∷ cs) =
    let sizes = next_codepoint_sizes (c ∷ cs) in
    width encoding sizes + encoded_length_from fuel encoding (drop sizes.0 (c ∷ cs))

unfoldable pub encoded_length : Bytes → PositionEncoding → ℕ
unfolding encoded_length_from
encoded_length text utf8 = length text
encoded_length text utf16 = encoded_length_from (length text) utf16 text
encoded_length text utf32 = encoded_length_from (length text) utf32 text

unfoldable pub encoded_offset : Bytes → ℕ → PositionEncoding → Option ℕ
unfolding locate
encoded_offset text character encoding =
    let found = locate text character encoding in
    if not found.exact then none else some found.offset
