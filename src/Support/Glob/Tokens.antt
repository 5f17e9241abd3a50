-- ===== src/Support/Glob/Tokens.antt =====
-- `GlobPattern::match_affix` and `match_tokens`: a segment against one segment of the input.
pub mod Meaning
pub mod Seek
pub mod Star
pub mod Decides
use kotatsu.Base.{
  ℕ, zero, suc, ◌+◌, ◌*◌, Bool, true, false, ◌&&◌, List, [], ◌∷◌, Option, none, some, length, drop,
  leb, ◌==◌, if◌then◌else◌,
}
use kotatsu.Support.Text.{Bytes, starts_with, ends_with, find}
use kotatsu.Support.Glob.{decode_utf8_atom, after}
use kotatsu.Support.Glob.Bracket.{CharClass, contains}
use kotatsu.Support.Glob.Compile.{Token, literal, star, any, class}
use kotatsu.Support.Glob.Compile.Plan.{head_text, tail_text}

unfoldable pub match_affix : List Token → Bytes → Bool
unfolding head_text tail_text starts_with ends_with
match_affix tokens input =
    leb (length (head_text tokens) + length (tail_text tokens)) (length input)
    && (starts_with input (head_text tokens) && ends_with input (tail_text tokens))

-- `retry_token` and `retry_offset`, the tokens and the input from there on, once a star is passed.
abbrev pub Back : Type 0
Back = Option (List Token × Bytes)

pattern abbrev pub back_at : List Token → Bytes → Back
back_at ts s = some (ts, s)

-- `token == retry_token`
abbrev pub is_retry : List Token → Back → Bool
is_retry ts none = false
is_retry ts (back_at bs s) = length ts == length bs

-- What a round of the loop gives: an answer, or the tokens, the input and the star of the next one.
pub data Round : Type 0 where
  answer : Bool → Round
  continue_at : List Token → Bytes → Back → Round

-- The end of the loop's body, where the input does not go on as the token says.
unfoldable pub retry : Back → Round
unfolding decode_utf8_atom
retry none = answer false
retry (back_at [] s) = answer false
retry (back_at (t ∷ ts) []) = answer false
retry (back_at (t ∷ ts) (c ∷ cs)) =
    continue_at (t ∷ ts) (after (c ∷ cs)) (back_at (t ∷ ts) (after (c ∷ cs)))

abbrev pub found : Bytes → List Token → Bytes → Option ℕ → Round
found text ts s none = answer false
found text ts s (some at) =
    continue_at ts (drop (at + length text) s) (back_at (literal text ∷ ts) (drop at s))

-- A literal right after the latest star.
unfoldable pub seek : Bytes → List Token → Bytes → Round
unfolding ends_with find
seek text [] s = answer (leb (length text) (length s) && ends_with s text)
seek text (t ∷ ts) s = found text (t ∷ ts) s (find text s)

-- The body of the loop.
unfoldable pub round : List Token → Bytes → Back → Round
unfolding retry seek starts_with contains decode_utf8_atom
round [] [] back = answer true
round [] (c ∷ cs) back = retry back
round (star ∷ []) s back = answer true
round (star ∷ t ∷ ts) s back = continue_at (t ∷ ts) s (back_at (t ∷ ts) s)
round (literal text ∷ ts) s back =
    if is_retry (literal text ∷ ts) back
    then seek text ts s
    else if starts_with s text
    then continue_at ts (drop (length text) s) back
    else retry back
round (any ∷ ts) [] back = retry back
round (any ∷ ts) (c ∷ cs) back = continue_at ts (after (c ∷ cs)) back
round (class k ∷ ts) [] back = retry back
round (class k ∷ ts) (c ∷ cs) back =
    if contains k (decode_utf8_atom (c ∷ cs)).cp
    then continue_at ts (after (c ∷ cs)) back
    else retry back

-- The loop; no answer when the fuel runs out, which that of `match_tokens` never does.
unfoldable pub rounds : ℕ → Round → Option Bool
unfolding round
rounds fuel (answer b) = some b
rounds zero (continue_at ts s back) = none
rounds (suc fuel) (continue_at ts s back) = rounds fuel (round ts s back)

unfoldable pub match_tokens : List Token → Bytes → Option Bool
unfolding rounds
match_tokens tokens input =
    rounds ((length input + 1) * (length tokens + 1)) (continue_at tokens input none)
