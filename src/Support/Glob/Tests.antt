-- ===== src/Support/Glob/Tests.antt =====
-- Runs of the glob patterns.
use kotatsu.Support.Unicode.{read_rest, decode_sequence, decode_utf8}
use kotatsu.Base.{
  ◌≤◌, Bool, true, false, not, List, [], ◌∷◌, ◌++◌, none, some, ◌≡◌, ◌↔◌, refl, arith, Expected,
  value, unexpected,
}
use kotatsu.Support.Text.{Bytes, codes, ends_with, find}
use kotatsu.Support.Glob.{
  GlobError, error_at, escape, find_invalid_utf8, find_invalid_from, split_root, nested_brace,
  invalid_range, multiple_star,
}
use kotatsu.Support.Glob.Valid.{IsValid}
use kotatsu.Support.Glob.Bracket.{Range, written_ranges, parse_bracket_charset, contains}
use kotatsu.Support.Glob.Bracket.Charset.{covers, contains-parse_bracket_charset}
use kotatsu.Support.Glob.Braces.{Brace, parse_braces}
use kotatsu.Support.Glob.Braces.Choices.{arms_of}
use kotatsu.Support.Glob.Compile.{
  Token, literal, star, any, SegmentKind, literal_only, recursive, affix, Segment,
}
use kotatsu.Support.Glob.Compile.Plan.{Arm, pack, arm_of}
use kotatsu.Support.Glob.Tokens.{match_tokens}
use kotatsu.Support.Glob.Tokens.Meaning.{Matches, Utf8Tokens, no_token, a_literal, a_star, an_any}
use kotatsu.Support.Glob.Tokens.Decides.{match_tokens_lem}
use kotatsu.Support.Glob.Execute.{matches}
use kotatsu.Support.Glob.Execute.Loop.{execute}
use kotatsu.Support.Glob.Execute.Total.{execute-total}
use kotatsu.Support.Glob.Execute.Packed.{matches-pack}
use kotatsu.Support.Glob.Create.Arms.{GlobPattern}
use kotatsu.Support.Glob.Create.{create, match, head_of}
use kotatsu.Support.Glob.Create.Expand.{Head, Compiled, count_arms, compile_choices, size_max}
use kotatsu.Support.Glob.Create.Loop.{all_choices, compile_all, compile_choices-all}
use kotatsu.Support.Glob.Escape.{create-escape}

-- What a pattern says of a text, or why it is rejected.
abbrev run : Expected GlobPattern GlobError → Bytes → Expected Bool GlobError
run (unexpected e) s = unexpected e
run (value p) s = value (match p s)

abbrev a_run : Bytes → Bytes → Expected Bool GlobError
a_run p s = run (create p 100) s

tree : a_run (codes "src/**/*.cpp") (codes "src/a/b.cpp") ≡ value true
unfolding create decode_utf8 decode_sequence match
tree = refl

terms : a_run (codes "*.{ts,js}") (codes "a.js") ≡ value true
unfolding create decode_utf8 decode_sequence match
terms = refl

one_segment : a_run (codes "*.{ts,js}") (codes "a/a.js") ≡ value false
unfolding create decode_utf8 decode_sequence match
one_segment = refl

members : a_run (codes "**/a?[b-d]*e") (codes "x/aQcfoe") ≡ value true
unfolding create decode_utf8 decode_sequence match
members = refl

retried : a_run (codes "a/**/b/*/c") (codes "a/x/b/b/y/c") ≡ value true
unfolding create decode_utf8 decode_sequence match
retried = refl

fixed_depth : a_run (codes "a/**/b/*/c") (codes "a/x/b/y/z/c") ≡ value false
unfolding create decode_utf8 decode_sequence match
fixed_depth = refl

escaped_star : a_run (codes "a\\*b") (codes "a*b") ≡ value true
unfolding create decode_utf8 decode_sequence match
escaped_star = refl

backwards : a_run (codes "a[z-a]") [] ≡ unexpected (error_at invalid_range 2 5)
unfolding create decode_utf8 decode_sequence
backwards = refl

absorbed : a_run (codes "a/**") (codes "a") ≡ value true
unfolding create decode_utf8 decode_sequence match
absorbed = refl

nested : a_run (codes "x{a,{b}}") [] ≡ unexpected (error_at nested_brace 4 5)
unfolding create decode_utf8 decode_sequence
nested = refl

several_stars : a_run (codes "x*a*b*") (codes "xccaccbc") ≡ value true
unfolding create decode_utf8 decode_sequence match
several_stars = refl

last_differs : a_run (codes "x*a*b*[!c]") (codes "xccaccbc") ≡ value false
unfolding create decode_utf8 decode_sequence match
last_differs = refl

in_a_term : a_run (codes "{a,b}{c,***}") [] ≡ unexpected (error_at multiple_star 8 11)
unfolding create decode_utf8 decode_sequence
in_a_term = refl

extensions :
    a_run (codes "**/*.{aa,ab,ac,ad,ae,af,ag,ah,ai,aj,ak,al,am,an,ao,ap,aq}") (codes "xc.x/y.ao")
    ≡ value true
unfolding create decode_utf8 decode_sequence match
extensions = refl

cut_root :
    split_root (codes "src/a{b,c}/*.cpp")
    ≡ record { directory = codes "src/"; rest = codes "a{b,c}/*.cpp" }
unfolding split_root
cut_root = refl

-- `*é?`
abbrev some_tokens : List Token
some_tokens = star ∷ literal (0xC3 ∷ 0xA9 ∷ []) ∷ any ∷ []

abbrev some_input : Bytes
some_input = b'a' ∷ 0xC3 ∷ 0xA9 ∷ 0xC3 ∷ 0xA9 ∷ b'z' ∷ []

e_acute-IsValid : IsValid (0xC3 ∷ 0xA9 ∷ [])
unfolding find_invalid_from decode_utf8 decode_sequence read_rest
e_acute-IsValid = refl

some-Utf8Tokens : Utf8Tokens some_tokens
some-Utf8Tokens = a_star (a_literal e_acute-IsValid (an_any no_token))

match_tokens_lem_example :
    (b : Bool) × (match_tokens some_tokens some_input ≡ some b)
    × ((b ≡ true) ↔ Matches some_tokens some_input)
match_tokens_lem_example = match_tokens_lem some_tokens some_input some-Utf8Tokens

-- `a*[é]/{b}`
abbrev some_text : Bytes
some_text = codes "a*[" ++ 0xC3 ∷ 0xA9 ∷ codes "]/{b}"

valid_text : find_invalid_utf8 some_text ≡ none
unfolding find_invalid_utf8 decode_utf8 decode_sequence read_rest
valid_text = refl

one_slash : find (codes "//") some_text ≡ none
unfolding find
one_slash = refl

create-escape_example :
    (p : GlobPattern) × (create (escape some_text) 100 ≡ value p)
    × ((x : Bytes) → (match p x ≡ true) ↔ (x ≡ some_text))
create-escape_example = create-escape some_text 100 valid_text one_slash

contains-parse_bracket_charset_example :
    (ranges : List Range) × (parse_bracket_charset (codes "a-zb-cd-e") ≡ value ranges)
    × (contains (record { negated = true; ranges = ranges }) b'f'
        ≡ not (covers ((b'a', b'z') ∷ (b'b', b'c') ∷ (b'd', b'e') ∷ []) b'f'))
unfolding written_ranges decode_utf8 decode_sequence
contains-parse_bracket_charset_example =
    contains-parse_bracket_charset (codes "a-zb-cd-e")
      ((b'a', b'z') ∷ (b'b', b'c') ∷ (b'd', b'e') ∷ []) true b'f' refl

abbrev a_segment : SegmentKind → List Token → Segment
a_segment kind ts = record {
  kind = kind;
  nullable = false;
  optional_rest = false;
  first = none;
  tokens = ts;
}

-- `a/**/*/b`
abbrev an_arm : Arm
an_arm = arm_of (
    a_segment literal_only (literal (codes "a") ∷ [])
    ∷ a_segment recursive []
    ∷ a_segment affix (star ∷ [])
    ∷ a_segment literal_only (literal (codes "b") ∷ [])
    ∷ [])

execute-total_example : (b : Bool) × (execute an_arm (codes "a/x/b") ≡ some b)
execute-total_example = execute-total an_arm (codes "a/x/b")

matches-pack_example :
    matches (pack (codes ".component.ts")) (codes "src/app/app.component.ts")
    ≡ ends_with (codes "src/app/app.component.ts") (codes ".component.ts")
matches-pack_example = matches-pack (codes ".component.ts") (codes "src/app/app.component.ts")

abbrev a_pattern : Bytes
a_pattern = codes "x{a,b}{c,d}"

abbrev its_braces : List Brace
its_braces =
    record { begin = 1; end = 6; terms = codes "a" ∷ codes "b" ∷ [] }
    ∷ record { begin = 6; end = 11; terms = codes "c" ∷ codes "d" ∷ [] }
    ∷ []

abbrev its_head : Head
its_head = head_of a_pattern (record { text = codes "x"; end = 1 })

abbrev none_yet : Compiled
none_yet = record { arms = []; match_all = false }

its_braces_parsed : parse_braces a_pattern 1 ≡ value its_braces
unfolding parse_braces
its_braces_parsed = refl

its_arms_fit : arms_of its_braces ≤ size_max
unfolding arms_of
its_arms_fit = omega arith

compile_choices-all_example :
    compile_choices (count_arms 1 its_braces) its_head its_braces (0 ∷ 0 ∷ []) none_yet
    ≡ compile_all its_head its_braces (all_choices its_braces) none_yet
compile_choices-all_example =
    compile_choices-all a_pattern 1 its_head its_braces none_yet its_braces_parsed its_arms_fit
