-- ===== src/Support/Glob/Braces/Terms.antt =====
-- Every brace that `parse_braces` finds has a term.
use kotatsu.Base.{
  ℕ, zero, suc, ◌≤◌, not, ◌&&◌, List, [], ◌∷◌, ◌++◌, Option, none, some, ◌≡◌, inl, inr, arith,
  length, replicate, drop, ◌==◌, length-append, if-cases, Expected, value, unexpected,
  Expected-cases,
}
use kotatsu.Support.Text.{Bytes}
use kotatsu.Support.Glob.{GlobError}
use kotatsu.Support.Glob.Bracket.{scan_bracket}
use kotatsu.Support.Glob.Braces.{
  Brace, OpenBrace, Scan, slice, has_terms, pass_to, open_brace, end_term, close_brace,
  pass_escaped, brace_at, end_braces, passing, scan_start, braces_from, parse_braces,
}
use kotatsu.Support.Glob.Braces.Choices.{Choice, no_choice, choose}

data WithTerms : List Brace → Type 0 where
  no_brace : WithTerms []
  a_brace : {b : Brace} {bs : List Brace} → 1 ≤ length b.terms → WithTerms bs → WithTerms (b ∷ bs)

WithTerms-append : {bs cs : List Brace} → WithTerms bs → WithTerms cs → WithTerms (bs ++ cs)
WithTerms-append no_brace k = k
WithTerms-append (a_brace l w) k = a_brace l (WithTerms-append w k)

-- The first terms are a choice.
first-Choice : {bs : List Brace} → WithTerms bs → Choice (replicate (length bs) 0) bs
first-Choice no_brace = no_choice
first-Choice (a_brace l w) = choose (omega arith) (first-Choice w)

data ScanWithTerms : Expected Scan GlobError → Type 0 where
  no_scan : {e : GlobError} → ScanWithTerms (unexpected e)
  a_scan : {s : Scan} → WithTerms s.braces → ScanWithTerms (value s)

data ResultWithTerms : Expected (List Brace) GlobError → Type 0 where
  no_result : {e : GlobError} → ResultWithTerms (unexpected e)
  a_result : {bs : List Brace} → WithTerms bs → ResultWithTerms (value bs)

pass_to-WithTerms :
    (i : ℕ) (s : Scan) (r : Expected ℕ GlobError)
    → WithTerms s.braces
    → ScanWithTerms (pass_to i s r)
pass_to-WithTerms i s (unexpected e) w = no_scan
pass_to-WithTerms i s (value close) w = a_scan w

open_brace-WithTerms :
    (i : ℕ) (s : Scan) (o : Option OpenBrace)
    → WithTerms s.braces
    → ScanWithTerms (open_brace i s o)
open_brace-WithTerms i s none w = a_scan w
open_brace-WithTerms i s (some b) w = no_scan

end_term-WithTerms :
    (pattern : Bytes) (i : ℕ) (s : Scan) (o : Option OpenBrace)
    → WithTerms s.braces
    → ScanWithTerms (end_term pattern i s o)
end_term-WithTerms pattern i s none w = a_scan w
end_term-WithTerms pattern i s (some b) w = a_scan w

close_brace-WithTerms :
    (pattern : Bytes) (i : ℕ) (s : Scan) (o : Option OpenBrace)
    → WithTerms s.braces
    → ScanWithTerms (close_brace pattern i s o)
close_brace-WithTerms pattern i s none w = a_scan w
close_brace-WithTerms pattern i s (some b) w =
    let size = length-append b.terms (slice s.term_begin i pattern ∷ []) in
    if-cases ScanWithTerms (not (has_terms b.terms) && i == s.term_begin) (λ h. no_scan)
      (λ h. a_scan (WithTerms-append w (a_brace (omega (arith, size)) no_brace)))

pass_escaped-WithTerms :
    (i : ℕ) (cs : Bytes) (s : Scan) → WithTerms s.braces → ScanWithTerms (pass_escaped i cs s)
pass_escaped-WithTerms i [] s w = no_scan
pass_escaped-WithTerms i (c ∷ cs) s w = a_scan w

brace_at-WithTerms :
    (pattern : Bytes) (i c : ℕ) (cs : Bytes) (s : Scan)
    → WithTerms s.braces
    → ScanWithTerms (brace_at pattern i c cs s)
unfolding brace_at
brace_at-WithTerms pattern i c cs s w =
    if-cases ScanWithTerms (c == b'[') (λ h. pass_to-WithTerms i s (scan_bracket i cs) w)
      (λ h.
        if-cases ScanWithTerms (c == b'{') (λ h. open_brace-WithTerms i s s.opened w)
          (λ h.
            if-cases ScanWithTerms (c == b',') (λ h. end_term-WithTerms pattern i s s.opened w)
              (λ h.
                if-cases ScanWithTerms (c == b'}')
                  (λ h. close_brace-WithTerms pattern i s s.opened w)
                  (λ h.
                    if-cases ScanWithTerms (c == b'\\') (λ h. pass_escaped-WithTerms i cs s w)
                      (λ h. a_scan w)))))

end_braces-WithTerms :
    (s : Scan) (o : Option OpenBrace) → WithTerms s.braces → ResultWithTerms (end_braces s o)
end_braces-WithTerms s none w = a_result w
end_braces-WithTerms s (some b) w = no_result

scan-WithTerms : {s : Scan} → ScanWithTerms (value s) → WithTerms s.braces
scan-WithTerms (a_scan w) = w

result-WithTerms : {bs : List Brace} → ResultWithTerms (value bs) → WithTerms bs
result-WithTerms (a_result w) = w

braces_from-WithTerms :
    (pattern : Bytes) (skip i : ℕ) (s : Scan) (cs : Bytes)
    → WithTerms s.braces
    → ResultWithTerms (braces_from pattern skip i s cs)
unfolding braces_from
braces_from-WithTerms pattern zero i s [] w = end_braces-WithTerms s s.opened w
braces_from-WithTerms pattern (suc skip) i s [] w = end_braces-WithTerms s s.opened w
braces_from-WithTerms pattern (suc skip) i s (c ∷ cs) w =
    braces_from-WithTerms pattern skip (suc i) s cs w
braces_from-WithTerms pattern zero i s (c ∷ cs) w =
    let step = brace_at-WithTerms pattern i c cs (passing 0 s) w in
    elim (Expected-cases (brace_at pattern i c cs (passing 0 s))) [
      | inl (e, h) ↦ rw (braces_from, h) no_result
      | inr (t, h) ↦
          rw (braces_from, h)
            (braces_from-WithTerms pattern t.skip (suc i) t cs (scan-WithTerms (rw h at step)))
    ]

pub parse_braces-Choice :
    (pattern : Bytes) (from : ℕ) {braces : List Brace}
    → parse_braces pattern from ≡ value braces
    → Choice (replicate (length braces) 0) braces
unfolding parse_braces
parse_braces-Choice pattern from h =
    let w = braces_from-WithTerms pattern 0 from scan_start (drop from pattern) no_brace in
    first-Choice (result-WithTerms (rw h at w))
