-- ===== src/Support/Glob/Tokens/Decides.antt =====
-- The loop of `match_tokens` decides whether the tokens match.
use mathlib.Core.Path.{subst}
use kotatsu.Base.{
  if-cases, ℕ, zero, suc, ◌+◌, ◌*◌, Bool, true, List, [], ◌∷◌, Option, none, some, ◌≡◌, ◌↔◌, inl,
  inr, refl, sym, arith, length, drop, ◌==◌, if◌then◌else◌, length-drop, drop-drop, Option-cases,
}
use kotatsu.Support.Text.{Bytes, starts_with, find}
use kotatsu.Support.Glob.{decode_utf8_atom}
use kotatsu.Support.Glob.Atoms.{length-after, Reaches-end}
use kotatsu.Support.Glob.Bracket.{contains}
use kotatsu.Support.Glob.Compile.{Token, literal, star, any, class}
use kotatsu.Support.Glob.Tokens.{
  Back, back_at, Round, answer, continue_at, retry, seek, round, rounds, match_tokens,
}
use kotatsu.Support.Glob.Tokens.Meaning.{
  text, one, Reaches→Matches, member, Matches, done, leave, Utf8Tokens, Utf8Tokens-rest,
  Utf8Tokens-literal, two_stars, literal_inv, any_inv, class_inv,
}
use kotatsu.Support.Glob.Tokens.Star.{
  Inv, Good, Inv-restart, Inv-take, retry-Good, any_left, class_left,
}
use kotatsu.Support.Glob.Tokens.Seek.{seek_none, seek_some, seek_last, find-starts}

-- The run has an answer, and the answer is right about `G`.
abbrev pub Answers : Type 0 → Option Bool → Type 0
Answers G o = (b : Bool) × (o ≡ some b) × ((b ≡ true) ↔ G)

-- `G` is what the whole run decides, and `k` is more than the tokens of the segment.
module _ (G : Type 0) (k : ℕ) where
  -- A literal right behind the star.
  seek-Good :
      {f : ℕ} {t : Bytes} (ts : List Token) {s : Bytes} (m : ℕ)
      → Inv G k (suc f) m (literal t ∷ ts) s (back_at (literal t ∷ ts) s)
      → Good G k f (seek t ts s)
  unfolding seek Good
  seek-Good {f} {t} [] {s} m i =
      let (v, l) = Utf8Tokens-literal i.texts in
      let e = i.saved.question in
      let (sound, complete) = seek_last t [] v l s in (λ h. e.1 (sound h), λ g. complete (e.0 g))
  seek-Good {f} {t} (t' ∷ ts) {s} m i = elim (Option-cases (find t s)) [
    | inl h ↦
        let (v, l) = Utf8Tokens-literal i.texts in
        let e = i.saved.question in
        rw h (λ q. absurd (ground arith), λ g. absurd (seek_none t (t' ∷ ts) v l s h (e.0 g)))
    | inr (at, h) ↦
        let (v, l) = Utf8Tokens-literal i.texts in
        let old = i.saved in
        let e = old.question in
        let hs = old.room in
        let hp = old.few in
        let (to, from) = seek_some t (t' ∷ ts) v l s at h in
        let starts = find-starts t s at h in
        let size = length-drop at s in
        let left = length-drop (length t) (drop at s) in
        let same = drop-drop (length t) at s in
        let enough = i.fuel in
        let moved : Inv G k f m (t' ∷ ts) (drop (length t) (drop at s))
            (back_at (literal t ∷ t' ∷ ts) (drop at s)) =
          Inv-take G k
            (Inv-restart G k (λ g. to (e.0 g), λ d. e.1 (from d)) old.texts old.some_token
              (omega arith) hp (omega arith))
            (text starts) (λ d. (literal_inv d).1) (omega arith) in
        rw (h, sym same) (m, moved)
  ]

  Inv-at :
      {f m : ℕ} {p : List Token} {s : Bytes} (bp : List Token) (bs : Bytes)
      → p ≡ bp
      → s ≡ bs
      → Inv G k f m p s (back_at bp bs)
      → Inv G k f m p s (back_at p s)
  Inv-at {f} {m} {p} {s} bp bs e h i =
      subst (λ x. Inv G k f m p s (back_at p x)) (sym h)
        (subst (λ x. Inv G k f m p s (back_at x bs)) (sym e) i)

  text-Good :
      {f : ℕ} {t : Bytes} {ts : List Token} {s : Bytes} (back : Back) (m : ℕ)
      → Inv G k (suc f) m (literal t ∷ ts) s back
      → Good G k f (if starts_with s t then continue_at ts (drop (length t) s) back else retry back)
  unfolding Good
  text-Good {f} {t} {ts} {s} back m i =
      if-cases (Good G k f) (starts_with s t)
        (λ h. (
          m,
          Inv-take G k i (text h) (λ d. (literal_inv d).1)
              (omega (arith, length-drop (length t) s)),
        ))
        (λ h. retry-Good G k m back i (λ d. let y = (literal_inv d).0 in absurd (ground arith)))

  round-Good :
      {f : ℕ} (p : List Token) (s : Bytes) (back : Back) (m : ℕ)
      → Inv G k (suc f) m p s back
      → Good G k f (round p s back)
  unfolding round Good
  round-Good [] [] back m i = (λ h. i.sound done, λ g. refl)
  round-Good [] (c ∷ cs) back m i = retry-Good G k m back i (λ d. elim d [ ])
  round-Good (star ∷ []) s back m i =
      (λ h. i.sound (Reaches→Matches (Reaches-end (length s) s (omega arith)) done), λ g. refl)
  round-Good (star ∷ t ∷ ts) s back m i =
      let w = Utf8Tokens-rest i.texts in
      let enough = i.fuel in
      let fewer = i.few in
      (
        m,
        Inv-restart G k (λ g. two_stars (i.complete g), i.sound) w (omega arith) i.room
            (omega arith) (omega arith),
      )
  round-Good (literal t ∷ ts) s none m i = text-Good none m i
  round-Good {f} (literal t ∷ ts) s (back_at bp bs) m i =
      if-cases (Good G k f) (length (literal t ∷ ts) == length bp)
        (λ h.
          let same = i.saved.fresh in
          let e : length (literal t ∷ ts) ≡ length bp = ground arith in
          let (ep, es) = same e in seek-Good ts m (Inv-at bp bs ep es i))
        (λ h. text-Good (back_at bp bs) m i)
  round-Good (any ∷ ts) [] back m i = retry-Good G k m back i any_left
  round-Good (any ∷ ts) (c ∷ cs) back m i =
      (m, Inv-take G k i one any_inv (omega (arith, length-after c cs)))
  round-Good (class cl ∷ ts) [] back m i = retry-Good G k m back i class_left
  round-Good {f} (class cl ∷ ts) (c ∷ cs) back m i =
      if-cases (Good G k f) (contains cl (decode_utf8_atom (c ∷ cs)).cp)
        (λ h.
          (m, Inv-take G k i (member h) (λ d. (class_inv d).1) (omega (arith, length-after c cs))))
        (λ h. retry-Good G k m back i (λ d. let y = (class_inv d).0 in absurd (ground arith)))

  rounds-Answers : (f : ℕ) (r : Round) → Good G k f r → Answers G (rounds f r)
  unfolding rounds Good
  rounds-Answers zero (answer b) g = (b, refl, g)
  rounds-Answers (suc f) (answer b) g = (b, refl, g)
  rounds-Answers zero (continue_at p s back) (m, i) = let enough = i.fuel in absurd (omega arith)
  rounds-Answers (suc f) (continue_at p s back) (m, i) =
      rounds-Answers f (round p s back) (round-Good p s back m i)

-- Within the fuel it is given, `match_tokens` comes to an answer, which is true just where the input
-- matches the tokens, each star passing whole atoms of the input; the tokens' literals are valid
-- UTF-8 and not empty.
pub match_tokens_lem :
    (tokens : List Token) (input : Bytes)
    → Utf8Tokens tokens
    → (b : Bool) × (match_tokens tokens input ≡ some b) × ((b ≡ true) ↔ Matches tokens input)
unfolding match_tokens Good
match_tokens_lem tokens input w =
    let n : ℕ = length input in
    let k : ℕ = length tokens + 1 in
    rounds-Answers (Matches tokens input) k ((n + 1) * k) (continue_at tokens input none) (
      n,
      record {
        fuel = omega arith;
        room = omega arith;
        few = omega arith;
        texts = w;
        saved = λ d. d;
        sound = λ d. d;
        complete = leave;
      },
    )
