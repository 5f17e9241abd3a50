-- ===== src/Support/Glob/Tokens/Star.antt =====
-- What the loop of `match_tokens` keeps: its latest star, and why the answer depends on that alone.
use kotatsu.Base.{
  ℕ, zero, suc, ◌+◌, ◌*◌, ◌≤◌, ◌<◌, true, List, [], ◌∷◌, none, ◌≡◌, ◌↔◌, refl, arith, length,
}
use kotatsu.Support.Text.{Bytes}
use kotatsu.Support.Glob.{after}
use kotatsu.Support.Glob.Atoms.{length-after}
use kotatsu.Support.Glob.Bracket.{CharClass}
use kotatsu.Support.Glob.Compile.{Token, star, any, class}
use kotatsu.Support.Glob.Tokens.{Back, back_at, Round, answer, continue_at, retry}
use kotatsu.Support.Glob.Tokens.Meaning.{
  Takes, Matches, take, leave, pass, Utf8Tokens, Utf8Tokens-rest, must_pass, drop_token,
}

pub star_at_end : {ts : List Token} → Matches (star ∷ ts) [] → Matches ts []
star_at_end (leave m) = m
star_at_end (take d _) = elim d [ ]

pub any_left : {ts : List Token} → ¬ Matches (any ∷ ts) []
any_left (take d _) = elim d [ ]

pub class_left : {k : CharClass} {ts : List Token} → ¬ Matches (class k ∷ ts) []
class_left (take d _) = elim d [ ]

-- `G` is what the whole run decides, and `k` is more than the tokens of the segment.
module _ (G : Type 0) (k : ℕ) where
  -- The latest star, with the tokens `bp` behind it and the input `bs` that it may still pass, of which
  -- `m` bounds the length: the answer depends on it alone, and a match from there would be one from here.
  pub record Passed (m : ℕ) (p : List Token) (s : Bytes) (bp : List Token) (bs : Bytes)
      : Type 0 where
    pub question : G ↔ Matches (star ∷ bp) bs
    pub resumes : Matches bp bs → Matches p s
    pub ahead : length s ≤ length bs
    pub room : length bs ≤ m
    pub few : length bp < k
    pub texts : Utf8Tokens bp
    pub some_token : 1 ≤ length bp
    pub behind : length p ≤ length bp
    pub fresh : length p ≡ length bp → (p ≡ bp) × (s ≡ bs)

  abbrev pub Saved : ℕ → List Token → Bytes → Back → Type 0
  Saved m p s none = G → Matches p s
  Saved m p s (back_at bp bs) = Passed m p s bp bs

  pub record Inv (f m : ℕ) (p : List Token) (s : Bytes) (back : Back) : Type 0 where
    pub fuel : m * k + length p < f
    pub room : length s ≤ m
    pub few : length p < k
    pub texts : Utf8Tokens p
    pub saved : Saved m p s back
    pub sound : Matches p s → G
    pub complete : G → Matches (star ∷ p) s

  -- A round ends right: with the right answer, or with the invariant for the next one.
  unfoldable pub Good : ℕ → Round → Type 0
  Good f (answer b) = (b ≡ true) ↔ G
  Good f (continue_at p s back) = (m : ℕ) × Inv f m p s back

  -- A star that is entered: the question is now whether it matches with what follows.
  pub Inv-restart :
      {f m : ℕ} {p : List Token} {s : Bytes}
      → G ↔ Matches (star ∷ p) s
      → Utf8Tokens p
      → 1 ≤ length p
      → length s ≤ m
      → length p < k
      → m * k + length p < f
      → Inv f m p s (back_at p s)
  Inv-restart e w l hs hp hf = record {
    fuel = hf;
    room = hs;
    few = hp;
    texts = w;
    saved = record {
      question = e;
      resumes = λ d. d;
      ahead = omega arith;
      room = hs;
      few = hp;
      texts = w;
      some_token = l;
      behind = omega arith;
      fresh = λ q. (refl, refl);
    };
    sound = λ d. e.1 (leave d);
    complete = e.0;
  }

  -- A token taken, with the star as it was.
  Saved-take :
      (m : ℕ) {t : Token} {p : List Token} {s u : Bytes} (back : Back)
      → (Matches (t ∷ p) s → Matches p u)
      → length u ≤ length s
      → Saved m (t ∷ p) s back
      → Saved m p u back
  Saved-take m none inv l h = λ g. inv (h g)
  Saved-take m (back_at bp bs) inv l h =
      let longer = h.behind in
      record {
        question = h.question;
        resumes = λ d. inv (h.resumes d);
        ahead = omega (arith, l, h.ahead);
        room = h.room;
        few = h.few;
        texts = h.texts;
        some_token = h.some_token;
        behind = omega arith;
        fresh = λ q. absurd (omega arith);
      }

  pub Inv-take :
      {f m : ℕ} {t : Token} {p : List Token} {s u : Bytes} {back : Back}
      → Inv (suc f) m (t ∷ p) s back
      → Takes t s u
      → (Matches (t ∷ p) s → Matches p u)
      → length u ≤ length s
      → Inv f m p u back
  Inv-take {m} {back} i d inv l = record {
    fuel = omega (arith, i.fuel);
    room = omega (arith, l, i.room);
    few = omega (arith, i.few);
    texts = Utf8Tokens-rest i.texts;
    saved = Saved-take m back inv l i.saved;
    sound = λ x. i.sound (take d x);
    complete = λ g. drop_token i.texts d (i.complete g);
  }

  -- At a mismatch the star passes one atom more: `m` gets smaller, which is worth `k` rounds.
  pub retry-Good :
      {f : ℕ} {p : List Token} {s : Bytes} (m : ℕ) (back : Back)
      → Inv (suc f) m p s back
      → ¬ Matches p s
      → Good f (retry back)
  unfolding retry Good
  retry-Good m none i fails = (λ h. absurd (ground arith), λ g. absurd (fails (i.saved g)))
  retry-Good m (back_at [] bs) i fails = let b = i.saved.some_token in absurd (omega arith)
  retry-Good m (back_at (t ∷ bp) []) i fails =
      let old = i.saved in
      (
        λ h. absurd (ground arith),
        λ g. absurd (fails (old.resumes (star_at_end (old.question.0 g)))),
      )
  retry-Good zero (back_at (t ∷ bp) (c ∷ cs)) i fails = let b = i.saved.room in absurd (omega arith)
  retry-Good (suc m) (back_at (t ∷ bp) (c ∷ cs)) i fails =
      let old = i.saved in
      let enough = i.fuel in
      let bound = old.room in
      let few = old.few in
      let on : G ↔ Matches (star ∷ t ∷ bp) (after (c ∷ cs)) = (
        λ g. must_pass (old.question.0 g) (λ d. fails (old.resumes d)),
        λ d. old.question.1 (pass d),
      ) in
      (
        m,
        Inv-restart on old.texts old.some_token (omega (arith, length-after c cs)) few
            (omega arith),
      )
