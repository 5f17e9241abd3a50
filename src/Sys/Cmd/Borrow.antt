-- ===== src/Sys/Cmd/Borrow.antt =====
-- The POSIX argument that `operator++` takes as a view of the line as far as nothing is quoted in it.
use kotatsu.Base.{
  ℕ, zero, suc, ◌≤◌, Bool, true, false, ◌||◌, [], ◌∷◌, ◌≡◌, refl, sym, ap, ◌∙◌, arith, length, ◌==◌,
  inl, inr, Bool-cases,
}
use kotatsu.Support.Text.{Bytes}
use kotatsu.Sys.Cmd.Split.{
  Reading, is_posix, separates, Piece, put, ends, pushes, posix_step, unquote_posix, unquote, scan,
  finish_argument,
}

-- Where the scan of a POSIX argument stops.
abbrev pub stops : ℕ → Bool
stops c = c == b'"' || (c == b'\'' || c == b'\\')

posix_step-separator :
    (r : Reading) (c : ℕ) (more : Bool) → separates r c ≡ true → posix_step r 0 c more ≡ ends
unfolding posix_step
posix_step-separator r c more h = rw h

pub posix_step-plain :
    (r : Reading) (c : ℕ) (more : Bool)
    → separates r c ≡ false
    → stops c ≡ false
    → posix_step r 0 c more ≡ pushes
unfolding posix_step
posix_step-plain r c more h k = rw h (ground arith)

pub unquote_posix-ends :
    (r : Reading) (quote c : ℕ) (cs : Bytes)
    → ((more : Bool) → posix_step r quote c more ≡ ends)
    → unquote_posix r quote (c ∷ cs) ≡ record { text = []; rest = c ∷ cs }
unfolding unquote_posix
unquote_posix-ends r quote c [] h = rw (h false, unquote_posix)
unquote_posix-ends r quote c (d ∷ rest) h = rw (h true, unquote_posix)

pub unquote_posix-pushes :
    (r : Reading) (quote c : ℕ) (cs : Bytes)
    → ((more : Bool) → posix_step r quote c more ≡ pushes)
    → unquote_posix r quote (c ∷ cs) ≡ put (c ∷ []) (unquote_posix r quote cs)
unfolding unquote_posix
unquote_posix-pushes r quote c [] h = rw (h false, unquote_posix)
unquote_posix-pushes r quote c (d ∷ rest) h = rw (h true, unquote_posix)

finish_argument-put :
    (r : Reading) (c : ℕ) (found : Bool × Piece)
    → finish_argument r false (found.0, put (c ∷ []) found.1)
      ≡ put (c ∷ []) (finish_argument r false found)
finish_argument-put r c (true, p) = refl
finish_argument-put r c (false, p) = refl

-- Reading an argument by POSIX rules as the code does, from a view of the line and from its first
-- character to unquote on where it has one, gives the argument and the rest of the line that unquoting it from its
-- start gives, with as much fuel as the line is long.
pub scan_lem :
    (fuel : ℕ) (r : Reading) (line : Bytes)
    → is_posix r ≡ true
    → length line ≤ fuel
    → finish_argument r false (scan fuel r false line) ≡ unquote_posix r 0 line
unfolding scan
scan_lem fuel r [] p h = unfold unquote_posix in refl
scan_lem zero r (c ∷ cs) p h = absurd (omega arith)
scan_lem (suc fuel) r (c ∷ cs) p h = elim (Bool-cases (separates r c)) [
  | inl e ↦ rw e (sym (unquote_posix-ends r 0 c cs (λ more. posix_step-separator r c more e)))
  | inr e ↦ elim (Bool-cases (stops c)) [
    | inl k ↦ rw (e, p, k) (rw (p, unquote))
    | inr k ↦
        let run : (c == b'\\') ≡ false = ground arith in
        let later = scan_lem fuel r cs p (omega arith) in
        rw (e, p, k, run)
          (finish_argument-put r c (scan fuel r false cs)
            ∙ ap (put (c ∷ [])) later
            ∙ sym (unquote_posix-pushes r 0 c cs (λ more. posix_step-plain r c more e k)))
  ]
]
