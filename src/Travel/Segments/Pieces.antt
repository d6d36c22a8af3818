-- ===== src/Travel/Segments/Pieces.antt =====
-- What `segmentSplitRegex.Split` cuts out of a text: the matches of the expression, from left to right.
use mathlib.Core.List.{append_assoc, append-nil}
use route_planner.Prelude.{
  ℕ, zero, suc, ◌-◌, ◌≤◌, ◌≡◌, refl, sym, ap, ◌∙◌, inl, inr, Bool, true, false, none, some, List,
  [], ◌∷◌, ◌++◌, arith, length, length-append, Option-cases,
}
use route_planner.Prelude.Text.{Text}
use route_planner.Travel.Segments.{match_here, keep_segments, split_from, split_segments}
use route_planner.Travel.Segments.Consumes.{match_here-Consumes}

module _ (is_letter : ℕ → Bool) where
  -- No match begins in the first text, which the second one follows. `start` tells whether the
  -- position is the start of the whole text.
  abbrev pub Missed : Bool → Text → Text → Type 0
  Missed start [] t = Unit
  Missed start (c ∷ p) t = (match_here is_letter start (c ∷ (p ++ t)) ≡ none) × Missed false p t

  abbrev pub at_start : Bool → Text → Bool
  at_start start [] = start
  at_start start (c ∷ p) = false

  -- The pieces of a text: up to the first match, and those of what comes after that match.
  abbrev pub IsPieces : Bool → Text → List Text → Type 0
  IsPieces start s [] = ⊥
  IsPieces start s (p ∷ []) = (s ≡ p) × Missed start p []
  IsPieces start s (p ∷ q ∷ ps) =
      (c : ℕ) × (m : Text) × (rest : Text) × (s ≡ p ++ (c ∷ (m ++ rest)))
      × Missed start p (c ∷ (m ++ rest))
      × (match_here is_letter (at_start start p) (c ∷ (m ++ rest)) ≡ some rest)
      × IsPieces false rest (q ∷ ps)

  split_from-skip :
      (pre cur s : Text)
      → split_from is_letter false (length pre) cur (pre ++ s)
        ≡ split_from is_letter false zero cur s
  unfolding split_from
  split_from-skip [] cur s = refl
  split_from-skip (c ∷ pre) cur s = split_from-skip pre cur s

  -- At a match the piece is closed, and the rest of the match is passed over.
  pub split_from-match :
      (start : Bool) (c : ℕ) (pre cur rest : Text)
      → match_here is_letter start (c ∷ (pre ++ rest)) ≡ some rest
      → split_from is_letter start zero cur (c ∷ (pre ++ rest))
        ≡ cur ∷ split_from is_letter false zero [] rest
  unfolding split_from
  split_from-match start c pre cur rest m =
      let size : length (pre ++ rest) - length rest ≡ length pre =
        omega (arith, length-append pre rest) in
      rw (m, split_from) (rw size (ap (λ r. cur ∷ r) (split_from-skip pre [] rest)))

  at_start-false : (p : Text) → at_start false p ≡ false
  at_start-false [] = refl
  at_start-false (c ∷ p) = refl

  -- Characters at which no match begins go to the piece.
  split_from-Missed :
      (start : Bool) (p cur t : Text)
      → Missed start p t
      → split_from is_letter start zero cur (p ++ t)
        ≡ split_from is_letter (at_start start p) zero (cur ++ p) t
  unfolding split_from
  split_from-Missed start [] cur t missed = rw append-nil refl
  split_from-Missed start (c ∷ p) cur t (here, later) =
      rw (here, split_from)
        (split_from-Missed false p (cur ++ c ∷ []) t later
          ∙ rw (at_start-false p)
              (ap (λ r. split_from is_letter false zero r t) (append_assoc cur (c ∷ []) p)))

  -- Pieces between matches are what the loop cuts.
  split_from-IsPieces :
      (start : Bool) (cur s p : Text) (ps : List Text)
      → IsPieces start s (p ∷ ps)
      → split_from is_letter start zero cur s ≡ (cur ++ p) ∷ ps
  unfolding split_from
  split_from-IsPieces start cur s p [] (whole, missed) =
      ap (split_from is_letter start zero cur) (whole ∙ sym (append-nil p))
      ∙ split_from-Missed start p cur [] missed
  split_from-IsPieces start cur s p (q ∷ ps) (c, m, rest, split, missed, matched, later) =
      ap (split_from is_letter start zero cur) split
      ∙ (split_from-Missed start p cur (c ∷ (m ++ rest)) missed
          ∙ (split_from-match (at_start start p) c m (cur ++ p) rest matched
              ∙ ap (λ r. (cur ++ p) ∷ r) (split_from-IsPieces false [] rest q ps later)))

  -- One more character before the first piece, where no match begins.
  IsPieces-cons :
      (start : Bool) (c : ℕ) (s p : Text) (ps : List Text)
      → match_here is_letter start (c ∷ s) ≡ none
      → IsPieces false s (p ∷ ps)
      → IsPieces start (c ∷ s) ((c ∷ p) ∷ ps)
  IsPieces-cons start c s p [] here (whole, missed) =
      (ap (λ r. c ∷ r) whole, ((rw (append-nil p) (rw whole at here)), missed))
  IsPieces-cons start c s p (q ∷ ps) here (d, m, rest, split, missed, matched, later) = (
    d,
    m,
    rest,
    ap (λ r. c ∷ r) split,
    (rw split at here, missed),
    rw (at_start-false p) at matched,
    later,
  )

  -- Every text has its pieces.
  IsPieces-of :
      (fuel : ℕ) (start : Bool) (s : Text)
      → length s ≤ fuel
      → (p : Text) × (ps : List Text) × IsPieces start s (p ∷ ps)
  IsPieces-of fuel start [] enough = ([], [], (refl, tt))
  IsPieces-of zero start (c ∷ s) enough = absurd (omega arith)
  IsPieces-of (suc fuel) start (c ∷ s) enough =
      elim (Option-cases (match_here is_letter start (c ∷ s))) [
        | inl missed ↦
            let (p, ps, later) = IsPieces-of fuel false s (omega arith) in
            (c ∷ p, ps, IsPieces-cons start c s p ps missed later)
        | inr (rest, matched) ↦
            let (d, m, e) = match_here-Consumes is_letter start (c ∷ s) rest matched in
            let (q, ps, later) =
              IsPieces-of fuel false rest (omega (arith, ap length e, length-append m rest)) in
            ([], q ∷ ps, (d, m, rest, e, tt, rw e at matched, later))
      ]

  -- The segments of a text are its pieces between the matches of the expression, each match the first
  -- that begins after the one before it, trimmed and less the empty ones; no character outside the
  -- matches is lost.
  pub split_segments-IsPieces :
      (user_input : Text)
      → (raw : List Text) × IsPieces true user_input raw
        × (split_segments is_letter user_input ≡ keep_segments raw)
  unfolding split_segments
  split_segments-IsPieces user_input =
      let (p, ps, pieces) = IsPieces-of (length user_input) true user_input (omega arith) in
      (p ∷ ps, pieces, ap keep_segments (split_from-IsPieces true [] user_input p ps pieces))
