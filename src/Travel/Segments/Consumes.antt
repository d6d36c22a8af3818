-- ===== src/Travel/Segments/Consumes.antt =====
-- A match of the expression that `splitSegments` splits by takes at least one character.
use mathlib.Core.Option.{some-injective}
use mathlib.Core.List.{append_assoc}
use route_planner.Prelude.{
  ℕ, ◌≡◌, ◌≢◌, refl, sym, ap, ◌∙◌, subst, inl, inr, Bool, true, false, none, some, List, [], ◌∷◌,
  ◌++◌, All, any, arith, Bool-cases, Option-cases, ◌==◌,
}
use route_planner.Prelude.Text.{Text}
use route_planner.Travel.Segments.{
  Class, separators, match_word, match_tail, tail_of, match_words, match_lead, match_here,
}

-- The text begins with a character and ends in the rest.
abbrev pub Consumes : Text → Text → Type 0
Consumes s rest = (c : ℕ) × (pre : Text) × (s ≡ c ∷ (pre ++ rest))

pub none-some : (rest : Text) → none ≢ some rest
none-some rest e = cc

match_word-suffix :
    (w : List Class) (s rest : Text) → match_word w s ≡ some rest → (pre : Text) × (s ≡ pre ++ rest)
match_word-suffix [] s rest h = ([], ground arith)
match_word-suffix (cls ∷ w) [] rest h = cc
match_word-suffix (cls ∷ w) (c ∷ s) rest h = elim (Bool-cases (any (◌==◌ c) cls)) [
  | inl there ↦
      let (pre, e) = match_word-suffix w s rest (rw there at h) in (c ∷ pre, ap (λ r. c ∷ r) e)
  | inr other ↦ absurd (none-some rest (rw other at h))
]

match_word-Consumes :
    (w : List Class) (s rest : Text) → w ≢ [] → match_word w s ≡ some rest → Consumes s rest
match_word-Consumes [] s rest nonempty h = absurd (nonempty refl)
match_word-Consumes (cls ∷ w) [] rest nonempty h = cc
match_word-Consumes (cls ∷ w) (c ∷ s) rest nonempty h = elim (Bool-cases (any (◌==◌ c) cls)) [
  | inl there ↦
      let (pre, e) = match_word-suffix w s rest (rw there at h) in (c, pre, ap (λ r. c ∷ r) e)
  | inr other ↦ absurd (none-some rest (rw other at h))
]

Consumes-append : (s x rest : Text) → Consumes s (x ++ rest) → Consumes s rest
Consumes-append s x rest (c, pre, e) =
    (c, pre ++ x, e ∙ ap (λ r. c ∷ r) (sym (append_assoc pre x rest)))

cons_nil : {cls : Class} {w : List Class} → (cls ∷ w) ≢ []
cons_nil e = cc

separators_nonempty : All (λ w. w ≢ []) separators
separators_nonempty = (
  cons_nil,
  (
    cons_nil,
    (cons_nil, (cons_nil, (cons_nil, (cons_nil, (cons_nil, (cons_nil, (cons_nil, tt))))))),
  ),
)

module _ (is_letter : ℕ → Bool) where
  match_tail-suffix :
      (s rest : Text) → match_tail is_letter s ≡ some rest → (x : Text) × (s ≡ x ++ rest)
  match_tail-suffix [] rest h = ([], some-injective _ _ h)
  match_tail-suffix (c ∷ s) rest h = elim (Bool-cases (is_letter c)) [
    | inl letter ↦ absurd (none-some rest (rw letter at h))
    | inr other ↦ (c ∷ [], ap (λ r. c ∷ r) (some-injective s rest (rw other at h)))
  ]

  tail_of-Consumes :
      (w : List Class) (s rest : Text)
      → w ≢ []
      → tail_of is_letter (match_word w s) ≡ some rest
      → Consumes s rest
  tail_of-Consumes w s rest nonempty h = elim (Option-cases (match_word w s)) [
    | inl missing ↦ absurd (none-some rest (rw missing at h))
    | inr (t, found) ↦
        let (x, e) = match_tail-suffix t rest (rw found at h) in
        Consumes-append s x rest (subst (Consumes s) e (match_word-Consumes w s t nonempty found))
  ]

  match_words-Consumes :
      (ws : List (List Class)) (s rest : Text)
      → All (λ w. w ≢ []) ws
      → match_words is_letter ws s ≡ some rest
      → Consumes s rest
  match_words-Consumes [] s rest nonempty h = cc
  match_words-Consumes (w ∷ ws) s rest (one, others) h =
      elim (Option-cases (tail_of is_letter (match_word w s))) [
        | inl missing ↦ match_words-Consumes ws s rest others (rw missing at h)
        | inr (t, found) ↦
            let same : t ≡ rest = some-injective t rest (rw found at h) in
            tail_of-Consumes w s rest one (found ∙ ap some same)
      ]

  match_lead-Consumes : (s rest : Text) → match_lead is_letter s ≡ some rest → Consumes s rest
  match_lead-Consumes [] rest h = cc
  match_lead-Consumes (c ∷ s) rest h = elim (Bool-cases (is_letter c)) [
    | inl letter ↦ absurd (none-some rest (rw letter at h))
    | inr other ↦
        let (d, pre, e) =
          match_words-Consumes separators s rest separators_nonempty (rw other at h) in
        (c, d ∷ pre, ap (λ r. c ∷ r) e)
  ]

  -- A match is not empty, and the text goes on after it.
  pub match_here-Consumes :
      (start : Bool) (s rest : Text) → match_here is_letter start s ≡ some rest → Consumes s rest
  unfolding match_here
  match_here-Consumes true s rest h = elim (Option-cases (match_words is_letter separators s)) [
    | inl missing ↦ match_lead-Consumes s rest (rw missing at h)
    | inr (t, found) ↦
        let same : t ≡ rest = some-injective t rest (rw found at h) in
        match_words-Consumes separators s rest separators_nonempty (found ∙ ap some same)
  ]
  match_here-Consumes false s rest h = match_lead-Consumes s rest h
