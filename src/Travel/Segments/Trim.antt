-- ===== src/Travel/Segments/Trim.antt =====
-- What is left of a segment after trimming.
use mathlib.Core.List.{reverse-reverse, reverse-append}
use route_planner.Prelude.{
  ℕ, zero, ◌≡◌, refl, sym, ap, ◌∙◌, ◌≢◌, Bool, true, false, List, [], ◌∷◌, ◌++◌, reverse, All,
  Bool-cases, inl, inr, subst,
}
use route_planner.Prelude.Text.{Text}
use route_planner.Travel.Segments.{
  is_space, drop_space, trim_space, keep, keep_segments, split_from, split_segments,
}

-- The text begins with no white space.
abbrev pub StartsClean : Text → Type 0
StartsClean [] = Unit
StartsClean (c ∷ s) = is_space c ≡ false

drop_space-StartsClean : (s : Text) → StartsClean (drop_space s)
unfolding drop_space
drop_space-StartsClean [] = tt
drop_space-StartsClean (c ∷ s) = elim (Bool-cases (is_space c)) [
  | inl space ↦ rw (space, drop_space) (drop_space-StartsClean s)
  | inr other ↦ rw (other, drop_space) other
]

drop_space_of_clean : (s : Text) → StartsClean s → drop_space s ≡ s
unfolding drop_space
drop_space_of_clean [] h = refl
drop_space_of_clean (c ∷ s) h = rw h

-- What is dropped is a prefix.
drop_space_suffix : (s : Text) → (pre : Text) × (s ≡ pre ++ drop_space s)
unfolding drop_space
drop_space_suffix [] = ([], refl)
drop_space_suffix (c ∷ s) = elim (Bool-cases (is_space c)) [
  | inl space ↦
      let (pre, e) = drop_space_suffix s in (c ∷ pre, rw (space, drop_space) (ap (λ r. c ∷ r) e))
  | inr other ↦ ([], rw (other, drop_space))
]

StartsClean-prefix : (xs ys : Text) → StartsClean (xs ++ ys) → StartsClean xs
StartsClean-prefix [] ys h = tt
StartsClean-prefix (x ∷ xs) ys h = h

-- The text has no white space at either end.
abbrev pub IsTrimmed : Text → Type 0
IsTrimmed s = StartsClean s × StartsClean (reverse s)

pub trim_space-IsTrimmed : (s : Text) → IsTrimmed (trim_space s)
unfolding trim_space
trim_space-IsTrimmed s =
    let u : Text = drop_space s in
    let v : Text = drop_space (reverse u) in
    let (pre, e) = drop_space_suffix (reverse u) in
    let back : u ≡ reverse v ++ reverse pre =
      sym (reverse-reverse u) ∙ ap reverse e ∙ reverse-append pre v in
    (
      StartsClean-prefix (reverse v) (reverse pre)
          (subst StartsClean back (drop_space-StartsClean s)),
      subst StartsClean (sym (reverse-reverse v)) (drop_space-StartsClean (reverse u)),
    )

-- A trimmed text is left as it is.
pub trim_space_of_IsTrimmed : (s : Text) → IsTrimmed s → trim_space s ≡ s
unfolding trim_space
trim_space_of_IsTrimmed s (front, back) =
    rw (drop_space_of_clean s front, drop_space_of_clean (reverse s) back) (reverse-reverse s)

keep-All :
    (t : Text) (rest : List Text)
    → IsTrimmed t
    → All (λ r. (r ≢ []) × IsTrimmed r) rest
    → All (λ r. (r ≢ []) × IsTrimmed r) (keep t rest)
keep-All [] rest h k = k
keep-All (c ∷ t) rest h k = ((λ e. cc, h), k)

keep_segments-All : (raw : List Text) → All (λ r. (r ≢ []) × IsTrimmed r) (keep_segments raw)
unfolding keep_segments
keep_segments-All [] = tt
keep_segments-All (s ∷ raw) =
    keep-All (trim_space s) (keep_segments raw) (trim_space-IsTrimmed s) (keep_segments-All raw)

-- Whatever the user writes, every segment is a non-empty text with no white space at either end.
pub split_segments-IsTrimmed :
    (is_letter : ℕ → Bool) (user_input : Text)
    → All (λ r. (r ≢ []) × IsTrimmed r) (split_segments is_letter user_input)
unfolding split_segments
split_segments-IsTrimmed is_letter user_input =
    keep_segments-All (split_from is_letter true zero [] user_input)
