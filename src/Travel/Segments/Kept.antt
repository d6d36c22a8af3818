-- ===== src/Travel/Segments/Kept.antt =====
-- What the loop of `splitSegments` keeps of the raw segments.
use mathlib.Core.List.{reverse-reverse, reverse-append}
use route_planner.Prelude.{
  ◌≡◌, refl, sym, ap, ◌∙◌, ◌≢◌, true, List, [], ◌∷◌, ◌++◌, reverse, All, All-reverse, Bool-cases,
  inl, inr, subst,
}
use route_planner.Prelude.Text.{Text}
use route_planner.Travel.Segments.{is_space, drop_space, trim_space, keep, keep_segments}
use route_planner.Travel.Segments.Trim.{IsTrimmed, trim_space-IsTrimmed}

abbrev pub IsBlank : Text → Type 0
IsBlank s = All (λ c. is_space c ≡ true) s

-- The segments that raw ones give, one after the other: a blank one gives none, and any other one what
-- stands between the white space at its two ends.
pub data Kept : List Text → List Text → Type 0 where
  done : Kept [] []
  blank : {s : Text} {raw out : List Text} → IsBlank s → Kept raw out → Kept (s ∷ raw) out
  kept :
      {raw out : List Text} (before t after : Text)
      → IsBlank before
      → IsBlank after
      → IsTrimmed t
      → t ≢ []
      → Kept raw out
      → Kept ((before ++ (t ++ after)) ∷ raw) (t ∷ out)

-- What is dropped is white space before the rest.
drop_space-IsBlank : (s : Text) → (pre : Text) × IsBlank pre × (s ≡ pre ++ drop_space s)
unfolding drop_space
drop_space-IsBlank [] = ([], tt, refl)
drop_space-IsBlank (c ∷ s) = elim (Bool-cases (is_space c)) [
  | inl space ↦
      let (pre, h, e) = drop_space-IsBlank s in
      (c ∷ pre, (space, h), rw (space, drop_space) (ap (λ r. c ∷ r) e))
  | inr other ↦ ([], tt, rw (other, drop_space))
]

-- A text is its trimmed part with white space around it.
trim_space_parts :
    (s : Text)
    → (before : Text) × (after : Text) × IsBlank before
      × IsBlank after
      × (s ≡ before ++ (trim_space s ++ after))
unfolding trim_space
trim_space_parts s =
    let u : Text = drop_space s in
    let v : Text = drop_space (reverse u) in
    let (before, hb, eb) = drop_space-IsBlank s in
    let (pre, ha, ea) = drop_space-IsBlank (reverse u) in
    let back : u ≡ reverse v ++ reverse pre =
      sym (reverse-reverse u) ∙ ap reverse ea ∙ reverse-append pre v in
    (
      before,
      reverse pre,
      hb,
      All-reverse (λ c. is_space c ≡ true) pre ha,
      eb ∙ ap (λ r. before ++ r) back,
    )

IsBlank-append : (xs ys : Text) → IsBlank xs → IsBlank ys → IsBlank (xs ++ ys)
IsBlank-append [] ys h k = k
IsBlank-append (x ∷ xs) ys h k = (h.0, IsBlank-append xs ys h.1 k)

keep-Kept :
    (before t after : Text) (raw out : List Text)
    → IsBlank before
    → IsBlank after
    → IsTrimmed t
    → Kept raw out
    → Kept ((before ++ (t ++ after)) ∷ raw) (keep t out)
keep-Kept before [] after raw out hb ha ht h = blank (IsBlank-append before after hb ha) h
keep-Kept before (c ∷ t) after raw out hb ha ht h = kept before (c ∷ t) after hb ha ht (λ e. cc) h

-- Of the raw segments the loop keeps, in their order, those that are not blank, each less all the white
-- space at its two ends and nothing else.
pub keep_segments-Kept : (raw : List Text) → Kept raw (keep_segments raw)
unfolding keep_segments
keep_segments-Kept [] = done
keep_segments-Kept (s ∷ raw) =
    let (before, after, hb, ha, e) = trim_space_parts s in
    subst (λ x. Kept (x ∷ raw) (keep (trim_space s) (keep_segments raw))) (sym e)
      (keep-Kept before (trim_space s) after raw (keep_segments raw) hb ha (trim_space-IsTrimmed s)
        (keep_segments-Kept raw))
