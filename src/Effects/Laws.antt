-- ===== src/Effects/Laws.antt =====
-- Inversion of calls that came back with a value.
use route_planner.Prelude.{◌≡◌, refl, ap, sym, ◌⊎◌, inl, inr}
use route_planner.Errors.{GoError}
use route_planner.Effects.{
  Outcome, ok, err, panic, Eff, resume, throw, pure, respond, ok_injective, ◌>>=◌,
}

module _ {W A B : Type 0} where
  resume_ok :
      (r : Outcome A × W) (f : A → Eff W B) (b : B) (w' : W)
      → resume r f throw ≡ (ok b, w')
      → (a : A) × (w₁ : W) × (r ≡ (ok a, w₁)) × (f a w₁ ≡ (ok b, w'))
  resume_ok (ok a, w) f b w' h = (a, w, refl, h)
  resume_ok (err e, w) f b w' h = cc
  resume_ok (panic, w) f b w' h = cc

  -- A chain of two calls comes back with a value only if both do.
  pub >>=-eq-ok :
      (m : Eff W A) (f : A → Eff W B) (w : W) (b : B) (w' : W)
      → (m >>= f) w ≡ (ok b, w')
      → (a : A) × (w₁ : W) × (m w ≡ (ok a, w₁)) × (f a w₁ ≡ (ok b, w'))
  >>=-eq-ok m f w b w' h = resume_ok (m w) f b w' h

-- A handler's answer is the one for the value or the one for the error of the call.
abbrev pub Responded : (W A B : Type 0) → (A → B) → (GoError → B) → B → W → Outcome A × W → Type 0
Responded W A B good bad b w' r =
    ((a : A) × (r ≡ (ok a, w')) × (b ≡ good a)) ⊎ ((e : GoError) × (r ≡ (err e, w')) × (b ≡ bad e))

module _ {W A B : Type 0} (good : A → B) (bad : GoError → B) where
  responded :
      (r : Outcome A × W) (b : B) (w' : W)
      → resume r (λ a. pure (good a)) (λ e. pure (bad e)) ≡ (ok b, w')
      → Responded W A B good bad b w' r
  responded (ok a, w) b w' h = inl (a, cc, sym (ok_injective (good a) b (ap (λ t. t.0) h)))
  responded (err e, w) b w' h = inr (e, cc, sym (ok_injective (bad e) b (ap (λ t. t.0) h)))
  responded (panic, w) b w' h = cc

  pub respond-eq-ok :
      (m : Eff W A) (w : W) (b : B) (w' : W)
      → respond m good bad w ≡ (ok b, w')
      → Responded W A B good bad b w' (m w)
  respond-eq-ok m w b w' h = responded (m w) b w' h

-- The three outcomes of a call.
pub data Result (W A : Type 0) (r : Outcome A × W) : Type 0 where
  is_ok : (a : A) (w : W) → r ≡ (ok a, w) → Result W A r
  is_err : (e : GoError) (w : W) → r ≡ (err e, w) → Result W A r
  is_panic : (w : W) → r ≡ (panic, w) → Result W A r

pub result : {W A : Type 0} (r : Outcome A × W) → Result W A r
result (ok a, w) = is_ok a w refl
result (err e, w) = is_err e w refl
result (panic, w) = is_panic w refl

-- A call of which the outcome is known, with the world after it.
pub outcome_pair : {W A : Type 0} (r : Outcome A × W) {o : Outcome A} → r.0 ≡ o → r ≡ (o, r.1)
outcome_pair r h = cc
