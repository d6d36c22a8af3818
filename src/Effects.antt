-- ===== src/Effects.antt =====
-- Go functions as values: a call takes the world and returns a result with the world after it.
pub mod Laws
use route_planner.Prelude.{◌≡◌}
use route_planner.Errors.{GoError}

-- What a call comes back with: a value with a nil error, an error, or a panic.
pub data Outcome {ℓ} (A : Type ℓ) : Type ℓ where
  ok : A → Outcome A
  err : GoError → Outcome A
  panic : Outcome A

pub ok_injective {ℓ} : {A : Type ℓ} (a b : A) → ok a ≡ ok b → a ≡ b
ok_injective a b h = cc

abbrev pub Eff : Type 0 → Type 0 → Type 0
Eff W A = W → Outcome A × W

abbrev pub pure : {W A : Type 0} → A → Eff W A
pure a w = (ok a, w)

abbrev pub throw : {W A : Type 0} → GoError → Eff W A
throw e w = (err e, w)

abbrev pub crash : {W A : Type 0} → Eff W A
crash w = (panic, w)

-- A call that leaves the world alone.
abbrev pub lift : {W A : Type 0} → Outcome A → Eff W A
lift o w = (o, w)

-- The two ways on after `v, err := m()`; a panic is passed up.
abbrev pub resume :
    {W A B : Type 0} → Outcome A × W → (A → Eff W B) → (GoError → Eff W B) → Outcome B × W
resume (ok a, w) good bad = good a w
resume (err e, w) good bad = bad e w
resume (panic, w) good bad = (panic, w)

abbrev pub handle : {W A B : Type 0} → Eff W A → (A → Eff W B) → (GoError → Eff W B) → Eff W B
handle m good bad w = resume (m w) good bad

-- `if err != nil { return err }` between two calls.
infixl 5 ◌>>=◌ ◌>>◌
abbrev pub ◌>>=◌ : {W A B : Type 0} → Eff W A → (A → Eff W B) → Eff W B
(m >>= f) w = resume (m w) f throw

abbrev pub ◌>>◌ : {W A B : Type 0} → Eff W A → Eff W B → Eff W B
(m >> k) w = resume (m w) (λ _. k) throw

-- An operation that changes the world and cannot fail.
abbrev pub modify : {W : Type 0} → (W → W) → Eff W (Unit {0})
modify f w = (ok tt, f w)

-- The end of a handler: an answer for the value, or one for the error.
abbrev pub respond : {W A B : Type 0} → Eff W A → (A → B) → (GoError → B) → Eff W B
respond m good bad = handle m (λ a. pure (good a)) (λ e. pure (bad e))
