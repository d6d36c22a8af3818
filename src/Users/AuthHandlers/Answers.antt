-- ===== src/Users/AuthHandlers/Answers.antt =====
-- The answers of the handlers of internal/users/auth_handler.go, if they come back with one.
use route_planner.Prelude.{ℕ, ◌≡◌, refl, subst, ◌⊎◌, inl, inr}
use route_planner.Prelude.Text.{Text}
use route_planner.Errors.Response.{Answer, json, status, internal_error, send_error}
use route_planner.Effects.{Outcome, ok, err, panic, resume, pure}
use route_planner.Models.{User, AuthResponse}

-- A property of the answer and the world after it, if the handler comes back with an answer.
abbrev pub Given :
    {W : Type 0} → (Answer AuthResponse → W → Type 0) → Outcome (Answer AuthResponse) × W → Type 0
Given P (ok a, w) = P a w
Given P (err e, w) = Unit
Given P (panic, w) = Unit

pub given :
    {W : Type 0} (P : Answer AuthResponse → W → Type 0) (r : Outcome (Answer AuthResponse) × W)
    (a : Answer AuthResponse) (w : W)
    → r ≡ (ok a, w)
    → Given P r
    → P a w
given P r a w h p = subst (Given P) h p

pub weaken :
    {W : Type 0} (P Q : Answer AuthResponse → W → Type 0) (r : Outcome (Answer AuthResponse) × W)
    → ((a : Answer AuthResponse) (w : W) → P a w → Q a w)
    → Given P r
    → Given Q r
weaken P Q (ok a, w) f p = f a w p
weaken P Q (err e, w) f p = tt
weaken P Q (panic, w) f p = tt

-- The end of both handlers: neither a token nor the lack of one is answered with this status.
pub token_answer :
    {W : Type 0} (P : Answer AuthResponse → W → Type 0) (code : ℕ) (u : User) (r : Outcome Text × W)
    → ((a : Answer AuthResponse) (w : W) → (status a ≡ code) ⊎ (status a ≡ 500) → P a w)
    → Given P (
        resume r
          (λ token. pure (json code (record { token = token; user = u })))
          (λ e. pure (internal_error e)))
unfolding internal_error send_error
token_answer P code u (ok token, w) h = h _ w (inl refl)
token_answer P code u (err e, w) h = h _ w (inr refl)
token_answer P code u (panic, w) h = tt
