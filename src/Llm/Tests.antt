-- ===== src/Llm/Tests.antt =====
-- One exchange with the language model, and the escaping of a text.
use route_planner.Prelude.{ℕ, ◌≡◌, refl, ◌+◌, [], ◌∷◌}
use route_planner.Prelude.Text.{codes}
use route_planner.Effects.{ok}
use route_planner.Llm.{OllamaCalls, LlmService, extract_tags}

-- The world is the number of requests.
abbrev calls : OllamaCalls ℕ
calls = record {
  post =
      λ url payload n. (ok (record { status = 200; response = codes " {} "; errors = [] }), n + 1);
  unmarshal_tags = λ s. ok ("park" ∷ []);
  show_status = λ n. "200";
}

abbrev service : LlmService
service = record { ollama_url = codes "http://ollama" }

answered : extract_tags calls service (codes "a park") ("park" ∷ []) 0 ≡ (ok ("park" ∷ []), 1)
unfolding extract_tags
answered = refl
