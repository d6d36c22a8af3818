-- ===== src/Llm.antt =====
-- internal/llm/ollama_tag_extractor.go: the prompt and one request.
mod Prompt
pub mod Pool
pub mod Escape
pub mod Tests
use route_planner.Prelude.{
  ℕ, ◌==◌, String, ◌<>◌, Bool, true, false, Option, none, some, List, [], ◌∷◌, ◌++◌, map,
  if◌then◌else◌,
}
use route_planner.Prelude.Text.{Text, codes, join}
use route_planner.Errors.{GoError, other, wrapped, error_text}
use route_planner.Effects.{Outcome, ok, err, panic, Eff, pure, throw, crash, lift, handle, ◌>>=◌}
use route_planner.Travel.Segments.{trim_space}
use route_planner.Llm.Prompt.{template_head, template_middle, template_end}

-- `strings.ReplaceAll(text, "\"", "\\\"")`
unfoldable pub escape : Text → Text
escape [] = []
escape (c ∷ s) = if c == b'"' then b'\\' ∷ b'"' ∷ escape s else c ∷ escape s

-- The payload of the request: the model's name and options are constants of the source.
pub record Payload : Type 0 where
  pub model : String
  pub prompt : Text
  pub stream : Bool
  pub format : String
  pub temperature : ℕ

-- The reply of `agent.Struct(&outer)`: the status, `outer.Response` and the agent's errors.
pub record OllamaReply : Type 0 where
  pub status : ℕ
  pub response : Text
  pub errors : List GoError

-- The calls of the service: the POST with its timeout of 30 seconds, `json.Unmarshal` into a
-- `TagResponse`, and `%d`.
pub record OllamaCalls (W : Type 0) : Type 0 where
  pub post : Text → Payload → Eff W OllamaReply
  pub unmarshal_tags : Text → Outcome (List String)
  pub show_status : ℕ → String

pub record LlmService : Type 0 where
  pub ollama_url : Text

abbrev pub new_llm_service : Text → LlmService
new_llm_service ollama_url = record { ollama_url = ollama_url }

module _ {W : Type 0} (calls : OllamaCalls W) (s : LlmService) where
  unfoldable pub prompt_for : Text → List String → Text
  unfolding escape
  prompt_for text allowed_tags =
      template_head
      ++ (join (codes ", ") (map codes allowed_tags)
          ++ (template_middle ++ (escape text ++ template_end)))

  abbrev payload_for : Text → Payload
  payload_for prompt = record {
    model = "llama3.2:1b";
    prompt = prompt;
    stream = false;
    format = "json";
    temperature = 0;
  }

  -- The answer is JSON in a JSON string.
  abbrev decode_tags : Text → Eff W (List String)
  decode_tags response =
      handle (lift (calls.unmarshal_tags (trim_space response))) pure
        λ e. throw (wrapped ("LLM JSON error: " <> error_text e) e)

  abbrev read_errors : OllamaReply → List GoError → Eff W (List String)
  read_errors reply (e ∷ _) = throw e
  read_errors reply [] =
      if reply.status == 200
      then decode_tags reply.response
      else throw (other ("ollama status: " <> calls.show_status reply.status))

  pub extract_tags : Text → List String → Eff W (List String)
  unfolding prompt_for error_text trim_space
  extract_tags text allowed_tags =
      calls.post (s.ollama_url ++ codes "/api/generate")
        (payload_for (prompt_for text allowed_tags))
      >>= λ reply. read_errors reply reply.errors

  -- The request at the start of the program, whose outcome is logged at most.
  pub warmup : Eff W (Unit {0})
  unfolding extract_tags
  warmup =
      handle (extract_tags (codes "System startup warmup sequence") ("warmup" ∷ [])) (λ _. pure tt)
        (λ _. pure tt)
