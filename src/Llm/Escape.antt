-- ===== src/Llm/Escape.antt =====
-- The escaping of the quotes in the user's text, and what one `ExtractTags` returns.
use route_planner.Prelude.{
  ℕ, ◌≡◌, refl, ap, ◌∙◌, String, List, [], ◌∷◌, ◌++◌, false, ◌==◌, ◌&&◌, ==_iff, if◌then◌else◌,
  Bool-cases, inl, inr,
}
use route_planner.Prelude.Text.{Text, codes}
use route_planner.Effects.{ok}
use route_planner.Travel.Segments.{trim_space}
use route_planner.Llm.{escape, OllamaCalls, OllamaReply, LlmService, prompt_for, payload_for}

-- The text with the backslash before each quote taken away.
abbrev pub unescape : Text → Text
unescape [] = []
unescape (c ∷ []) = c ∷ []
unescape (c ∷ d ∷ s) =
    let rest = unescape (d ∷ s) in if c == b'\\' && d == b'"' then rest else c ∷ rest

-- The text does not begin with a quote.
abbrev NoQuoteFirst : Text → Type 0
NoQuoteFirst [] = Unit
NoQuoteFirst (d ∷ s) = d == b'"' ≡ false

escape-NoQuoteFirst : (s : Text) → NoQuoteFirst (escape s)
unfolding escape
escape-NoQuoteFirst [] = tt
escape-NoQuoteFirst (c ∷ s) = elim (Bool-cases (c == b'"')) [
  | inl quote ↦ rw quote refl
  | inr plain ↦ rw plain plain
]

unescape_plain : (c : ℕ) (t : Text) → c == b'\\' ≡ false → unescape (c ∷ t) ≡ c ∷ unescape t
unescape_plain c [] h = refl
unescape_plain c (d ∷ t) h = rw h refl

unescape_first : (c : ℕ) (t : Text) → NoQuoteFirst t → unescape (c ∷ t) ≡ c ∷ unescape t
unescape_first c [] h = refl
unescape_first c (d ∷ t) h = elim (Bool-cases (c == b'\\')) [
  | inl slash ↦ rw (slash, h) refl
  | inr plain ↦ rw plain refl
]

-- Escaping loses nothing: taking away the backslash before each quote gives the user's text back.
pub unescape-escape : (s : Text) → unescape (escape s) ≡ s
unfolding escape
unescape-escape [] = refl
unescape-escape (c ∷ s) = elim (Bool-cases (c == b'"')) [
  | inl quote ↦
      let same : c ≡ b'"' = (==_iff c b'"').0 quote in
      rw same (unescape_plain b'"' (escape s) refl ∙ ap (λ t. b'"' ∷ t) (unescape-escape s))
  | inr plain ↦
      rw plain
        (unescape_first c (escape s) (escape-NoQuoteFirst s) ∙ ap (λ t. c ∷ t) (unescape-escape s))
]

module _ {W : Type 0} (calls : OllamaCalls W) (s : LlmService) where
  -- The exchange behind tags that were returned.
  pub record IsExchange (text : Text) (allowed_tags tags : List String) (w w' : W) : Type 0 where
    pub reply : OllamaReply
    pub sent :
        calls.post
          (s.ollama_url ++ codes "/api/generate")
          (payload_for calls s (prompt_for calls s text allowed_tags))
          w
        ≡ (ok reply, w')
    pub no_errors : reply.errors ≡ []
    pub status_ok : reply.status ≡ 200
    pub decoded : calls.unmarshal_tags (trim_space reply.response) ≡ ok tags
