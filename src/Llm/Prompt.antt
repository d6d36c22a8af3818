-- ===== src/Llm/Prompt.antt =====
-- The text of the prompt in `ExtractTags` of internal/llm/ollama_tag_extractor.go, which names the
-- allowed tags at its first place and the user's text at its second.
use route_planner.Prelude.{List, [], ◌∷◌, map, String}
use route_planner.Prelude.Text.{Text, codes, join}

-- Up to the allowed tags.
abbrev head_lines : List String
head_lines =
    "### Role" ∷ "\t\tYou are a precise Text-to-Tag Classifier." ∷ "\t\t"
    ∷ "        ### Constraints" ∷ "        1. Choose tags ONLY from this allowed list: [" ∷ []

-- From there up to the user's text.
abbrev middle_lines : List String
middle_lines =
    "]" ∷ "        2. If no tags are relevant, return {\\\"tags\\\": []}."
    ∷ "        3. Map synonyms or related concepts (e.g., \\\"mojito\\\" -> \\\"cocktails\\\", \\\"stars\\\" -> \\\"astronomy\\\")."
    ∷ "        4. Output MUST be valid JSON. No conversation, no explanations." ∷ "\t\t"
    ∷ "        ### Examples" ∷ "        Input: \\\"A nice place for a drink with a view\\\""
    ∷ "        Output: {\\\"tags\\\": [\\\"cocktails\\\", \\\"popular\\\"]}" ∷ "\t\t"
    ∷ "        Input: \\\"somewhere to see the planets\\\""
    ∷ "        Output: {\\\"tags\\\": [\\\"astronomy\\\", \\\"universe\\\"]}" ∷ "\t\t"
    ∷ "        Input: \\\"Looking for kittens\\\""
    ∷ "        Output: {\\\"tags\\\": [\\\"cats\\\", \\\"animals\\\"]}" ∷ "" ∷ "\t\t### Task"
    ∷ "        User Input: \\\"" ∷ []

-- From there to the end.
abbrev end_lines : List String
end_lines = "\\\"" ∷ "        Output:" ∷ []

pub template_head : Text
template_head = join (b'\n' ∷ []) (map codes head_lines)

pub template_middle : Text
template_middle = join (b'\n' ∷ []) (map codes middle_lines)

pub template_end : Text
template_end = join (b'\n' ∷ []) (map codes end_lines)
