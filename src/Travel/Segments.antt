-- ===== src/Travel/Segments.antt =====
-- `splitSegments` of internal/travelroutes/service.go, with the regular expression that it splits by
-- and `strings.TrimSpace`. A text is the list of its code points.
pub mod Trim
pub mod Kept
pub mod Words
pub mod Joined
pub mod Consumes
pub mod Pieces
pub mod Tests
use route_planner.Prelude.{
  ℕ, zero, suc, ◌-◌, Bool, true, false, ◌&&◌, ◌||◌, Option, none, some, List, [], ◌∷◌, ◌++◌,
  reverse, leb, ◌==◌, if◌then◌else◌, length, any,
}
use route_planner.Prelude.Text.{Text, codes}

-- A letter of the pattern under `(?i)`: the code points that fold together with it.
abbrev pub Class : Type 0
Class = Text

abbrev pub then_word : List Class
then_word = codes "tT" ∷ codes "hH" ∷ codes "eE" ∷ codes "nN" ∷ []

abbrev pub after_word : List Class
after_word = codes "aA" ∷ codes "fF" ∷ codes "tT" ∷ codes "eE" ∷ codes "rR" ∷ []

abbrev pub and_word : List Class
and_word = codes "aA" ∷ codes "nN" ∷ codes "dD" ∷ []

-- The small Cyrillic letters of the next three words; U+1C82, U+1C84 and U+1C85 are further forms
-- of `о` and `т`.
abbrev cyrillic_o : Class
cyrillic_o = 0x43E ∷ 0x41E ∷ 0x1C82 ∷ []

abbrev cyrillic_te : Class
cyrillic_te = 0x442 ∷ 0x422 ∷ 0x1C84 ∷ 0x1C85 ∷ []

-- `потім`
abbrev pub potim_word : List Class
potim_word = codes "пП" ∷ cyrillic_o ∷ cyrillic_te ∷ codes "іІ" ∷ codes "мМ" ∷ []

-- `та`
abbrev pub ta_word : List Class
ta_word = cyrillic_te ∷ codes "аА" ∷ []

-- `і`
abbrev pub i_word : List Class
i_word = codes "іІ" ∷ []

-- Two words with one space between them.
abbrev pub two_words : List Class → List Class → List Class
two_words v w = v ++ codes " " ∷ w

-- The alternatives of the group, in their order.
abbrev pub separators : List (List Class)
separators =
    then_word
    ∷ two_words and_word then_word
    ∷ after_word
    ∷ and_word
    ∷ potim_word
    ∷ two_words ta_word potim_word
    ∷ two_words i_word potim_word
    ∷ ta_word
    ∷ i_word
    ∷ []

-- The text after the word, if the text begins with the word.
abbrev pub match_word : List Class → Text → Option Text
match_word [] s = some s
match_word (cls ∷ w) [] = none
match_word (cls ∷ w) (c ∷ s) = if any (◌==◌ c) cls then match_word w s else none

-- `unicode.IsSpace`
abbrev pub is_space : ℕ → Bool
is_space c =
    (leb 9 c && leb c 13)
    || c == 32
    || c == 0x85
    || c == 0xA0
    || c == 0x1680
    || (leb 0x2000 c && leb c 0x200A)
    || c == 0x2028
    || c == 0x2029
    || c == 0x202F
    || c == 0x205F
    || c == 0x3000

drop_space : Text → Text
drop_space [] = []
drop_space (c ∷ s) = if is_space c then drop_space s else c ∷ s

-- `strings.TrimSpace`
unfoldable pub trim_space : Text → Text
unfolding drop_space
trim_space s = reverse (drop_space (reverse (drop_space s)))

abbrev keep : Text → List Text → List Text
keep [] rest = rest
keep (c ∷ t) rest = (c ∷ t) ∷ rest

-- The loop over the raw segments.
pub keep_segments : List Text → List Text
unfolding trim_space
keep_segments [] = []
keep_segments (s ∷ raw) = keep (trim_space s) (keep_segments raw)

-- The first answer, or else the second.
abbrev otherwise : Option Text → Option Text → Option Text
otherwise (some s) other = some s
otherwise none other = other

-- `is_letter` is the class `\p{L}` of Unicode letters.
module _ (is_letter : ℕ → Bool) where
  -- `(?:$|[^\p{L}])`
  abbrev pub match_tail : Text → Option Text
  match_tail [] = some []
  match_tail (c ∷ s) = if is_letter c then none else some s

  abbrev tail_of : Option Text → Option Text
  tail_of none = none
  tail_of (some s) = match_tail s

  -- The first of the words that stands here and ends here.
  abbrev pub match_words : List (List Class) → Text → Option Text
  match_words [] s = none
  match_words (w ∷ ws) s = otherwise (tail_of (match_word w s)) (match_words ws s)

  -- `[^\p{L}]` and a separator.
  abbrev pub match_lead : Text → Option Text
  match_lead [] = none
  match_lead (c ∷ s) = if is_letter c then none else match_words separators s

  -- A match of the whole expression here, and the text after it; `^` holds at the start only.
  pub match_here : Bool → Text → Option Text
  match_here true s = otherwise (match_words separators s) (match_lead s)
  match_here false s = match_lead s

  -- `segmentSplitRegex.Split(s, -1)`: the text between one match and the next. `cur` is the piece
  -- so far, and `skip` the characters of a match that are still to be passed over.
  pub split_from : Bool → ℕ → Text → Text → List Text
  unfolding match_here
  split_from start skip cur [] = cur ∷ []
  split_from start (suc k) cur (c ∷ s) = split_from false k cur s
  split_from start zero cur (c ∷ s) = elim (match_here start (c ∷ s)) [
    | some rest ↦ cur ∷ split_from false (length s - length rest) [] s
    | none ↦ split_from false zero (cur ++ c ∷ []) s
  ]

  pub split_segments : Text → List Text
  unfolding split_from keep_segments trim_space
  split_segments user_input = keep_segments (split_from true zero [] user_input)
