-- ===== src/Travel/Segments/Tests.antt =====
-- Texts that are split, with the letters of ASCII and the Cyrillic blocks as the letter class.
use route_planner.Prelude.{ℕ, ◌≡◌, refl, Bool, true, false, ◌&&◌, ◌||◌, leb, [], ◌∷◌, ◌++◌, arith}
use route_planner.Prelude.Text.{codes, join}
use route_planner.Travel.Segments.{is_space, keep_segments, split_segments}
use route_planner.Travel.Segments.Words.{IsLetterClass, IsWord, then_between}
use route_planner.Travel.Segments.Joined.{split_segments-join, split_segments_adjacent}
use route_planner.Travel.Segments.Kept.{Kept, keep_segments-Kept}

abbrev is_letter : ℕ → Bool
is_letter c =
    (leb 65 c && leb c 90)
    || (leb 97 c && leb c 122)
    || (leb 0x400 c && leb c 0x52F)
    || (leb 0x1C80 c && leb c 0x1C88)

letter_not_space : (c : ℕ) → is_letter c ≡ true → is_space c ≡ false
letter_not_space c h = ground arith

letters : IsLetterClass is_letter
letters = record { separator_letters = ground arith; white_space = letter_not_space; blank = refl }

cafe-IsWord : IsWord is_letter (codes "cafe")
cafe-IsWord = record { nonempty = cc; letters = ground arith; no_separator = ground arith }

park-IsWord : IsWord is_letter (codes "park")
park-IsWord = record { nonempty = cc; letters = ground arith; no_separator = ground arith }

split_segments_adjacent_example :
    split_segments is_letter (codes "cafe" ++ (then_between ++ (codes "and " ++ codes "park")))
    ≡ codes "cafe" ∷ (codes "and " ++ codes "park") ∷ []
split_segments_adjacent_example =
    split_segments_adjacent is_letter letters (codes "cafe") (codes "park") cafe-IsWord park-IsWord

split_segments-join_example :
    split_segments is_letter (join then_between (codes "cafe" ∷ codes "park" ∷ []))
    ≡ codes "cafe" ∷ codes "park" ∷ []
split_segments-join_example =
    split_segments-join is_letter letters (codes "cafe") (codes "park" ∷ [])
      (cafe-IsWord, (park-IsWord, tt))

keep_segments-Kept_example :
    Kept (codes " a b " ∷ codes " " ∷ []) (keep_segments (codes " a b " ∷ codes " " ∷ []))
keep_segments-Kept_example = keep_segments-Kept (codes " a b " ∷ codes " " ∷ [])
