-- ===== src/Travel/Segments/Joined.antt =====
-- Texts of words with separators between them.
use mathlib.Core.List.{append-nil, reverse-append, reverse-reverse}
use route_planner.Prelude.{
  ℕ, zero, ◌≡◌, refl, sym, ap, ◌∙◌, ◌≢◌, Bool, true, false, none, List, [], ◌∷◌, ◌++◌, reverse, All,
  All-reverse,
}
use route_planner.Prelude.Text.{Text, codes, join}
use route_planner.Travel.Segments.{keep, keep_segments, match_here, split_from, split_segments}
use route_planner.Travel.Segments.Trim.{StartsClean, IsTrimmed, trim_space_of_IsTrimmed}
use route_planner.Travel.Segments.Words.{
  space, IsLetterClass, IsWord, then_between, words_miss, split_from-letters, split_from-start,
  split_from-then,
}

module _ (is_letter : ℕ → Bool) (cl : IsLetterClass is_letter) where
  letters-StartsClean : (w : Text) → All (λ c. is_letter c ≡ true) w → StartsClean w
  letters-StartsClean [] h = tt
  letters-StartsClean (c ∷ w) h = cl.white_space c h.0

  word-IsTrimmed : (w : Text) → IsWord is_letter w → IsTrimmed w
  word-IsTrimmed w word = (
    letters-StartsClean w word.letters,
    letters-StartsClean (reverse w) (All-reverse (λ c. is_letter c ≡ true) w word.letters),
  )

  keep_nonempty : (t : Text) (rest : List Text) → t ≢ [] → keep t rest ≡ t ∷ rest
  keep_nonempty [] rest h = absurd (h refl)
  keep_nonempty (c ∷ t) rest h = refl

  keep_segments_words : (ws : List Text) → All (IsWord is_letter) ws → keep_segments ws ≡ ws
  unfolding keep_segments
  keep_segments_words [] h = refl
  keep_segments_words (w ∷ ws) h =
      rw (trim_space_of_IsTrimmed w (word-IsTrimmed w h.0), keep_segments_words ws h.1)
        (keep_nonempty w ws h.0.nonempty)

  -- Past the start of the text.
  split_from-join :
      (w : Text) (ws : List Text)
      → All (IsWord is_letter) (w ∷ ws)
      → split_from is_letter false zero [] (join then_between (w ∷ ws)) ≡ w ∷ ws
  unfolding split_from
  split_from-join w [] h =
      ap (split_from is_letter false zero []) (sym (append-nil w))
      ∙ split_from-letters is_letter cl [] w [] h.0.letters
  split_from-join w (v ∷ ws) h =
      split_from-letters is_letter cl [] w (then_between ++ join then_between (v ∷ ws)) h.0.letters
      ∙ split_from-then is_letter cl w (join then_between (v ∷ ws))
      ∙ ap (λ r. w ∷ r) (split_from-join v ws h.1)

  split_from-join_start :
      (w : Text) (ws : List Text)
      → All (IsWord is_letter) (w ∷ ws)
      → split_from is_letter true zero [] (join then_between (w ∷ ws)) ≡ w ∷ ws
  unfolding split_from
  split_from-join_start w [] h =
      ap (split_from is_letter true zero []) (sym (append-nil w))
      ∙ split_from-start is_letter cl w [] h.0 tt
  split_from-join_start w (v ∷ ws) h =
      split_from-start is_letter cl w (then_between ++ join then_between (v ∷ ws)) h.0 refl
      ∙ split_from-then is_letter cl w (join then_between (v ∷ ws))
      ∙ ap (λ r. w ∷ r) (split_from-join v ws h.1)

  -- Words of letters, none of them a separator in any case, that are joined by " then " are split into the
  -- same words, where the class of letters has those of the separators, not the space, and no white space.
  pub split_segments-join :
      (w : Text) (ws : List Text)
      → All (IsWord is_letter) (w ∷ ws)
      → split_segments is_letter (join then_between (w ∷ ws)) ≡ w ∷ ws
  unfolding split_segments
  split_segments-join w ws h = rw (split_from-join_start w ws h) (keep_segments_words (w ∷ ws) h)

  StartsClean-append : (xs ys : Text) → xs ≢ [] → StartsClean xs → StartsClean (xs ++ ys)
  StartsClean-append [] ys h k = absurd (h refl)
  StartsClean-append (x ∷ xs) ys h k = k

  keep_two :
      (v u : Text)
      → IsTrimmed v
      → v ≢ []
      → IsTrimmed u
      → u ≢ []
      → keep_segments (v ∷ u ∷ []) ≡ v ∷ u ∷ []
  unfolding keep_segments
  keep_two v u tv nv tu nu =
      rw (trim_space_of_IsTrimmed v tv, trim_space_of_IsTrimmed u tu, keep_nonempty u [] nu)
        (keep_nonempty v (u ∷ []) nv)

  and_word-IsTrimmed : (w : Text) → IsWord is_letter w → IsTrimmed (codes "and " ++ w)
  and_word-IsTrimmed w word =
      let some_letter : reverse w ≢ [] =
        λ e. word.nonempty (sym (reverse-reverse w) ∙ ap reverse e) in
      (
        refl,
        rw reverse-append (
            StartsClean-append (reverse w) (reverse (codes "and ")) some_letter (
              letters-StartsClean (reverse w)
                (All-reverse (λ c. is_letter c ≡ true) w word.letters))),
      )

  blank_before_word :
      (w : Text) → IsWord is_letter w → match_here is_letter false (space ∷ w) ≡ none
  unfolding match_here
  blank_before_word w word = rw cl.blank (rw append-nil at (words_miss is_letter cl w [] word tt))

  split_from-and :
      (w : Text)
      → IsWord is_letter w
      → split_from is_letter false zero [] (codes "and " ++ w) ≡ (codes "and " ++ w) ∷ []
  unfolding split_from
  split_from-and w word =
      let ls = cl.separator_letters.1.1.0 in
      split_from-letters is_letter cl [] (codes "and") (space ∷ w)
        (ls.0.0, (ls.1.0.0, (ls.1.1.0.0, tt)))
      ∙ rw (blank_before_word w word, split_from)
          (ap (split_from is_letter false zero (codes "and ")) (sym (append-nil w))
            ∙ split_from-letters is_letter cl (codes "and ") w [] word.letters)

  -- Two separators in a row, " then and ": the match of the first takes the space before the second,
  -- which stays in the text of the second segment.
  pub split_segments_adjacent :
      (v w : Text)
      → IsWord is_letter v
      → IsWord is_letter w
      → split_segments is_letter (v ++ (then_between ++ (codes "and " ++ w)))
        ≡ v ∷ (codes "and " ++ w) ∷ []
  unfolding split_segments
  split_segments_adjacent v w hv hw =
      rw
        (
          split_from-start is_letter cl v (then_between ++ (codes "and " ++ w)) hv refl,
          split_from-then is_letter cl v (codes "and " ++ w),
          split_from-and w hw,
        )
        (keep_two v (codes "and " ++ w) (word-IsTrimmed v hv) hv.nonempty (and_word-IsTrimmed w hw)
          (λ e. cc))
