-- ===== src/Travel/Segments/Words.antt =====
-- Words that are joined by a separator are split again.
use mathlib.Core.List.{append_assoc, append-nil}
use route_planner.Prelude.{
  ℕ, zero, ◌≡◌, refl, ◌∙◌, ◌≢◌, Bool, true, false, none, some, List, [], ◌∷◌, ◌++◌, arith, All, any,
  Bool-cases, inl, inr, ◌==◌,
}
use route_planner.Prelude.Text.{Text, codes}
use route_planner.Travel.Segments.Pieces.{split_from-match}
use route_planner.Travel.Segments.{
  Class, then_word, after_word, and_word, potim_word, ta_word, i_word, two_words, separators,
  match_word, is_space, tail_of, match_words, match_here, split_from,
}

-- The separators that are one word.
abbrev pub single_words : List (List Class)
single_words = then_word ∷ after_word ∷ and_word ∷ potim_word ∷ ta_word ∷ i_word ∷ []

abbrev pub space : ℕ
space = b' '

-- What Unicode says of the class: the letters of the separators are letters, white space is not.
pub record IsLetterClass (is_letter : ℕ → Bool) : Type 0 where
  pub separator_letters : All (λ w. All (λ cls. All (λ c. is_letter c ≡ true) cls) w) single_words
  pub white_space : (c : ℕ) → is_letter c ≡ true → is_space c ≡ false
  pub blank : is_letter space ≡ false

module _ (is_letter : ℕ → Bool) where
  -- A word of letters that is not itself a separator, in any case.
  pub record IsWord (w : Text) : Type 0 where
    pub nonempty : w ≢ []
    pub letters : All (λ c. is_letter c ≡ true) w
    pub no_separator : All (λ p. match_word p w ≢ some []) single_words

  -- The text is over, or goes on with a space.
  abbrev pub Ends : Text → Type 0
  Ends [] = Unit
  Ends (c ∷ _) = c ≡ space

  module _ (blank : is_letter space ≡ false) where
    blank_not_in : (cls : Class) → All (λ c. is_letter c ≡ true) cls → any (◌==◌ space) cls ≡ false
    blank_not_in [] h = refl
    blank_not_in (c ∷ cls) h = ground (arith, blank_not_in cls h.1)

    -- A separator of one word does not match at a word that is not that separator.
    word_misses :
        (p : List Class) (w t : Text)
        → All (λ cls. All (λ c. is_letter c ≡ true) cls) p
        → All (λ c. is_letter c ≡ true) w
        → match_word p w ≢ some []
        → Ends t
        → tail_of is_letter (match_word p (w ++ t)) ≡ none
    word_misses [] [] t hp hw ne e = absurd (ne refl)
    word_misses [] (c ∷ w) t hp hw ne e = rw hw.0
    word_misses (cls ∷ p) [] [] hp hw ne e = refl
    word_misses (cls ∷ p) [] (c ∷ t) hp hw ne e = rw e (rw (blank_not_in cls hp.0))
    word_misses (cls ∷ p) (c ∷ w) t hp hw ne e = elim (Bool-cases (any (◌==◌ c) cls)) [
      | inl there ↦ rw there (word_misses p w t hp.1 hw.1 (λ m. ne (rw there m)) e)
      | inr other ↦ rw other
    ]

    -- Nor does one of two words, if the word is not its first.
    two_words_miss :
        (p q : List Class) (w t : Text)
        → All (λ cls. All (λ c. is_letter c ≡ true) cls) p
        → All (λ c. is_letter c ≡ true) w
        → match_word p w ≢ some []
        → Ends t
        → match_word (two_words p q) (w ++ t) ≡ none
    two_words_miss [] q [] t hp hw ne e = absurd (ne refl)
    two_words_miss [] q (c ∷ w) t hp hw ne e = ground arith
    two_words_miss (cls ∷ p) q [] [] hp hw ne e = refl
    two_words_miss (cls ∷ p) q [] (c ∷ t) hp hw ne e = rw e (rw (blank_not_in cls hp.0))
    two_words_miss (cls ∷ p) q (c ∷ w) t hp hw ne e = elim (Bool-cases (any (◌==◌ c) cls)) [
      | inl there ↦ rw there (two_words_miss p q w t hp.1 hw.1 (λ m. ne (rw there m)) e)
      | inr other ↦ rw other
    ]

-- The separator of the round trip.
abbrev pub then_between : Text
then_between = codes " then "

module _ (is_letter : ℕ → Bool) (cl : IsLetterClass is_letter) where
  module _ (w t : Text) (word : IsWord is_letter w) (e : Ends is_letter t) where
    miss :
        (p : List Class)
        → All (λ cls. All (λ c. is_letter c ≡ true) cls) p
        → match_word p w ≢ some []
        → tail_of is_letter (match_word p (w ++ t)) ≡ none
    miss p hp ne = word_misses is_letter cl.blank p w t hp word.letters ne e

    miss_two :
        (p q : List Class)
        → All (λ cls. All (λ c. is_letter c ≡ true) cls) p
        → match_word p w ≢ some []
        → match_word (two_words p q) (w ++ t) ≡ none
    miss_two p q hp ne = two_words_miss is_letter cl.blank p q w t hp word.letters ne e

    -- No separator stands where a word begins.
    pub words_miss : match_words is_letter separators (w ++ t) ≡ none
    words_miss =
        let ls = cl.separator_letters in
        let ns = word.no_separator in
        rw (
          miss then_word ls.0 ns.0,
          miss_two and_word then_word ls.1.1.0 ns.1.1.0,
          miss after_word ls.1.0 ns.1.0,
          miss and_word ls.1.1.0 ns.1.1.0,
          miss potim_word ls.1.1.1.0 ns.1.1.1.0,
          miss_two ta_word potim_word ls.1.1.1.1.0 ns.1.1.1.1.0,
          miss_two i_word potim_word ls.1.1.1.1.1.0 ns.1.1.1.1.1.0,
          miss ta_word ls.1.1.1.1.0 ns.1.1.1.1.0,
          miss i_word ls.1.1.1.1.1.0 ns.1.1.1.1.1.0,
        )

  -- The letters of a word are passed over.
  pub split_from-letters :
      (cur w t : Text)
      → All (λ c. is_letter c ≡ true) w
      → split_from is_letter false zero cur (w ++ t) ≡ split_from is_letter false zero (cur ++ w) t
  unfolding split_from
  split_from-letters cur [] t h = rw append-nil
  split_from-letters cur (c ∷ w) t h =
      rw (h.0, split_from) (split_from-letters (cur ++ c ∷ []) w t h.1 ∙ rw append_assoc)

  pub split_from-start :
      (w t : Text)
      → IsWord is_letter w
      → Ends is_letter t
      → split_from is_letter true zero [] (w ++ t) ≡ split_from is_letter false zero w t
  unfolding split_from
  split_from-start [] t word e = absurd (word.nonempty refl)
  split_from-start (c ∷ w) t word e =
      rw (words_miss (c ∷ w) t word e, word.letters.0, split_from)
        (split_from-letters (c ∷ []) w t word.letters.1)

  then_matches : (s : Text) → match_here is_letter false (then_between ++ s) ≡ some s
  unfolding match_here
  then_matches s = rw cl.blank

  pub split_from-then :
      (cur s : Text)
      → split_from is_letter false zero cur (then_between ++ s)
        ≡ cur ∷ split_from is_letter false zero [] s
  split_from-then cur s =
      split_from-match is_letter false space (codes "then ") cur s (then_matches s)
