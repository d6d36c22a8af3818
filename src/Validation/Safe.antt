-- ===== src/Validation/Safe.antt =====
-- The unsafe pattern against a description of what it matches.
use mathlib.Core.List.{append_assoc}
use route_planner.Prelude.{
  ℕ, ◌≡◌, refl, sym, ap, subst, inl, inr, ◌↔◌, Bool, true, false, ◌||◌, List, [], ◌∷◌, ◌++◌, arith,
  All, Any, any, ◌==◌, ==_iff, Bool-cases,
}
use route_planner.Prelude.Text.{Text}
use route_planner.Validation.{
  is_word_char, event_rest, event_name, starts_with, brackets, unsafe_words, starts_bracket,
  starts_event, unsafe_here, match_string, is_safe_content,
}

-- The texts that the pattern matches: a bracket, one of the words, or an event attribute such as
-- "onclick=".
pub data IsUnsafe : Text → Type 0 where
  bracket : (c : ℕ) → any (λ b. b == c) brackets ≡ true → IsUnsafe (c ∷ [])
  word : (w : Text) → Any (λ u. w ≡ u) unsafe_words → IsUnsafe w
  event :
      (c : ℕ) (name : Text)
      → All (λ d. is_word_char d ≡ true) (c ∷ name)
      → IsUnsafe (b'o' ∷ b'n' ∷ c ∷ (name ++ b'=' ∷ []))

starts_with_lem : (p s : Text) → starts_with p s ≡ true → (rest : Text) × (s ≡ p ++ rest)
starts_with_lem [] s h = (s, refl)
starts_with_lem (p ∷ ps) [] h = cc
starts_with_lem (p ∷ ps) (c ∷ s) h =
    let (rest, e) = starts_with_lem ps s (ground arith) in
    let same : p ≡ c = ground arith in (rest, rw (same, e))

starts_with-append : (p rest : Text) → starts_with p (p ++ rest) ≡ true
starts_with-append [] rest = refl
starts_with-append (p ∷ ps) rest = ground (arith, starts_with-append ps rest)

event_rest_lem :
    (s : Text)
    → event_rest s ≡ true
    → (name : Text) × (rest : Text) × All (λ d. is_word_char d ≡ true) name
      × (s ≡ name ++ (b'=' ∷ rest))
unfolding event_rest
event_rest_lem [] h = cc
event_rest_lem (c ∷ s) h = elim (Bool-cases (c == b'=')) [
  | inl closed ↦ ([], s, tt, ap (λ d. d ∷ s) ((==_iff c b'=').0 closed))
  | inr open_name ↦
      let (name, rest, good, e) = event_rest_lem s (ground arith) in
      (c ∷ name, rest, (ground arith, good), ap (λ r. c ∷ r) e)
]

event_rest-append :
    (name rest : Text)
    → All (λ d. is_word_char d ≡ true) name
    → event_rest (name ++ (b'=' ∷ rest)) ≡ true
unfolding event_rest
event_rest-append [] rest h = refl
event_rest-append (c ∷ name) rest h = ground (arith, event_rest-append name rest h.1)

-- An unsafe text at the head of another one.
record HasUnsafePrefix (s : Text) : Type 0 where
  bad : Text
  rest : Text
  split : s ≡ bad ++ rest
  unsafe : IsUnsafe bad

-- An unsafe text somewhere in another one.
pub record HasUnsafe (s : Text) : Type 0 where
  pub before : Text
  pub bad : Text
  pub after : Text
  pub split : s ≡ before ++ (bad ++ after)
  pub unsafe : IsUnsafe bad

starts_bracket_sound : (s : Text) → starts_bracket s ≡ true → HasUnsafePrefix s
starts_bracket_sound [] h = cc
starts_bracket_sound (c ∷ s) h = record {
  bad = c ∷ [];
  rest = s;
  split = refl;
  unsafe = bracket c h;
}

words_sound :
    (words : List Text) (s : Text)
    → any (λ w. starts_with w s) words ≡ true
    → (w : Text) × (rest : Text) × Any (λ u. w ≡ u) words × (s ≡ w ++ rest)
words_sound [] s h = cc
words_sound (w ∷ words) s h = elim (Bool-cases (starts_with w s)) [
  | inl here ↦ let (rest, e) = starts_with_lem w s here in (w, rest, inl refl, e)
  | inr missing ↦
      let (u, rest, listed, e) = words_sound words s (rw missing at h) in (u, rest, inr listed, e)
]

starts_event_sound : (s : Text) → starts_event s ≡ true → HasUnsafePrefix s
unfolding event_name
starts_event_sound [] h = cc
starts_event_sound (o ∷ []) h = cc
starts_event_sound (o ∷ n ∷ []) h = ground arith
starts_event_sound (o ∷ n ∷ c ∷ s) h =
    let (name, rest, good, e) = event_rest_lem s (ground arith) in
    let eo : o ≡ b'o' = ground arith in
    let en : n ≡ b'n' = ground arith in
    let first : is_word_char c ≡ true = ground arith in
    record {
      bad = b'o' ∷ b'n' ∷ c ∷ (name ++ b'=' ∷ []);
      rest = rest;
      split = rw (eo, en, e, append_assoc);
      unsafe = event c name (first, good);
    }

unsafe_here_sound : (s : Text) → unsafe_here s ≡ true → HasUnsafePrefix s
unfolding unsafe_here
unsafe_here_sound s h = elim (Bool-cases (starts_bracket s)) [
  | inl b ↦ starts_bracket_sound s b
  | inr nb ↦ elim (Bool-cases (any (λ w. starts_with w s) unsafe_words)) [
    | inl w ↦
        let (u, rest, listed, e) = words_sound unsafe_words s w in
        record { bad = u; rest = rest; split = e; unsafe = word u listed }
    | inr nw ↦ starts_event_sound s (rw (nb, nw) at h)
  ]
]

match_string_sound : (s : Text) → match_string s ≡ true → HasUnsafe s
unfolding match_string
match_string_sound [] h =
    let p = unsafe_here_sound [] h in
    record { before = []; bad = p.bad; after = p.rest; split = p.split; unsafe = p.unsafe }
match_string_sound (c ∷ s) h = elim (Bool-cases (unsafe_here (c ∷ s))) [
  | inl here ↦
      let p = unsafe_here_sound (c ∷ s) here in
      record { before = []; bad = p.bad; after = p.rest; split = p.split; unsafe = p.unsafe }
  | inr missing ↦
      let p = match_string_sound s (rw missing at h) in
      record {
        before = c ∷ p.before;
        bad = p.bad;
        after = p.after;
        split = ap (λ r. c ∷ r) p.split;
        unsafe = p.unsafe;
      }
]

words_complete :
    (words : List Text) (w rest : Text)
    → Any (λ u. w ≡ u) words
    → any (λ u. starts_with u (w ++ rest)) words ≡ true
words_complete [] w rest h = absurd h
words_complete (u ∷ words) w rest (inl e) = rw e (rw (starts_with-append u rest))
words_complete (u ∷ words) w rest (inr later) = ground (arith, words_complete words w rest later)

unsafe_here_complete : (bad rest : Text) → IsUnsafe bad → unsafe_here (bad ++ rest) ≡ true
unfolding unsafe_here event_name
unsafe_here_complete bad rest (bracket c h) = rw h
unsafe_here_complete bad rest (word w h) = ground (arith, words_complete unsafe_words w rest h)
unsafe_here_complete bad rest (event c name h) =
    let closed : event_rest ((name ++ b'=' ∷ []) ++ rest) ≡ true =
      rw append_assoc (event_rest-append name rest h.1) in
    rw (h.0, closed)

or_true : (b : Bool) → (b || true) ≡ true
or_true true = refl
or_true false = refl

found : (before rest : Text) → unsafe_here rest ≡ true → match_string (before ++ rest) ≡ true
unfolding match_string
found [] [] h = h
found [] (c ∷ rest) h = rw h
found (c ∷ before) rest h = rw (found before rest h) (or_true (unsafe_here (c ∷ (before ++ rest))))

match_string_complete : (s : Text) → HasUnsafe s → match_string s ≡ true
match_string_complete s h =
    subst (λ t. match_string t ≡ true) (sym h.split)
      (found h.before (h.bad ++ h.after) (unsafe_here_complete h.bad h.after h.unsafe))

-- A text is refused as unsafe exactly when some part of it is one of the unsafe texts.
pub is_safe_content_iff : (s : Text) → (is_safe_content s ≡ false) ↔ HasUnsafe s
unfolding is_safe_content
is_safe_content_iff s =
    (λ h. match_string_sound s (ground arith), λ u. rw (match_string_complete s u))
