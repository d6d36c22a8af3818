-- ===== src/Routing/Fiber.antt =====
-- How the framework serves a request to the routes that internal/router registers.
use route_planner.Prelude.{
  ◌≡◌, refl, ◌∙◌, String, Bool, true, false, ◌&&◌, List, [], ◌∷◌, ◌++◌, not, and_both, not-true,
}
use route_planner.Prelude.Text.{str_eq}
use route_planner.Routing.{
  Verb, get, post, patch, delete, Part, word, param, Ctx, Handler, Entry, use_under, route,
}

abbrev pub same_verb : Verb → Verb → Bool
same_verb get get = true
same_verb post post = true
same_verb patch patch = true
same_verb delete delete = true
same_verb a b = false

abbrev same_part : Part → String → Bool
same_part (word w) segment = str_eq w segment
same_part param segment = true

-- A path is the list of its segments in lower case, which is how the framework compares them.
-- The segments are those that a route names, a parameter standing for any one of them.
abbrev pub is_path : List Part → List String → Bool
is_path [] [] = true
is_path (p ∷ parts) (s ∷ path) = same_part p s && is_path parts path
is_path parts path = false

-- A path begins with the segments that a group names.
abbrev pub is_under : List Part → List String → Bool
is_under [] path = true
is_under (p ∷ parts) (s ∷ path) = same_part p s && is_under parts path
is_under (p ∷ parts) [] = false

abbrev pub fits : Verb → List Part → Verb → List String → Bool
fits v parts v' path = same_verb v v' && is_path parts path

-- What the framework serves to a verb and a path with what is registered.
abbrev pub Serve : Type 0 → Type 0 → Type 0
Serve W B = List (Entry W B) → Verb → List String → Handler W B

-- What the framework documents: it goes down what is registered, in the order of registration, to the
-- first that fits; a middleware's `c.Next()` goes on from there.
pub record IsFiber {W B : Type 0} (serve : Serve W B) : Type 0 where
  pub use_match :
      (parts : List Part) (m : Handler W B → Handler W B) (rest : List (Entry W B)) (v : Verb)
      (path : List String)
      → is_under parts path ≡ true
      → (c : Ctx B) (w : W)
      → serve (use_under parts m ∷ rest) v path c w ≡ m (serve rest v path) c w
  pub route_match :
      (v : Verb) (parts : List Part) (h : Handler W B) (rest : List (Entry W B)) (v' : Verb)
      (path : List String)
      → fits v parts v' path ≡ true
      → (c : Ctx B) (w : W) → serve (route v parts h ∷ rest) v' path c w ≡ h c w
  pub route_miss :
      (v : Verb) (parts : List Part) (h : Handler W B) (rest : List (Entry W B)) (v' : Verb)
      (path : List String)
      → fits v parts v' path ≡ false
      → (c : Ctx B) (w : W) → serve (route v parts h ∷ rest) v' path c w ≡ serve rest v' path c w

module _ {W B : Type 0} where
  -- None of these is for the request.
  abbrev pub is_elsewhere : List (Entry W B) → Verb → List String → Bool
  is_elsewhere [] v path = true
  is_elsewhere (use_under parts m ∷ rest) v path = false
  is_elsewhere (route v' parts h ∷ rest) v path =
      not (fits v' parts v path) && is_elsewhere rest v path

  pub serve_elsewhere :
      {serve : Serve W B}
      → IsFiber serve
      → (entries rest : List (Entry W B)) (v : Verb) (path : List String)
      → is_elsewhere entries v path ≡ true
      → (c : Ctx B) (w : W) → serve (entries ++ rest) v path c w ≡ serve rest v path c w
  serve_elsewhere fiber [] rest v path h c w = refl
  serve_elsewhere fiber (use_under parts m ∷ entries) rest v path h c w = cc
  serve_elsewhere fiber (route v' parts handler ∷ entries) rest v path h c w =
      let (here, there) = and_both _ _ h in
      fiber.route_miss v' parts handler (entries ++ rest) v path (not-true _ here) c w
      ∙ serve_elsewhere fiber entries rest v path there c w
