-- ===== src/Travel/Route/Legs.antt =====
-- The second loop of `BuildRouteFromTags`: one leg to each place, in the order of the places.
use text.Mathlib.TextEquality.{eq_iff}
use mathlib.Core.List.{append_assoc, append-nil}
use route_planner.Prelude.{
  ◌≡◌, refl, sym, ap, ◌∙◌, String, Option, none, some, List, [], ◌∷◌, ◌++◌, arith, if◌then◌else◌,
}
use route_planner.Prelude.Text.{str_eq}
use route_planner.Effects.{ok, panic, lift, ok_injective, ◌>>=◌}
use route_planner.Effects.Laws.{>>=-eq-ok}
use route_planner.Models.{Location, Place}
use route_planner.Json.{Json, Fields, JsonCodec, set_field, get_field, end, field}
use route_planner.Travel.{RouteService}
use route_planner.Travel.Route.{annotate, build_legs}

get_field-set_field :
    (key j : String) (v : Json) (fs : Fields)
    → get_field j (set_field key v fs) ≡ (if str_eq key j then some v else get_field j fs)
unfolding get_field set_field
get_field-set_field key j v end = refl
get_field-set_field key j v (field k w fs) =
    ground (arith, eq_iff key j, eq_iff k key, eq_iff k j, get_field-set_field key j v fs)

-- The decoded answer with the place's name and description.
abbrev annotated : Place → Fields → Json
annotated p fields =
    Json.object (
      set_field "description" (Json.text p.description)
        (set_field "name" (Json.text p.name) fields))

-- The JSON value has this text under the key.
abbrev pub HasText : String → String → Json → Type 0
HasText key value (Json.object fs) = get_field key fs ≡ some (Json.text value)
HasText key value _ = ⊥

module _ {W : Type 0} (codec : JsonCodec) (s : RouteService W) where
  -- The leg from one location to a place: what the route API answered for the two, decoded, with the
  -- place's name and description set.
  pub record IsLeg (from : Location) (place : Place) (leg : Json) : Type 0 where
    pub before : W
    pub after : W
    pub answer : String
    pub fields : Fields
    pub asked : s.route_api.build_route from place.location before ≡ (ok answer, after)
    pub decoded : codec.unmarshal_map answer ≡ ok (some fields)
    pub named : HasText "name" place.name leg
    pub described : HasText "description" place.description leg

  -- The legs join the start with the places in their order, each leg starting where the one before
  -- it ended.
  abbrev pub AreLegs : Location → List Place → List Json → Type 0
  AreLegs from [] [] = Unit
  AreLegs from [] (_ ∷ _) = ⊥
  AreLegs from (_ ∷ _) [] = ⊥
  AreLegs from (p ∷ ps) (j ∷ js) = IsLeg from p j × AreLegs p.location ps js

  -- The first leg, and the rounds after it.
  record FirstLeg (full : List Json) (from : Location) (p : Place) (places : List Place)
      (out : List Json) (w' : W) : Type 0 where
    leg : Json
    after : W
    is_leg : IsLeg from p leg
    later : build_legs codec s (full ++ leg ∷ []) p.location places after ≡ (ok out, w')

  module _ (full : List Json) (from : Location) (p : Place) (places : List Place) (out : List Json)
      (w w' : W) where
    FirstLeg-of_fields :
        (answer : String) (w₁ w₂ : W) (decoded : Option Fields)
        → s.route_api.build_route from p.location w ≡ (ok answer, w₁)
        → codec.unmarshal_map answer ≡ ok decoded
        → (annotate p decoded >>= λ leg. build_legs codec s (full ++ leg ∷ []) p.location places) w₂
          ≡ (ok out, w')
        → FirstLeg full from p places out w'
    FirstLeg-of_fields answer w₁ w₂ none asked unmarshalled h = cc
    FirstLeg-of_fields answer w₁ w₂ (some fields) asked unmarshalled h = record {
      leg = annotated p fields;
      after = w₂;
      is_leg = record {
        before = w;
        after = w₁;
        answer = answer;
        fields = fields;
        asked = asked;
        decoded = unmarshalled;
        named = rw get_field-set_field (rw get_field-set_field refl);
        described = rw get_field-set_field refl;
      };
      later = h;
    }

    first_leg :
        build_legs codec s full from (p ∷ places) w ≡ (ok out, w')
        → FirstLeg full from p places out w'
    unfolding build_legs
    first_leg h =
        let (answer, w₁, asked, h₁) =
          >>=-eq-ok (s.route_api.build_route from p.location) _ w out w' h in
        let (decoded, w₂, unmarshalled, h₂) =
          >>=-eq-ok (lift (codec.unmarshal_map answer)) _ w₁ out w' h₁ in
        FirstLeg-of_fields answer w₁ w₂ decoded asked (ap (λ t. t.0) unmarshalled) h₂

  -- On success every place has its leg, after those that were there.
  pub build_legs-AreLegs :
      (full : List Json) (from : Location) (places : List Place) (out : List Json) (w w' : W)
      → build_legs codec s full from places w ≡ (ok out, w')
      → (legs : List Json) × (out ≡ full ++ legs) × AreLegs from places legs
  unfolding build_legs
  build_legs-AreLegs full from [] out w w' h =
      ([], sym (append-nil full ∙ ok_injective full out (ap (λ t. t.0) h)), tt)
  build_legs-AreLegs full from (p ∷ places) out w w' h =
      let f = first_leg full from p places out w w' h in
      let (legs, split, rest) =
        build_legs-AreLegs (full ++ f.leg ∷ []) p.location places out f.after w' f.later in
      (f.leg ∷ legs, split ∙ append_assoc full (f.leg ∷ []) legs, (f.is_leg, rest))

  -- An answer of the route API that is the JSON `null` makes the service panic: the decoded map is
  -- nil, and it is written to.
  pub build_legs_nil_map :
      (full : List Json) (from : Location) (p : Place) (places : List Place) (answer : String)
      (w w' : W)
      → s.route_api.build_route from p.location w ≡ (ok answer, w')
      → codec.unmarshal_map answer ≡ ok none
      → build_legs codec s full from (p ∷ places) w ≡ (panic, w')
  unfolding build_legs
  build_legs_nil_map full from p places answer w w' asked decoded = rw (asked, decoded)
