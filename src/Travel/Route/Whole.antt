-- ===== src/Travel/Route/Whole.antt =====
-- `BuildRouteFromTags` as a whole.
use route_planner.Prelude.{◌≡◌, refl, ap, String, Bool, List, [], ◌≤◌, length, arith}
use route_planner.Errors.{GoError}
use route_planner.Effects.{ok, err}
use route_planner.Effects.Laws.{>>=-eq-ok}
use route_planner.Models.{Location, Float64, Place}
use route_planner.Json
use route_planner.Json.{Json, JsonCodec}
use route_planner.Travel.{RouteService}
use route_planner.Travel.Route.{
  choose_places, build_legs, feature_collection, build_route_from_tags,
}
use route_planner.Travel.Route.Choice.{
  HasDistinctIds, choose_places-HasDistinctIds, length-choose_places,
}
use route_planner.Travel.Route.Best.{AreStops, choose_places-AreStops}
use route_planner.Repository.Queries.Refinement.{IsFinder}
use route_planner.Travel.Route.Legs.{AreLegs, build_legs-AreLegs}

module _ {W : Type 0} (codec : JsonCodec) (s : RouteService W) where
  -- What a built route is: at most one place for each group of tags, no ID twice, a leg to each place
  -- from the one before it, and the text that encodes the legs.
  pub record IsRoute (groups : List (List String)) (start : Location) (text : String) : Type 0 where
    pub places : List Place
    pub legs : List Json
    pub few : length places ≤ length groups
    pub distinct : HasDistinctIds places
    pub joined : AreLegs codec s start places legs
    pub encoded : codec.marshal (feature_collection codec s legs) ≡ ok text

  -- A request that is answered with a text has built a route for its groups of tags and its start.
  pub build_route_from_tags-IsRoute :
      (groups : List (List String)) (start : Location) (radius : Float64) (text : String) (w w' : W)
      → build_route_from_tags codec s groups start radius w ≡ (ok text, w')
      → IsRoute groups start text
  unfolding build_route_from_tags
  build_route_from_tags-IsRoute groups start radius text w w' h =
      let (places, w₁, chosen, h₁) =
        >>=-eq-ok (choose_places s radius groups start []) _ w text w' h in
      let (full, w₂, built, encoded) =
        >>=-eq-ok (build_legs codec s [] start places) _ w₁ text w' h₁ in
      let (legs, split, joined) = build_legs-AreLegs codec s [] start places full w₁ w₂ built in
      record {
        places = places;
        legs = legs;
        few = omega (arith, length-choose_places s radius groups start [] places w w₁ chosen);
        distinct = choose_places-HasDistinctIds s radius groups start places w w₁ chosen;
        joined = joined;
        encoded = rw (← split) (ap (λ t. t.0) encoded);
      }

  -- A first loop that fails ends the request with its error, in the world that it left: the route API
  -- is not called.
  pub build_route_unchosen :
      (groups : List (List String)) (start : Location) (radius : Float64) (e : GoError) (w w' : W)
      → choose_places s radius groups start [] w ≡ (err e, w')
      → build_route_from_tags codec s groups start radius w ≡ (err e, w')
  unfolding build_route_from_tags
  build_route_unchosen groups start radius e w w' h = rw h

  -- A request with no group succeeds without a call, and its `segments` is `null`, not an empty array.
  pub build_route_empty :
      (start : Location) (radius : Float64) (w : W)
      → build_route_from_tags codec s [] start radius w ≡ (
        codec.marshal (
            Json.object (
              Json.field "type"
                (Json.text "FeatureCollection")
                (Json.field "segments" Json.null Json.end))),
        w,
      )
  unfolding build_route_from_tags choose_places build_legs
  build_route_empty start radius w = refl

module _ {W : Type 0} (codec : JsonCodec) (s : RouteService W)
    (dwithin : Location → Location → Float64 → Bool) where
  -- A route whose stops are the best candidates of the rows, with a leg to each stop from the one before
  -- it, and the text that encodes the legs.
  pub record IsBestRoute (table : List Place) (groups : List (List String)) (start : Location)
      (radius : Float64) (text : String) : Type 0 where
    pub stops : List Place
    pub legs : List Json
    pub chosen : AreStops dwithin table radius groups start [] stops
    pub joined : AreLegs codec s start stops legs
    pub encoded : codec.marshal (feature_collection codec s legs) ≡ ok text

module _ {W : Type 0} (codec : JsonCodec) (s : RouteService W) {rows : W → List Place}
    {dwithin : Location → Location → Float64 → Bool} (finder : IsFinder s.repo rows dwithin) where
  -- Over a repository that finds the best places first, a request that is answered with a text has
  -- built a route for its groups of tags: from stop to stop, the next one is a place of the table that
  -- is not deleted, has a tag of the group, lies within the radius of the stop before it and is not in
  -- the route yet, and no other such place has more tags of the group. A group whose candidates are
  -- all in the route adds no stop; the search goes on from one of them with the most tags. Each stop has
  -- its leg from the one before it.
  pub build_route_from_tags-IsBestRoute :
      (groups : List (List String)) (start : Location) (radius : Float64) (text : String) (w w' : W)
      → build_route_from_tags codec s groups start radius w ≡ (ok text, w')
      → IsBestRoute codec s dwithin (rows w) groups start radius text
  unfolding build_route_from_tags
  build_route_from_tags-IsBestRoute groups start radius text w w' h =
      let (stops, w₁, chosen, h₁) =
        >>=-eq-ok (choose_places s radius groups start []) _ w text w' h in
      let (full, w₂, built, encoded) =
        >>=-eq-ok (build_legs codec s [] start stops) _ w₁ text w' h₁ in
      let (legs, split, joined) = build_legs-AreLegs codec s [] start stops full w₁ w₂ built in
      record {
        stops = stops;
        legs = legs;
        chosen = choose_places-AreStops s finder radius groups start [] stops w w₁ chosen;
        joined = joined;
        encoded = rw (← split) (ap (λ t. t.0) encoded);
      }
