-- ===== src/Routing/Tests.antt =====
-- The libraries of the handlers, with limiters that let every request through, and a dispatch that keeps the
-- laws of the framework, for the tests.
use route_planner.Prelude.{refl, true, if◌then◌else◌, none, [], ◌∷◌}
use route_planner.Prelude.Text.{codes}
use route_planner.Errors.Response.{plain}
use route_planner.Effects.{ok}
use route_planner.Auth.Tests as AuthTests
use route_planner.Places.Tests as PlaceTests
use route_planner.Travel.Handlers.Tests as TravelTests
use route_planner.Users.AuthHandlers.Session.Tests as SessionTests
use route_planner.Routing.{Ctx, Libraries, use_under, route}
use route_planner.Routing.Fiber.{Serve, IsFiber, fits, is_under}

abbrev pub serve : {W B : Type 0} → Serve W B
serve [] v path c w = (ok (plain 404 "Not Found"), w)
serve (use_under parts m ∷ rest) v path c w =
    let next = serve rest v path in if is_under parts path then m next c w else next c w
serve (route v' parts h ∷ rest) v path c w =
    let next = serve rest v path c w in if fits v' parts v path then h c w else next

pub serve-IsFiber : {W B : Type 0} → IsFiber {W = W} {B = B} serve
serve-IsFiber = record {
  use_match = λ parts m rest v path h c w. rw h refl;
  route_match = λ v parts h rest v' path e c w. rw e refl;
  route_miss = λ v parts h rest v' path e c w. rw e refl;
}

abbrev pub libs : Libraries (Unit {0}) (Unit {0})
libs = record {
  parser = record {
    place_create = λ body. none;
    place_update = λ body. none;
    user_create = λ body. none;
    user_update = λ body. none;
    credentials = λ body. none;
    preferences = λ body. none;
    build = λ body. none;
  };
  ids = PlaceTests.ids;
  place_creates = PlaceTests.accepts;
  place_updates = PlaceTests.accepts;
  user_creates = PlaceTests.accepts;
  user_updates = PlaceTests.accepts;
  logins = PlaceTests.accepts;
  bcrypt = SessionTests.bcrypt;
  jwt = AuthTests.lib;
  codec = TravelTests.codec;
  split = λ text. [];
  hit = λ config key w. (true, w);
}

abbrev pub request : Ctx (Unit {0})
request = record {
  ip = "10.0.0.1";
  user_id = none;
  authorization = codes "Bearer t";
  id = "";
  body = tt;
}
