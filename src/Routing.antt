-- ===== src/Routing.antt =====
-- The routes: internal/router/router.go and the routes.go of internal/places, internal/users and
-- internal/travelroutes, with the middlewares that they put before the handlers.
pub mod App
pub mod Fiber
pub mod Registration
pub mod Requests
pub mod Tests
use route_planner.Prelude.{
  ℕ, ◌*◌, String, ◌<>◌, Bool, true, false, ◌||◌, Option, none, some, List, [], ◌∷◌, ◌++◌,
  if◌then◌else◌,
}
use route_planner.Prelude.Text.{Text}
use route_planner.Prelude.Int.{ℤ}
use route_planner.Effects.{Outcome, Eff, pure, crash, ◌>>=◌, respond, handle}
use route_planner.Errors.Response.{Answer, json, failure, plain}
use route_planner.Models.{
  Place, User, AuthResponse, PlaceCreateRequest, PlaceUpdateRequest, UserCreateRequest,
  UserUpdateRequest, LoginRequest,
}
use route_planner.Repository.{PlaceRepository, UserRepository}
use route_planner.Json.{JsonCodec}
use route_planner.Validation.{Validator, VarValidator}
use route_planner.Auth.{JwtLib, JwtService, jwt_middleware}
use route_planner.Places
use route_planner.Users.{Bcrypt}
use route_planner.Users.Handlers as UserHandlers
use route_planner.Travel.{RouteService}
use route_planner.Travel.Handlers.{RoutePreferencesRequest, BuildRouteRequest}

-- What a handler can answer with.
pub data Payload : Type 0 where
  place : Place → Payload
  place_done : Places.Done → Payload
  user : User → Payload
  user_done : UserHandlers.Done → Payload
  session : AuthResponse → Payload
  tag_groups : List (List String) → Payload
  text : String → Payload

abbrev pub Response : Type 0
Response = Answer Payload

abbrev pub answer_map : {A : Type 0} → (A → Payload) → Answer A → Response
answer_map f (json code a) = json code (f a)
answer_map f (failure code e) = failure code e
answer_map f (plain code s) = plain code s

-- The request, as `fiber.Ctx` hands it to the handlers: the client's address, `Locals("user_id")`, the
-- `Authorization` header, the parameter `id` of the path, and the body.
pub record Ctx (B : Type 0) : Type 0 where
  pub ip : String
  pub user_id : Option String
  pub authorization : Text
  pub id : String
  pub body : B

-- `c.BodyParser` at each type, which gives nothing for a body that does not parse.
pub record BodyParser (B : Type 0) : Type 0 where
  pub place_create : B → Option PlaceCreateRequest
  pub place_update : B → Option PlaceUpdateRequest
  pub user_create : B → Option UserCreateRequest
  pub user_update : B → Option UserUpdateRequest
  pub credentials : B → Option LoginRequest
  pub preferences : B → Option RoutePreferencesRequest
  pub build : B → Option BuildRouteRequest

-- `limiter.Config`, less the functions.
pub record LimiterConfig : Type 0 where
  pub max : ℤ
  pub expiration : ℕ
  pub sliding_window : Bool

-- The libraries that the handlers call: `hit` is the limiter's count of one more request under a key
-- in its storage, and tells whether the request is within the limit.
pub record Libraries (W B : Type 0) : Type 0 where
  pub parser : BodyParser B
  pub ids : VarValidator
  pub place_creates : Validator PlaceCreateRequest
  pub place_updates : Validator PlaceUpdateRequest
  pub user_creates : Validator UserCreateRequest
  pub user_updates : Validator UserUpdateRequest
  pub logins : Validator LoginRequest
  pub bcrypt : Bcrypt W
  pub jwt : JwtLib W
  pub codec : JsonCodec
  pub split : Text → List Text
  pub hit : LimiterConfig → String → W → Bool × W

-- The handlers and the service of `router.Config`; a nil pointer is `none`.
pub record RouterConfig (W : Type 0) : Type 0 where
  pub user_handler : Option (UserRepository W)
  pub auth_handler : Option (UserRepository W × JwtService)
  pub place_handler : Option (PlaceRepository W)
  pub route_handler : Option (RouteService W)
  pub jwt_service : Option JwtService

-- The limits of the configuration.
pub record Limits : Type 0 where
  pub place_create_limit_per_hour : ℤ
  pub route_build_total_per_day : ℤ
  pub route_build_user_per_30s : ℤ

pub data Verb : Type 0 where
  get : Verb
  post : Verb
  patch : Verb
  delete : Verb

-- A part of a route's path: a word, or the parameter `:id`.
pub data Part : Type 0 where
  word : String → Part
  param : Part

abbrev pub Handler : Type 0 → Type 0 → Type 0
Handler W B = Ctx B → Eff W Response

-- A middleware takes what `c.Next()` runs.
abbrev pub Middleware : Type 0 → Type 0 → Type 0
Middleware W B = Handler W B → Handler W B

-- What a program registers with the framework, in this order: a middleware under a prefix, or a route
-- with its handlers, the last of which does not call `c.Next()`.
pub data Entry (W B : Type 0) : Type 0 where
  use_under : List Part → Middleware W B → Entry W B
  route : Verb → List Part → Handler W B → Entry W B

-- The seconds of a limiter's window, in nanoseconds.
abbrev seconds : ℕ → ℕ
seconds n = n * 1_000_000_000

-- A key for the user, or else for the client's address.
abbrev pub client_key : {B : Type 0} → String → Ctx B → String
client_key {B} suffix c = elim c.user_id [ some u ↦ u <> suffix | none ↦ c.ip <> suffix ]

abbrev pub place_create_limiter : Limits → LimiterConfig
place_create_limiter l = record {
  max = l.place_create_limit_per_hour;
  expiration = seconds 3600;
  sliding_window = false;
}

abbrev pub global_daily_limiter : Limits → LimiterConfig
global_daily_limiter l = record {
  max = l.route_build_total_per_day;
  expiration = seconds 86400;
  sliding_window = false;
}

abbrev pub per_user_limiter : Limits → LimiterConfig
per_user_limiter l = record {
  max = l.route_build_user_per_30s;
  expiration = seconds 30;
  sliding_window = true;
}

abbrev pub hourly_reached : String
hourly_reached = "You have personally exceeded your hourly limit for creating reports."

abbrev pub daily_reached : String
daily_reached = "Sorry, the application-wide daily limit for this feature has been reached."

abbrev pub rate_reached : String
rate_reached =
    "You have personally exceeded your rate limit for this feature. Wait for 30 seconds and try again."
