-- ===== src/Travel/Geoapify.antt =====
-- internal/travelroutes/geoapify_client.go
pub mod Laws
pub mod Tests
use route_planner.Prelude.{
  ℕ, ◌==◌, String, ◌<>◌, Option, none, some, List, [], ◌∷◌, ◌++◌, if◌then◌else◌,
}
use route_planner.Prelude.Text.{Text, codes}
use route_planner.Prelude.Int.{ℤ, scale64, is_negative, ltb_int}
use route_planner.Errors.{GoError, sentinel, other, deadline_exceeded}
use route_planner.Effects.{Eff, pure, throw, modify, ◌>>=◌, ◌>>◌}
use route_planner.Models.{Location, Float64}
use route_planner.Travel.{RouterApiClient}

-- What an HTTP call comes back with: status, body and the errors of fiber's agent.
pub record HttpReply : Type 0 where
  pub status : ℕ
  pub body : String
  pub errors : List GoError

-- The calls of the client: `fmt`'s `%f` and `%d`, the time until the context's deadline (if it has
-- one), the request counter, and a GET with a timeout.
pub record GeoapifyCalls (W : Type 0) : Type 0 where
  pub show_float : Float64 → Text
  pub show_status : ℕ → String
  pub until_deadline : Eff W (Option ℤ)
  pub count_request : W → W
  pub get : Text → ℤ → Eff W HttpReply

-- `GeoapifyClient`, less its logger.
pub record GeoapifyClient : Type 0 where
  pub apikey : Text
  pub timeout : ℤ

-- `time.Second`
abbrev second : ℕ
second = 1_000_000_000

pub new_geoapify_client : Text → ℤ → GeoapifyClient
new_geoapify_client apikey timeout = record { apikey = apikey; timeout = scale64 timeout second }

module _ {W : Type 0} (calls : GeoapifyCalls W) (c : GeoapifyClient) where
  pub route_url : Location → Location → Text
  route_url origin destination =
      codes "https://api.geoapify.com/v1/routing?waypoints="
      ++ (calls.show_float origin.latitude
          ++ (codes ","
              ++ (calls.show_float origin.longitude
                  ++ (codes "|"
                      ++ (calls.show_float destination.latitude
                          ++ (codes ","
                              ++ (calls.show_float destination.longitude
                                  ++ (codes "&mode=walk&apiKey=" ++ c.apikey))))))))

  abbrev check_status : HttpReply → Eff W String
  check_status reply =
      if reply.status == 200
      then pure reply.body
      else throw (other ("geoapify returned status: " <> calls.show_status reply.status))

  -- The checks of the reply, in the source's order.
  abbrev read_errors : HttpReply → List GoError → Eff W String
  read_errors reply [] = check_status reply
  read_errors reply (e ∷ _) = throw e

  abbrev read_reply : HttpReply → Eff W String
  read_reply reply = read_errors reply reply.errors

  abbrev request : Text → ℤ → Eff W String
  request url timeout = modify calls.count_request >> (calls.get url timeout >>= read_reply)

  -- The timeout is the client's, or what remains until the deadline if that is less.
  abbrev limited : Text → Option ℤ → Eff W String
  limited url none = request url c.timeout
  limited url (some remaining) =
      if is_negative remaining
      then throw (sentinel deadline_exceeded)
      else request url (if ltb_int remaining c.timeout then remaining else c.timeout)

  pub build_route : Location → Location → Eff W String
  unfolding route_url
  build_route origin destination = calls.until_deadline >>= limited (route_url origin destination)

  -- The client behind the service's interface.
  abbrev pub router_api : RouterApiClient W
  router_api = record { build_route = build_route }
