-- ===== src/Lib.antt =====
-- A model of the route planner's backend: a web service that keeps places and users in PostgreSQL,
-- has a language model find tags in a user's text, chooses a place for each group of tags and asks
-- a route API for the legs between them.
--
-- A Go function that can fail is an `Eff W A`: from a world `W` it gives a value, an error or a panic,
-- and the world after it (Effects). The world is a parameter everywhere: the database, the cache, the
-- clock, HTTP and the libraries are records of such calls, and what is relied on of them is a record
-- of laws beside them (`IsTable`, `IsRedis`, `IsJwt`). Errors are the sentinels of the program, errors
-- known by their text, and wrapped errors, which `errors_is` looks through.
--
-- The files and the code, by its path in the repository:
--   Errors, Errors/Response   internal/errors
--   Models, Models/Ewkb       internal/models; `scan` is `Location.Scan`
--   Repository                internal/repository: the two interfaces; Repository/Gorm is the library,
--                             Repository/Places and Repository/Users are the implementations, and
--                             Repository/Queries is what the SQL of the tag queries selects
--   Travel                    internal/travelroutes: the interfaces; Travel/Segments is
--                             `splitSegments`, Travel/Tags `GetAllowedTags`, `GetByTags` and
--                             `AnalyzeRequest`, Travel/Route `BuildRouteFromTags`, Travel/Geoapify the
--                             route API client, Travel/Handlers the endpoints
--   Llm, Llm/Pool             internal/llm: `ExtractTags`, and `ExtractMultiTags` as the steps of the
--                             function and its goroutines, in any order
--   Validation                internal/validation
--   Auth                      internal/auth: tokens and the middleware
--   Places, Users             internal/places and internal/users: services and handlers;
--                             Users/AuthHandlers/Session is about a registration, a login and a request
--                             one after the other
--   Api                       the requests for one row, which internal/places and internal/users serve
--                             alike, and the store of rows they are compared with: Places/Requests,
--                             Places/Created and Users/Handlers/Requests
--   Redis                     internal/cache/redis.go; Redis/Refinement compares its calls with a map of
--                             values that expire
--   Config                    internal/configs/config.go: `mapEnvToStruct` over a description of a struct's
--                             fields; Config/Startup is the program's own struct and the first lines of
--                             `main`
--   Routing                   internal/router and the routes.go of the packages: Routing/App is what they
--                             register, Routing/Fiber what the framework does with it, and
--                             Routing/Requests what becomes of a request
--   Database                  pkg/db/database.go
--   Main                      cmd/main.go: the level of the log; Main/Boot is `main` up to the routes,
--                             Main/Serving what it registers before them, with the middleware that
--                             counts the requests, Main/Serving/Program a request through all of it,
--                             and Main/Shutdown its end, as the steps of its two goroutines
--   Json, Effects, Prelude    what Go and its library give to all of them
--
-- A handler takes the body as an option, `none` for one that does not parse, and returns an `Answer`.
-- Loops are structural recursion over the lists of the source, so that no fuel is needed. Text that
-- the program walks is a list of code points, and other text a native string; a float64 is its bit
-- pattern, since the program only passes it on. A duration is a 64-bit number of nanoseconds, whose
-- products wrap. The JWT library cuts the times of a token to the second: `numeric_date`.
--
-- The requests that the limiters count are told by a parameter, `hit`, and the dispatch of a request by
-- another, `serve`, with the laws that the framework documents (`IsFiber`); a path is its segments in
-- lower case. The goroutines of `ExtractMultiTags` and of `main` are step relations, so that a theorem
-- about all runs is one about all interleavings.
--
-- Not modelled: loggers, the making of the clients but for the two that can panic, the mocks of the
-- tests, and what the libraries for CORS, metrics and static files do with a request, which are
-- parameters. The database is a parameter: that it answers the SQL of the tag queries as their text
-- says is a law (`IsQueries`), and so is the distance of PostGIS. What PostgreSQL keeps of a new row
-- need not be the row that the insert returns: the text of a point has six decimals (`IsKept`), and
-- times may be rounded.
pub mod Api
pub mod Prelude
pub mod Errors
pub mod Effects
pub mod Main
pub mod Database
pub mod Models
pub mod Repository
pub mod Json
pub mod Travel
pub mod Validation
pub mod Auth
pub mod Places
pub mod Users
pub mod Llm
pub mod Redis
pub mod Config
pub mod Routing
