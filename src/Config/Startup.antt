-- ===== src/Config/Startup.antt =====
-- `Config`, `LoadConfig` and `ValidateConfig` of internal/configs/config.go, and the start of `main`
-- in cmd/main.go that calls them.
pub mod Required
pub mod Laws
use route_planner.Prelude.{ℕ, String, ◌<>◌, Option, none, some, List, [], ◌∷◌}
use route_planner.Errors.{GoError, wrapped, error_text}
use route_planner.Effects.{Outcome, ok, err, panic}
use route_planner.Config.{
  Kind, string_kind, int_kind, FieldSpec, Fields, end, leaf, struct, Values, Environment, ◌>>=◌,
  map_env_to_struct,
}

-- A field with its tags: name, kind, `env`, `default` and `validate`.
abbrev spec : String → Kind → String → String → String → FieldSpec
spec name kind env default validate = record {
  name = name;
  kind = kind;
  env = env;
  default = default;
  validate = validate;
}

-- `fields`, one after the other.
abbrev leaves : List FieldSpec → Fields
leaves [] = end
leaves (f ∷ fs) = leaf f (leaves fs)

abbrev pub server_fields : List FieldSpec
server_fields =
    spec "Port" string_kind "SERVER_PORT" "8080" ""
    ∷ spec "LogLevel" string_kind "LOG_LEVEL" "info" ""
    ∷ spec "AllowOrigins" string_kind "ALLOW_ORIGINS" "" "required"
    ∷ spec "MaxConnections" int_kind "MAX_CONNECTIONS" "10000" ""
    ∷ spec "ReadTimeout" int_kind "READ_TIMEOUT" "10" ""
    ∷ spec "WriteTimeout" int_kind "WRITE_TIMEOUT" "20" ""
    ∷ spec "IdleTimeout" int_kind "IDLE_TIMEOUT" "60" ""
    ∷ spec "PlaceCreateLimitPerHour" int_kind "PLACE_CREATE_LIMIT_PER_HOUR" "100" ""
    ∷ spec "RouteBuildTotalPerDay" int_kind "ROUTE_BUILD_TOTAL_PER_DAY" "1000" ""
    ∷ spec "RouteBuildUserPer30S" int_kind "ROUTE_BUILD_USER_PER_30S" "5" ""
    ∷ spec "CacheTagsRefreshTimeMin" int_kind "CACHE_TAGS_REFRESH_TIME_MIN" "60" ""
    ∷ []

abbrev pub db_fields : List FieldSpec
db_fields = spec "DatabaseURL" string_kind "DATABASE_URL" "" "required" ∷ []

abbrev pub cache_fields : List FieldSpec
cache_fields =
    spec "RedisHost" string_kind "REDIS_HOST" "" "required"
    ∷ spec "RedisPort" string_kind "REDIS_PORT" "" "required"
    ∷ spec "RedisPassword" string_kind "REDIS_PASSWORD" "" "required"
    ∷ []

abbrev pub llm_fields : List FieldSpec
llm_fields = spec "OllamaURL" string_kind "OLLAMA_URL" "" "required" ∷ []

abbrev pub api_fields : List FieldSpec
api_fields =
    spec "GeoapifyAPIKey" string_kind "GEOAPIFY_API_KEY" "" "required"
    ∷ spec "ReqTimeout" int_kind "GEOAPIFY_REQ_TIMEOUT" "" "required"
    ∷ []

abbrev pub auth_fields : List FieldSpec
auth_fields =
    spec "JWTSecret" string_kind "JWT_SECRET" "" "required"
    ∷ spec "JWTExpirationHours" int_kind "JWT_EXPIRATION_HOURS" "24" ""
    ∷ []

-- `Config`
abbrev pub config_fields : Fields
config_fields = struct "Server" (leaves server_fields) (
    struct "DB" (leaves db_fields) (
      struct "Cache" (leaves cache_fields) (
        struct "LLM" (leaves llm_fields)
          (struct "API" (leaves api_fields) (struct "Auth" (leaves auth_fields) (end))))))

-- The library's `validate.Struct`, by the `validate` tags.
pub record StructValidator : Type 0 where
  pub check : Fields → Values → Option GoError

-- What the start of the program comes to: a panic, an exit with a code, or the loaded values.
pub data Start : Type 0 where
  panicked : Start
  exited : ℕ → Start
  loaded : Values → Start

abbrev load_or_panic : Outcome Values → Outcome Values
load_or_panic (ok cfg) = ok cfg
load_or_panic (err e) = panic
load_or_panic panic = panic

abbrev validated : Values → Option GoError → Outcome Values
validated cfg none = ok cfg
validated cfg (some e) = err (wrapped ("config validation failed: " <> error_text e) e)

abbrev started : Outcome Values → Start
started (ok cfg) = loaded cfg
started (err e) = exited 1
started panic = panicked

module _ (e : Environment) (v : StructValidator) where
  -- `LoadConfig`, which panics on an error.
  unfoldable pub load_config : Outcome Values
  unfolding map_env_to_struct
  load_config = load_or_panic (map_env_to_struct e config_fields)

  unfoldable pub validate_config : Values → Outcome Values
  validate_config cfg = validated cfg (v.check config_fields cfg)

  -- The first lines of `main`.
  unfoldable pub start_config : Start
  unfolding load_config validate_config
  start_config = started (load_config >>= validate_config)
