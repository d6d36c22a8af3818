-- ===== src/Redis.antt =====
-- internal/cache/redis.go: the cache of the allowed tags, over the Redis client and `encoding/json`.
pub mod Refinement
pub mod Tests
use route_planner.Prelude.{String, List}
use route_planner.Prelude.Text.{Text}
use route_planner.Prelude.Int.{ℤ}
use route_planner.Effects.{Outcome, Eff, lift, ◌>>=◌}
use route_planner.Travel.{Cache}

-- `client.Get(ctx, key).Bytes()` and `client.Set(ctx, key, data, ttl).Err()`
pub record RedisClient (W : Type 0) : Type 0 where
  pub get : String → Eff W Text
  pub set : String → Text → ℤ → Eff W (Unit {0})

-- `json.Marshal` and `json.Unmarshal` at the cache's type.
pub record ValueCodec (A : Type 0) : Type 0 where
  pub marshal : A → Outcome Text
  pub unmarshal : Text → Outcome A

module _ {W A : Type 0} (client : RedisClient W) (codec : ValueCodec A) where
  pub get : String → Eff W A
  get key = client.get key >>= λ val. lift (codec.unmarshal val)

  pub set : String → A → ℤ → Eff W (Unit {0})
  set key value ttl = lift (codec.marshal value) >>= λ encoded. client.set key encoded ttl

-- The cache behind the interface of the route service.
abbrev pub redis_cache : {W : Type 0} → RedisClient W → ValueCodec (List String) → Cache W
redis_cache client codec = record { get = get client codec; set = set client codec }
