-- ===== src/Redis/Refinement.antt =====
-- The cache over Redis against a map from keys to values that expire.
use route_planner.Prelude.{
  ℕ, ◌≡◌, ◌≢◌, String, Bool, true, Option, none, some, List, [], ◌∷◌, if◌then◌else◌, ltb,
}
use route_planner.Prelude.Text.{Text, str_eq}
use route_planner.Prelude.Int.{ℤ}
use route_planner.Errors.{GoError}
use route_planner.Effects.{Outcome, ok, err, panic}
use route_planner.Redis.{RedisClient, ValueCodec, get, set}

-- An entry lives before its deadline, if it has one.
abbrev pub fresh_at : ℕ → Option ℕ → Bool
fresh_at now none = true
fresh_at now (some deadline) = ltb now deadline

-- What is under a key, with its deadline.
abbrev pub Store : Type 0 → Type 0
Store A = String → Option (A × Option ℕ)

-- What a lookup finds.
abbrev pub lookup : {A : Type 0} → ℕ → Option (A × Option ℕ) → Option A
lookup now none = none
lookup now (some (v, until)) = if fresh_at now until then some v else none

abbrev pub stored : {A : Type 0} → Store A → String → A → Option ℕ → Store A
stored m key value until j = if str_eq j key then some (value, until) else m j

-- What Redis documents of a server that answers: `time` is its clock, `held` what was last written, and
-- `deadline` what it makes of a time to live. A read gives the text until the deadline, and an error
-- (`redis.Nil`) from then on and where there is nothing; a write that is confirmed is there, with the
-- deadline that its time to live gives it, and has changed no other key. The clock goes on in any call,
-- and between the calls, in `rest`, no one else writes.
pub record IsRedis {W : Type 0} (client : RedisClient W) (rest : W → W) (time : W → ℕ)
    (deadline : ℕ → ℤ → Option ℕ) (held : W → Store Text) : Type 0 where
  pub get_live :
      (key : String) (encoded : Text) (w : W)
      → lookup (time w) (held w key) ≡ some encoded
      → (client.get key w).0 ≡ ok encoded
  pub get_missing :
      (key : String) (w : W)
      → lookup (time w) (held w key) ≡ none
      → (e : GoError) × ((client.get key w).0 ≡ err e)
  pub get_reads : (key j : String) (w : W) → held (client.get key w).1 j ≡ held w j
  pub set_held :
      (key : String) (encoded : Text) (ttl : ℤ) (w w' : W)
      → client.set key encoded ttl w ≡ (ok tt, w')
      → held w' key ≡ some (encoded, deadline (time w) ttl)
  pub set_others :
      (key j : String) (encoded : Text) (ttl : ℤ) (w w' : W)
      → client.set key encoded ttl w ≡ (ok tt, w')
      → j ≢ key
      → held w' j ≡ held w j
  pub rest_keeps : (j : String) (w : W) → held (rest w) j ≡ held w j

-- What `encoding/json` documents of a list of strings: what it encodes it decodes again.
pub record IsCodec {A : Type 0} (codec : ValueCodec A) : Type 0 where
  pub decode_encoded :
      (value : A) (encoded : Text)
      → codec.marshal value ≡ ok encoded
      → codec.unmarshal encoded ≡ ok value

-- The calls on a cache, and what goes on between them.
pub data CacheOp (A : Type 0) : Type 0 where
  read : String → CacheOp A
  store : String → A → ℤ → CacheOp A
  pause : CacheOp A

-- A read that fails is a miss.
abbrev pub value_of : {A : Type 0} → Outcome A → Option A
value_of (ok v) = some v
value_of (err e) = none
value_of panic = none

module _ {W A : Type 0} (client : RedisClient W) (codec : ValueCodec A) (rest : W → W)
    (time : W → ℕ) (deadline : ℕ → ℤ → Option ℕ) where
  -- A write that fails ends what is said of the calls.
  abbrev pub After : Outcome (Unit {0}) × W → (W → Type 0) → Type 0
  After (ok _, w) P = P w
  After (err e, w) P = Unit
  After (panic, w) P = Unit

  -- The program's cache answers the reads as the map does.
  abbrev pub Agrees : List (CacheOp A) → W → Store A → Type 0
  Agrees [] w m = Unit
  Agrees (read key ∷ ops) w m =
      (value_of (get client codec key w).0 ≡ lookup (time w) (m key))
      × Agrees ops (get client codec key w).1 m
  Agrees (store key value ttl ∷ ops) w m =
      After (set client codec key value ttl w)
        (λ w'. Agrees ops w' (stored m key value (deadline (time w) ttl)))
  Agrees (pause ∷ ops) w m = Agrees ops (rest w) m

  -- The text is that of the value and they have one deadline, or both are missing.
  abbrev pub Same : Option (Text × Option ℕ) → Option (A × Option ℕ) → Type 0
  Same none none = Unit
  Same none (some v) = ⊥
  Same (some encoded) none = ⊥
  Same (some (encoded, until)) (some (v, until')) =
      (codec.unmarshal encoded ≡ ok v) × (until ≡ until')

  -- The world holds the map.
  abbrev pub Represents : (W → Store Text) → W → Store A → Type 0
  Represents held w m = (key : String) → Same (held w key) (m key)
