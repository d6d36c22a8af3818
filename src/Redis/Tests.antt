-- ===== src/Redis/Tests.antt =====
-- The cache over a client that holds its texts in memory, at a clock that a pause puts on by a minute.
use route_planner.Prelude.{ℕ, ◌+◌, Option, none, some, List, [], ◌∷◌}
use route_planner.Prelude.Text.{Text, codes}
use route_planner.Prelude.Int.{ℤ, pos, negsuc}
use route_planner.Errors.{other}
use route_planner.Effects.{Outcome, ok, err}
use route_planner.Redis.{RedisClient, ValueCodec}
use route_planner.Redis.Refinement.{CacheOp, read, store, pause, Store, lookup, stored}

-- The clock and the texts.
abbrev Memory : Type 0
Memory = ℕ × Store Text

abbrev found : Option Text → Outcome Text
found none = err (other "redis: nil")
found (some encoded) = ok encoded

abbrev until : ℕ → ℤ → Option ℕ
until now (pos ttl) = some (now + ttl)
until now (negsuc n) = none

abbrev memory : RedisClient Memory
memory = record {
  get = λ key w. (found (lookup w.0 (w.1 key)), w);
  set = λ key encoded ttl w. (ok tt, (w.0, stored w.1 key encoded (until w.0 ttl)));
}

abbrev minute_later : Memory → Memory
minute_later w = (w.0 + 60, w.1)

-- Texts are their own encodings.
abbrev plain : ValueCodec Text
plain = record { marshal = λ v. ok v; unmarshal = λ t. ok t }

-- A value that lives for 90 seconds is read after none, one and two minutes.
abbrev ops : List (CacheOp Text)
ops =
    read "a" ∷ store "a" (codes "1") (pos 90) ∷ read "a" ∷ pause ∷ read "a" ∷ pause ∷ read "a" ∷ []

abbrev empty : Store Text
empty key = none
