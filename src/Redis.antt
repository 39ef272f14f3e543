-- ===== src/Redis.antt =====
-- github.com/redis/go-redis: not part of the repository, so a parameter of the model, over the
-- same world as the database. `encoding/json` is used at types whose text is not modelled: a
-- `Codec` is what `Marshal` and `Unmarshal` do at one of them.
use sociomile.Prelude.{ℕ, ℤ, String}
use sociomile.Apperror.{Error}
use sociomile.Exec.{Result}

-- A value, the error `redis.Nil`, or another error.
pub data Reply (A : Type 0) : Type 0 where
  value : A → Reply A
  nil : Reply A
  failed : Error → Reply A

pub record Redis (W : Type 0) : Type 0 where
  pub get : String → W → Reply String × W
  -- `Get(…).Int64()`
  pub get_int64 : String → W → Reply ℤ × W
  -- The time to live in nanoseconds, 0 for none.
  pub set : String → String → ℕ → W → Result (Unit {0}) × W
  pub set_int : String → ℤ → ℕ → W → Result (Unit {0}) × W
  pub incr : String → W → Result ℤ × W
  pub expire : String → ℕ → W → Result (Unit {0}) × W

pub record Codec (A : Type 0) : Type 0 where
  pub marshal : A → Result String
  pub unmarshal : String → Result A
