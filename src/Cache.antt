-- ===== src/Cache.antt =====
-- backend/internal/cache/cache.go: the helpers over Redis. A client whose pointer or whose Redis
-- handle is nil is `none`.
pub mod Rules
pub mod Versions
pub mod Keys
use Prim.Native.String
use sociomile.Prelude.{
  ℕ, ℤ, pos, negsuc, String, Bool, true, false, Option, none, some, List, [], ◌∷◌, ltb, leb, eqb,
  if◌then◌else◌,
}
use sociomile.Apperror.{Error}
use sociomile.Exec.{Result, ok, err, Exec, pure, fail, ◌>>=◌, ◌>>◌, catch, outside}
use sociomile.Redis.{Redis, Reply, value, nil, failed, Codec}

-- `Client`
abbrev pub Client : Type 0 → Type 0
Client W = Option (Redis W)

-- `Enabled`
unfoldable pub enabled : {W : Type 0} → Client W → Bool
enabled none = false
enabled (some redis) = true

-- The loop of `join`, from the text so far, for the parts after the first.
abbrev pub join_from : String → List String → String
join_from result [] = result
join_from result (part ∷ parts) = join_from (String.◌++◌ (String.◌++◌ result ":") part) parts

-- `join`
unfoldable pub join : List String → String
join [] = ""
join (part ∷ parts) = join_from part parts

-- `Key`
unfoldable pub key : List String → String
unfolding join
key parts = String.◌++◌ "sociomile:" (join parts)

-- A Redis reply as a result with `redis.Nil` apart.
abbrev pub reply :
    {W A B : Type 0} → (A → Exec W B) → Exec W B → (Error → Exec W B) → Reply A → Exec W B
reply found missing bad (value a) = found a
reply found missing bad nil = missing
reply found missing bad (failed e) = bad e

-- `err != nil` of a call whose error is dropped.
abbrev pub ignore_error : {W A : Type 0} → Exec W A → Exec W (Unit {0})
ignore_error m = catch (m >>= λ _. pure tt) (λ e. pure tt)

abbrev pub at_most : ℤ → ℕ → Bool
at_most (pos n) limit = leb n limit
at_most (negsuc n) limit = true

abbrev pub is_one : ℤ → Bool
is_one (pos n) = eqb n 1
is_one (negsuc n) = false

abbrev pub version_key : String → String → String
version_key tenant_id resource = key ("tenant" ∷ tenant_id ∷ resource ∷ "version" ∷ [])

module _ {W : Type 0} where
  abbrev pub lift_result : {A : Type 0} → Result A → Exec W A
  lift_result (ok a) = pure a
  lift_result (err e) = fail e

  -- `GetJSON`: the value where the key exists
  unfoldable pub get_json : {A : Type 0} → Client W → Codec A → String → Exec W (Option A)
  get_json none codec key = pure none
  get_json (some redis) codec key = do
    answer ← outside (λ w. (ok (redis.get key w).0, (redis.get key w).1))
    reply (λ text. lift_result (codec.unmarshal text) >>= λ a. pure (some a)) (pure none) fail
        answer

  -- `SetJSON`
  unfoldable pub set_json : {A : Type 0} → Client W → Codec A → String → A → ℕ → Exec W (Unit {0})
  set_json none codec key a ttl = pure tt
  set_json (some redis) codec key a ttl = do
    payload ← lift_result (codec.marshal a)
    outside (redis.set key payload ttl)

  -- `Version`
  unfoldable pub version : Client W → String → String → Exec W ℤ
  version none tenant_id resource = pure (pos 1)
  version (some redis) tenant_id resource = do
    answer ← outside (λ w. (
      ok (redis.get_int64 (version_key tenant_id resource) w).0,
      (redis.get_int64 (version_key tenant_id resource) w).1,
    ))
    reply pure
        (ignore_error (outside (redis.set_int (version_key tenant_id resource) (pos 1) 0)) >>= λ _.
          pure (pos 1))
        (λ e. pure (pos 1)) answer

  -- `BumpVersion`
  unfoldable pub bump_version : Client W → String → String → Exec W (Unit {0})
  bump_version none tenant_id resource = pure tt
  bump_version (some redis) tenant_id resource =
      ignore_error (outside (redis.incr (version_key tenant_id resource)))

  abbrev pub open_window : Redis W → String → ℕ → Bool → Exec W (Unit {0})
  open_window redis key window true = outside (redis.expire key window)
  open_window redis key window false = pure tt

  -- `CheckRateLimit`: the window is set by the call that counts 1
  unfoldable pub check_rate_limit : Client W → String → ℕ → ℕ → Exec W Bool
  check_rate_limit none key limit window = pure true
  check_rate_limit (some redis) key limit window = do
    count ← outside (redis.incr key)
    open_window redis key window (is_one count)
    pure (at_most count limit)
