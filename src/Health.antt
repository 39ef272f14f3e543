-- ===== src/Health.antt =====
-- backend/internal/health/health.go: the report of the API on itself and on the worker, whose
-- heartbeat it reads from the cache.
pub mod Snapshot
use sociomile.Prelude.{
  ℕ, ℤ, ◌+◌, String, Bool, true, false, Option, none, some, [], ◌∷◌, ltb, if◌then◌else◌,
}
use sociomile.Exec.{Exec, pure, ◌>>=◌, catch}
use sociomile.Gorm.{Gorm}
use sociomile.Gorm.Session.{now}
use sociomile.Redis.{Codec}
use sociomile.Cache.{Client, enabled, key, get_json}
use sociomile.Worker.{worker_heartbeat_ttl}

-- `ServiceStatus`
pub data ServiceStatus : Type 0 where
  online : ServiceStatus
  offline : ServiceStatus
  unknown : ServiceStatus

-- `Service`
pub record Service : Type 0 where
  pub status : ServiceStatus
  pub checked_at : Option ℕ

-- `Payload`, with a field for each of the two services
pub record Report : Type 0 where
  pub status : String
  pub port : ℤ
  pub api : Service
  pub worker : Service

-- A worker whose heartbeat is too old, or not.
abbrev pub seen_at : Bool → ℕ → Service
seen_at true updated_at = record { status = offline; checked_at = some updated_at }
seen_at false updated_at = record { status = online; checked_at = some updated_at }

-- What `workerSnapshot` makes of a heartbeat that it read, if any.
abbrev pub judged : ℕ → Option ℕ → Service
judged time none = record { status = offline; checked_at = none }
judged time (some updated_at) = seen_at (ltb (updated_at + worker_heartbeat_ttl) time) updated_at

unfoldable pub heartbeat_key : String
heartbeat_key = key ("runtime" ∷ "worker" ∷ "heartbeat" ∷ [])

-- `workerSnapshot`
unfoldable pub worker_snapshot : {W : Type 0} → Client W → Codec ℕ → ℕ → Exec W Service
worker_snapshot cache codec time =
    catch (get_json cache codec heartbeat_key >>= λ heartbeat. pure (judged time heartbeat))
      (λ e. pure (record { status = unknown; checked_at = none }))

abbrev pub overall : ServiceStatus → String
overall online = "ok"
overall offline = "degraded"
overall unknown = "ok"

-- `Snapshot`
unfoldable pub snapshot : {W : Type 0} → Gorm W → Client W → Codec ℕ → ℤ → Exec W Report
snapshot g cache codec port = do
  time ← now g
  worker ←
      if enabled cache
      then worker_snapshot cache codec time
      else pure (record { status = unknown; checked_at = none })
  pure (record {
    status = overall worker.status;
    port = port;
    api = record { status = online; checked_at = some time };
    worker = worker;
  })
