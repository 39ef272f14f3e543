-- ===== src/Worker/Loop.antt =====
-- backend/cmd/worker/main.go: `run`, from the start of the process to its end.
pub mod Runs
use sociomile.Prelude.{ℕ, ℤ, String, Bool, Option, none, some, List, [], ◌∷◌}
use sociomile.Model.{Payload}
use sociomile.Exec.{Result, ok, err, State, Exec, pure, ◌>>=◌, ◌>>◌, outside}
use sociomile.Auth.{lift}
use sociomile.Gorm.{Gorm}
use sociomile.Redis.{Redis, Codec}
use sociomile.Cache.{Client, ignore_error}
use sociomile.Config.{Config, load}
use sociomile.Platform.{Mysql, open_database, open_redis}
use sociomile.Platform.Migrations.{Sql, Directory, apply_migrations}
use sociomile.Broker.{Amqp, new_publisher, publish, close}
use sociomile.Broker
use sociomile.Worker.{Publisher, record_worker_heartbeat, tick}
use sociomile.Worker.Start.{Surroundings, wait_for_publisher}

-- What the `select` of the loop receives, one after the other.
pub data Signal : Type 0 where
  done : Signal
  ticked : Signal

-- What a run is after the signals: it still waits for the next, or it has returned.
pub data Outcome : Type 0 where
  running : Outcome
  returned : Result (Unit {0}) → Outcome

module _ {W : Type 0} (g : Gorm W) (cache : Client W) (codec : Codec ℕ)
    (publish : Publisher W) where
  -- The loop of `run`. A tick returns no error.
  unfoldable pub serve : List Signal → State W → Outcome × State W
  serve [] s = (running, s)
  serve (done ∷ signals) s = (returned (ok tt), s)
  serve (ticked ∷ signals) s = serve signals (tick g cache codec publish s).1

  -- The heartbeat at the start, and the loop.
  unfoldable pub start_serving : List Signal → State W → Outcome × State W
  start_serving signals s = serve signals (ignore_error (record_worker_heartbeat g cache codec) s).1

-- The libraries and the machine that `run` is given.
pub record Machine (W H P C Ch : Type 0) : Type 1 where
  pub getenv : String → String
  pub parse_duration : String → Result ℤ
  pub mysql : Mysql W H P
  pub gorm : H → Gorm W
  pub sql : H → Sql W
  pub directory : Directory
  pub new_client : String → String → Redis W
  pub codec : Codec ℕ
  pub amqp : Amqp W C Ch
  pub surroundings : Surroundings W (Broker.Publisher C Ch)

module _ {W H P C Ch : Type 0} (m : Machine W H P C Ch) where
  -- The steps before the broker is waited for.
  unfoldable pub prepare : Exec W (Config × H)
  prepare = do
    cfg ← lift (load m.getenv m.parse_duration)
    db ← outside (open_database m.mysql cfg)
    outside (apply_migrations (m.sql db) m.directory)
    pure (cfg, db)

  abbrev pub attempts : Config → Surroundings W (Broker.Publisher C Ch)
  attempts cfg = record m.surroundings { new_publisher = new_publisher m.amqp cfg.rabbitmq_url }

  -- `defer publisher.Close()`
  abbrev pub closing : Broker.Publisher C Ch → Outcome × State W → Outcome × State W
  closing p (running, s) = (running, s)
  closing p (returned r, s) = (returned r, (outside (close m.amqp (some p)) s).1)

  abbrev pub with_publisher :
      List Signal
      → Config × H
      → State W
      → Option (Result (Broker.Publisher C Ch) × W)
      → Option (Outcome × State W)
  with_publisher signals start s none = none
  with_publisher signals start s (some (err e, w)) = some (returned (err e), record s { world = w })
  with_publisher signals start s (some (ok p, w)) = some (
      closing p (
        start_serving (m.gorm start.1) (open_redis m.new_client start.0) m.codec
          (publish m.amqp (some p)) signals (record s { world = w })))

  abbrev pub prepared : ℕ → List Signal → Result (Config × H) × State W → Option (Outcome × State W)
  prepared fuel signals (err e, s) = some (returned (err e), s)
  prepared fuel signals (ok start, s) =
      with_publisher signals start s (wait_for_publisher (attempts start.0) fuel none 0 s.world)

  -- `run`; none where the fuel of the wait is used up
  unfoldable pub run : ℕ → List Signal → State W → Option (Outcome × State W)
  run fuel signals s = prepared fuel signals (prepare s)
