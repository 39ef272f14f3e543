-- ===== src/Worker.antt =====
-- backend/cmd/worker/main.go: a tick of the outbox worker, and backend/internal/health/health.go: its
-- heartbeat. The broker (github.com/rabbitmq/amqp091-go) is not part of the repository: what
-- `Publish` does with a routing key and a payload is a parameter.
pub mod Start
pub mod Progress
pub mod Delivery
pub mod Attempts
pub mod Tries
pub mod Loop
use sociomile.Prelude.{ℕ, pos, String, List, [], ◌∷◌}
use sociomile.Model.{OutboxEvent, Payload}
use sociomile.Exec.{Result, Exec, pure, ◌>>=◌, ◌>>◌, catch, outside}
use sociomile.Gorm.{Gorm}
use sociomile.Gorm.Session.{now}
use sociomile.Redis.{Codec}
use sociomile.Repository.Store.{list_pending_outbox, mark_outbox_published, mark_outbox_failed}
use sociomile.Cache.{Client, key, set_json, ignore_error}

-- `Publish`
abbrev pub Publisher : Type 0 → Type 0
Publisher W = String → Payload → W → Result (Unit {0}) × W

-- `workerHeartbeatTTL`, in nanoseconds
abbrev pub worker_heartbeat_ttl : ℕ
worker_heartbeat_ttl = 20_000_000_000

module _ {W : Type 0} (g : Gorm W) (cache : Client W) (codec : Codec ℕ) where
  -- `RecordWorkerHeartbeat`
  unfoldable pub record_worker_heartbeat : Exec W (Unit {0})
  record_worker_heartbeat = do
    time ← now g
    set_json cache codec (key ("runtime" ∷ "worker" ∷ "heartbeat" ∷ [])) time worker_heartbeat_ttl

module _ {W : Type 0} (g : Gorm W) (publish : Publisher W) where
  -- An event of a tick: an error of the broker marks it as failed, and an error of the database is
  -- only logged.
  unfoldable pub deliver : OutboxEvent → Exec W (Unit {0})
  deliver event =
      catch
        (outside (publish event.routing_key event.payload) >>= λ u.
          ignore_error (mark_outbox_published g event.id))
        (λ e. ignore_error (mark_outbox_failed g event.id))

  unfoldable pub deliver_all : List OutboxEvent → Exec W (Unit {0})
  deliver_all [] = pure tt
  deliver_all (event ∷ events) = deliver event >>= λ u. deliver_all events

module _ {W : Type 0} (g : Gorm W) (cache : Client W) (codec : Codec ℕ)
    (publish : Publisher W) where
  -- A tick of the loop of `run`
  unfoldable pub tick : Exec W (Unit {0})
  tick = do
    ignore_error (record_worker_heartbeat g cache codec)
    catch (list_pending_outbox g (pos 50) >>= λ pending. deliver_all g publish pending)
        (λ e. pure tt)
