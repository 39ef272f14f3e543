-- ===== src/Examples/Outbox.antt =====
-- The theorems about a tick of the worker, applied to an outbox of two events, of which the broker
-- accepts one.
use sociomile.Prelude.{ℕ, ◌+◌, ◌≡◌, ap, none, List, [], ◌∷◌, ◌==◌, if◌then◌else◌}
use sociomile.Apperror.{other}
use sociomile.Model.{OutboxEvent}
use sociomile.Exec.{Result, ok, err, State}
use sociomile.Exec.Results.{ok≢err}
use sociomile.Redis.{Codec}
use sociomile.Worker.{Publisher, tick}
use sociomile.Worker.Delivery.{IsMoved, tick_ok}
use sociomile.Worker.Tries.{Updates, Ticked, tick_tries}
use sociomile.Examples.Engine.{engine}
use sociomile.Examples.Engine.Laws.{engine_laws}
use sociomile.Examples.Data.{free, event}

abbrev pub codec : Codec ℕ
codec = record { marshal = λ n. ok "now"; unmarshal = λ text. ok 0 }

abbrev pub broker : Publisher ℕ
broker key payload w = (if key == "ticket.created" then ok tt else err (other "refused"), w + 1)

abbrev pub waiting : State ℕ
waiting = record free {
  db = record free.db {
    outbox_events = event "e1" ∷ record (event "e2") { routing_key = "unknown" } ∷ [];
  };
}

tick_ok_example :
    ((tick engine none codec broker waiting).0 ≡ ok tt)
    × IsMoved broker waiting.db (tick engine none codec broker waiting).1.db
tick_ok_example = tick_ok engine engine_laws none codec broker waiting

-- The engine in memory takes every update.
engine_writes : Updates engine
engine_writes p f rows w e w' h = ok≢err _ e (ap (λ (x : Result (List OutboxEvent) × ℕ). x.0) h)

tick_tries_example :
    Ticked engine waiting.db.outbox_events
      (tick engine none codec broker waiting).1.db.outbox_events
tick_tries_example = tick_tries engine engine_laws engine_writes none codec broker waiting
