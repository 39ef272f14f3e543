-- ===== src/Service/Events.antt =====
-- backend/internal/service/events.go. `json.Marshal` of the payloads that the services give does
-- not fail, so an event keeps what was given.
pub mod Rules
use sociomile.Prelude.{String, none}
use sociomile.Model.{Payload, unsaved}
use sociomile.Exec.{Exec, pure, ◌>>=◌}
use sociomile.Gorm.{Gorm}
use sociomile.Repository.Store.{create_activity_log, create_outbox_event}

-- `appendDomainEvent`
unfoldable pub append_domain_event :
    {W : Type 0} (g : Gorm W) (tenant_id event_type entity_type entity_id : String)
    (payload : Payload)
    → Exec W (Unit {0})
append_domain_event g tenant_id event_type entity_type entity_id payload = do
  log ← create_activity_log g (record {
    base = unsaved;
    tenant_id = tenant_id;
    event_type = event_type;
    entity_type = entity_type;
    entity_id = entity_id;
    payload = payload;
  })
  event ← create_outbox_event g (record {
    base = unsaved;
    tenant_id = tenant_id;
    event_type = event_type;
    entity_type = entity_type;
    entity_id = entity_id;
    routing_key = event_type;
    payload = payload;
    attempts = 0;
    published_at = none;
    failed_at = none;
  })
  pure tt
