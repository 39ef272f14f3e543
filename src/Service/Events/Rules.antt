-- ===== src/Service/Events/Rules.antt =====
-- What a domain event leaves in the tables: one row in the activity log and one in the outbox.
use sociomile.Prelude.{String, ◌≡◌, refl, sym, subst, none, List, [], ◌∷◌, ◌++◌, ap}
use sociomile.Apperror.{Error}
use sociomile.Model.{Db, Payload, ActivityLog, OutboxEvent}
use sociomile.Model.Schema
use sociomile.Exec.{State, Exec, ◌>>=◌}
use sociomile.Exec.Ends.{Ends, ends_pure, ends_seq}
use sociomile.Gorm.{Gorm}
use sociomile.Gorm.Laws.{GormLaws}
use sociomile.Gorm.Session.Rules.{IsFault, create_seq}
use sociomile.Repository.Tables
use sociomile.Repository.Store.{create_activity_log, create_outbox_event}
use sociomile.Service.Events.{append_domain_event}

-- One event more: the log and the outbox each have one new row at the end, with the same type,
-- entity and payload, and the event waits to be published under its type.
pub record IsAppended (tenant_id event_type entity_type entity_id : String) (payload : Payload)
    (old_logs logs : List ActivityLog) (old_events events : List OutboxEvent) : Type 0 where
  pub log : ActivityLog
  pub event : OutboxEvent
  pub logged : logs ≡ old_logs ++ log ∷ []
  pub queued : events ≡ old_events ++ event ∷ []
  pub log_tenant : log.tenant_id ≡ tenant_id
  pub log_type : log.event_type ≡ event_type
  pub log_entity : log.entity_type ≡ entity_type
  pub log_entity_id : log.entity_id ≡ entity_id
  pub log_payload : log.payload ≡ payload
  pub event_tenant : event.tenant_id ≡ tenant_id
  pub event_name : event.event_type ≡ event_type
  pub event_entity : event.entity_type ≡ entity_type
  pub event_entity_id : event.entity_id ≡ entity_id
  pub event_payload : event.payload ≡ payload
  pub event_routing : event.routing_key ≡ event_type
  pub event_pending : event.published_at ≡ none
  pub event_attempts : event.attempts ≡ 0

-- The tables after an event.
pub record Appended (tenant_id event_type entity_type entity_id : String) (payload : Payload)
    (d d' : Db) : Type 0 where
  pub logs : List ActivityLog
  pub events : List OutboxEvent
  pub rows :
      IsAppended tenant_id event_type entity_type entity_id payload d.activity_logs logs
        d.outbox_events events
  pub frame : d' ≡ record d { activity_logs = logs; outbox_events = events }

module _ {W : Type 0} (g : Gorm W) (laws : GormLaws g) (s : State W)
    (tenant_id event_type entity_type entity_id : String) (payload : Payload) where
  pub append_ends :
      Ends
        (append_domain_event g tenant_id event_type entity_type entity_id payload)
        s
        (λ u s'. Appended tenant_id event_type entity_type entity_id payload s.db s'.db)
        (λ e s'. IsFault e)
  unfolding append_domain_event create_activity_log create_outbox_event
  append_ends =
      create_seq g laws s Tables.activity_logs Schema.activity_logs _ _
        (λ log logs w made.
          create_seq g laws (record { db = record s.db { activity_logs = logs }; world = w })
            Tables.outbox_events Schema.outbox_events _ _
            (λ event events w queued. ends_pure tt (record {
              logs = logs;
              events = events;
              rows = record {
                log = log;
                event = event;
                logged = made.added;
                queued = queued.added;
                log_tenant = ap (λ (r : ActivityLog). r.tenant_id) made.filled;
                log_type = ap (λ (r : ActivityLog). r.event_type) made.filled;
                log_entity = ap (λ (r : ActivityLog). r.entity_type) made.filled;
                log_entity_id = ap (λ (r : ActivityLog). r.entity_id) made.filled;
                log_payload = ap (λ (r : ActivityLog). r.payload) made.filled;
                event_tenant = ap (λ (r : OutboxEvent). r.tenant_id) queued.filled;
                event_name = ap (λ (r : OutboxEvent). r.event_type) queued.filled;
                event_entity = ap (λ (r : OutboxEvent). r.entity_type) queued.filled;
                event_entity_id = ap (λ (r : OutboxEvent). r.entity_id) queued.filled;
                event_payload = ap (λ (r : OutboxEvent). r.payload) queued.filled;
                event_routing = ap (λ (r : OutboxEvent). r.routing_key) queued.filled;
                event_pending = ap (λ (r : OutboxEvent). r.published_at) queued.filled;
                event_attempts = ap (λ (r : OutboxEvent). r.attempts) queued.filled;
              };
              frame = refl;
            }))
            (λ e w f. f))
        (λ e w f. f)

  module _ {B : Type 0} (f : Unit {0} → Exec W B) {Q : B → State W → Type 0}
      {E : Error → State W → Type 0} where
    pub append_seq :
        ((logs : List ActivityLog) (events : List OutboxEvent) (w : W)
          → IsAppended tenant_id event_type entity_type entity_id payload s.db.activity_logs logs
              s.db.outbox_events events
          → Ends
              (f tt)
              (record {
                db = record s.db { activity_logs = logs; outbox_events = events };
                world = w;
              })
              Q
              E)
        → ((e : Error) (s' : State W) → IsFault e → E e s')
        → Ends
            (append_domain_event g tenant_id event_type entity_type entity_id payload >>= f)
            s
            Q
            E
    append_seq next stop =
        ends_seq _ f append_ends
          (λ u s' p.
            subst (λ d. Ends (f tt) (record { db = d; world = s'.world }) Q E) (sym p.frame)
              (next p.logs p.events s'.world p.rows))
          stop
