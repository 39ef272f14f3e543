-- ===== src/Service/Webhook/Transaction/Steps.antt =====
-- backend/internal/service/conversation_service.go: the steps of the transaction of `HandleWebhook`.
use mathlib.Core.Bool.{false≢true}
use sociomile.Prelude.{
  ℕ, String, ◌≡◌, refl, sym, ap, ◌∙◌, Bool, true, false, List, Member, ◌==◌, ◌≢◌, arith, eq_iff,
  if◌then◌else◌,
}
use sociomile.Apperror.{fails}
use sociomile.Model.{
  Db, Channel, Customer, Conversation, Message, ActivityLog, OutboxEvent, conversation_payload,
  message_payload,
}
use sociomile.Model.Schema
use sociomile.Exec.{State, pure, fail, ◌>>=◌, catch}
use sociomile.Exec.Ends.{Ends, ends_catch, ends_pure, ends_fail, ends_if}
use sociomile.Gorm.{Gorm, unordered}
use sociomile.Gorm.Laws.{GormLaws, IsSaved}
use sociomile.Gorm.Session.Rules.{Reads, IsFault, reads_seq, first_reads, IsMissed-reads}
use sociomile.Repository.Tables
use sociomile.Repository.Filters.{channel_in, is_not_found}
use sociomile.Repository.Store.{get_tenant, get_channel_by_key}
use sociomile.Repository.Store.Rules.{is_found}
use sociomile.Service.Events.{append_domain_event}
use sociomile.Service.Events.Rules.{IsAppended, append_seq}
use sociomile.Service.Webhook.{WebhookInput, created_event}
use sociomile.Service.Webhook.Effect.{
  IsTouched, IsOpened, IsRouted, touched, opened, WebhookRefused, faulty, no_tenant, no_channel,
}
use sociomile.Service.Webhook.Target.{IsTarget, target-IsTouched, target-IsOpened}

module _ {W : Type 0} (g : Gorm W) (laws : GormLaws g) (s : State W) (input : WebhookInput) where
  pub tenant_reads :
      Reads
        (catch
          (get_tenant g input.tenant_id)
          (λ e. fail (fails 404 "tenant_not_found" "tenant not found")))
        s
        (λ t. Member t s.db.tenants × (t.id ≡ input.tenant_id))
        (WebhookRefused g input s.db)
  unfolding get_tenant
  tenant_reads = record {
    reads =
        ends_catch _ _
          (IsMissed-reads g laws s Tables.tenants (unordered (λ r. r.id == input.tenant_id))).reads
          (λ t s' p. (p.0, (p.1.0, (eq_iff _ _).0 p.1.1)))
          (λ e s' p. ends_fail _ (p.0, no_tenant e p.1 refl));
  }

  pub channel_reads :
      Reads
        (catch (get_channel_by_key g input.tenant_id input.channel_key) (λ e.
          if is_not_found e
          then fail (fails 400 "invalid_channel" "channel_key is not configured for the tenant")
          else fail e))
        s
        (λ c. Member c s.db.channels × (channel_in input.tenant_id input.channel_key c ≡ true))
        (WebhookRefused g input s.db)
  unfolding get_channel_by_key
  channel_reads = record {
    reads =
        ends_catch _ _
          (first_reads g laws s Tables.channels
            (unordered (channel_in input.tenant_id input.channel_key))).reads
          (λ c s' p. (p.0, (p.1.0, p.1.1)))
          (λ e s' p.
            ends_if (is_not_found e) _ _
              (λ missing. ends_fail _ (
                p.0,
                no_channel (λ x m a b. other_channel x a b (p.1.1 (is_found e missing) x m)) refl,
              ))
              (λ other.
                ends_fail _
                  (p.0, faulty (p.1.0, λ n. false≢true (sym other ∙ ap is_not_found n)))));
  }
    where
      other_channel :
          (x : Channel)
          → x.tenant_id ≡ input.tenant_id
          → x.key ≡ input.channel_key
          → channel_in input.tenant_id input.channel_key x ≢ false
      other_channel x a b h =
          ground (arith, eq_iff x.tenant_id input.tenant_id, eq_iff x.key input.channel_key)

-- The rows of the log and of the outbox, for a new conversation and for an old one.
abbrev pub IsAnnounced :
    String
    → Conversation
    → Message
    → Bool
    → List ActivityLog
    → List ActivityLog
    → List OutboxEvent
    → List OutboxEvent
    → Type 0
IsAnnounced tenant_id c message false old_logs logs old_events events =
    IsAppended tenant_id "channel.message.received" "conversation" c.id (message_payload message)
      old_logs logs old_events events
IsAnnounced tenant_id c message true old_logs logs old_events events =
    (logs' : List ActivityLog) × (events' : List OutboxEvent) × IsAppended tenant_id
      "conversation.created" "conversation" c.id (conversation_payload c) old_logs logs' old_events
      events'
    × IsAppended tenant_id "channel.message.received" "conversation" c.id (message_payload message)
        logs' logs events' events

nothing_reads : {W : Type 0} (s : State W) → Reads (pure tt) s (λ u. Unit) (λ e. ⊥)
nothing_reads s = record { reads = ends_pure tt (refl, tt) }

module _ {W : Type 0} (g : Gorm W) (laws : GormLaws g) (s : State W) (tenant_id : String)
    (c : Conversation) (message : Message) where
  -- The events of a webhook, from the rows of the log and of the outbox before them.
  pub events_ends :
      (fresh : Bool)
      → Ends
          (created_event g tenant_id c fresh >>= λ u.
            append_domain_event g tenant_id "channel.message.received" "conversation" c.id
              (message_payload message)
            >>= λ u. pure c.id)
          s
          (λ id s'.
            (id ≡ c.id)
            × ((logs : List ActivityLog) × (events : List OutboxEvent) × IsAnnounced tenant_id c
                  message fresh s.db.activity_logs logs s.db.outbox_events events
                × (s'.db ≡ record s.db { activity_logs = logs; outbox_events = events })))
          (λ e s'. IsFault e)
  unfolding created_event
  events_ends true =
      append_seq g laws s tenant_id _ _ _ _ _
        (λ logs events w created.
          append_seq g laws _ tenant_id _ _ _ _ _
            (λ logs' events' w received.
              ends_pure _ (refl, (logs', events', (logs, events, created, received), refl)))
            (λ e s' f. f))
        (λ e s' f. f)
  events_ends false =
      reads_seq _ _ (nothing_reads s)
        (λ u w x.
          append_seq g laws _ tenant_id _ _ _ _ _
            (λ logs events w received. ends_pure _ (refl, (logs, events, received, refl)))
            (λ e s' f. f))
        (λ e w x. absurd x)

-- What is said of the conversations does not depend on the customers.
IsTouched-at :
    (tenant_id customer_id channel_id id : String) (d : Db) (customers : List Customer)
    (rows : List Conversation)
    → IsTouched tenant_id customer_id channel_id id (record d { customers = customers }) rows
    → IsTouched tenant_id customer_id channel_id id d rows
IsTouched-at tenant_id customer_id channel_id id d customers rows t = record {
  row = t.row;
  ongoing = t.ongoing;
  newest = t.newest;
  stored = t.stored;
  rewritten = record {
    listed = t.rewritten.listed;
    row_tenant = t.rewritten.row_tenant;
    row_id = t.rewritten.row_id;
    stored_id = t.rewritten.stored_id;
    stored_tenant = t.rewritten.stored_tenant;
    stored_customer = t.rewritten.stored_customer;
    stored_channel = t.rewritten.stored_channel;
    replaced = t.rewritten.replaced;
  };
  same_status = t.same_status;
  same_assignee = t.same_assignee;
}

IsOpened-at :
    (tenant_id customer_id channel_id id : String) (d : Db) (customers : List Customer)
    (rows : List Conversation) (c : Conversation)
    → IsOpened tenant_id customer_id channel_id id (record d { customers = customers }) rows c
    → IsOpened tenant_id customer_id channel_id id d rows c
IsOpened-at tenant_id customer_id channel_id id d customers rows c t = record {
  none_active = t.none_active;
  fresh = t.fresh;
  same_id = t.same_id;
  tenant = t.tenant;
  customer = t.customer;
  channel = t.channel;
  status = t.status;
  assignee = t.assignee;
  added = t.added;
}

-- The tables of a webhook, each with its own name.
abbrev pub tables :
    Db → List Customer → List Conversation → List Message → List ActivityLog → List OutboxEvent → Db
tables d customers conversations messages logs events = record d {
  customers = customers;
  conversations = conversations;
  messages = messages;
  activity_logs = logs;
  outbox_events = events;
}

module _ (tenant_id customer_id channel_id : String) (d : Db) (customers : List Customer)
    (rows rows' : List Conversation) (c saved : Conversation) (time : ℕ) (message : Message)
    (messages : List Message) (logs : List ActivityLog) (events : List OutboxEvent)
    (kept : IsSaved Schema.conversations
      (record c { base = record c.base { updated_at = time } })
      rows
      saved
      rows') where
  pub is_routed :
      (fresh : Bool)
      → IsTarget tenant_id customer_id channel_id (record d { customers = customers }) rows c fresh
      → IsAnnounced tenant_id saved message fresh d.activity_logs logs d.outbox_events events
      → IsRouted tenant_id customer_id channel_id saved.id message d
          (tables d customers rows' messages logs events)
  is_routed false target announced =
      touched
        (IsTouched-at tenant_id customer_id channel_id saved.id d customers rows' (
          target-IsTouched (record d { customers = customers }) tenant_id customer_id channel_id c
            time saved rows rows' kept target))
        announced
  is_routed true target (logs', events', created, received) =
      opened saved
        (IsOpened-at tenant_id customer_id channel_id saved.id d customers rows' saved (
          target-IsOpened (record d { customers = customers }) tenant_id customer_id channel_id c
            time saved rows rows' kept target))
        logs' events' created received
