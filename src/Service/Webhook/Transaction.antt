-- ===== src/Service/Webhook/Transaction.antt =====
-- backend/internal/service/conversation_service.go: the transaction of `HandleWebhook`.
pub mod Steps
use mathlib.Core.Bool.{false≢true}
use sociomile.Prelude.{
  ℕ, String, ◌≡◌, refl, sym, ap, ◌∙◌, subst⁻¹, Bool, true, false, List, Member, ◌==◌, eq_iff,
  if◌then◌else◌, none,
}
use sociomile.Apperror.{fails}
use sociomile.Model.{
  unsaved, sender_type_customer, Tenant, Channel, Db, Customer, Conversation, Message, ActivityLog,
  OutboxEvent, conversation_payload, message_payload,
}
use sociomile.Model.Schema
use sociomile.Exec.{State, pure, fail, ◌>>=◌, catch}
use sociomile.Exec.Ends.{
  Ends, ends_at, ends_seq, ends_catch, ends_pure, ends_fail, ends_if, ends_weaken,
}
use sociomile.Gorm.{Gorm, unordered}
use sociomile.Gorm.Laws.{GormLaws, IsCreated, IsSaved, beside}
use sociomile.Gorm.Session.Rules.{
  Reads, IsFault, reads_seq, first_reads, now_reads, create_seq, save_seq,
}
use sociomile.Repository.Tables
use sociomile.Repository.Filters.{channel_in, is_not_found}
use sociomile.Repository.Store.{get_tenant, get_channel_by_key, create_message, save_conversation}
use sociomile.Repository.Store.Rules.{is_found, both_true}
use sociomile.Repository.Store.Customers.{IsCustomerOf, get_or_create_customer_ends}
use sociomile.Service.Events.{append_domain_event}
use sociomile.Service.Events.Rules.{IsAppended, append_seq}
use sociomile.Service.Webhook.{WebhookInput, created_event, handle_webhook_tx}
use sociomile.Service.Webhook.Effect.{
  IsTouched, IsOpened, IsRouted, touched, opened, IsReceived, WebhookRefused, faulty, no_tenant,
  no_channel,
}
use sociomile.Service.Webhook.Target.{
  IsTarget, active_or_new_ends, target-IsTouched, target-IsOpened,
}
use sociomile.Service.Webhook.Transaction.Steps.{
  IsAnnounced, tables, tenant_reads, channel_reads, events_ends, is_routed,
}

-- The literal that `HandleWebhook` gives to `CreateMessage`.
abbrev new_message : WebhookInput → Conversation → Message
new_message input c = record {
  base = unsaved;
  conversation_id = c.id;
  sender_type = sender_type_customer;
  sender_id = none;
  message = input.message;
}

-- The record of a webhook, from what each step of the transaction has left.
received :
    (d : Db) (input : WebhookInput) (tenant : Tenant)
    → Member tenant d.tenants × (tenant.id ≡ input.tenant_id)
    → (channel : Channel)
    → Member channel d.channels × (channel_in input.tenant_id input.channel_key channel ≡ true)
    → (customer : Customer) (customers : List Customer)
    → IsCustomerOf input.tenant_id input.customer_external_id input.customer_name d.customers
        customer customers
    → (rows rows' : List Conversation) (c saved : Conversation) (time : ℕ) (message : Message)
      (messages : List Message)
    → IsCreated Schema.messages (new_message input c) d.messages message messages
    → IsSaved Schema.conversations
        (record c { base = record c.base { updated_at = time } })
        rows
        saved
        rows'
    → (logs : List ActivityLog) (events : List OutboxEvent) (fresh : Bool)
    → IsTarget input.tenant_id customer.id channel.id
        (record d { customers = customers })
        rows
        c
        fresh
    → IsAnnounced input.tenant_id saved message fresh d.activity_logs logs d.outbox_events events
    → IsReceived input saved.id d (tables d customers rows' messages logs events)
received d input tenant has_tenant channel has_channel customer customers is_customer rows rows' c
      saved time message messages made kept logs events fresh is_target announced =
    record {
      tenant = tenant;
      tenant_listed = has_tenant.0;
      tenant_id = has_tenant.1;
      channel = channel;
      channel_listed = has_channel.0;
      channel_tenant = (eq_iff _ _).0 (both_true _ _ has_channel.1).0;
      channel_key = (eq_iff _ _).0 (both_true _ _ has_channel.1).1;
      customer = customer;
      is_customer = is_customer;
      message = message;
      posted = made.added;
      message_conversation =
          ap (λ (x : Message). x.conversation_id) made.filled
          ∙ sym (ap (λ (x : Conversation). x.id) kept.filled);
      message_type = ap (λ (x : Message). x.sender_type) made.filled;
      message_sender = ap (λ (x : Message). x.sender_id) made.filled;
      message_text = ap (λ (x : Message). x.message) made.filled;
      routed =
          is_routed input.tenant_id customer.id channel.id d customers rows rows' c saved time
            message messages logs events kept fresh is_target announced;
      frame = refl;
    }

module _ {W : Type 0} (g : Gorm W) (laws : GormLaws g) (s : State W) (input : WebhookInput) where
  pub handle_webhook_tx_ends :
      Ends
        (handle_webhook_tx g input)
        s
        (λ id s'. IsReceived input id s.db s'.db)
        (λ e s'. WebhookRefused g input s.db e)
  unfolding handle_webhook_tx create_message save_conversation
  handle_webhook_tx_ends =
      reads_seq _ _ (tenant_reads g laws s input)
        (λ tenant w has_tenant.
          reads_seq _ _ (channel_reads g laws (beside s w) input)
            (λ channel w has_channel.
              ends_seq _ _
                (get_or_create_customer_ends g laws input.tenant_id input.customer_external_id
                  input.customer_name (beside s w))
                (λ customer t (customers, is_customer, same).
                  ends_at _ t (record s.db { customers = customers }) same
                    (ends_seq _ _
                      (active_or_new_ends g laws
                        (record { db = record s.db { customers = customers }; world = t.world })
                        input.tenant_id customer.id channel.id)
                      (λ target t (rows, is_target, same).
                        ends_at _ t (record s.db { customers = customers; conversations = rows })
                          same
                          (create_seq g laws
                            (record {
                              db = record s.db { customers = customers; conversations = rows };
                              world = t.world;
                            })
                            Tables.messages Schema.messages _ _
                            (λ message messages w made.
                              reads_seq _ _ (now_reads g laws _)
                                (λ time w u.
                                  save_seq g laws _ Tables.conversations Schema.conversations _ _
                                    (λ saved rows' w kept.
                                      ends_weaken _
                                        (events_ends g laws _ input.tenant_id saved message
                                          target.1)
                                        (λ id s' (same_id, (logs, events, announced, frame)).
                                          subst⁻¹ (λ k. IsReceived input k s.db s'.db) same_id
                                            (subst⁻¹ (IsReceived input saved.id s.db) frame (
                                              received s.db input tenant has_tenant channel
                                                has_channel customer customers is_customer rows
                                                rows' target.0 saved time message messages made kept
                                                logs events target.1 is_target announced)))
                                        (λ e s' f. faulty f))
                                    (λ e w f. faulty f))
                                (λ e w f. absurd f))
                            (λ e w f. faulty f)))
                      (λ e s' f. faulty f)))
                (λ e s' f. faulty f))
            (λ e w f. f))
        (λ e w f. f)
