-- ===== src/Service/Grows.antt =====
-- backend/internal/service: no transaction takes the version of a list back.
use sociomile.Prelude.{ℕ, String, Bool, true, false}
use sociomile.Model.{Conversation, User, Payload}
use sociomile.Exec.Grows.{Grows, grow_rules, Grows-pure}
use sociomile.Gorm.{Gorm}
use sociomile.Gorm.Grows.{GormGrows, Grows-now}
use sociomile.Repository.Store.Grows.{
  Grows-transaction, Grows-get_tenant, Grows-get_user, Grows-get_channel,
  Grows-get_or_create_customer, Grows-find_active, Grows-create_conversation,
  Grows-save_conversation, Grows-create_message, Grows-find_ticket, Grows-get_conversation,
  Grows-create_ticket, Grows-save_ticket, Grows-get_ticket, Grows-create_log, Grows-create_event,
}
use sociomile.Service.Events.{append_domain_event}
use sociomile.Service.Conversation.{
  assign_conversation_tx, reply_to_conversation_tx, close_open, close_conversation_tx,
}
use sociomile.Service.Ticket.{
  EscalateTicketInput, has_ticket, take_if_free, escalate_conversation_tx, update_status_tx,
}
use sociomile.Service.Webhook.{WebhookInput, active_or_new, created_event, handle_webhook_tx}

module _ {W : Type 0} {g : Gorm W} {rank : W → ℕ} (grows : GormGrows g rank) where
  ruleset write_rules = (
    grow_rules, Grows-now, Grows-transaction, Grows-get_tenant, Grows-get_user, Grows-get_channel,
    Grows-get_or_create_customer, Grows-find_active, Grows-create_conversation,
    Grows-save_conversation, Grows-create_message, Grows-find_ticket, Grows-get_conversation,
    Grows-create_ticket, Grows-save_ticket, Grows-get_ticket, Grows-create_log, Grows-create_event,
  )

  Grows-append_event :
      (tenant_id event_type entity_type entity_id : String) (payload : Payload)
      → Grows rank (append_domain_event g tenant_id event_type entity_type entity_id payload)
  unfolding append_domain_event
  Grows-append_event tenant_id event_type entity_type entity_id payload =
      search (write_rules, grows)

  pub Grows-assign_tx :
      (tenant_id id : String) (agent : User)
      → Grows rank (assign_conversation_tx g tenant_id id agent)
  unfolding assign_conversation_tx
  Grows-assign_tx tenant_id id agent = search (write_rules, grows, Grows-append_event) depth 9

  pub Grows-reply_tx :
      (tenant_id id : String) (agent : User) (message : String)
      → Grows rank (reply_to_conversation_tx g tenant_id id agent message)
  unfolding reply_to_conversation_tx
  Grows-reply_tx tenant_id id agent message =
      search (write_rules, grows, Grows-append_event) depth 12

  Grows-close_open :
      (tenant_id actor_id actor_role : String) (c : Conversation)
      → Grows rank (close_open g tenant_id actor_id actor_role c)
  unfolding close_open
  Grows-close_open tenant_id actor_id actor_role c =
      search (write_rules, grows, Grows-append_event) depth 9

  pub Grows-close_tx :
      (tenant_id id actor_id actor_role : String)
      → Grows rank (close_conversation_tx g tenant_id id actor_id actor_role)
  unfolding close_conversation_tx
  Grows-close_tx tenant_id id actor_id actor_role =
      search (write_rules, grows, Grows-close_open) depth 9

  Grows-has_ticket : (tenant_id id : String) → Grows rank (has_ticket g tenant_id id)
  unfolding has_ticket
  Grows-has_ticket tenant_id id = search (write_rules, grows) depth 9

  Grows-take_if_free : (agent : User) (c : Conversation) → Grows rank (take_if_free g agent c)
  unfolding take_if_free
  Grows-take_if_free agent c = search (write_rules, grows) depth 9

  pub Grows-escalate_tx :
      (tenant_id id : String) (agent : User) (input : EscalateTicketInput)
      → Grows rank (escalate_conversation_tx g tenant_id id agent input)
  unfolding escalate_conversation_tx
  Grows-escalate_tx tenant_id id agent input =
      search (write_rules, grows, Grows-append_event, Grows-has_ticket, Grows-take_if_free) depth 16
        fits 4000

  pub Grows-status_tx :
      (tenant_id id status : String) → Grows rank (update_status_tx g tenant_id id status)
  unfolding update_status_tx
  Grows-status_tx tenant_id id status = search (write_rules, grows, Grows-append_event) depth 9

  Grows-active_or_new :
      (tenant_id customer_id channel_id : String)
      → Grows rank (active_or_new g tenant_id customer_id channel_id)
  unfolding active_or_new
  Grows-active_or_new tenant_id customer_id channel_id = search (write_rules, grows) depth 9

  Grows-created_event :
      (tenant_id : String) (c : Conversation) (new : Bool)
      → Grows rank (created_event g tenant_id c new)
  unfolding created_event
  Grows-created_event tenant_id c true = Grows-append_event _ _ _ _ _
  Grows-created_event tenant_id c false = Grows-pure _

  pub Grows-webhook_tx : (input : WebhookInput) → Grows rank (handle_webhook_tx g input)
  unfolding handle_webhook_tx
  Grows-webhook_tx input =
      search (write_rules, grows, Grows-append_event, Grows-active_or_new, Grows-created_event)
        depth 16 fits 4000
