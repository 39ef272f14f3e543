-- ===== src/Repository/Store/Grows.antt =====
-- backend/internal/repository/store.go: no method takes a counter of Redis back.
use sociomile.Prelude.{ℕ, String, Option, none, some}
use sociomile.Model.{Customer, Conversation, Message, Ticket, ActivityLog, OutboxEvent}
use sociomile.Exec.{Exec}
use sociomile.Exec.Grows.{Grows, grow_rules}
use sociomile.Gorm.{Gorm}
use sociomile.Gorm.Grows.{
  GormGrows, Grows-first, Grows-find, Grows-preload, Grows-create, Grows-save,
}
use sociomile.Repository.Store.{
  within_transaction, get_tenant, get_user_by_id_and_tenant, get_channel_by_key, rename_customer,
  create_customer, find_customer, customer_or_new, get_or_create_customer, preload_conversation,
  find_active_conversation, create_conversation, save_conversation, create_message, preload_ticket,
  find_ticket_by_conversation, ticket_or_none, get_conversation_by_id, create_ticket, save_ticket,
  get_ticket_by_id, create_activity_log, create_outbox_event,
}

module _ {W : Type 0} {g : Gorm W} {rank : W → ℕ} (grows : GormGrows g rank) where
  ruleset call_rules =
      (grow_rules, Grows-first, Grows-find, Grows-preload, Grows-create, Grows-save)

  pub Grows-transaction :
      {A : Type 0} (m : Exec W A) → Grows rank m → Grows rank (within_transaction g m)
  unfolding within_transaction
  Grows-transaction m h = grows.on_transaction m h

  pub Grows-get_tenant : (id : String) → Grows rank (get_tenant g id)
  unfolding get_tenant
  Grows-get_tenant id = search (call_rules, grows)

  pub Grows-get_user :
      (id tenant_id : String) → Grows rank (get_user_by_id_and_tenant g id tenant_id)
  unfolding get_user_by_id_and_tenant
  Grows-get_user id tenant_id = search (call_rules, grows)

  pub Grows-get_channel : (tenant_id key : String) → Grows rank (get_channel_by_key g tenant_id key)
  unfolding get_channel_by_key
  Grows-get_channel tenant_id key = search (call_rules, grows)

  Grows-rename_customer : (name : String) (c : Customer) → Grows rank (rename_customer g name c)
  unfolding rename_customer
  Grows-rename_customer name c = search (call_rules, grows)

  Grows-create_customer :
      (tenant_id external_id name : String)
      → Grows rank (create_customer g tenant_id external_id name)
  unfolding create_customer
  Grows-create_customer tenant_id external_id name = search (call_rules, grows)

  Grows-find_customer :
      (tenant_id external_id : String) → Grows rank (find_customer g tenant_id external_id)
  unfolding find_customer
  Grows-find_customer tenant_id external_id = search (call_rules, grows)

  Grows-customer_or_new :
      (tenant_id external_id name : String) (found : Option Customer)
      → Grows rank (customer_or_new g tenant_id external_id name found)
  Grows-customer_or_new tenant_id external_id name none =
      Grows-create_customer tenant_id external_id name
  Grows-customer_or_new tenant_id external_id name (some c) = Grows-rename_customer name c

  pub Grows-get_or_create_customer :
      (tenant_id external_id name : String)
      → Grows rank (get_or_create_customer g tenant_id external_id name)
  unfolding get_or_create_customer
  Grows-get_or_create_customer tenant_id external_id name =
      search (call_rules, Grows-find_customer, Grows-customer_or_new)

  Grows-preload_conversation : (c : Conversation) → Grows rank (preload_conversation g c)
  unfolding preload_conversation
  Grows-preload_conversation c = search (call_rules, grows)

  pub Grows-find_active :
      (tenant_id customer_id channel_id : String)
      → Grows rank (find_active_conversation g tenant_id customer_id channel_id)
  unfolding find_active_conversation
  Grows-find_active tenant_id customer_id channel_id =
      search (call_rules, grows, Grows-preload_conversation)

  pub Grows-create_conversation : (c : Conversation) → Grows rank (create_conversation g c)
  unfolding create_conversation
  Grows-create_conversation c = search (call_rules, grows)

  pub Grows-save_conversation : (c : Conversation) → Grows rank (save_conversation g c)
  unfolding save_conversation
  Grows-save_conversation c = search (call_rules, grows)

  pub Grows-create_message : (m : Message) → Grows rank (create_message g m)
  unfolding create_message
  Grows-create_message m = search (call_rules, grows)

  Grows-preload_ticket : (t : Ticket) → Grows rank (preload_ticket g t)
  unfolding preload_ticket
  Grows-preload_ticket t = search (call_rules, grows)

  pub Grows-find_ticket :
      (tenant_id id : String) → Grows rank (find_ticket_by_conversation g tenant_id id)
  unfolding find_ticket_by_conversation
  Grows-find_ticket tenant_id id = search (call_rules, grows, Grows-preload_ticket)

  Grows-ticket_or_none : (tenant_id id : String) → Grows rank (ticket_or_none g tenant_id id)
  unfolding ticket_or_none
  Grows-ticket_or_none tenant_id id = search (call_rules, Grows-find_ticket)

  pub Grows-get_conversation :
      (tenant_id id : String) → Grows rank (get_conversation_by_id g tenant_id id)
  unfolding get_conversation_by_id
  Grows-get_conversation tenant_id id =
      search (call_rules, grows, Grows-preload_conversation, Grows-ticket_or_none) depth 8

  pub Grows-create_ticket : (t : Ticket) → Grows rank (create_ticket g t)
  unfolding create_ticket
  Grows-create_ticket t = search (call_rules, grows)

  pub Grows-save_ticket : (t : Ticket) → Grows rank (save_ticket g t)
  unfolding save_ticket
  Grows-save_ticket t = search (call_rules, grows)

  pub Grows-get_ticket : (tenant_id id : String) → Grows rank (get_ticket_by_id g tenant_id id)
  unfolding get_ticket_by_id
  Grows-get_ticket tenant_id id = search (call_rules, grows, Grows-preload_ticket)

  pub Grows-create_log : (r : ActivityLog) → Grows rank (create_activity_log g r)
  unfolding create_activity_log
  Grows-create_log r = search (call_rules, grows)

  pub Grows-create_event : (r : OutboxEvent) → Grows rank (create_outbox_event g r)
  unfolding create_outbox_event
  Grows-create_event r = search (call_rules, grows)
