-- ===== src/Repository/Store.antt =====
-- backend/internal/repository/store.go: the persistence helpers, over a GORM handle `g`.
pub mod Rules
pub mod Rewrite
pub mod Customers
pub mod Active
pub mod Pages
pub mod Grows
use sociomile.Prelude.{
  concat, decimal, ℕ, ◌+◌, [], ◌∷◌, false, ℤ, pos, String, Bool, true, ◌&&◌, ◌||◌, not, Option,
  none, some, List, ◌==◌, ltb, not_positive, if◌then◌else◌,
}
use sociomile.Apperror.{Error}
use sociomile.Model.{
  Tenant, User, Channel, Customer, Conversation, Message, Ticket, ActivityLog, OutboxEvent, unsaved,
  conversation_status_open, conversation_status_assigned,
}
use sociomile.Model.Schema
use sociomile.Exec.{Exec, pure, fail, ◌>>=◌, catch}
use sociomile.Gorm.{Gorm, unordered, whole}
use sociomile.Gorm.Session.{first, find, count, preload, create, save, updates}
use sociomile.Repository.Tables.{
  tenants, users, channels, customers, conversations, messages, tickets, activity_logs,
  outbox_events,
}
use sociomile.Repository.Filters.{
  ConversationFilter, TicketFilter, is_none, is_not_found, user_in, active_role, channel_in,
  customer_in, conversation_in, active_in, ticket_of, ticket_in, apply_conversation_filter,
  apply_ticket_filter, default_limit, is_less,
}

-- An action on each row of a list, in order.
unfoldable pub each : {W A B : Type 0} → (A → Exec W B) → List A → Exec W (List B)
each f [] = pure []
each f (x ∷ xs) = let rest = each f xs in do y ← f x; ys ← rest; pure (y ∷ ys)

module _ {W : Type 0} (g : Gorm W) where
  -- `WithinTransaction`
  unfoldable pub within_transaction : {A : Type 0} → Exec W A → Exec W A
  within_transaction fn = g.transaction fn

  unfoldable pub get_tenant : String → Exec W Tenant
  get_tenant tenant_id = first g tenants (unordered (λ r. r.id == tenant_id))

  -- `Preload("Tenant")`
  unfoldable pub get_user_by_email : String → Exec W User
  get_user_by_email email = do
    user ← first g users (unordered (λ r. r.email == email))
    tenant ← preload g tenants (λ r. r.id) (some user.tenant_id)
    pure (record user { tenant = tenant })

  unfoldable pub get_user_by_id_and_tenant : String → String → Exec W User
  get_user_by_id_and_tenant user_id tenant_id =
      first g users (unordered (user_in user_id tenant_id))

  unfoldable pub list_users_by_role : String → String → Exec W (List User)
  list_users_by_role tenant_id role =
      find g users
        (record { matches = active_role tenant_id role; before = λ a b. is_less a.name b.name })
        whole

  unfoldable pub get_channel_by_key : String → String → Exec W Channel
  get_channel_by_key tenant_id key = first g channels (unordered (channel_in tenant_id key))

  -- The branches of `GetOrCreateCustomer`: the customer was found, or there is none.
  unfoldable pub rename_customer : String → Customer → Exec W Customer
  rename_customer name customer =
      if not (name == "") && not (customer.name == name)
      then save g customers Schema.customers (record customer { name = name })
      else pure customer

  unfoldable pub create_customer : String → String → String → Exec W Customer
  create_customer tenant_id external_id name = create g customers Schema.customers (record {
    base = unsaved;
    tenant_id = tenant_id;
    external_id = external_id;
    name = if name == "" then external_id else name;
  })

  unfoldable pub find_customer : String → String → Exec W (Option Customer)
  find_customer tenant_id external_id =
      catch
        (do
          customer ← first g customers (unordered (customer_in tenant_id external_id))
          pure (some customer))
        (λ e. if is_not_found e then pure none else fail e)

  abbrev pub customer_or_new : String → String → String → Option Customer → Exec W Customer
  customer_or_new tenant_id external_id name none = create_customer tenant_id external_id name
  customer_or_new tenant_id external_id name (some customer) = rename_customer name customer

  -- `GetOrCreateCustomer`
  unfoldable pub get_or_create_customer : String → String → String → Exec W Customer
  get_or_create_customer tenant_id external_id name = do
    found ← find_customer tenant_id external_id
    customer_or_new tenant_id external_id name found

  -- `Preload("Customer").Preload("Channel").Preload("AssignedAgent")`
  unfoldable pub preload_conversation : Conversation → Exec W Conversation
  preload_conversation c = do
    customer ← preload g customers (λ r. r.id) (some c.customer_id)
    channel ← preload g channels (λ r. r.id) (some c.channel_id)
    agent ← preload g users (λ r. r.id) c.assigned_agent_id
    pure (record c { customer = customer; channel = channel; assigned_agent = agent })

  -- `FindActiveConversation`
  unfoldable pub find_active_conversation : String → String → String → Exec W Conversation
  find_active_conversation tenant_id customer_id channel_id = do
    c ← first g conversations (record {
      matches = active_in tenant_id customer_id channel_id;
      before = λ a b. ltb b.updated_at a.updated_at;
    })
    preload_conversation c

  unfoldable pub create_conversation : Conversation → Exec W Conversation
  create_conversation = create g conversations Schema.conversations

  unfoldable pub save_conversation : Conversation → Exec W Conversation
  save_conversation = save g conversations Schema.conversations

  unfoldable pub create_message : Message → Exec W Message
  create_message = create g messages Schema.messages

  unfoldable pub preload_ticket : Ticket → Exec W Ticket
  preload_ticket t = do
    agent ← preload g users (λ r. r.id) t.assigned_agent_id
    pure (record t { assigned_agent = agent })

  -- `FindTicketByConversation`
  unfoldable pub find_ticket_by_conversation : String → String → Exec W Ticket
  find_ticket_by_conversation tenant_id conversation_id = do
    t ← first g tickets (unordered (ticket_of tenant_id conversation_id))
    preload_ticket t

  -- The ticket of a conversation, if there is one.
  unfoldable pub ticket_or_none : String → String → Exec W (Option Ticket)
  ticket_or_none tenant_id conversation_id =
      catch (do ticket ← find_ticket_by_conversation tenant_id conversation_id; pure (some ticket))
        (λ e. if is_not_found e then pure none else fail e)

  -- `GetConversationByID`
  unfoldable pub get_conversation_by_id : String → String → Exec W Conversation
  get_conversation_by_id tenant_id conversation_id = do
    row ← first g conversations (unordered (conversation_in tenant_id conversation_id))
    c ← preload_conversation row
    messages ←
        find g messages
          (record {
            matches = λ r. r.conversation_id == conversation_id;
            before = λ a b. ltb a.created_at b.created_at;
          })
          whole
    ticket ← ticket_or_none tenant_id conversation_id
    pure (record c { messages = messages; ticket = ticket })

  -- `ListConversations`: the page, with the customer, channel and agent of each, and the total
  unfoldable pub list_conversations : String → ConversationFilter → Exec W (List Conversation × ℕ)
  list_conversations tenant_id filter = do
    total ← count g conversations (apply_conversation_filter (λ r. r.tenant_id == tenant_id) filter)
    rows ←
        find g conversations
          (record {
            matches = apply_conversation_filter (λ r. r.tenant_id == tenant_id) filter;
            before = λ a b. ltb b.updated_at a.updated_at;
          })
          (record { offset = filter.offset; limit = some (default_limit filter.limit) })
    loaded ← each preload_conversation rows
    pure (loaded, total)

  unfoldable pub create_ticket : Ticket → Exec W Ticket
  create_ticket = create g tickets Schema.tickets

  unfoldable pub save_ticket : Ticket → Exec W Ticket
  save_ticket = save g tickets Schema.tickets

  -- `GetTicketByID`
  unfoldable pub get_ticket_by_id : String → String → Exec W Ticket
  get_ticket_by_id tenant_id ticket_id = do
    t ← first g tickets (unordered (ticket_in tenant_id ticket_id))
    preload_ticket t

  -- `ListTickets`
  unfoldable pub list_tickets : String → TicketFilter → Exec W (List Ticket × ℕ)
  list_tickets tenant_id filter = do
    total ← count g tickets (apply_ticket_filter (λ r. r.tenant_id == tenant_id) filter)
    rows ←
        find g tickets
          (record {
            matches = apply_ticket_filter (λ r. r.tenant_id == tenant_id) filter;
            before = λ a b. ltb b.updated_at a.updated_at;
          })
          (record { offset = filter.offset; limit = some (default_limit filter.limit) })
    loaded ← each preload_ticket rows
    pure (loaded, total)

  unfoldable pub create_activity_log : ActivityLog → Exec W ActivityLog
  create_activity_log = create g activity_logs Schema.activity_logs

  unfoldable pub create_outbox_event : OutboxEvent → Exec W OutboxEvent
  create_outbox_event = create g outbox_events Schema.outbox_events

  -- `ListPendingOutbox`
  unfoldable pub list_pending_outbox : ℤ → Exec W (List OutboxEvent)
  list_pending_outbox limit =
      find g outbox_events
        (record {
          matches = λ r. is_none r.published_at;
          before = λ a b. ltb a.created_at b.created_at;
        })
        (record { offset = pos 0; limit = some limit })

  -- `MarkOutboxPublished`
  unfoldable pub mark_outbox_published : String → Exec W (Unit {0})
  mark_outbox_published event_id =
      updates g outbox_events (λ r. r.id == event_id)
        (λ now r. record r {
          base = record r.base { updated_at = now };
          published_at = some now;
          failed_at = none;
        })

  -- `MarkOutboxFailed`
  unfoldable pub mark_outbox_failed : String → Exec W (Unit {0})
  mark_outbox_failed event_id =
      updates g outbox_events (λ r. r.id == event_id)
        (λ now r. record r {
          base = record r.base { updated_at = now };
          failed_at = some now;
          attempts = r.attempts + 1;
        })

  -- `DebugTenantSummary`
  unfoldable pub debug_tenant_summary : String → Exec W String
  debug_tenant_summary tenant_id = do
    nc ← count g conversations (λ r. r.tenant_id == tenant_id)
    nt ← count g tickets (λ r. r.tenant_id == tenant_id)
    pure (
        concat (
          "tenant="
          ∷ tenant_id
          ∷ " conversations="
          ∷ decimal (pos nc)
          ∷ " tickets="
          ∷ decimal (pos nt)
          ∷ []))
