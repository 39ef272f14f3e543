-- ===== src/Service/Webhook/Effect.antt =====
-- backend/internal/service/conversation_service.go: what the transaction of `HandleWebhook` does to
-- the tables, and why it is refused.
use sociomile.Prelude.{String, ◌==◌, ◌≡◌, ◌≢◌, ◌≤◌, none, List, [], ◌∷◌, ◌++◌, Member}
use sociomile.Apperror.{Error, fails}
use sociomile.Model.{
  Db, Tenant, Channel, Customer, Conversation, Message, ActivityLog, OutboxEvent,
  conversation_status_open, sender_type_customer, conversation_payload, message_payload,
}
use sociomile.Model.Schema
use sociomile.Gorm.{Gorm, unordered}
use sociomile.Gorm.Session.Rules.{IsMissed, IsFault}
use sociomile.Repository.Store.Active.{IsOngoing}
use sociomile.Repository.Store.Customers.{IsCustomerOf}
use sociomile.Repository.Store.Rewrite.{IsRewritten}
use sociomile.Service.Events.Rules.{IsAppended}
use sociomile.Service.Webhook.{WebhookInput}

-- The conversation `id` that the message goes to is active, and none of its customer and channel
-- was updated after it: its row is touched, its status and its agent stay.
pub record IsTouched (tenant_id customer_id channel_id id : String) (d : Db)
    (rows : List Conversation) : Type 0 where
  pub row : Conversation
  pub ongoing : IsOngoing tenant_id customer_id channel_id row
  pub newest :
      (x : Conversation)
      → Member x d.conversations
      → IsOngoing tenant_id customer_id channel_id x
      → x.updated_at ≤ row.updated_at
  pub stored : Conversation
  pub rewritten : IsRewritten d tenant_id id row stored rows
  pub same_status : stored.status ≡ row.status
  pub same_assignee : stored.assigned_agent_id ≡ row.assigned_agent_id

-- There is no active conversation of the customer and the channel, and `c` is a new one.
pub record IsOpened (tenant_id customer_id channel_id id : String) (d : Db)
    (rows : List Conversation) (c : Conversation) : Type 0 where
  pub none_active :
      (x : Conversation) → Member x d.conversations → ¬ IsOngoing tenant_id customer_id channel_id x
  pub fresh : (x : Conversation) → Member x d.conversations → x.id ≢ id
  pub same_id : c.id ≡ id
  pub tenant : c.tenant_id ≡ tenant_id
  pub customer : c.customer_id ≡ customer_id
  pub channel : c.channel_id ≡ channel_id
  pub status : c.status ≡ conversation_status_open
  pub assignee : c.assigned_agent_id ≡ none
  pub added : rows ≡ d.conversations ++ Schema.conversation_columns c ∷ []

-- The rows of conversations and the events of a webhook: a new conversation is announced before the
-- message.
pub data IsRouted (tenant_id customer_id channel_id id : String) (message : Message) (d d' : Db)
    : Type 0 where
  touched :
      IsTouched tenant_id customer_id channel_id id d d'.conversations
      → IsAppended tenant_id "channel.message.received" "conversation" id
          (message_payload message)
          d.activity_logs
          d'.activity_logs
          d.outbox_events
          d'.outbox_events
      → IsRouted tenant_id customer_id channel_id id message d d'
  opened :
      (c : Conversation)
      → IsOpened tenant_id customer_id channel_id id d d'.conversations c
      → (logs : List ActivityLog) (events : List OutboxEvent)
      → IsAppended tenant_id "conversation.created" "conversation" id
          (conversation_payload c)
          d.activity_logs
          logs
          d.outbox_events
          events
      → IsAppended tenant_id "channel.message.received" "conversation" id
          (message_payload message)
          logs
          d'.activity_logs
          events
          d'.outbox_events
      → IsRouted tenant_id customer_id channel_id id message d d'

-- The tables before and after a webhook with the trimmed `input`, that went to the conversation `id`.
pub record IsReceived (input : WebhookInput) (id : String) (d d' : Db) : Type 0 where
  pub tenant : Tenant
  pub tenant_listed : Member tenant d.tenants
  pub tenant_id : tenant.id ≡ input.tenant_id
  pub channel : Channel
  pub channel_listed : Member channel d.channels
  pub channel_tenant : channel.tenant_id ≡ input.tenant_id
  pub channel_key : channel.key ≡ input.channel_key
  pub customer : Customer
  pub is_customer :
      IsCustomerOf input.tenant_id input.customer_external_id input.customer_name d.customers
        customer d'.customers
  pub message : Message
  pub posted : d'.messages ≡ d.messages ++ message ∷ []
  pub message_conversation : message.conversation_id ≡ id
  pub message_type : message.sender_type ≡ sender_type_customer
  pub message_sender : message.sender_id ≡ none
  pub message_text : message.message ≡ input.message
  pub routed : IsRouted input.tenant_id customer.id channel.id id message d d'
  pub frame : d' ≡ record d {
    customers = d'.customers;
    conversations = d'.conversations;
    messages = d'.messages;
    activity_logs = d'.activity_logs;
    outbox_events = d'.outbox_events;
  }

-- Why the transaction of a webhook is refused.
pub data WebhookRefused {W : Type 0} (g : Gorm W) (input : WebhookInput) (d : Db) (e : Error)
    : Type 0 where
  faulty : IsFault e → WebhookRefused g input d e
  no_tenant :
      (x : Error)
      → IsMissed g (unordered (λ r. r.id == input.tenant_id)) d.tenants x
      → e ≡ fails 404 "tenant_not_found" "tenant not found"
      → WebhookRefused g input d e
  no_channel :
      ((x : Channel)
        → Member x d.channels
        → x.tenant_id ≡ input.tenant_id
        → x.key ≢ input.channel_key)
      → e ≡ fails 400 "invalid_channel" "channel_key is not configured for the tenant"
      → WebhookRefused g input d e
