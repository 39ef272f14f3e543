-- ===== src/Service/Ticket/Escalate/Effect.antt =====
-- backend/internal/service/ticket_service.go: what the transaction of `EscalateConversation` does to
-- the tables, and why it is refused.
use sociomile.Prelude.{String, ◌≡◌, ◌≢◌, ◌⊎◌, true, false, none, some, List, [], ◌∷◌, ◌++◌, Member}
use sociomile.Apperror.{Error, fails}
use sociomile.Model.{
  Db, Conversation, Ticket, ActivityLog, OutboxEvent, conversation_status_assigned,
  conversation_status_closed, ticket_status_open, fields_payload, ticket_payload,
}
use sociomile.Gorm.{unordered}
use sociomile.Gorm.Session.Rules.{Missing, IsFault}
use sociomile.Repository.Filters.{conversation_in, ticket_of}
use sociomile.Repository.Store.Rewrite.{IsRewritten}
use sociomile.Service.Events.Rules.{IsAppended}
use sociomile.Service.Ticket.{EscalateTicketInput}

-- The conversation of `row` is the agent's: it is taken if it was free, and else left as it is.
pub record IsTaken (tenant_id id agent_id : String) (d : Db) (row : Conversation)
    (rows : List Conversation) : Type 0 where
  pub change :
      ((row.assigned_agent_id ≡ some agent_id) × (rows ≡ d.conversations))
      ⊎ ((row.assigned_agent_id ≡ none)
          × ((stored : Conversation) × IsRewritten d tenant_id id row stored rows
              × (stored.assigned_agent_id ≡ some agent_id)
              × (stored.status ≡ conversation_status_assigned)))

pub record Taken (tenant_id id agent_id : String) (d : Db) (row c : Conversation) (d' : Db)
    : Type 0 where
  pub rows : List Conversation
  pub frame : d' ≡ record d { conversations = rows }
  pub same_id : c.id ≡ id
  pub owner : c.assigned_agent_id ≡ some agent_id
  pub is_taken : IsTaken tenant_id id agent_id d row rows

-- The tables before and after an escalation.
pub record IsEscalated (tenant_id id agent_id : String) (input : EscalateTicketInput) (d d' : Db)
    : Type 0 where
  pub row : Conversation
  pub listed : Member row d.conversations
  pub asked_for : conversation_in tenant_id id row ≡ true
  pub was_open : row.status ≢ conversation_status_closed
  pub taken : IsTaken tenant_id id agent_id d row d'.conversations
  pub no_ticket : (t : Ticket) → Member t d.tickets → ticket_of tenant_id id t ≡ false
  pub ticket : Ticket
  pub fresh : (t : Ticket) → Member t d.tickets → t.id ≢ ticket.id
  pub added : d'.tickets ≡ d.tickets ++ ticket ∷ []
  pub ticket_tenant : ticket.tenant_id ≡ tenant_id
  pub ticket_conversation : ticket.conversation_id ≡ id
  pub ticket_title : ticket.title ≡ input.title
  pub ticket_description : ticket.description ≡ input.description
  pub ticket_status : ticket.status ≡ ticket_status_open
  pub ticket_priority : ticket.priority ≡ input.priority
  pub ticket_assignee : ticket.assigned_agent_id ≡ some agent_id
  pub logs : List ActivityLog
  pub events : List OutboxEvent
  pub escalated :
      IsAppended tenant_id "conversation.escalated" "conversation" id
        (fields_payload
          (("conversation_id", id) ∷ ("ticket_id", ticket.id) ∷ ("agent_id", agent_id) ∷ []))
        d.activity_logs
        logs
        d.outbox_events
        events
  pub created :
      IsAppended tenant_id "ticket.created" "ticket" ticket.id
        (ticket_payload ticket)
        logs
        d'.activity_logs
        events
        d'.outbox_events
  pub frame : d' ≡ record d {
    conversations = d'.conversations;
    tickets = d'.tickets;
    activity_logs = d'.activity_logs;
    outbox_events = d'.outbox_events;
  }

-- Why the transaction of an escalation is refused.
pub data EscalateRefused (tenant_id id agent_id : String) (d : Db) (e : Error) : Type 0 where
  unavailable :
      Missing (unordered (conversation_in tenant_id id)) d.conversations e
      → EscalateRefused tenant_id id agent_id d e
  closed :
      (row : Conversation)
      → Member row d.conversations
      → conversation_in tenant_id id row ≡ true
      → row.status ≡ conversation_status_closed
      → e ≡ fails 409 "conversation_closed" "cannot escalate a closed conversation"
      → EscalateRefused tenant_id id agent_id d e
  elsewhere :
      (row : Conversation)
      → Member row d.conversations
      → conversation_in tenant_id id row ≡ true
      → row.assigned_agent_id ≢ none
      → row.assigned_agent_id ≢ some agent_id
      → e
        ≡ fails 403 "conversation_assigned_elsewhere"
            "conversation is assigned to a different agent"
      → EscalateRefused tenant_id id agent_id d e
  has_one :
      (t : Ticket)
      → Member t d.tickets
      → ticket_of tenant_id id t ≡ true
      → e ≡ fails 409 "ticket_exists" "conversation already has a ticket"
      → EscalateRefused tenant_id id agent_id d e

pub fault :
    {tenant_id id agent_id : String} {d : Db} (e : Error)
    → IsFault e
    → EscalateRefused tenant_id id agent_id d e
fault e f = unavailable (f.0, λ n. absurd (f.1 n))
