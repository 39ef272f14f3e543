-- ===== src/Invariant.antt =====
-- What every call of backend/internal/service keeps true of the tables of conversations and
-- tickets, across the methods of both services.
pub mod Tables
pub mod Effects
pub mod Calls
pub mod Reachable
pub mod Isolation
pub mod Lifecycle
pub mod Fresh
use sociomile.Prelude.{String, ◌≡◌, ◌≢◌, none, List, Member, Unique}
use sociomile.Model.{
  Db, Conversation, Ticket, conversation_status_open, conversation_status_assigned,
  conversation_status_closed,
}
use sociomile.Model.Schema
use sociomile.Model.Schema.{key}

-- The status and the agent of a conversation agree; a closed one may have an agent or none.
pub data IsCoherent (c : Conversation) : Type 0 where
  is_open : c.status ≡ conversation_status_open → c.assigned_agent_id ≡ none → IsCoherent c
  is_assigned : c.status ≡ conversation_status_assigned → c.assigned_agent_id ≢ none → IsCoherent c
  is_closed : c.status ≡ conversation_status_closed → IsCoherent c

-- The ticket is one of a conversation of its tenant.
abbrev pub IsOwned : List Conversation → Ticket → Type 0
IsOwned conversations t =
    (c : Conversation) × Member c conversations
    × (c.id ≡ t.conversation_id)
    × (c.tenant_id ≡ t.tenant_id)

-- Identifiers are unique, the conversations are coherent, no conversation has two tickets, and each
-- ticket is owned.
pub record IsSound (conversations : List Conversation) (tickets : List Ticket) : Type 0 where
  pub conversation_ids : Unique (key Schema.conversations) conversations
  pub coherent : (c : Conversation) → Member c conversations → IsCoherent c
  pub ticket_ids : Unique (key Schema.tickets) tickets
  pub one_ticket : Unique (λ t. t.conversation_id) tickets
  pub owned : (t : Ticket) → Member t tickets → IsOwned conversations t

abbrev pub IsWellFormed : Db → Type 0
IsWellFormed d = IsSound d.conversations d.tickets
