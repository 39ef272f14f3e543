-- ===== src/Service/Ticket.antt =====
-- backend/internal/service/ticket_service.go, over a GORM handle and a cache client. The body of
-- each transaction is a definition of its own, named after its method with `_tx`.
pub mod Escalate
pub mod Status
use sociomile.Prelude.{
  String, Bool, true, false, not, ◌||◌, Option, none, some, [], ◌∷◌, ◌==◌, trim_space,
  if◌then◌else◌,
}
use sociomile.Apperror.{fails}
use sociomile.Model.{
  Conversation, Ticket, User, unsaved, role_admin, role_agent, conversation_status_assigned,
  conversation_status_closed, ticket_status_open, ticket_status_in_progress, ticket_status_resolved,
  ticket_status_closed, ticket_priority_low, ticket_priority_medium, ticket_priority_high,
  fields_payload, ticket_payload,
}
use sociomile.Exec.{Exec, pure, fail, ◌>>=◌, ◌>>◌, fail_if, catch}
use sociomile.Gorm.{Gorm}
use sociomile.Repository.Filters.{is_none, is_not_found}
use sociomile.Repository.Store.{
  within_transaction, get_user_by_id_and_tenant, save_conversation, get_conversation_by_id,
  find_ticket_by_conversation, create_ticket, save_ticket, get_ticket_by_id,
}
use sociomile.Cache.{Client, bump_version}
use sociomile.Service.Events.{append_domain_event}
use sociomile.Service.Conversation.{assigned_elsewhere}

-- `EscalateTicketInput`
pub record EscalateTicketInput : Type 0 where
  pub title : String
  pub description : String
  pub priority : String

-- `isValidPriority`
unfoldable pub is_valid_priority : String → Bool
is_valid_priority priority =
    priority == ticket_priority_low
    || (priority == ticket_priority_medium || priority == ticket_priority_high)

-- `isValidTicketStatus`
unfoldable pub is_valid_ticket_status : String → Bool
is_valid_ticket_status status =
    status == ticket_status_open
    || (status == ticket_status_in_progress
        || (status == ticket_status_resolved || status == ticket_status_closed))

-- The trimmed input, with the default priority where none is given
unfoldable pub normalized : EscalateTicketInput → EscalateTicketInput
normalized input = record {
  title = trim_space input.title;
  description = trim_space input.description;
  priority =
      if trim_space input.priority == "" then ticket_priority_medium else trim_space input.priority;
}

module _ {W : Type 0} (g : Gorm W) where
  -- `GetTicket`
  unfoldable pub get_ticket : String → String → Exec W Ticket
  get_ticket tenant_id ticket_id = get_ticket_by_id g tenant_id ticket_id

  -- Whether the conversation has a ticket; any error but a missing record is passed on.
  unfoldable pub has_ticket : String → String → Exec W Bool
  has_ticket tenant_id conversation_id =
      catch (find_ticket_by_conversation g tenant_id conversation_id >>= λ t. pure true)
        (λ e. if is_not_found e then pure false else fail e)

  -- The assignment of a free conversation to the agent who escalates it
  unfoldable pub take_if_free : User → Conversation → Exec W Conversation
  take_if_free agent conversation =
      if is_none conversation.assigned_agent_id
      then save_conversation g (record conversation {
        assigned_agent_id = some agent.id;
        status = conversation_status_assigned;
      })
      else pure conversation

  unfoldable pub escalate_conversation_tx :
      (tenant_id conversation_id : String) → User → EscalateTicketInput → Exec W String
  escalate_conversation_tx tenant_id conversation_id agent input = do
    conversation ← get_conversation_by_id g tenant_id conversation_id
    fail_if (conversation.status == conversation_status_closed)
        (fails 409 "conversation_closed" "cannot escalate a closed conversation")
    fail_if (assigned_elsewhere conversation.assigned_agent_id agent.id) (
        fails 403 "conversation_assigned_elsewhere" "conversation is assigned to a different agent")
    exists ← has_ticket tenant_id conversation_id
    fail_if exists (fails 409 "ticket_exists" "conversation already has a ticket")
    taken ← take_if_free agent conversation
    ticket ← create_ticket g (record {
      base = unsaved;
      tenant_id = tenant_id;
      conversation_id = taken.id;
      title = input.title;
      description = input.description;
      status = ticket_status_open;
      priority = input.priority;
      assigned_agent_id = taken.assigned_agent_id;
      assigned_agent = none;
    })
    append_domain_event g tenant_id "conversation.escalated" "conversation" taken.id (
        fields_payload
          (("conversation_id", taken.id) ∷ ("ticket_id", ticket.id) ∷ ("agent_id", agent.id) ∷ []))
    append_domain_event g tenant_id "ticket.created" "ticket" ticket.id (ticket_payload ticket)
    pure ticket.id

  unfoldable pub update_status_tx : (tenant_id ticket_id status : String) → Exec W (Unit {0})
  update_status_tx tenant_id ticket_id status = do
    ticket ← get_ticket_by_id g tenant_id ticket_id
    saved ← save_ticket g (record ticket { status = status })
    append_domain_event g tenant_id "ticket.status.updated" "ticket" saved.id
        (fields_payload (("ticket_id", saved.id) ∷ ("status", saved.status) ∷ []))

module _ {W : Type 0} (g : Gorm W) (cache : Client W) where
  -- `EscalateConversation`
  unfoldable pub escalate_conversation :
      (tenant_id conversation_id agent_id : String) → EscalateTicketInput → Exec W Ticket
  escalate_conversation tenant_id conversation_id agent_id raw = do
    let input = normalized raw
    fail_if (input.title == "" || input.description == "")
        (fails 400 "invalid_ticket" "title and description are required")
    fail_if (not (is_valid_priority input.priority))
        (fails 400 "invalid_priority" "priority must be low, medium, or high")
    agent ←
        catch (get_user_by_id_and_tenant g agent_id tenant_id)
          (λ e. fail (fails 403 "forbidden" "only agents can escalate conversations"))
    fail_if (not (agent.role == role_agent))
        (fails 403 "forbidden" "only agents can escalate conversations")
    ticket_id ←
        within_transaction g (escalate_conversation_tx g tenant_id conversation_id agent input)
    bump_version cache tenant_id "conversations"
    bump_version cache tenant_id "tickets"
    get_ticket g tenant_id ticket_id

  -- `UpdateStatus`
  unfoldable pub update_status :
      (tenant_id ticket_id actor_id actor_role status : String) → Exec W Ticket
  update_status tenant_id ticket_id actor_id actor_role raw_status = do
    fail_if (not (actor_role == role_admin))
        (fails 403 "forbidden" "only admins can update ticket status")
    actor ←
        catch (get_user_by_id_and_tenant g actor_id tenant_id)
          (λ e. fail (fails 403 "forbidden" "admin user is not available in this tenant"))
    let status = trim_space raw_status
    fail_if (not (is_valid_ticket_status status))
        (fails 400 "invalid_status" "invalid ticket status")
    within_transaction g (update_status_tx g tenant_id ticket_id status)
    bump_version cache tenant_id "tickets"
    get_ticket g tenant_id ticket_id
