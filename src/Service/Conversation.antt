-- ===== src/Service/Conversation.antt =====
-- backend/internal/service/conversation_service.go, over a GORM handle and a cache client. The
-- body of each transaction is a definition of its own, named after its method with `_tx`.
pub mod Assignment
pub mod Commit
pub mod Reply
pub mod Close
pub mod Assign
use sociomile.Prelude.{
  ℕ, ℤ, pos, String, Bool, true, false, not, ◌&&◌, ◌||◌, Option, none, some, List, [], ◌∷◌, ◌==◌,
  trim_space, if◌then◌else◌,
}
use sociomile.Apperror.{fails}
use sociomile.Model.{
  Conversation, Message, User, unsaved, role_admin, role_agent, conversation_status_open,
  conversation_status_assigned, conversation_status_closed, sender_type_customer, sender_type_agent,
  conversation_payload, message_payload, fields_payload,
}
use sociomile.Exec.{Exec, pure, fail, ◌>>=◌, ◌>>◌, fail_if, catch}
use sociomile.Gorm.{Gorm}
use sociomile.Gorm.Session.{now}
use sociomile.Repository.Filters.{is_none, is_not_found}
use sociomile.Repository.Store.{
  within_transaction, get_tenant, get_user_by_id_and_tenant, get_channel_by_key,
  get_or_create_customer, find_active_conversation, create_conversation, save_conversation,
  create_message, get_conversation_by_id,
}
use sociomile.Cache.{Client, key, bump_version, check_rate_limit}
use sociomile.Service.Events.{append_domain_event}

-- `conversation.AssignedAgentID != nil && *conversation.AssignedAgentID != agent.ID`
abbrev pub assigned_elsewhere : Option String → String → Bool
assigned_elsewhere none agent_id = false
assigned_elsewhere (some assignee) agent_id = not (assignee == agent_id)

-- `conversation.AssignedAgentID == nil || *conversation.AssignedAgentID != actorID`
abbrev pub not_assigned_to : Option String → String → Bool
not_assigned_to none actor_id = true
not_assigned_to (some assignee) actor_id = not (assignee == actor_id)

-- The text that a pointer to `old` points at once GORM has written a key through it.
abbrev pub through : Option String → String → String
through none old = old
through (some k) old = k

-- The assignment that an agent's first action makes.
abbrev pub take_over : User → Conversation → Conversation
take_over agent c =
    if is_none c.assigned_agent_id
    then record c { assigned_agent_id = some agent.id; status = conversation_status_assigned }
    else c

module _ {W : Type 0} (g : Gorm W) where
  -- `GetConversation`
  unfoldable pub get_conversation : String → String → Exec W Conversation
  get_conversation tenant_id conversation_id = get_conversation_by_id g tenant_id conversation_id

  -- `AssignedAgentID` points at the ID of `agent`, and `Save` writes the key of the loaded assignee
  -- through it, so that the event names the agent that was stored.
  unfoldable pub assign_conversation_tx : String → String → User → Exec W (Unit {0})
  assign_conversation_tx tenant_id conversation_id agent = do
    conversation ← get_conversation_by_id g tenant_id conversation_id
    fail_if (conversation.status == conversation_status_closed)
        (fails 409 "conversation_closed" "closed conversations cannot be assigned")
    saved ← save_conversation g (record conversation {
      assigned_agent_id = some agent.id;
      status = conversation_status_assigned;
    })
    append_domain_event g tenant_id "conversation.assigned" "conversation" saved.id (
        fields_payload (
          ("conversation_id", saved.id)
          ∷ ("agent_id", through saved.assigned_agent_id agent.id)
          ∷ []))

  unfoldable pub reply_to_conversation_tx :
      (tenant_id conversation_id : String) → User → String → Exec W (Unit {0})
  reply_to_conversation_tx tenant_id conversation_id agent message_text = do
    conversation ← get_conversation_by_id g tenant_id conversation_id
    fail_if (conversation.status == conversation_status_closed)
        (fails 409 "conversation_closed" "cannot reply to a closed conversation")
    fail_if (assigned_elsewhere conversation.assigned_agent_id agent.id) (
        fails 403 "conversation_assigned_elsewhere" "conversation is assigned to a different agent")
    message ← create_message g (record {
      base = unsaved;
      conversation_id = conversation.id;
      sender_type = sender_type_agent;
      sender_id = some agent.id;
      message = message_text;
    })
    time ← now g
    saved ← save_conversation g (record (take_over agent conversation) {
      base = record conversation.base { updated_at = time };
    })
    append_domain_event g tenant_id "conversation.replied" "conversation" saved.id (
        fields_payload (
          ("conversation_id", saved.id) ∷ ("agent_id", agent.id) ∷ ("message_id", message.id) ∷ []))

  -- What `CloseConversation` does to a conversation that is not closed.
  unfoldable pub close_open :
      (tenant_id actor_id actor_role : String) → Conversation → Exec W (Unit {0})
  close_open tenant_id actor_id actor_role conversation = do
    saved ← save_conversation g (record conversation { status = conversation_status_closed })
    append_domain_event g tenant_id "conversation.closed" "conversation" saved.id (
        fields_payload (
          ("conversation_id", saved.id) ∷ ("actor_id", actor_id) ∷ ("actor_role", actor_role) ∷ []))

  unfoldable pub close_conversation_tx :
      (tenant_id conversation_id actor_id actor_role : String) → Exec W (Unit {0})
  close_conversation_tx tenant_id conversation_id actor_id actor_role = do
    conversation ← get_conversation_by_id g tenant_id conversation_id
    fail_if (actor_role == role_agent && not_assigned_to conversation.assigned_agent_id actor_id)
        (fails 403 "forbidden" "agent can only close conversations assigned to them")
    if conversation.status == conversation_status_closed
        then pure tt
        else close_open tenant_id actor_id actor_role conversation

module _ {W : Type 0} (g : Gorm W) (cache : Client W) where
  -- `AssignConversation`
  unfoldable pub assign_conversation :
      (tenant_id conversation_id actor_id actor_role agent_id : String) → Exec W Conversation
  assign_conversation tenant_id conversation_id actor_id actor_role raw_agent_id = do
    fail_if (not (actor_role == role_admin))
        (fails 403 "forbidden" "only admins can assign conversations")
    actor ←
        catch (get_user_by_id_and_tenant g actor_id tenant_id)
          (λ e. fail (fails 403 "forbidden" "admin user is not available in this tenant"))
    let agent_id = trim_space raw_agent_id
    fail_if (agent_id == "") (fails 400 "invalid_assignment" "agent_id is required")
    agent ←
        catch (get_user_by_id_and_tenant g agent_id tenant_id)
          (λ e. fail (fails 400 "invalid_assignment" "agent does not exist in this tenant"))
    fail_if (not (agent.role == role_agent))
        (fails 400 "invalid_assignment" "target user must have the agent role")
    within_transaction g (assign_conversation_tx g tenant_id conversation_id agent)
    bump_version cache tenant_id "conversations"
    get_conversation g tenant_id conversation_id

  -- `ReplyToConversation`
  unfoldable pub reply_to_conversation :
      (tenant_id conversation_id agent_id message : String) → Exec W Conversation
  reply_to_conversation tenant_id conversation_id agent_id message = do
    let message_text = trim_space message
    fail_if (message_text == "") (fails 400 "invalid_message" "message is required")
    agent ←
        catch (get_user_by_id_and_tenant g agent_id tenant_id)
          (λ e. fail (fails 403 "forbidden" "only agents can reply to conversations"))
    fail_if (not (agent.role == role_agent))
        (fails 403 "forbidden" "only agents can reply to conversations")
    within_transaction g (reply_to_conversation_tx g tenant_id conversation_id agent message_text)
    bump_version cache tenant_id "conversations"
    get_conversation g tenant_id conversation_id

  -- `CloseConversation`
  unfoldable pub close_conversation :
      (tenant_id conversation_id actor_id actor_role : String) → Exec W Conversation
  close_conversation tenant_id conversation_id actor_id actor_role = do
    within_transaction g (close_conversation_tx g tenant_id conversation_id actor_id actor_role)
    bump_version cache tenant_id "conversations"
    get_conversation g tenant_id conversation_id
