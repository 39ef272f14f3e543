-- ===== src/Invariant/Calls.antt =====
-- backend/internal/service: the calls that write, as requests, and what each of them may change.
use sociomile.Prelude.{String, ◌≡◌, ◌⊎◌, inl, inr, trim_space}
use sociomile.Apperror.{Error}
use sociomile.Model.{Db, User}
use sociomile.Exec.{ok, err, State, Exec}
use sociomile.Exec.Ends.{ends_from, ends_state}
use sociomile.Gorm.{Gorm}
use sociomile.Gorm.Laws.{GormLaws}
use sociomile.Cache.{Client}
use sociomile.Service.Conversation.{assign_conversation, reply_to_conversation, close_conversation}
use sociomile.Service.Conversation.Assign.{
  assign_conversation_ok, assign_conversation_err, IsAssigned, AssignFailed,
}
use sociomile.Service.Conversation.Assign
use sociomile.Service.Conversation.Reply.{
  reply_to_conversation_ok, reply_to_conversation_err, IsReplied, ReplyFailed,
}
use sociomile.Service.Conversation.Reply
use sociomile.Service.Conversation.Close.{close_conversation_ok, close_conversation_err, Closed}
use sociomile.Service.Ticket.{EscalateTicketInput, normalized, escalate_conversation, update_status}
use sociomile.Service.Ticket.Escalate.{
  escalate_conversation_ok, escalate_conversation_err, EscalateFailed,
}
use sociomile.Service.Ticket.Escalate
use sociomile.Service.Ticket.Escalate.Effect.{IsEscalated}
use sociomile.Service.Ticket.Status.{update_status_ok, update_status_err, IsStatusSet, StatusFailed}
use sociomile.Service.Ticket.Status
use sociomile.Service.Webhook.{WebhookInput, trimmed, handle_webhook}
use sociomile.Service.Webhook.Received.{handle_webhook_ok, handle_webhook_err, WebhookFailed}
use sociomile.Service.Webhook.Received
use sociomile.Service.Webhook.Effect.{IsReceived}

-- A call of a service that writes, with the values that it is given.
pub data Request : Type 0 where
  receive : WebhookInput → Request
  assign : (tenant_id id actor_id actor_role agent_id : String) → Request
  reply : (tenant_id id agent_id message : String) → Request
  close : (tenant_id id actor_id actor_role : String) → Request
  escalate : (tenant_id id agent_id : String) → EscalateTicketInput → Request
  set_status : (tenant_id id actor_id actor_role status : String) → Request

-- The state after a call, whether it succeeded or failed.
abbrev pub after : {W : Type 0} → Gorm W → Client W → Request → State W → State W
after g cache (receive input) s = (handle_webhook g cache input s).1
after g cache (assign tenant_id id actor_id actor_role agent_id) s =
    (assign_conversation g cache tenant_id id actor_id actor_role agent_id s).1
after g cache (reply tenant_id id agent_id message) s =
    (reply_to_conversation g cache tenant_id id agent_id message s).1
after g cache (close tenant_id id actor_id actor_role) s =
    (close_conversation g cache tenant_id id actor_id actor_role s).1
after g cache (escalate tenant_id id agent_id input) s =
    (escalate_conversation g cache tenant_id id agent_id input s).1
after g cache (set_status tenant_id id actor_id actor_role status) s =
    (update_status g cache tenant_id id actor_id actor_role status s).1

-- What a call changes in the tables, where it changes any.
abbrev pub IsChange : Request → Db → Db → Type 0
IsChange (receive input) d d' = (id : String) × IsReceived (trimmed input) id d d'
IsChange (assign tenant_id id actor_id actor_role agent_id) d d' =
    (agent : User) × IsAssigned tenant_id id agent.id d d'
IsChange (reply tenant_id id agent_id message) d d' =
    (agent : User) × IsReplied tenant_id id agent.id (trim_space message) d d'
IsChange (close tenant_id id actor_id actor_role) d d' =
    Closed tenant_id id actor_id actor_role d d'
IsChange (escalate tenant_id id agent_id input) d d' =
    (agent : User) × IsEscalated tenant_id id agent.id (normalized input) d d'
IsChange (set_status tenant_id id actor_id actor_role status) d d' =
    IsStatusSet tenant_id id (trim_space status) d d'

module _ {W : Type 0} (g : Gorm W) (d d' : Db) where
  failed_or : {A P B R : Type 0} → ((d' ≡ d) × A) ⊎ (P × B) → (P → R) → (d' ≡ d) ⊎ R
  failed_or (inl (same, why)) f = inl same
  failed_or (inr (p, engine)) f = inr (f p)

  received_failed :
      (input : WebhookInput) (e : Error)
      → WebhookFailed g (trimmed input) d d' e
      → (d' ≡ d) ⊎ IsChange (receive input) d d'
  received_failed input e (Received.incomplete m x same) = inl same
  received_failed input e (Received.stopped f) = failed_or f (λ p. p)

  assign_failed :
      (tenant_id id actor_id actor_role agent_id : String) (e : Error)
      → AssignFailed g tenant_id id actor_id actor_role (trim_space agent_id) d d' e
      → (d' ≡ d) ⊎ IsChange (assign tenant_id id actor_id actor_role agent_id) d d'
  assign_failed tenant_id id actor_id actor_role agent_id e (Assign.not_admin n x same) = inl same
  assign_failed tenant_id id actor_id actor_role agent_id e (Assign.no_actor why x same) = inl same
  assign_failed tenant_id id actor_id actor_role agent_id e (Assign.blank n x same) = inl same
  assign_failed tenant_id id actor_id actor_role agent_id e (Assign.no_agent why x same) = inl same
  assign_failed tenant_id id actor_id actor_role agent_id e (Assign.wrong_role why x same) =
      inl same
  assign_failed tenant_id id actor_id actor_role agent_id e (Assign.stopped agent is_agent f) =
      failed_or f (λ p. (agent, p.1))

  reply_failed :
      (tenant_id id agent_id message : String) (e : Error)
      → ReplyFailed g tenant_id id agent_id (trim_space message) d d' e
      → (d' ≡ d) ⊎ IsChange (reply tenant_id id agent_id message) d d'
  reply_failed tenant_id id agent_id message e (Reply.blank n x same) = inl same
  reply_failed tenant_id id agent_id message e (Reply.not_agent why x same) = inl same
  reply_failed tenant_id id agent_id message e (Reply.stopped agent is_agent f) =
      failed_or f (λ p. (agent, p.1))

  escalate_failed :
      (tenant_id id agent_id : String) (input : EscalateTicketInput) (e : Error)
      → EscalateFailed g tenant_id id agent_id (normalized input) d d' e
      → (d' ≡ d) ⊎ IsChange (escalate tenant_id id agent_id input) d d'
  escalate_failed tenant_id id agent_id input e (Escalate.incomplete n x same) = inl same
  escalate_failed tenant_id id agent_id input e (Escalate.bad_priority n x same) = inl same
  escalate_failed tenant_id id agent_id input e (Escalate.not_agent why x same) = inl same
  escalate_failed tenant_id id agent_id input e (Escalate.stopped agent is_agent f) =
      failed_or f (λ p. (agent, p.1))

  status_failed :
      (tenant_id id actor_id actor_role status : String) (e : Error)
      → StatusFailed g tenant_id id actor_id actor_role (trim_space status) d d' e
      → (d' ≡ d) ⊎ IsChange (set_status tenant_id id actor_id actor_role status) d d'
  status_failed tenant_id id actor_id actor_role status e (Status.not_admin n x same) = inl same
  status_failed tenant_id id actor_id actor_role status e (Status.no_actor why x same) = inl same
  status_failed tenant_id id actor_id actor_role status e (Status.bad_status n x same) = inl same
  status_failed tenant_id id actor_id actor_role status e (Status.stopped f) =
      failed_or f (λ p. p.1)

module _ {W : Type 0} (g : Gorm W) (laws : GormLaws g) (cache : Client W) (s : State W) where
  -- From what is shown of a call that succeeds and of one that fails.
  left_by :
      {A : Type 0} (r : Request) (m : Exec W A)
      → ((a : A) (s' : State W) → m s ≡ (ok a, s') → IsChange r s.db s'.db)
      → ((x : Error) (s' : State W) → m s ≡ (err x, s') → (s'.db ≡ s.db) ⊎ IsChange r s.db s'.db)
      → ((m s).1.db ≡ s.db) ⊎ IsChange r s.db (m s).1.db
  left_by r m done failed =
      ends_state m s (λ s'. (s'.db ≡ s.db) ⊎ IsChange r s.db s'.db)
        (ends_from (λ a s' e. inr (done a s' e)) failed)

  -- A call leaves the tables as they were, or changes them as it is meant to.
  pub after-IsChange :
      (r : Request) → ((after g cache r s).db ≡ s.db) ⊎ IsChange r s.db (after g cache r s).db
  after-IsChange (receive input) =
      left_by (receive input) (handle_webhook g cache input)
        (λ c s' e.
          let done = handle_webhook_ok g laws cache input s c s' e in (done.id, done.is_received))
        (λ x s' e.
          received_failed g s.db s'.db input x (handle_webhook_err g laws cache input s x s' e))
  after-IsChange (assign tenant_id id actor_id actor_role agent_id) =
      left_by (assign tenant_id id actor_id actor_role agent_id)
        (assign_conversation g cache tenant_id id actor_id actor_role agent_id)
        (λ c s' e.
          let done =
            assign_conversation_ok g laws cache tenant_id id actor_id actor_role agent_id s c s'
              e in
          (done.agent, done.is_assigned))
        (λ x s' e.
          assign_failed g s.db s'.db tenant_id id actor_id actor_role agent_id x (
            assign_conversation_err g laws cache tenant_id id actor_id actor_role agent_id s x s'
              e))
  after-IsChange (reply tenant_id id agent_id message) =
      left_by (reply tenant_id id agent_id message)
        (reply_to_conversation g cache tenant_id id agent_id message)
        (λ c s' e.
          let done = reply_to_conversation_ok g laws cache tenant_id id agent_id message s c s' e in
          (done.agent, done.is_replied))
        (λ x s' e.
          reply_failed g s.db s'.db tenant_id id agent_id message x
            (reply_to_conversation_err g laws cache tenant_id id agent_id message s x s' e))
  after-IsChange (close tenant_id id actor_id actor_role) =
      left_by (close tenant_id id actor_id actor_role)
        (close_conversation g cache tenant_id id actor_id actor_role)
        (λ c s' e. (close_conversation_ok g laws cache tenant_id id actor_id actor_role s c s' e).0)
        (λ x s' e.
          failed_or g s.db s'.db
            (close_conversation_err g laws cache tenant_id id actor_id actor_role s x s' e)
            (λ p. p.1))
  after-IsChange (escalate tenant_id id agent_id input) =
      left_by (escalate tenant_id id agent_id input)
        (escalate_conversation g cache tenant_id id agent_id input)
        (λ t s' e.
          let done = escalate_conversation_ok g laws cache tenant_id id agent_id input s t s' e in
          (done.agent, done.is_escalated))
        (λ x s' e.
          escalate_failed g s.db s'.db tenant_id id agent_id input x
            (escalate_conversation_err g laws cache tenant_id id agent_id input s x s' e))
  after-IsChange (set_status tenant_id id actor_id actor_role status) =
      left_by (set_status tenant_id id actor_id actor_role status)
        (update_status g cache tenant_id id actor_id actor_role status)
        (λ t s' e.
          (update_status_ok g laws cache tenant_id id actor_id actor_role status s t s' e).is_set)
        (λ x s' e.
          status_failed g s.db s'.db tenant_id id actor_id actor_role status x
            (update_status_err g laws cache tenant_id id actor_id actor_role status s x s' e))
