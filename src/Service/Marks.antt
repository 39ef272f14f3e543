-- ===== src/Service/Marks.antt =====
-- backend/internal/service: each method that writes leaves the tables alone, or else raises the versions of
-- the lists that it changes.
use sociomile.Prelude.{ℕ, String, refl, some}
use sociomile.Exec.{Exec, ◌>>=◌, outside}
use sociomile.Exec.Grows.{Grows, grow_rules}
use sociomile.Exec.Marks.{Keeps, Bumps, Marks, Marks-commit, mark_rules}
use sociomile.Gorm.{Gorm}
use sociomile.Gorm.Grows.{GormGrows}
use sociomile.Gorm.Laws.{GormLaws}
use sociomile.Gorm.Session.{first}
use sociomile.Redis.{Redis}
use sociomile.Repository.Store.{within_transaction, get_user_by_id_and_tenant}
use sociomile.Repository.Store.Grows.{Grows-get_user, Grows-get_conversation, Grows-get_ticket}
use sociomile.Cache.Versions.{Counter, Grows-bump, Passes-bump, Bumps-bump}
use sociomile.Service.Conversation.{
  get_conversation, assign_conversation, reply_to_conversation, close_conversation,
}
use sociomile.Service.Ticket.{EscalateTicketInput, get_ticket, escalate_conversation, update_status}
use sociomile.Service.Webhook.{WebhookInput, trimmed, handle_webhook}
use sociomile.Service.Grows.{
  Grows-assign_tx, Grows-reply_tx, Grows-close_tx, Grows-escalate_tx, Grows-status_tx,
  Grows-webhook_tx,
}

module _ {W : Type 0} {g : Gorm W} {rank : W → ℕ} (laws : GormLaws g)
    (grows : GormGrows g rank) where
  Keeps-get_user : (id tenant_id : String) → Keeps rank (get_user_by_id_and_tenant g id tenant_id)
  unfolding get_user_by_id_and_tenant first outside
  Keeps-get_user id tenant_id = record {
    same = λ s. refl;
    grows = Grows-get_user grows id tenant_id;
  }

  Marks-transaction :
      {A B : Type 0} (tx : Exec W A) (f : A → Exec W B)
      → Grows rank tx
      → ((a : A) → Bumps rank (f a))
      → Marks rank (within_transaction g tx >>= f)
  unfolding within_transaction
  Marks-transaction tx f gm bf =
      Marks-commit (g.transaction tx) f (grows.on_transaction tx gm)
        (λ s e s' h. (laws.rollback tx s e s' h).0) bf

  ruleset service_rules = (
    mark_rules, grow_rules, Marks-transaction, Keeps-get_user, Grows-get_conversation,
    Grows-get_ticket, Grows-bump, Passes-bump, Bumps-bump,
  )

  -- The lists of conversations.
  module _ {redis : Redis W} (tenant_id : String)
      (counter : Counter redis tenant_id "conversations" rank) where
    pub Marks-assign :
        (id actor_id actor_role agent_id : String)
        → Marks rank (assign_conversation g (some redis) tenant_id id actor_id actor_role agent_id)
    unfolding assign_conversation get_conversation
    Marks-assign id actor_id actor_role agent_id =
        search (service_rules, grows, counter, Grows-assign_tx) depth 16 fits 4000

    pub Marks-reply :
        (id agent_id message : String)
        → Marks rank (reply_to_conversation g (some redis) tenant_id id agent_id message)
    unfolding reply_to_conversation get_conversation
    Marks-reply id agent_id message =
        search (service_rules, grows, counter, Grows-reply_tx) depth 16 fits 4000

    pub Marks-close :
        (id actor_id actor_role : String)
        → Marks rank (close_conversation g (some redis) tenant_id id actor_id actor_role)
    unfolding close_conversation get_conversation
    Marks-close id actor_id actor_role =
        search (service_rules, grows, counter, Grows-close_tx) depth 16 fits 4000

    pub Marks-escalate :
        (id agent_id : String) (input : EscalateTicketInput)
        → Marks rank (escalate_conversation g (some redis) tenant_id id agent_id input)
    unfolding escalate_conversation get_ticket
    Marks-escalate id agent_id input =
        search (service_rules, grows, counter, Grows-escalate_tx) depth 16 fits 4000

  pub Marks-webhook :
      {redis : Redis W} (input : WebhookInput)
      → Counter redis (trimmed input).tenant_id "conversations" rank
      → Marks rank (handle_webhook g (some redis) input)
  unfolding handle_webhook get_conversation trimmed
  Marks-webhook input counter =
      search (service_rules, grows, counter, Grows-webhook_tx) depth 16 fits 4000

  -- The lists of tickets.
  module _ {redis : Redis W} (tenant_id : String)
      (counter : Counter redis tenant_id "tickets" rank) where
    pub Marks-tickets_escalate :
        (id agent_id : String) (input : EscalateTicketInput)
        → Marks rank (escalate_conversation g (some redis) tenant_id id agent_id input)
    unfolding escalate_conversation get_ticket
    Marks-tickets_escalate id agent_id input =
        search (service_rules, grows, counter, Grows-escalate_tx) depth 16 fits 4000

    pub Marks-status :
        (id actor_id actor_role status : String)
        → Marks rank (update_status g (some redis) tenant_id id actor_id actor_role status)
    unfolding update_status get_ticket
    Marks-status id actor_id actor_role status =
        search (service_rules, grows, counter, Grows-status_tx) depth 16 fits 4000
