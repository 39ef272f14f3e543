-- ===== src/Service/Ticket/Escalate.antt =====
-- backend/internal/service/ticket_service.go: what `EscalateConversation` does and refuses.
pub mod Effect
pub mod Steps
pub mod Transaction
use mathlib.Core.Bool.{false≢true, true≢false}
use sociomile.Prelude.{
  ℕ, String, ◌≡◌, ◌≢◌, ◌⊎◌, inl, inr, refl, sym, ap, ◌∙◌, Bool, true, false, not, ◌||◌, Option,
  none, some, List, [], ◌∷◌, ◌++◌, Member, ◌==◌, eq_iff, arith, Bool-cases, subst, subst⁻¹,
  if◌then◌else◌,
}
use sociomile.Apperror.{Error, fails, record_not_found}
use sociomile.Model.{
  Db, User, Conversation, Ticket, ActivityLog, OutboxEvent, unsaved, conversation_status_assigned,
  conversation_status_closed, ticket_status_open, fields_payload, ticket_payload, role_agent,
}
use sociomile.Model.Schema
use sociomile.Exec.{ok, err, State, Exec, pure, fail, ◌>>=◌, ◌>>◌, fail_if, catch}
use sociomile.Exec.Ends.{
  Ends, ends_at, ends_seq, ends_guard, ends_if, ends_pure, ends_fail, ends_catch, ends_weaken,
  ends_ok, ends_err,
}
use sociomile.Gorm.{Gorm, IsEngine, unordered}
use sociomile.Gorm.Laws.{GormLaws, IsCreated, IsSaved, beside}
use sociomile.Gorm.Session.Rules.{Reads, reads_seq, Missing, IsFault, create_seq, save_seq}
use sociomile.Gorm.Session.Writes.{save_ends}
use sociomile.Repository.Tables
use sociomile.Repository.Filters.{is_none, conversation_in, ticket_of, is_not_found}
use sociomile.Repository.Store.{save_conversation, create_ticket}
use sociomile.Repository.Store.Rules.{
  IsLoaded, TicketFound, find_ticket_reads, get_conversation_reads, get_ticket_reads,
}
use sociomile.Repository.Store.Rewrite.{IsRewritten, rewrite_saved}
use sociomile.Cache.{Client, bump_version}
use sociomile.Cache.Rules.{bump_version_reads}
use sociomile.Service.Events.Rules.{IsAppended, Appended, append_seq}
use sociomile.Service.Conversation.Commit.{
  Failed, IsAgent, Found-IsAgent, IsUnknown, HasOtherRole, Found-HasOtherRole, not-false, not-true,
  user_or, commit_then,
}
use sociomile.Service.Conversation.Assignment.{
  elsewhere_free, elsewhere_taken, loaded_row, own_key, loaded_free, loaded_status, loaded_id,
  is_free, is_taken,
}
use sociomile.Service.Conversation.{assigned_elsewhere}
use sociomile.Service.Ticket.{
  EscalateTicketInput, is_valid_priority, normalized, has_ticket, take_if_free, get_ticket,
  escalate_conversation_tx, escalate_conversation,
}
use sociomile.Service.Ticket.Escalate.Effect.{
  IsTaken, Taken, IsEscalated, EscalateRefused, fault, unavailable, closed, elsewhere, has_one,
}
use sociomile.Service.Ticket.Escalate.Transaction.{escalate_tx_ends}

-- The three priorities.
abbrev pub IsPriority : String → Type 0
IsPriority p = (p ≡ "low") ⊎ ((p ≡ "medium") ⊎ (p ≡ "high"))

valid-IsPriority : (p : String) → is_valid_priority p ≡ true → IsPriority p
unfolding is_valid_priority
valid-IsPriority p h = elim (Bool-cases (p == "low")) [
  | inl a ↦ inl ((eq_iff _ _).0 a)
  | inr a ↦ elim (Bool-cases (p == "medium")) [
    | inl b ↦ inr (inl ((eq_iff _ _).0 b))
    | inr b ↦ inr (inr (ground (arith, eq_iff p "high")))
  ]
]

known_priority : (p : String) → IsPriority p → is_valid_priority p ≡ true
unfolding is_valid_priority
known_priority p (inl e) = (let a = (eq_iff _ _).1 e in ground arith)
known_priority p (inr (inl e)) = (let a = (eq_iff _ _).1 e in ground arith)
known_priority p (inr (inr e)) = (let a = (eq_iff _ _).1 e in ground arith)

absent : (a b : String) → (a == "" || b == "") ≡ true → (a ≡ "") ⊎ (b ≡ "")
absent a b h = elim (Bool-cases (a == "")) [
  | inl x ↦ inl ((eq_iff _ _).0 x)
  | inr x ↦ inr (ground (arith, eq_iff b ""))
]

-- How an escalation fails.
pub data EscalateFailed {W : Type 0} (g : Gorm W) (tenant_id id agent_id : String)
    (input : EscalateTicketInput) (d d' : Db) (e : Error) : Type 0 where
  incomplete :
      (input.title ≡ "") ⊎ (input.description ≡ "")
      → e ≡ fails 400 "invalid_ticket" "title and description are required"
      → d' ≡ d
      → EscalateFailed g tenant_id id agent_id input d d' e
  bad_priority :
      ¬ IsPriority input.priority
      → e ≡ fails 400 "invalid_priority" "priority must be low, medium, or high"
      → d' ≡ d
      → EscalateFailed g tenant_id id agent_id input d d' e
  not_agent :
      IsUnknown g d tenant_id agent_id ⊎ HasOtherRole d tenant_id agent_id
      → e ≡ fails 403 "forbidden" "only agents can escalate conversations"
      → d' ≡ d
      → EscalateFailed g tenant_id id agent_id input d d' e
  stopped :
      (agent : User)
      → IsAgent d tenant_id agent_id agent
      → Failed
          (λ d'. (ticket_id : String) × IsEscalated tenant_id id agent.id input d d')
          (EscalateRefused tenant_id id agent.id d)
          d
          e
          d'
      → EscalateFailed g tenant_id id agent_id input d d' e

-- What an escalation that succeeds has done.
pub record Escalated (tenant_id id agent_id : String) (input : EscalateTicketInput) (d d' : Db)
    : Type 0 where
  pub has_title : input.title ≢ ""
  pub has_description : input.description ≢ ""
  pub has_priority : IsPriority input.priority
  pub agent : User
  pub is_agent : IsAgent d tenant_id agent_id agent
  pub is_escalated : IsEscalated tenant_id id agent.id input d d'

present : (a b : String) → (a == "" || b == "") ≡ false → (a ≢ "") × (b ≢ "")
present a b h = (λ e. ground (arith, eq_iff a ""), λ e. ground (arith, eq_iff b ""))

module _ {W : Type 0} (g : Gorm W) (laws : GormLaws g) (cache : Client W)
    (tenant_id id agent_id : String) (raw : EscalateTicketInput) where
  reload_ends :
      (ticket_id : String) (t : State W)
      → Ends
          (bump_version cache tenant_id "conversations" >>= λ u.
            bump_version cache tenant_id "tickets" >>= λ u. get_ticket g tenant_id ticket_id)
          t
          (λ b s'. s'.db ≡ t.db)
          (λ e s'. (s'.db ≡ t.db) × IsEngine e)
  unfolding get_ticket
  reload_ends ticket_id t =
      reads_seq _ _ (bump_version_reads t cache tenant_id "conversations")
        (λ u w x.
          reads_seq _ _ (bump_version_reads (beside t w) cache tenant_id "tickets")
            (λ u w x.
              ends_weaken _ (get_ticket_reads g laws (beside t w) tenant_id ticket_id).reads
                (λ b s' p. p.0) (λ e s' p. (p.0, p.1.0)))
            (λ e w x. absurd x))
        (λ e w x. absurd x)

  escalate_ends :
      (s : State W)
      → Ends
          (escalate_conversation g cache tenant_id id agent_id raw)
          s
          (λ t s'. Escalated tenant_id id agent_id (normalized raw) s.db s'.db)
          (λ e s'. EscalateFailed g tenant_id id agent_id (normalized raw) s.db s'.db e)
  unfolding escalate_conversation
  escalate_ends s =
      ends_guard _ _ _ (λ some_empty. incomplete (absent _ _ some_empty) refl refl)
        (λ full.
          ends_guard _ _ _
            (λ bad.
              bad_priority (λ p. true≢false (sym (known_priority _ p) ∙ not-true _ bad)) refl refl)
            (λ valid.
              reads_seq _ _ (user_or g laws cache s tenant_id agent_id _)
                (λ agent w found.
                  ends_guard _ _ _
                    (λ other.
                      not_agent (inr (Found-HasOtherRole s.db tenant_id agent_id agent found other))
                        refl refl)
                    (λ role.
                      let is_agent = Found-IsAgent s.db tenant_id agent_id agent found role in
                      ends_weaken _
                        (commit_then g laws cache (beside s w) tenant_id _ _
                          (λ ticket_id d'.
                            IsEscalated tenant_id id agent.id (normalized raw) s.db d')
                          (EscalateRefused tenant_id id agent.id s.db)
                          (λ w'.
                            escalate_tx_ends g laws tenant_id id agent (normalized raw)
                              (beside s w'))
                          reload_ends)
                        (λ t s' p. record {
                          has_title = (present _ _ full).0;
                          has_description = (present _ _ full).1;
                          has_priority = valid-IsPriority _ (not-false _ valid);
                          agent = agent;
                          is_agent = is_agent;
                          is_escalated = p.1;
                        })
                        (λ e s' p. stopped agent is_agent p)))
                (λ e w p. not_agent (inl p.1) p.0 refl)))

  -- An escalation that succeeds is by an agent of the tenant, of a conversation of the tenant that
  -- is not closed, is free or the agent's own and has no ticket. It has a title, a description and
  -- a priority that is low, medium or high; one open ticket of the agent is added, a free conversation is assigned to
  -- the agent, two events are added in order, and nothing else changes.
  pub escalate_conversation_ok :
      (s : State W) (t : Ticket) (s' : State W)
      → escalate_conversation g cache tenant_id id agent_id raw s ≡ (ok t, s')
      → Escalated tenant_id id agent_id (normalized raw) s.db s'.db
  escalate_conversation_ok s t s' e = ends_ok (escalate_ends s) t s' e

  -- An escalation that fails has changed no table, and each error of its own has its reason (409
  -- ticket_exists: the conversation has a ticket; 403 forbidden: the query for the agent was answered
  -- with an error, or the user is no agent), unless the ticket stands and the engine failed
  -- the reload after the commit.
  pub escalate_conversation_err :
      (s : State W) (e : Error) (s' : State W)
      → escalate_conversation g cache tenant_id id agent_id raw s ≡ (err e, s')
      → EscalateFailed g tenant_id id agent_id (normalized raw) s.db s'.db e
  escalate_conversation_err s e s' h = ends_err (escalate_ends s) e s' h
