-- ===== src/Service/Conversation/Reply.antt =====
-- backend/internal/service/conversation_service.go: what `ReplyToConversation` does and refuses.
pub mod Effect
pub use Effect.{IsReplied, ReplyRefused}
use mathlib.Core.Bool.{false≢true}
use sociomile.Prelude.{
  ℕ, String, ◌≡◌, ◌≢◌, ◌⊎◌, inl, inr, refl, sym, ap, ◌∙◌, true, false, none, some, List, [], ◌∷◌,
  ◌++◌, Member, ◌==◌, eq_iff, subst, subst⁻¹, trim_space, if◌then◌else◌,
}
use sociomile.Apperror.{Error, fails}
use sociomile.Model.{
  Db, User, Conversation, Message, unsaved, conversation_status_assigned,
  conversation_status_closed, sender_type_agent, fields_payload,
}
use sociomile.Model.Schema
use sociomile.Exec.{ok, err, State}
use sociomile.Exec.Ends.{Ends, ends_guard, ends_weaken, ends_ok, ends_err}
use sociomile.Gorm.{Gorm, unordered}
use sociomile.Gorm.Laws.{GormLaws, IsCreated, IsSaved, beside}
use sociomile.Gorm.Session.Rules.{reads_seq, Missing, IsFault, now_reads, create_seq, save_seq}
use sociomile.Repository.Tables
use sociomile.Repository.Filters.{is_none, conversation_in}
use sociomile.Repository.Store.{create_message, save_conversation}
use sociomile.Repository.Store.Rules.{IsShown, IsLoaded, get_conversation_reads}
use sociomile.Repository.Store.Rewrite.{IsRewritten, rewrite_saved}
use sociomile.Cache.{Client}
use sociomile.Service.Conversation.Commit.{
  Failed, IsAgent, Found-IsAgent, IsUnknown, HasOtherRole, Found-HasOtherRole, user_or, commit_ends,
}
use sociomile.Service.Conversation.Assignment.{
  take_over_fields, elsewhere_taken, loaded_row, own_key, loaded_free, loaded_status, loaded_id,
}
use sociomile.Service.Events.Rules.{IsAppended, Appended, append_ends}
use sociomile.Service.Conversation.{
  assigned_elsewhere, take_over, reply_to_conversation_tx, reply_to_conversation,
}
use sociomile.Service.Conversation.Reply.Effect.{reply_tx_ends}

-- How a reply fails.
pub data ReplyFailed {W : Type 0} (g : Gorm W) (tenant_id id agent_id text : String) (d d' : Db)
    (e : Error) : Type 0 where
  blank :
      text ≡ ""
      → e ≡ fails 400 "invalid_message" "message is required"
      → d' ≡ d
      → ReplyFailed g tenant_id id agent_id text d d' e
  not_agent :
      IsUnknown g d tenant_id agent_id ⊎ HasOtherRole d tenant_id agent_id
      → e ≡ fails 403 "forbidden" "only agents can reply to conversations"
      → d' ≡ d
      → ReplyFailed g tenant_id id agent_id text d d' e
  stopped :
      (agent : User)
      → IsAgent d tenant_id agent_id agent
      → Failed
          (λ d'. (u : Unit {0}) × IsReplied tenant_id id agent.id text d d')
          (ReplyRefused tenant_id id agent.id d)
          d
          e
          d'
      → ReplyFailed g tenant_id id agent_id text d d' e

-- What a reply has done, when it returns `c`.
pub record Replied (tenant_id id agent_id text : String) (d d' : Db) (c : Conversation)
    : Type 0 where
  pub some_text : text ≢ ""
  pub agent : User
  pub is_agent : IsAgent d tenant_id agent_id agent
  pub is_replied : IsReplied tenant_id id agent.id text d d'
  pub reloaded : IsShown d' tenant_id id c

module _ {W : Type 0} (g : Gorm W) (laws : GormLaws g) (cache : Client W)
    (tenant_id id agent_id message : String) (s : State W) where
  reply_ends :
      Ends
        (reply_to_conversation g cache tenant_id id agent_id message)
        s
        (λ c s'. Replied tenant_id id agent_id (trim_space message) s.db s'.db c)
        (λ e s'. ReplyFailed g tenant_id id agent_id (trim_space message) s.db s'.db e)
  unfolding reply_to_conversation
  reply_ends =
      ends_guard _ _ _ (λ empty. blank ((eq_iff _ _).0 empty) refl refl)
        (λ present.
          reads_seq _ _ (user_or g laws cache s tenant_id agent_id _)
            (λ agent w found.
              ends_guard _ _ _
                (λ other.
                  not_agent (inr (Found-HasOtherRole s.db tenant_id agent_id agent found other))
                    refl refl)
                (λ role.
                  let is_agent = Found-IsAgent s.db tenant_id agent_id agent found role in
                  ends_weaken _
                    (commit_ends g laws cache (beside s w) tenant_id _ (λ u. id)
                      (λ u d'. IsReplied tenant_id id agent.id (trim_space message) s.db d')
                      (ReplyRefused tenant_id id agent.id s.db)
                      (λ w'. reply_tx_ends g laws tenant_id id agent _ (beside s w')))
                    (λ c s' p. record {
                      some_text = λ e. false≢true (sym present ∙ (eq_iff _ _).1 e);
                      agent = agent;
                      is_agent = is_agent;
                      is_replied = p.1;
                      reloaded = p.2;
                    })
                    (λ e s' p. stopped agent is_agent p)))
            (λ e w p. not_agent (inl p.1) p.0 refl))

  -- A reply that succeeds is by an agent of the tenant, to a conversation of the tenant that is
  -- not closed and is free or the agent's own; one message and one event are added, the
  -- conversation is assigned to the agent, nothing else changes, and it is returned as it stands,
  -- with its messages in order and its ticket if it has one.
  pub reply_to_conversation_ok :
      (c : Conversation) (s' : State W)
      → reply_to_conversation g cache tenant_id id agent_id message s ≡ (ok c, s')
      → Replied tenant_id id agent_id (trim_space message) s.db s'.db c
  reply_to_conversation_ok c s' e = ends_ok reply_ends c s' e

  -- A reply that fails has changed no table, and each error of its own has its reason (403: the query
  -- for the agent was answered with an error, or the user is no agent; 409: the conversation is closed), unless the
  -- reply stands and the engine failed the reload after the commit.
  pub reply_to_conversation_err :
      (e : Error) (s' : State W)
      → reply_to_conversation g cache tenant_id id agent_id message s ≡ (err e, s')
      → ReplyFailed g tenant_id id agent_id (trim_space message) s.db s'.db e
  reply_to_conversation_err e s' h = ends_err reply_ends e s' h
