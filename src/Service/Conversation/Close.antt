-- ===== src/Service/Conversation/Close.antt =====
-- backend/internal/service/conversation_service.go: what `CloseConversation` does and refuses.
use mathlib.Core.Bool.{false≢true}
use sociomile.Prelude.{
  String, ◌≡◌, ◌≢◌, ◌⊎◌, inl, inr, refl, sym, ◌∙◌, true, false, ◌&&◌, Option, none, some, List, [],
  ◌∷◌, Member, ◌==◌, eq_iff, arith, subst, subst⁻¹,
}
use sociomile.Apperror.{Error, fails}
use sociomile.Model.{Db, Conversation, role_agent, conversation_status_closed, fields_payload}
use sociomile.Model.Schema
use sociomile.Exec.{ok, err, State}
use sociomile.Exec.Ends.{Ends, ends_guard, ends_if, ends_pure, ends_weaken, ends_ok, ends_err}
use sociomile.Gorm.{Gorm, unordered}
use sociomile.Gorm.Laws.{GormLaws, IsSaved, beside}
use sociomile.Gorm.Session.Rules.{reads_seq, Missing, IsFault, save_seq}
use sociomile.Repository.Tables
use sociomile.Repository.Filters.{conversation_in}
use sociomile.Repository.Store.{save_conversation}
use sociomile.Repository.Store.Rules.{IsShown, IsLoaded, both_true, get_conversation_reads}
use sociomile.Repository.Store.Rewrite.{IsRewritten, rewrite_saved}
use sociomile.Cache.{Client}
use sociomile.Service.Events.Rules.{IsAppended, Appended, append_ends}
use sociomile.Service.Conversation.Commit.{Failed, commit_ends}
use sociomile.Service.Conversation.Assignment.{loaded_row, own_key, loaded_status}
use sociomile.Service.Conversation.{
  not_assigned_to, close_open, close_conversation_tx, close_conversation,
}

-- The tables before and after the conversation of `row` is closed.
pub record IsClosed (tenant_id id actor_id actor_role : String) (row : Conversation) (d d' : Db)
    : Type 0 where
  pub was_open : row.status ≢ conversation_status_closed
  pub stored : Conversation
  pub rewritten : IsRewritten d tenant_id id row stored d'.conversations
  pub stored_status : stored.status ≡ conversation_status_closed
  pub stored_assignee : stored.assigned_agent_id ≡ row.assigned_agent_id
  pub event :
      IsAppended tenant_id "conversation.closed" "conversation" id
        (fields_payload
          (("conversation_id", id) ∷ ("actor_id", actor_id) ∷ ("actor_role", actor_role) ∷ []))
        d.activity_logs
        d'.activity_logs
        d.outbox_events
        d'.outbox_events
  pub frame : d' ≡ record d {
    conversations = d'.conversations;
    activity_logs = d'.activity_logs;
    outbox_events = d'.outbox_events;
  }

-- What a close that succeeds has done: an agent is the assignee; a conversation that was closed is
-- left as it is, and nothing is logged, and any other is closed.
pub record Closed (tenant_id id actor_id actor_role : String) (d d' : Db) : Type 0 where
  pub row : Conversation
  pub listed : Member row d.conversations
  pub asked_for : conversation_in tenant_id id row ≡ true
  pub permitted : actor_role ≡ role_agent → row.assigned_agent_id ≡ some actor_id
  pub change :
      ((row.status ≡ conversation_status_closed) × (d' ≡ d))
      ⊎ IsClosed tenant_id id actor_id actor_role row d d'

-- Why a close is refused.
pub data CloseRefused (tenant_id id actor_id actor_role : String) (d : Db) (e : Error)
    : Type 0 where
  unavailable :
      Missing (unordered (conversation_in tenant_id id)) d.conversations e
      → CloseRefused tenant_id id actor_id actor_role d e
  not_assignee :
      (row : Conversation)
      → Member row d.conversations
      → conversation_in tenant_id id row ≡ true
      → actor_role ≡ role_agent
      → row.assigned_agent_id ≢ some actor_id
      → e ≡ fails 403 "forbidden" "agent can only close conversations assigned to them"
      → CloseRefused tenant_id id actor_id actor_role d e

fault :
    {tenant_id id actor_id actor_role : String} {d : Db} (e : Error)
    → IsFault e
    → CloseRefused tenant_id id actor_id actor_role d e
fault e f = unavailable (f.0, λ n. absurd (f.1 n))

assignee :
    (o : Option String) (actor_id : String) → not_assigned_to o actor_id ≡ false → o ≡ some actor_id
assignee none actor_id h = absurd (false≢true (sym h))
assignee (some a) actor_id h = ground (arith, eq_iff a actor_id)

not_assignee_lem :
    (o : Option String) (actor_id : String) → not_assigned_to o actor_id ≡ true → o ≢ some actor_id
not_assignee_lem none actor_id h e = cc
not_assignee_lem (some a) actor_id h e = ground (arith, eq_iff a actor_id)

role_permits :
    (role actor_id : String) (o : Option String)
    → (role == role_agent && not_assigned_to o actor_id) ≡ false
    → role ≡ role_agent
    → o ≡ some actor_id
role_permits role actor_id o h e = assignee o actor_id (ground (arith, eq_iff role role_agent))

module _ (d : Db) (tenant_id id actor_id actor_role : String) (c : Conversation)
    (loaded : IsLoaded d tenant_id id c) (saved : Conversation) (rows : List Conversation)
    (d' : Db) where
  is_closed :
      (c.status == conversation_status_closed) ≡ false
      → IsSaved Schema.conversations
          (record c { status = conversation_status_closed })
          d.conversations
          saved
          rows
      → Appended tenant_id "conversation.closed" "conversation" saved.id
          (fields_payload (
            ("conversation_id", saved.id)
            ∷ ("actor_id", actor_id)
            ∷ ("actor_role", actor_role)
            ∷ []))
          (record d { conversations = rows })
          d'
      → IsClosed tenant_id id actor_id actor_role loaded.row d d'
  is_closed is_open kept appended =
      subst⁻¹ (IsClosed tenant_id id actor_id actor_role loaded.row d) appended.frame (
        let (rewritten, status, key, same_id) =
          rewrite_saved d tenant_id id c loaded c.assigned_agent_id _ c.updated_at kept in
        record {
          was_open = loaded_status d tenant_id id c loaded _ is_open;
          stored = Schema.conversation_columns saved;
          rewritten = rewritten;
          stored_status = status;
          stored_assignee =
              key
              ∙ (own_key (λ u. u.id) _ d.users c.assigned_agent loaded.preloaded.agent_loaded
                    c.assigned_agent_id (inr (sym loaded.preloaded.same_assignee))
                  ∙ loaded.preloaded.same_assignee);
          event =
              subst
                (λ k.
                  IsAppended tenant_id "conversation.closed" "conversation" k
                    (fields_payload (
                      ("conversation_id", k)
                      ∷ ("actor_id", actor_id)
                      ∷ ("actor_role", actor_role)
                      ∷ []))
                    d.activity_logs appended.logs d.outbox_events appended.events)
                same_id appended.rows;
          frame = refl;
        })

module _ {W : Type 0} (g : Gorm W) (laws : GormLaws g) (tenant_id id actor_id actor_role : String)
    (s : State W) where
  close_tx_ends :
      Ends
        (close_conversation_tx g tenant_id id actor_id actor_role)
        s
        (λ u s'. Closed tenant_id id actor_id actor_role s.db s'.db)
        (λ e s'. CloseRefused tenant_id id actor_id actor_role s.db e)
  unfolding close_conversation_tx close_open save_conversation
  close_tx_ends =
      reads_seq _ _ (get_conversation_reads g laws s tenant_id id)
        (λ c w loaded.
          let asked_for = loaded_row s.db tenant_id id c loaded in
          ends_guard _ _ _
            (λ barred.
              let (role, taken) = both_true (actor_role == role_agent) _ barred in
              not_assignee loaded.row loaded.listed asked_for ((eq_iff _ _).0 role)
                (λ e. not_assignee_lem _ actor_id taken (loaded.preloaded.same_assignee ∙ e)) refl)
            (λ allowed.
              let permitted : actor_role ≡ role_agent
                  → loaded.row.assigned_agent_id ≡ some actor_id =
                λ e.
                  sym loaded.preloaded.same_assignee
                  ∙ role_permits actor_role actor_id c.assigned_agent_id allowed e in
              ends_if _ _ _
                (λ shut. ends_pure tt (record {
                  row = loaded.row;
                  listed = loaded.listed;
                  asked_for = asked_for;
                  permitted = permitted;
                  change = inl (sym loaded.preloaded.same_status ∙ (eq_iff _ _).0 shut, refl);
                }))
                (λ is_open.
                  save_seq g laws (beside s w) Tables.conversations Schema.conversations _ _
                    (λ saved rows w kept.
                      ends_weaken _ (append_ends g laws _ tenant_id _ _ _ _)
                        (λ u s' appended. record {
                          row = loaded.row;
                          listed = loaded.listed;
                          asked_for = asked_for;
                          permitted = permitted;
                          change = inr (
                              is_closed s.db tenant_id id actor_id actor_role c loaded saved rows
                                s'.db is_open kept appended);
                        })
                        (λ e s' f. fault e f))
                    (λ e w f. fault e f))))
        (λ e w missing. unavailable missing)

module _ {W : Type 0} (g : Gorm W) (laws : GormLaws g) (cache : Client W)
    (tenant_id id actor_id actor_role : String) (s : State W) where
  close_ends :
      Ends
        (close_conversation g cache tenant_id id actor_id actor_role)
        s
        (λ c s'. Closed tenant_id id actor_id actor_role s.db s'.db × IsShown s'.db tenant_id id c)
        (λ e s'.
          Failed
            (λ d'. (u : Unit {0}) × Closed tenant_id id actor_id actor_role s.db d')
            (CloseRefused tenant_id id actor_id actor_role s.db)
            s.db
            e
            s'.db)
  unfolding close_conversation
  close_ends =
      ends_weaken _
        (commit_ends g laws cache s tenant_id _ (λ u. id)
          (λ u d'. Closed tenant_id id actor_id actor_role s.db d')
          (CloseRefused tenant_id id actor_id actor_role s.db)
          (λ w. close_tx_ends g laws tenant_id id actor_id actor_role (beside s w)))
        (λ c s' p. (p.1, p.2)) (λ e s' p. p)

  -- A close that succeeds: the actor is no agent or is the assignee; a conversation that was
  -- closed stays as it is, with no event; any other is stored as closed with its assignee, one
  -- event is added and nothing else changes; the conversation is returned as it stands.
  pub close_conversation_ok :
      (c : Conversation) (s' : State W)
      → close_conversation g cache tenant_id id actor_id actor_role s ≡ (ok c, s')
      → Closed tenant_id id actor_id actor_role s.db s'.db × IsShown s'.db tenant_id id c
  close_conversation_ok c s' e = ends_ok close_ends c s' e

  -- A close that fails has changed no table: the engine failed, the conversation is missing, or an
  -- agent is not its assignee (403); or the close stands and the engine failed the reload.
  pub close_conversation_err :
      (e : Error) (s' : State W)
      → close_conversation g cache tenant_id id actor_id actor_role s ≡ (err e, s')
      → Failed
          (λ d'. (u : Unit {0}) × Closed tenant_id id actor_id actor_role s.db d')
          (CloseRefused tenant_id id actor_id actor_role s.db)
          s.db
          e
          s'.db
  close_conversation_err e s' h = ends_err close_ends e s' h
