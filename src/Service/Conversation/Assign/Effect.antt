-- ===== src/Service/Conversation/Assign/Effect.antt =====
-- backend/internal/service/conversation_service.go: what the transaction of `AssignConversation` does
-- to the tables, and why it is refused.
use sociomile.Prelude.{
  String, ◌≡◌, ◌≢◌, refl, sym, ◌∙◌, true, false, Option, none, some, List, [], ◌∷◌, Member, ◌==◌,
  eq_iff, subst, subst⁻¹,
}
use sociomile.Apperror.{Error, fails}
use sociomile.Model.{
  Db, User, Conversation, conversation_status_assigned, conversation_status_closed, fields_payload,
}
use sociomile.Model.Schema
use sociomile.Model.Schema.{foreign_key}
use sociomile.Exec.{State}
use sociomile.Exec.Ends.{Ends, ends_guard, ends_weaken}
use sociomile.Gorm.{Gorm, unordered}
use sociomile.Gorm.Laws.{GormLaws, IsSaved, beside}
use sociomile.Gorm.Session.Rules.{reads_seq, Loaded, Missing, IsFault, save_seq}
use sociomile.Repository.Tables
use sociomile.Repository.Filters.{conversation_in}
use sociomile.Repository.Store.{save_conversation}
use sociomile.Repository.Store.Rules.{IsLoaded, get_conversation_reads}
use sociomile.Repository.Store.Rewrite.{IsRewritten, rewrite_saved, foreign_key-Loaded}
use sociomile.Service.Events.Rules.{IsAppended, Appended, append_ends}
use sociomile.Service.Conversation.Assignment.{loaded_row, loaded_status}
use sociomile.Service.Conversation.{through, assign_conversation_tx}

-- The tables before and after an assignment to `agent_id`. The loaded assignee decides the key
-- that is written, so a conversation that had one keeps it.
pub record IsAssigned (tenant_id id agent_id : String) (d d' : Db) : Type 0 where
  pub row : Conversation
  pub was_open : row.status ≢ conversation_status_closed
  pub stored : Conversation
  pub rewritten : IsRewritten d tenant_id id row stored d'.conversations
  pub stored_status : stored.status ≡ conversation_status_assigned
  pub when_free : row.assigned_agent_id ≡ none → stored.assigned_agent_id ≡ some agent_id
  pub when_taken :
      (u : User)
      → Member u d.users
      → row.assigned_agent_id ≡ some u.id
      → stored.assigned_agent_id ≡ some u.id
  pub owned : stored.assigned_agent_id ≢ none
  -- The user that the event names is the one that was stored.
  pub announced : String
  pub same_owner : stored.assigned_agent_id ≡ some announced
  pub event :
      IsAppended tenant_id "conversation.assigned" "conversation" id
        (fields_payload (("conversation_id", id) ∷ ("agent_id", announced) ∷ []))
        d.activity_logs
        d'.activity_logs
        d.outbox_events
        d'.outbox_events
  pub frame : d' ≡ record d {
    conversations = d'.conversations;
    activity_logs = d'.activity_logs;
    outbox_events = d'.outbox_events;
  }

-- Why the transaction of an assignment is refused.
pub data AssignRefused (tenant_id id : String) (d : Db) (e : Error) : Type 0 where
  unavailable :
      Missing (unordered (conversation_in tenant_id id)) d.conversations e
      → AssignRefused tenant_id id d e
  closed :
      (row : Conversation)
      → Member row d.conversations
      → conversation_in tenant_id id row ≡ true
      → row.status ≡ conversation_status_closed
      → e ≡ fails 409 "conversation_closed" "closed conversations cannot be assigned"
      → AssignRefused tenant_id id d e

fault : {tenant_id id : String} {d : Db} (e : Error) → IsFault e → AssignRefused tenant_id id d e
fault e f = unavailable (f.0, λ n. absurd (f.1 n))

-- A key that is set is written as a key.
foreign_key-some :
    (id : User → String) (o : Option User) (k : String) → foreign_key id o (some k) ≢ none
foreign_key-some id none k h = cc
foreign_key-some id (some r) k h = cc

through-some : (o : Option String) (old : String) → o ≢ none → o ≡ some (through o old)
through-some none old h = absurd (h refl)
through-some (some k) old h = refl

-- An association that is there decides the key.
foreign_key-Loaded_key :
    (old : Option String) (users : List User) (o : Option User)
    → Loaded (λ u. u.id) old users o
    → (u : User) → Member u users
    → old ≡ some u.id
    → (fk : Option String) → foreign_key (λ u. u.id) o fk ≡ some u.id
foreign_key-Loaded_key old users none h u m e fk = absurd (h u.id e u m refl)
foreign_key-Loaded_key old users (some r) h u m e fk = sym h.1 ∙ e

module _ (d : Db) (tenant_id id agent_id : String) (c : Conversation)
    (loaded : IsLoaded d tenant_id id c) (saved : Conversation) (rows : List Conversation)
    (d' : Db) where
  is_assigned :
      (c.status == conversation_status_closed) ≡ false
      → IsSaved Schema.conversations
          (record c { assigned_agent_id = some agent_id; status = conversation_status_assigned })
          d.conversations
          saved
          rows
      → Appended tenant_id "conversation.assigned" "conversation" saved.id
          (fields_payload (
            ("conversation_id", saved.id)
            ∷ ("agent_id", through saved.assigned_agent_id agent_id)
            ∷ []))
          (record d { conversations = rows })
          d'
      → IsAssigned tenant_id id agent_id d d'
  is_assigned is_open kept appended = subst⁻¹ (IsAssigned tenant_id id agent_id d) appended.frame (
      let (rewritten, status, key, same_id) =
        rewrite_saved d tenant_id id c loaded (some agent_id) _ c.updated_at kept in
      record {
        row = loaded.row;
        was_open = loaded_status d tenant_id id c loaded _ is_open;
        stored = Schema.conversation_columns saved;
        rewritten = rewritten;
        stored_status = status;
        when_free = λ free.
            key
            ∙ (foreign_key-Loaded (λ u. u.id) _ d.users c.assigned_agent
                  loaded.preloaded.agent_loaded _).0
                free;
        when_taken = λ u m taken.
            key
            ∙ foreign_key-Loaded_key _ d.users c.assigned_agent loaded.preloaded.agent_loaded u m
                taken _;
        owned = λ n. foreign_key-some (λ u. u.id) c.assigned_agent agent_id (sym key ∙ n);
        announced = through saved.assigned_agent_id agent_id;
        same_owner =
            through-some saved.assigned_agent_id agent_id
              (λ n. foreign_key-some (λ u. u.id) c.assigned_agent agent_id (sym key ∙ n));
        event =
            subst
              (λ k.
                IsAppended tenant_id "conversation.assigned" "conversation" k
                  (fields_payload (
                    ("conversation_id", k)
                    ∷ ("agent_id", through saved.assigned_agent_id agent_id)
                    ∷ []))
                  d.activity_logs appended.logs d.outbox_events appended.events)
              same_id appended.rows;
        frame = refl;
      })

module _ {W : Type 0} (g : Gorm W) (laws : GormLaws g) (tenant_id id : String) (agent : User)
    (s : State W) where
  pub assign_tx_ends :
      Ends
        (assign_conversation_tx g tenant_id id agent)
        s
        (λ u s'. IsAssigned tenant_id id agent.id s.db s'.db)
        (λ e s'. AssignRefused tenant_id id s.db e)
  unfolding assign_conversation_tx save_conversation
  assign_tx_ends =
      reads_seq _ _ (get_conversation_reads g laws s tenant_id id)
        (λ c w loaded.
          ends_guard _ _ _
            (λ shut.
              closed loaded.row loaded.listed (loaded_row s.db tenant_id id c loaded)
                (sym loaded.preloaded.same_status ∙ (eq_iff _ _).0 shut) refl)
            (λ is_open.
              save_seq g laws (beside s w) Tables.conversations Schema.conversations _ _
                (λ saved rows w kept.
                  ends_weaken _ (append_ends g laws _ tenant_id _ _ _ _)
                    (λ u s' appended.
                      is_assigned s.db tenant_id id agent.id c loaded saved rows s'.db is_open kept
                        appended)
                    (λ e s' f. fault e f))
                (λ e w f. fault e f)))
        (λ e w missing. unavailable missing)
