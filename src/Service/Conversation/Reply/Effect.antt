-- ===== src/Service/Conversation/Reply/Effect.antt =====
-- backend/internal/service/conversation_service.go: what the transaction of `ReplyToConversation`
-- does to the tables, and why it is refused.
use sociomile.Prelude.{
  ℕ, String, ◌≡◌, ◌≢◌, ◌⊎◌, refl, sym, ap, ◌∙◌, true, false, none, some, List, [], ◌∷◌, ◌++◌,
  Member, ◌==◌, eq_iff, subst, subst⁻¹, if◌then◌else◌,
}
use sociomile.Apperror.{Error, fails}
use sociomile.Model.{
  Db, User, Conversation, Message, unsaved, conversation_status_assigned,
  conversation_status_closed, sender_type_agent, fields_payload,
}
use sociomile.Model.Schema
use sociomile.Exec.{State}
use sociomile.Exec.Ends.{Ends, ends_guard, ends_weaken}
use sociomile.Gorm.{Gorm, unordered}
use sociomile.Gorm.Laws.{GormLaws, IsCreated, IsSaved, beside}
use sociomile.Gorm.Session.Rules.{reads_seq, Missing, IsFault, now_reads, create_seq, save_seq}
use sociomile.Repository.Tables
use sociomile.Repository.Filters.{is_none, conversation_in}
use sociomile.Repository.Store.{create_message, save_conversation}
use sociomile.Repository.Store.Rules.{IsLoaded, get_conversation_reads}
use sociomile.Repository.Store.Rewrite.{IsRewritten, rewrite_saved}
use sociomile.Service.Conversation.Assignment.{
  take_over_fields, elsewhere_taken, loaded_row, own_key, loaded_free, loaded_status, loaded_id,
}
use sociomile.Service.Events.Rules.{IsAppended, Appended, append_ends}
use sociomile.Service.Conversation.{assigned_elsewhere, take_over, reply_to_conversation_tx}

-- The tables before and after a reply of `agent_id` to the conversation `id`.
pub record IsReplied (tenant_id id agent_id text : String) (d d' : Db) : Type 0 where
  pub row : Conversation
  pub stored : Conversation
  pub rewritten : IsRewritten d tenant_id id row stored d'.conversations
  pub row_open : row.status ≢ conversation_status_closed
  pub row_free : (row.assigned_agent_id ≡ none) ⊎ (row.assigned_agent_id ≡ some agent_id)
  pub stored_assignee : stored.assigned_agent_id ≡ some agent_id
  pub stored_status :
      stored.status
      ≡ (if is_none row.assigned_agent_id then conversation_status_assigned else row.status)
  pub message : Message
  pub posted : d'.messages ≡ d.messages ++ message ∷ []
  pub message_conversation : message.conversation_id ≡ id
  pub message_sender : message.sender_id ≡ some agent_id
  pub message_type : message.sender_type ≡ sender_type_agent
  pub message_text : message.message ≡ text
  pub event :
      IsAppended tenant_id "conversation.replied" "conversation" id
        (fields_payload
          (("conversation_id", id) ∷ ("agent_id", agent_id) ∷ ("message_id", message.id) ∷ []))
        d.activity_logs
        d'.activity_logs
        d.outbox_events
        d'.outbox_events
  pub frame : d' ≡ record d {
    conversations = d'.conversations;
    messages = d'.messages;
    activity_logs = d'.activity_logs;
    outbox_events = d'.outbox_events;
  }

-- Why the transaction of a reply is refused.
pub data ReplyRefused (tenant_id id agent_id : String) (d : Db) (e : Error) : Type 0 where
  unavailable :
      Missing (unordered (conversation_in tenant_id id)) d.conversations e
      → ReplyRefused tenant_id id agent_id d e
  closed :
      (row : Conversation)
      → Member row d.conversations
      → conversation_in tenant_id id row ≡ true
      → row.status ≡ conversation_status_closed
      → e ≡ fails 409 "conversation_closed" "cannot reply to a closed conversation"
      → ReplyRefused tenant_id id agent_id d e
  elsewhere :
      (row : Conversation)
      → Member row d.conversations
      → conversation_in tenant_id id row ≡ true
      → row.assigned_agent_id ≢ none
      → row.assigned_agent_id ≢ some agent_id
      → e
        ≡ fails 403 "conversation_assigned_elsewhere"
            "conversation is assigned to a different agent"
      → ReplyRefused tenant_id id agent_id d e

fault :
    {tenant_id id agent_id : String} {d : Db} (e : Error)
    → IsFault e
    → ReplyRefused tenant_id id agent_id d e
fault e f = unavailable (f.0, λ n. absurd (f.1 n))

replied :
    (d : Db) (tenant_id id : String) (agent : User) (text : String) (c : Conversation)
    (loaded : IsLoaded d tenant_id id c)
    → (c.status == conversation_status_closed) ≡ false
    → assigned_elsewhere c.assigned_agent_id agent.id ≡ false
    → (message : Message) (messages : List Message)
    → IsCreated Schema.messages
        (record {
          base = unsaved;
          conversation_id = c.id;
          sender_type = sender_type_agent;
          sender_id = some agent.id;
          message = text;
        })
        d.messages
        message
        messages
    → (saved : Conversation) (rows : List Conversation) (time : ℕ)
    → IsSaved Schema.conversations
        (record (take_over agent c) { base = record c.base { updated_at = time } })
        d.conversations
        saved
        rows
    → (d' : Db)
    → Appended tenant_id "conversation.replied" "conversation" saved.id
        (fields_payload (
          ("conversation_id", saved.id) ∷ ("agent_id", agent.id) ∷ ("message_id", message.id) ∷ []))
        (record d { messages = messages; conversations = rows })
        d'
    → IsReplied tenant_id id agent.id text d d'
replied d tenant_id id agent text c loaded is_open free message messages made saved rows time kept
      d' appended =
    subst⁻¹ (IsReplied tenant_id id agent.id text d) appended.frame (
      let (rewritten, status, assignee, same_id) =
        rewrite_saved d tenant_id id c loaded (some agent.id) _ time (
          subst
            (λ (x : Conversation).
              IsSaved Schema.conversations (record x { base = record c.base { updated_at = time } })
                d.conversations saved rows)
            (take_over_fields agent c free) kept) in
      record {
        row = loaded.row;
        stored = Schema.conversation_columns saved;
        rewritten = rewritten;
        row_open = loaded_status d tenant_id id c loaded _ is_open;
        row_free = loaded_free d tenant_id id c loaded agent.id free;
        stored_assignee =
            assignee
            ∙ own_key (λ u. u.id) _ d.users c.assigned_agent loaded.preloaded.agent_loaded _
                (loaded_free d tenant_id id c loaded agent.id free);
        stored_status = status ∙ (λ i.
            if is_none (loaded.preloaded.same_assignee i)
            then conversation_status_assigned
            else loaded.preloaded.same_status i);
        message = message;
        posted = made.added;
        message_conversation =
            ap (λ (x : Message). x.conversation_id) made.filled ∙ loaded_id d tenant_id id c loaded;
        message_sender = ap (λ (x : Message). x.sender_id) made.filled;
        message_type = ap (λ (x : Message). x.sender_type) made.filled;
        message_text = ap (λ (x : Message). x.message) made.filled;
        event =
            subst
              (λ k.
                IsAppended tenant_id "conversation.replied" "conversation" k
                  (fields_payload (
                    ("conversation_id", k)
                    ∷ ("agent_id", agent.id)
                    ∷ ("message_id", message.id)
                    ∷ []))
                  d.activity_logs appended.logs d.outbox_events appended.events)
              same_id appended.rows;
        frame = refl;
      })

module _ {W : Type 0} (g : Gorm W) (laws : GormLaws g) (tenant_id id : String) (agent : User)
    (text : String) (s : State W) where
  pub reply_tx_ends :
      Ends
        (reply_to_conversation_tx g tenant_id id agent text)
        s
        (λ u s'. IsReplied tenant_id id agent.id text s.db s'.db)
        (λ e s'. ReplyRefused tenant_id id agent.id s.db e)
  unfolding reply_to_conversation_tx create_message save_conversation
  reply_tx_ends =
      reads_seq _ _ (get_conversation_reads g laws s tenant_id id)
        (λ c w loaded.
          ends_guard _ _ _
            (λ shut.
              closed loaded.row loaded.listed (loaded_row _ _ _ c loaded)
                (sym loaded.preloaded.same_status ∙ (eq_iff _ _).0 shut) refl)
            (λ is_open.
              ends_guard _ _ _
                (λ taken.
                  elsewhere loaded.row loaded.listed (loaded_row _ _ _ c loaded)
                    (λ e. (elsewhere_taken _ _ taken).0 (loaded.preloaded.same_assignee ∙ e))
                    (λ e. (elsewhere_taken _ _ taken).1 (loaded.preloaded.same_assignee ∙ e)) refl)
                (λ free.
                  create_seq g laws (beside s w) Tables.messages Schema.messages _ _
                    (λ message messages w made.
                      reads_seq _ _ (now_reads g laws _)
                        (λ time w u.
                          save_seq g laws _ Tables.conversations Schema.conversations _ _
                            (λ saved rows w kept.
                              ends_weaken _ (append_ends g laws _ tenant_id _ _ _ _)
                                (λ u s' appended.
                                  replied s.db tenant_id id agent text c loaded is_open free message
                                    messages made saved rows time kept s'.db appended)
                                (λ e s' f. fault e f))
                            (λ e w f. fault e f))
                        (λ e w f. absurd f))
                    (λ e w f. fault e f))))
        (λ e w missing. unavailable missing)
