-- ===== src/Service/Webhook/Target.antt =====
-- backend/internal/service/conversation_service.go: the conversation that `HandleWebhook` sends a
-- message to, when it is found or created and when it is saved.
use mathlib.Core.Bool.{false≢true}
use sociomile.Prelude.{
  ℕ, String, ◌≡◌, ◌≤◌, ltb, arith, inr, refl, sym, ap, ◌∙◌, subst, Bool, true, false, not, none,
  List, [], Member, upsert, upsert-append_last,
}
use sociomile.Model.{Db, Conversation, unsaved, conversation_status_open}
use sociomile.Model.Schema
use sociomile.Model.Schema.{key, created, saved}
use sociomile.Exec.{State}
use sociomile.Exec.Ends.{Ends, ends_at, ends_catch, ends_pure, ends_fail, ends_if}
use sociomile.Gorm.{Gorm}
use sociomile.Gorm.Laws.{GormLaws, IsCreated, IsSaved, beside}
use sociomile.Gorm.Session.Rules.{Missing, IsFault, reads_seq, create_seq}
use sociomile.Repository.Tables
use sociomile.Repository.Filters.{active_in, is_not_found}
use sociomile.Repository.Store.{create_conversation}
use sociomile.Repository.Store.Active.{
  active_query, active-IsOngoing, ongoing_active, IsActive, loaded_active, find-IsActive_reads,
}
use sociomile.Repository.Store.Rules.{is_found}
use sociomile.Repository.Store.Rewrite.{rewrite_saved}
use sociomile.Service.Conversation.Assignment.{own_key}
use sociomile.Service.Conversation.Commit.{not-true, not-false}
use sociomile.Service.Webhook.{active_or_new}
use sociomile.Service.Webhook.Effect.{IsTouched, IsOpened}

-- The literal that `HandleWebhook` gives to `CreateConversation`.
abbrev pub new_conversation : String → String → String → Conversation
new_conversation tenant_id customer_id channel_id = record {
  base = unsaved;
  tenant_id = tenant_id;
  customer_id = customer_id;
  channel_id = channel_id;
  status = conversation_status_open;
  assigned_agent_id = none;
  customer = none;
  channel = none;
  assigned_agent = none;
  messages = [];
  ticket = none;
}

-- The conversation with its rows: an active one, or a new one where there is none.
abbrev pub IsTarget :
    String → String → String → Db → List Conversation → Conversation → Bool → Type 0
IsTarget tenant_id customer_id channel_id d rows c false =
    IsActive d tenant_id customer_id channel_id c × (rows ≡ d.conversations)
IsTarget tenant_id customer_id channel_id d rows c true =
    ((x : Conversation)
      → Member x d.conversations
      → active_in tenant_id customer_id channel_id x ≡ false)
    × IsCreated Schema.conversations (new_conversation tenant_id customer_id channel_id)
        d.conversations c rows

module _ {W : Type 0} (g : Gorm W) (laws : GormLaws g) (s : State W)
    (tenant_id customer_id channel_id : String) where
  pub active_or_new_ends :
      Ends
        (active_or_new g tenant_id customer_id channel_id)
        s
        (λ target s'.
          (rows : List Conversation) × IsTarget tenant_id customer_id channel_id s.db rows target.0
            target.1
          × (s'.db ≡ record s.db { conversations = rows }))
        (λ e s'. IsFault e)
  unfolding active_or_new create_conversation
  active_or_new_ends =
      ends_catch _ _
        {P = λ target s'.
          (rows : List Conversation) × IsTarget tenant_id customer_id channel_id s.db rows target.0
            target.1
          × (s'.db ≡ record s.db { conversations = rows })}
        {F = λ e s'.
          (s'.db ≡ s.db)
          × Missing (active_query tenant_id customer_id channel_id) s.db.conversations e}
        (reads_seq _ _ (find-IsActive_reads g laws s tenant_id customer_id channel_id)
          (λ c w active. ends_pure _ (s.db.conversations, (active, refl), refl))
          (λ e w f. (refl, f)))
        (λ target s' p. p)
        (λ e s' p.
          ends_if (not (is_not_found e)) _ _
            (λ other.
              ends_fail _ (
                p.1.0,
                λ n. false≢true (sym (not-true (is_not_found e) other) ∙ ap is_not_found n),
              ))
            (λ missing. ends_at _ s' s.db p.0 (
              create_seq g laws (beside s s'.world) Tables.conversations Schema.conversations _ _
                (λ c rows w made.
                  ends_pure _
                    (rows, (p.1.1 (is_found e (not-false (is_not_found e) missing)), made), refl))
                (λ e w f. f))))

module _ (d : Db) (tenant_id customer_id channel_id : String) (c : Conversation) (time : ℕ)
    (r : Conversation) (rows rows' : List Conversation)
    (kept : IsSaved Schema.conversations
      (record c { base = record c.base { updated_at = time } })
      rows
      r
      rows') where
  pub same_target : r.id ≡ c.id
  same_target = ap (λ (x : Conversation). x.id) kept.filled

  not_later :
      (x y : Conversation) → ltb y.updated_at x.updated_at ≡ false → x.updated_at ≤ y.updated_at
  not_later x y h = ground arith

  pub target-IsTouched :
      IsTarget tenant_id customer_id channel_id d rows c false
      → IsTouched tenant_id customer_id channel_id r.id d rows'
  target-IsTouched (active, same) =
      let loaded = loaded_active d tenant_id customer_id channel_id c active in
      let (rewritten, status, assignee, same_id) =
        rewrite_saved d tenant_id active.row.id c loaded c.assigned_agent_id c.status time (
          subst
            (λ x.
              IsSaved Schema.conversations (record c { base = record c.base { updated_at = time } })
                x r rows')
            same kept) in
      subst (λ k. IsTouched tenant_id customer_id channel_id k d rows') (sym same_id)
        (record {
          row = active.row;
          ongoing = active-IsOngoing tenant_id customer_id channel_id active.row active.found.1;
          newest = λ x m o.
              not_later x active.row
                (active.found.2 x m (ongoing_active tenant_id customer_id channel_id x o));
          stored = Schema.conversation_columns r;
          rewritten = rewritten;
          same_status = status ∙ active.preloaded.same_status;
          same_assignee =
              assignee
              ∙ (own_key (λ u. u.id) active.row.assigned_agent_id d.users c.assigned_agent
                    active.preloaded.agent_loaded c.assigned_agent_id
                    (inr (sym active.preloaded.same_assignee))
                  ∙ active.preloaded.same_assignee);
        })

  pub target-IsOpened :
      IsTarget tenant_id customer_id channel_id d rows c true
      → IsOpened tenant_id customer_id channel_id r.id d rows' r
  target-IsOpened (unseen, made) =
      let full : r
          ≡ saved Schema.conversations kept.time
              (record (created Schema.conversations made.uuid made.time
                (new_conversation tenant_id customer_id channel_id)) {
                  base =
                      record (created Schema.conversations made.uuid made.time
                        (new_conversation tenant_id customer_id channel_id)).base {
                          updated_at = time;
                        };
                }) =
        kept.filled
        ∙ ap
            (λ (x : Conversation).
              saved Schema.conversations kept.time
                (record x { base = record x.base { updated_at = time } }))
            made.filled in
      record {
        none_active = λ x m o.
            false≢true (sym (unseen x m) ∙ ongoing_active tenant_id customer_id channel_id x o);
        fresh = λ x m e. made.fresh x m (e ∙ same_target);
        same_id = refl;
        tenant = ap (λ (x : Conversation). x.tenant_id) full;
        customer = ap (λ (x : Conversation). x.customer_id) full;
        channel = ap (λ (x : Conversation). x.channel_id) full;
        status = ap (λ (x : Conversation). x.status) full;
        assignee = ap (λ (x : Conversation). x.assigned_agent_id) full;
        added =
            kept.replaced
            ∙ (ap (λ xs. upsert (key Schema.conversations) (Schema.conversation_columns r) xs)
                  made.added
                ∙ upsert-append_last (key Schema.conversations) (Schema.conversation_columns r)
                    (Schema.conversation_columns c) d.conversations
                    (λ x m e. made.fresh x m (e ∙ same_target)) (sym same_target));
      }
