-- ===== src/Repository/Store/Rewrite.antt =====
-- What `SaveConversation` stores when it writes back a conversation that was loaded.
use sociomile.Prelude.{
  ℕ, String, ◌≡◌, arith, refl, sym, ap, ◌∙◌, Option, none, some, List, Member, upsert,
}
use sociomile.Model.{Db, Conversation}
use sociomile.Model.Schema
use sociomile.Model.Schema.{key, foreign_key, foreign_key_value}
use sociomile.Gorm.Laws.{IsSaved}
use sociomile.Gorm.Session.Rules.{Loaded}
use sociomile.Repository.Store.Rules.{IsLoaded}

-- The row of a conversation of the tenant, `row`, is replaced by `stored`, which has the same
-- identifier, tenant, customer and channel.
pub record IsRewritten (d : Db) (tenant_id id : String) (row stored : Conversation)
    (rows : List Conversation) : Type 0 where
  pub listed : Member row d.conversations
  pub row_tenant : row.tenant_id ≡ tenant_id
  pub row_id : row.id ≡ id
  pub stored_id : stored.id ≡ id
  pub stored_tenant : stored.tenant_id ≡ tenant_id
  pub stored_customer : stored.customer_id ≡ row.customer_id
  pub stored_channel : stored.channel_id ≡ row.channel_id
  pub replaced : rows ≡ upsert (key Schema.conversations) stored d.conversations

some_injective : {A : Type 0} (a b : A) → some a ≡ some b → a ≡ b
some_injective a b h = cc

-- A loaded association has the key that the row refers to.
foreign_key_value_lem :
    {R : Type 0} (id : R → String) (k : String) (rows : List R) (o : Option R)
    → Loaded id (some k) rows o
    → foreign_key_value id o k ≡ k
foreign_key_value_lem id k rows none h = refl
foreign_key_value_lem id k rows (some r) h = sym (some_injective k (id r) h.1)

-- Where the association is that of the row, the key written is the key set.
pub foreign_key-Loaded :
    {R : Type 0} (id : R → String) (old : Option String) (rows : List R) (o : Option R)
    → Loaded id old rows o
    → (fk : Option String)
    → (old ≡ none → foreign_key id o fk ≡ fk) × (old ≡ fk → foreign_key id o fk ≡ fk)
foreign_key-Loaded id old rows none h fk = (λ e. refl, λ e. refl)
foreign_key-Loaded id old rows (some r) h fk = (λ e. ground (arith, h.1), λ e. sym h.1 ∙ e)

module _ (d : Db) (tenant_id id : String) (c : Conversation) (loaded : IsLoaded d tenant_id id c)
    (fk : Option String) (status : String) (t : ℕ) {r : Conversation}
    {rows : List Conversation} where
  pub rewrite_saved :
      IsSaved Schema.conversations
        (record c {
          base = record c.base { updated_at = t };
          status = status;
          assigned_agent_id = fk;
        })
        d.conversations
        r
        rows
      → IsRewritten d tenant_id id loaded.row (Schema.conversation_columns r) rows
        × (r.status ≡ status)
        × (r.assigned_agent_id ≡ foreign_key (λ u. u.id) c.assigned_agent fk)
        × (r.id ≡ id)
  rewrite_saved saved =
      let id_same : r.id ≡ id =
        ap (λ (x : Conversation). x.id) saved.filled
        ∙ (ap (λ b. b.id) loaded.preloaded.same_base ∙ loaded.same_id) in
      (
        record {
          listed = loaded.listed;
          row_tenant = loaded.of_tenant;
          row_id = loaded.same_id;
          stored_id = id_same;
          stored_tenant =
              ap (λ (x : Conversation). x.tenant_id) saved.filled
              ∙ (loaded.preloaded.same_tenant ∙ loaded.of_tenant);
          stored_customer =
              ap (λ (x : Conversation). x.customer_id) saved.filled
              ∙ (ap (foreign_key_value (λ r. r.id) c.customer) loaded.preloaded.same_customer
                  ∙ foreign_key_value_lem _ _ _ c.customer loaded.preloaded.customer_loaded);
          stored_channel =
              ap (λ (x : Conversation). x.channel_id) saved.filled
              ∙ (ap (foreign_key_value (λ r. r.id) c.channel) loaded.preloaded.same_channel
                  ∙ foreign_key_value_lem _ _ _ c.channel loaded.preloaded.channel_loaded);
          replaced = saved.replaced;
        },
        ap (λ (x : Conversation). x.status) saved.filled,
        ap (λ (x : Conversation). x.assigned_agent_id) saved.filled,
        id_same,
      )
