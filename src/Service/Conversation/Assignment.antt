-- ===== src/Service/Conversation/Assignment.antt =====
-- backend/internal/service: the tests on the assignment of a conversation, and what they say of its row.
use mathlib.Core.Bool.{false≢true}
use sociomile.Prelude.{
  String, ◌≡◌, ◌≢◌, ◌⊎◌, inl, inr, refl, sym, ap, ◌∙◌, true, false, Option, none, some, ◌==◌,
  eq_iff, arith, if◌then◌else◌, List,
}
use sociomile.Model.{Db, User, Conversation, conversation_status_assigned}
use sociomile.Model.Schema.{foreign_key}
use sociomile.Gorm.Session.Rules.{Loaded}
use sociomile.Repository.Filters.{is_none, conversation_in}
use sociomile.Repository.Store.Rules.{IsLoaded}
use sociomile.Repository.Store.Rewrite.{foreign_key-Loaded}
use sociomile.Service.Conversation.{assigned_elsewhere, take_over}

-- A conversation that is not assigned elsewhere is free, or is the agent's own.
pub elsewhere_free :
    (o : Option String) (id : String) → assigned_elsewhere o id ≡ false → (o ≡ none) ⊎ (o ≡ some id)
elsewhere_free none id h = inl refl
elsewhere_free (some a) id h = inr (ground (arith, eq_iff a id))

-- The written assignment, whichever branch wrote it.
pub take_over_fields :
    (agent : User) (c : Conversation)
    → assigned_elsewhere c.assigned_agent_id agent.id ≡ false
    → take_over agent c ≡ record c {
      status = if is_none c.assigned_agent_id then conversation_status_assigned else c.status;
      assigned_agent_id = some agent.id;
    }
take_over_fields agent c h = elim (elsewhere_free c.assigned_agent_id agent.id h) [
  | inl free ↦
      rw (ap is_none free)
        (λ i. record c { status = conversation_status_assigned; assigned_agent_id = some agent.id })
  | inr taken ↦ rw (ap is_none taken) (λ i. record c { assigned_agent_id = taken i })
]

pub elsewhere_taken :
    (o : Option String) (id : String) → assigned_elsewhere o id ≡ true → (o ≢ none) × (o ≢ some id)
elsewhere_taken none id h = absurd (false≢true h)
elsewhere_taken (some a) id h = (λ e. cc, λ e. ground (arith, eq_iff a id))

-- The row that was loaded is the one that the query asks for.
pub loaded_row :
    (d : Db) (tenant_id id : String) (c : Conversation) (loaded : IsLoaded d tenant_id id c)
    → conversation_in tenant_id id loaded.row ≡ true
loaded_row d tenant_id id c loaded =
    ground (arith, eq_iff loaded.row.tenant_id tenant_id, eq_iff loaded.row.id id)

-- An agent who takes a free conversation, or keeps one, is the agent that is written.
pub own_key :
    (id : User → String) (old : Option String) (rows : List User) (o : Option User)
    → Loaded id old rows o
    → (fk : Option String) → (old ≡ none) ⊎ (old ≡ fk)
    → foreign_key id o fk ≡ fk
own_key id old rows o h fk (inl e) = (foreign_key-Loaded id old rows o h fk).0 e
own_key id old rows o h fk (inr e) = (foreign_key-Loaded id old rows o h fk).1 e

-- The row of a loaded conversation is free or the agent's own.
pub loaded_free :
    (d : Db) (tenant_id id : String) (c : Conversation) (loaded : IsLoaded d tenant_id id c)
    (agent_id : String)
    → assigned_elsewhere c.assigned_agent_id agent_id ≡ false
    → (loaded.row.assigned_agent_id ≡ none) ⊎ (loaded.row.assigned_agent_id ≡ some agent_id)
loaded_free d tenant_id id c loaded agent_id h =
    elim (elsewhere_free c.assigned_agent_id agent_id h) [
      | inl e ↦ inl (sym loaded.preloaded.same_assignee ∙ e)
      | inr e ↦ inr (sym loaded.preloaded.same_assignee ∙ e)
    ]

-- So is its status that of the row.
pub loaded_status :
    (d : Db) (tenant_id id : String) (c : Conversation) (loaded : IsLoaded d tenant_id id c)
    (status : String)
    → (c.status == status) ≡ false
    → loaded.row.status ≢ status
loaded_status d tenant_id id c loaded status h e =
    false≢true (sym h ∙ (eq_iff _ _).1 (loaded.preloaded.same_status ∙ e))

pub loaded_id :
    (d : Db) (tenant_id id : String) (c : Conversation) → IsLoaded d tenant_id id c → c.id ≡ id
loaded_id d tenant_id id c loaded = ap (λ b. b.id) loaded.preloaded.same_base ∙ loaded.same_id

-- The two branches of the test on the assignment, read at the row.
pub is_free : (o : Option String) → is_none o ≡ true → o ≡ none
is_free none h = refl
is_free (some a) h = absurd (false≢true h)

pub is_taken :
    (o : Option String) (id : String) → is_none o ≡ false → (o ≡ none) ⊎ (o ≡ some id) → o ≡ some id
is_taken o id h (inl e) = absurd (false≢true (sym h ∙ ap is_none e))
is_taken o id h (inr e) = e
