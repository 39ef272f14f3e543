-- ===== src/Repository/Store/Active.antt =====
-- backend/internal/repository/store.go: what `FindActiveConversation` returns.
use sociomile.Prelude.{String, ◌≡◌, ◌⊎◌, inl, inr, refl, true, arith, ltb, eq_iff, ◌==◌, Bool-cases}
use sociomile.Model.{Db, Conversation}
use sociomile.Exec.{State}
use sociomile.Exec.Ends.{ends_weaken}
use sociomile.Gorm.{Gorm, Query}
use sociomile.Gorm.Laws.{GormLaws, beside}
use sociomile.Gorm.Session.Rules.{Reads, reads_seq, Found, Missing, first_reads}
use sociomile.Repository.Tables
use sociomile.Repository.Filters.{active_in}
use sociomile.Repository.Store.{find_active_conversation}
use sociomile.Repository.Store.Rules.{
  IsPreloaded, IsLoaded, preload_conversation_reads, IsFault-Missing,
}

-- `Order("updated_at DESC")`
abbrev pub active_query : String → String → String → Query Conversation
active_query tenant_id customer_id channel_id = record {
  matches = active_in tenant_id customer_id channel_id;
  before = λ a b. ltb b.updated_at a.updated_at;
}

-- An active row that no other was updated after, loaded.
pub record IsActive (d : Db) (tenant_id customer_id channel_id : String) (c : Conversation)
    : Type 0 where
  pub row : Conversation
  pub found : Found (active_query tenant_id customer_id channel_id) d.conversations row
  pub preloaded : IsPreloaded d row c

pub active_tenant :
    (tenant_id customer_id channel_id : String) (row : Conversation)
    → active_in tenant_id customer_id channel_id row ≡ true
    → row.tenant_id ≡ tenant_id
active_tenant tenant_id customer_id channel_id row h =
    ground (arith, eq_iff row.tenant_id tenant_id)

abbrev pub loaded_active :
    (d : Db) (tenant_id customer_id channel_id : String) (c : Conversation)
    (active : IsActive d tenant_id customer_id channel_id c)
    → IsLoaded d tenant_id active.row.id c
loaded_active d tenant_id customer_id channel_id c active = record {
  row = active.row;
  listed = active.found.0;
  of_tenant = active_tenant tenant_id customer_id channel_id active.row active.found.1;
  same_id = refl;
  preloaded = active.preloaded;
}

-- A conversation of the tenant, of the customer in the channel, that is open or assigned.
pub record IsOngoing (tenant_id customer_id channel_id : String) (row : Conversation) : Type 0 where
  pub of_tenant : row.tenant_id ≡ tenant_id
  pub of_customer : row.customer_id ≡ customer_id
  pub of_channel : row.channel_id ≡ channel_id
  pub not_over : (row.status ≡ "open") ⊎ (row.status ≡ "assigned")

module _ (tenant_id customer_id channel_id : String) (row : Conversation) where
  pub active-IsOngoing :
      active_in tenant_id customer_id channel_id row ≡ true
      → IsOngoing tenant_id customer_id channel_id row
  active-IsOngoing h = record {
    of_tenant = active_tenant tenant_id customer_id channel_id row h;
    of_customer = ground (arith, eq_iff row.customer_id customer_id);
    of_channel = ground (arith, eq_iff row.channel_id channel_id);
    not_over = elim (Bool-cases (row.status == "open")) [
      | inl open_now ↦ inl ((eq_iff _ _).0 open_now)
      | inr other ↦ inr (ground (arith, eq_iff row.status "assigned"))
    ];
  }

  pub ongoing_active :
      IsOngoing tenant_id customer_id channel_id row
      → active_in tenant_id customer_id channel_id row ≡ true
  ongoing_active o =
      let a = (eq_iff _ _).1 o.of_tenant in
      let b = (eq_iff _ _).1 o.of_customer in
      let c = (eq_iff _ _).1 o.of_channel in
      elim o.not_over [
        | inl e ↦ (let d = (eq_iff _ _).1 e in ground arith)
        | inr e ↦ (let d = (eq_iff _ _).1 e in ground arith)
      ]

module _ {W : Type 0} (g : Gorm W) (laws : GormLaws g) (s : State W)
    (tenant_id customer_id channel_id : String) where
  pub find-IsActive_reads :
      Reads
        (find_active_conversation g tenant_id customer_id channel_id)
        s
        (IsActive s.db tenant_id customer_id channel_id)
        (Missing (active_query tenant_id customer_id channel_id) s.db.conversations)
  unfolding find_active_conversation
  find-IsActive_reads = record {
    reads =
        reads_seq _ _
          (first_reads g laws s Tables.conversations
            (active_query tenant_id customer_id channel_id))
          (λ row w found.
            ends_weaken _ (preload_conversation_reads g laws (beside s w) row).reads
              (λ c s' p. (p.0, record { row = row; found = found; preloaded = p.1 }))
              (λ e s' p.
                (p.0, IsFault-Missing (active_query tenant_id customer_id channel_id) _ e p.1)))
          (λ e w f. (refl, f));
  }
