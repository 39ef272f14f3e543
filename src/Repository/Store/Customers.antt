-- ===== src/Repository/Store/Customers.antt =====
-- backend/internal/repository/store.go: what `GetOrCreateCustomer` leaves in the table of customers.
use mathlib.Core.Bool.{false≢true}
use sociomile.Prelude.{
  String, ◌≡◌, ◌≢◌, ◌⊎◌, inl, inr, refl, sym, ap, ◌∙◌, true, false, not, ◌&&◌, Option, none, some,
  List, [], ◌∷◌, ◌++◌, Member, upsert, ◌==◌, eq_iff, arith, if◌then◌else◌, Bool-cases,
}
use sociomile.Model.{Customer}
use sociomile.Model.Schema
use sociomile.Model.Schema.{key}
use sociomile.Exec.{State}
use sociomile.Exec.Ends.{Ends, ends_catch, ends_pure, ends_fail, ends_if, ends_weaken}
use sociomile.Gorm.{Gorm, unordered}
use sociomile.Gorm.Laws.{GormLaws, beside}
use sociomile.Gorm.Session.Rules.{Reads, reads_seq, Missing, IsFault, first_reads}
use sociomile.Gorm.Session.Writes.{save_ends, create_ends}
use sociomile.Repository.Tables
use sociomile.Repository.Filters.{customer_in, is_not_found}
use sociomile.Repository.Store.{
  rename_customer, create_customer, find_customer, customer_or_new, get_or_create_customer,
}
use sociomile.Repository.Store.Rules.{is_found, both_true}

-- A customer of the tenant with that external identifier.
abbrev pub IsSame : String → String → Customer → Type 0
IsSame tenant_id external_id k = (k.tenant_id ≡ tenant_id) × (k.external_id ≡ external_id)

-- The customer `k` and the rows after the call: the customer was there and has a good name, or was
-- there and is renamed, or is new under the name, which is the external identifier if it is blank.
pub data IsCustomerOf (tenant_id external_id name : String) (old : List Customer) (k : Customer)
    (rows : List Customer) : Type 0 where
  kept :
      Member k old
      → IsSame tenant_id external_id k
      → (name ≡ "") ⊎ (k.name ≡ name)
      → rows ≡ old
      → IsCustomerOf tenant_id external_id name old k rows
  renamed :
      (row : Customer)
      → Member row old
      → IsSame tenant_id external_id row
      → name ≢ ""
      → row.name ≢ name
      → k.id ≡ row.id
      → k.tenant_id ≡ row.tenant_id
      → k.external_id ≡ row.external_id
      → k.name ≡ name
      → rows ≡ upsert (key Schema.customers) k old
      → IsCustomerOf tenant_id external_id name old k rows
  added :
      ((x : Customer) → Member x old → ¬ IsSame tenant_id external_id x)
      → k.tenant_id ≡ tenant_id
      → k.external_id ≡ external_id
      → k.name ≡ (if name == "" then external_id else name)
      → rows ≡ old ++ k ∷ []
      → IsCustomerOf tenant_id external_id name old k rows

-- What a lookup of a customer says: one is there, or none is.
abbrev Seen : String → String → List Customer → Option Customer → Type 0
Seen tenant_id external_id rows (some k) = Member k rows × IsSame tenant_id external_id k
Seen tenant_id external_id rows none =
    (x : Customer) → Member x rows → ¬ IsSame tenant_id external_id x

found-IsSame :
    (tenant_id external_id : String) (k : Customer)
    → customer_in tenant_id external_id k ≡ true
    → IsSame tenant_id external_id k
found-IsSame tenant_id external_id k h = (
  (eq_iff _ _).0 (both_true (k.tenant_id == tenant_id) (k.external_id == external_id) h).0,
  (eq_iff _ _).0 (both_true (k.tenant_id == tenant_id) (k.external_id == external_id) h).1,
)

missed-IsSame :
    (tenant_id external_id : String) (k : Customer)
    → customer_in tenant_id external_id k ≡ false
    → ¬ IsSame tenant_id external_id k
missed-IsSame tenant_id external_id k h (a, b) =
    ground (arith, eq_iff k.tenant_id tenant_id, eq_iff k.external_id external_id)

needless : (a b c : String) → (not (a == "") && not (b == c)) ≡ false → (a ≡ "") ⊎ (b ≡ c)
needless a b c h = elim (Bool-cases (a == "")) [
  | inl e ↦ inl ((eq_iff _ _).0 e)
  | inr n ↦ inr (ground (arith, eq_iff b c))
]

needed : (a b c : String) → (not (a == "") && not (b == c)) ≡ true → (a ≢ "") × (b ≢ c)
needed a b c h = (λ e. ground (arith, eq_iff a ""), λ e. ground (arith, eq_iff b c))

module _ {W : Type 0} (g : Gorm W) (laws : GormLaws g) (tenant_id external_id name : String)
    (s : State W) where
  find_customer_reads :
      Reads
        (find_customer g tenant_id external_id)
        s
        (Seen tenant_id external_id s.db.customers)
        IsFault
  unfolding find_customer
  find_customer_reads = record {
    reads =
        ends_catch _ _ {P = λ k s'. (s'.db ≡ s.db) × Seen tenant_id external_id s.db.customers k}
          {F = λ e s'.
            (s'.db ≡ s.db)
            × Missing (unordered (customer_in tenant_id external_id)) s.db.customers e}
          (reads_seq _ _
            (first_reads g laws s Tables.customers (unordered (customer_in tenant_id external_id)))
            (λ k w found.
              ends_pure _ (refl, (found.0, found-IsSame tenant_id external_id k found.1)))
            (λ e w f. (refl, f)))
          (λ k s' p. p)
          (λ e s' p.
            ends_if (is_not_found e) _ _
              (λ missing. ends_pure _ (
                p.0,
                λ x m. missed-IsSame tenant_id external_id x (p.1.1 (is_found e missing) x m),
              ))
              (λ other.
                ends_fail _ (p.0, (p.1.0, λ n. false≢true (sym other ∙ ap is_not_found n)))));
  }

  rename_ends :
      (k : Customer)
      → Seen tenant_id external_id s.db.customers (some k)
      → Ends
          (rename_customer g name k)
          s
          (λ k' s'.
            (rows : List Customer) × IsCustomerOf tenant_id external_id name s.db.customers k' rows
            × (s'.db ≡ record s.db { customers = rows }))
          (λ e s'. IsFault e)
  unfolding rename_customer
  rename_ends k seen =
      ends_if _ _ _
        (λ other.
          let (named, differs) = needed name k.name name other in
          ends_weaken _ (save_ends g laws s Tables.customers Schema.customers _)
            (λ k' s' (rows, made, frame). (
              rows,
              renamed k seen.0 seen.1 named differs (ap (λ (x : Customer). x.id) made.filled)
                  (ap (λ (x : Customer). x.tenant_id) made.filled)
                  (ap (λ (x : Customer). x.external_id) made.filled)
                  (ap (λ (x : Customer). x.name) made.filled) made.replaced,
              frame,
            ))
            (λ e s' f. f.1))
        (λ same.
          ends_pure k
            (s.db.customers, kept seen.0 seen.1 (needless name k.name name same) refl, refl))

  create_customer_ends :
      Seen tenant_id external_id s.db.customers none
      → Ends
          (create_customer g tenant_id external_id name)
          s
          (λ k' s'.
            (rows : List Customer) × IsCustomerOf tenant_id external_id name s.db.customers k' rows
            × (s'.db ≡ record s.db { customers = rows }))
          (λ e s'. IsFault e)
  unfolding create_customer
  create_customer_ends unseen =
      ends_weaken _ (create_ends g laws s Tables.customers Schema.customers _)
        (λ k' s' (rows, made, frame). (
          rows,
          added unseen (ap (λ (x : Customer). x.tenant_id) made.filled)
              (ap (λ (x : Customer). x.external_id) made.filled)
              (ap (λ (x : Customer). x.name) made.filled) made.added,
          frame,
        ))
        (λ e s' f. f.1)

  customer_or_new_ends :
      (found : Option Customer)
      → Seen tenant_id external_id s.db.customers found
      → Ends
          (customer_or_new g tenant_id external_id name found)
          s
          (λ k' s'.
            (rows : List Customer) × IsCustomerOf tenant_id external_id name s.db.customers k' rows
            × (s'.db ≡ record s.db { customers = rows }))
          (λ e s'. IsFault e)
  customer_or_new_ends none unseen = create_customer_ends unseen
  customer_or_new_ends (some k) seen = rename_ends k seen

module _ {W : Type 0} (g : Gorm W) (laws : GormLaws g) (tenant_id external_id name : String)
    (s : State W) where
  pub get_or_create_customer_ends :
      Ends
        (get_or_create_customer g tenant_id external_id name)
        s
        (λ k s'.
          (rows : List Customer) × IsCustomerOf tenant_id external_id name s.db.customers k rows
          × (s'.db ≡ record s.db { customers = rows }))
        (λ e s'. IsFault e)
  unfolding get_or_create_customer
  get_or_create_customer_ends =
      reads_seq _ _ (find_customer_reads g laws tenant_id external_id name s)
        (λ found w seen.
          customer_or_new_ends g laws tenant_id external_id name (beside s w) found seen)
        (λ e w f. f)
