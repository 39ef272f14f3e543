-- ===== src/Seeds/Upserted.antt =====
-- backend/seeds/default.go: what `upsert` leaves in a table.
use mathlib.Core.Bool.{false≢true}
use sociomile.Prelude.{
  ℕ, String, ◌≡◌, ◌≢◌, inl, inr, refl, sym, ap, ◌∙◌, subst⁻¹, Bool, true, false, List, [], ◌∷◌,
  Member, Unique, ◌==◌, eq_iff, Bool-cases, if◌then◌else◌,
}
use sociomile.Exec.{Result, ok, err, State, Exec, ◌>>◌}
use sociomile.Exec.Ends.{Ends, ends_seq, ends_at}
use sociomile.Gorm.Session.{Table, updated}
use sociomile.Seeds.Columns.{OnConflict, Clauses}
use sociomile.Seeds.Load.{upsert}
use sociomile.Seeds.Rows.{clear, put_rows, KeepsKey, IsSeeded, put_rows-IsSeeded}

-- `Create` with `OnConflict`, which is `INSERT … ON DUPLICATE KEY UPDATE`, where no row that is given is
-- the same as another row in a unique index other than the key: there MySQL would update that other row.
pub record ClausesLaws {W : Type 0} (clauses : Clauses W) : Type 1 where
  pub put :
      {R : Type 0} (c : OnConflict R) (values rows : List R) (w : W) (rows' : List R) (w' : W)
      → clear c values values ≡ true
      → clear c values rows ≡ true
      → clauses.create c values rows w ≡ (ok rows', w')
      → (t : ℕ) × (rows' ≡ put_rows c t values rows)

-- The values of a table were loaded, at some time.
abbrev pub Filled : {R : Type 0} → OnConflict R → List R → List R → List R → Type 0
Filled c values rows rows' = (t : ℕ) × IsSeeded c t values rows rows'

-- The tests that identifiers differ.
abbrev among : String → List String → Bool
among x [] = false
among x (y ∷ ys) = if x == y then true else among x ys

abbrev keys : {R : Type 0} → (R → String) → List R → List String
keys key [] = []
keys key (v ∷ vs) = key v ∷ keys key vs

abbrev all_apart : List String → Bool
all_apart [] = true
all_apart (x ∷ xs) = if among x xs then false else all_apart xs

among_lem :
    {R : Type 0} (key : R → String) (x : String) (vs : List R)
    → among x (keys key vs) ≡ false
    → (v : R) → Member v vs
    → key v ≢ x
among_lem key x [] h v m = elim m [ ]
among_lem key x (y ∷ ys) h v m = elim (Bool-cases (x == key y)) [
  | inl same ↦ absurd (false≢true (sym (rw same at h)))
  | inr other ↦ elim m [
    | inl e ↦ λ k. false≢true (sym other ∙ (eq_iff _ _).1 (sym k ∙ ap key e))
    | inr n ↦ among_lem key x ys (rw other at h) v n
  ]
]

apart-Unique :
    {R : Type 0} (key : R → String) (vs : List R) → all_apart (keys key vs) ≡ true → Unique key vs
apart-Unique key [] h = tt
apart-Unique key (v ∷ vs) h = elim (Bool-cases (among (key v) (keys key vs))) [
  | inl twice ↦ absurd (false≢true (rw twice at h))
  | inr once ↦ (λ w m. among_lem key (key v) vs once w m, apart-Unique key vs (rw once at h))
]

module _ {W : Type 0} (clauses : Clauses W) (laws : ClausesLaws clauses) where
  pub upsert_ends :
      {R : Type 0} (s : State W) (t : Table R) (c : OnConflict R) (values : List R)
      → clear c values (t.rows s.db) ≡ true
      → KeepsKey c
      → clear c values values ≡ true
      → all_apart (keys c.key values) ≡ true
      → Ends
          (upsert clauses t c values)
          s
          (λ u s'.
            (rows' : List R) × (s'.db ≡ t.put rows' s.db) × Filled c values (t.rows s.db) rows')
          (λ e s'. Unit {0})
  unfolding upsert
  upsert_ends {R} s t c values free k apart distinct =
      go (clauses.create c values (t.rows s.db) s.world).0
        (clauses.create c values (t.rows s.db) s.world).1 refl
    where
      go :
          (r : Result (List R)) (w : W)
          → clauses.create c values (t.rows s.db) s.world ≡ (r, w)
          → Ends
              (λ (u : State W). updated t u (clauses.create c values (t.rows u.db) u.world))
              s
              (λ u s'.
                (rows' : List R) × (s'.db ≡ t.put rows' s.db) × Filled c values (t.rows s.db) rows')
              (λ e s'. Unit {0})
      go (ok rows') w e =
          let (time, same) = laws.put c values (t.rows s.db) s.world rows' w apart free e in
          record {
            at = rw e (
              rows',
              refl,
              (
                time,
                subst⁻¹ (IsSeeded c time values (t.rows s.db)) same (
                    put_rows-IsSeeded c k time values (t.rows s.db)
                      (apart-Unique c.key values distinct)),
              ),
            );
          }
      go (err x) w e = record { at = rw e tt }

  -- A step of `LoadDemoData`, and the steps behind it.
  pub upsert_then :
      {R : Type 0} (t : Table R) (c : OnConflict R) (values : List R) (rest : Exec W (Unit {0}))
      {s : State W} {Q : Unit {0} → State W → Type 0}
      → KeepsKey c
      → clear c values values ≡ true
      → all_apart (keys c.key values) ≡ true
      → clear c values (t.rows s.db) ≡ true
      → ((rows : List R) (w : W)
          → Filled c values (t.rows s.db) rows
          → Ends rest (record { db = t.put rows s.db; world = w }) Q (λ e s'. Unit {0}))
      → Ends (upsert clauses t c values >> rest) s Q (λ e s'. Unit {0})
  upsert_then t c values rest {s} kept apart distinct free next =
      ends_seq _ _ (upsert_ends s t c values free kept apart distinct)
        (λ u s' (rows, same, filled). ends_at _ s' _ same (next rows s'.world filled)) (λ e s' x. x)
