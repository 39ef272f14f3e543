-- ===== src/Gorm/Laws.antt =====
-- What the repository relies on, as GORM and MySQL document it: the named hypotheses of the theorems.
use sociomile.Prelude.{
  ℕ, ℤ, pos, String, ◌≡◌, ◌≢◌, ◌⊎◌, Bool, true, false, Option, none, some, List, [], ◌∷◌, ◌++◌, map,
  Member, select, length, upsert, if◌then◌else◌,
}
use sociomile.Apperror.{Error, record_not_found}
use sociomile.Model.Schema.{Schema, key, created, saved}
use sociomile.Exec.{ok, err, State, Exec}
use sociomile.Gorm.{Gorm, Query, Page, IsEngine, IsPage}

-- The record `r'` and the rows `rows'` after `Create` of `r`: a new primary key, a row at the end.
pub record IsCreated {R : Type 0} (sc : Schema R) (r : R) (rows : List R) (r' : R) (rows' : List R)
    : Type 0 where
  pub uuid : String
  pub time : ℕ
  pub filled : r' ≡ created sc uuid time r
  pub fresh : (x : R) → Member x rows → key sc x ≢ key sc r'
  pub added : rows' ≡ rows ++ sc.columns r' ∷ []

-- The record and the rows after `Save`: the row with the primary key is replaced.
pub record IsSaved {R : Type 0} (sc : Schema R) (r : R) (rows : List R) (r' : R) (rows' : List R)
    : Type 0 where
  pub time : ℕ
  pub filled : r' ≡ saved sc time r
  pub replaced : rows' ≡ upsert (key sc) (sc.columns r') rows

-- The same tables, in another world.
abbrev pub beside : {W : Type 0} → State W → W → State W
beside s w = record s { world = w }

-- `Limit`, where it is given.
abbrev pub pos_option : Option ℕ → Option ℤ
pos_option none = none
pos_option (some n) = some (pos n)

pub record GormLaws {W : Type 0} (g : Gorm W) : Type 1 where
  pub first_found :
      {R : Type 0} (q : Query R) (rows : List R) (w : W) (r : R) (w' : W)
      → g.first q rows w ≡ (ok r, w')
      → Member r rows
        × (q.matches r ≡ true)
        × ((x : R) → Member x rows → q.matches x ≡ true → q.before x r ≡ false)
  pub first_missing :
      {R : Type 0} (q : Query R) (rows : List R) (w w' : W)
      → g.first q rows w ≡ (err record_not_found, w')
      → (x : R) → Member x rows
      → q.matches x ≡ false
  pub first_engine :
      {R : Type 0} (q : Query R) (rows : List R) (w : W) (e : Error) (w' : W)
      → g.first q rows w ≡ (err e, w')
      → IsEngine e
  pub find_page :
      {R : Type 0} (q : Query R) (offset : ℕ) (limit : Option ℕ) (rows : List R) (w : W)
      (xs : List R) (w' : W)
      → g.find q (record { offset = pos offset; limit = pos_option limit }) rows w ≡ (ok xs, w')
      → IsPage q offset limit rows xs
  pub find_engine :
      {R : Type 0} (q : Query R) (p : Page) (rows : List R) (w : W) (e : Error) (w' : W)
      → g.find q p rows w ≡ (err e, w')
      → IsEngine e × (e ≢ record_not_found)
  pub count_selected :
      {R : Type 0} (p : R → Bool) (rows : List R) (w : W) (n : ℕ) (w' : W)
      → g.count p rows w ≡ (ok n, w')
      → n ≡ length (select p rows)
  pub count_engine :
      {R : Type 0} (p : R → Bool) (rows : List R) (w : W) (e : Error) (w' : W)
      → g.count p rows w ≡ (err e, w')
      → IsEngine e × (e ≢ record_not_found)
  pub preload_found :
      {R : Type 0} (id : R → String) (fk : Option String) (rows : List R) (w : W) (r : R) (w' : W)
      → g.preload id fk rows w ≡ (ok (some r), w')
      → Member r rows × (fk ≡ some (id r))
  pub preload_missing :
      {R : Type 0} (id : R → String) (k : String) (rows : List R) (w w' : W)
      → g.preload id (some k) rows w ≡ (ok none, w')
      → (x : R) → Member x rows
      → id x ≢ k
  pub preload_engine :
      {R : Type 0} (id : R → String) (fk : Option String) (rows : List R) (w : W) (e : Error)
      (w' : W)
      → g.preload id fk rows w ≡ (err e, w')
      → IsEngine e × (e ≢ record_not_found)
  pub create_row :
      {R : Type 0} (sc : Schema R) (r : R) (rows : List R) (w : W) (r' : R) (rows' : List R)
      (w' : W)
      → g.create sc r rows w ≡ (ok (r', rows'), w')
      → IsCreated sc r rows r' rows'
  pub create_engine :
      {R : Type 0} (sc : Schema R) (r : R) (rows : List R) (w : W) (e : Error) (w' : W)
      → g.create sc r rows w ≡ (err e, w')
      → IsEngine e × (e ≢ record_not_found)
  pub save_row :
      {R : Type 0} (sc : Schema R) (r : R) (rows : List R) (w : W) (r' : R) (rows' : List R)
      (w' : W)
      → g.save sc r rows w ≡ (ok (r', rows'), w')
      → IsSaved sc r rows r' rows'
  pub save_engine :
      {R : Type 0} (sc : Schema R) (r : R) (rows : List R) (w : W) (e : Error) (w' : W)
      → g.save sc r rows w ≡ (err e, w')
      → IsEngine e × (e ≢ record_not_found)
  pub updates_rows :
      {R : Type 0} (p : R → Bool) (f : ℕ → R → R) (rows : List R) (w : W) (rows' : List R) (w' : W)
      → g.updates p f rows w ≡ (ok rows', w')
      → (t : ℕ) × (rows' ≡ map (λ r. if p r then f t r else r) rows)
  pub updates_engine :
      {R : Type 0} (p : R → Bool) (f : ℕ → R → R) (rows : List R) (w : W) (e : Error) (w' : W)
      → g.updates p f rows w ≡ (err e, w')
      → IsEngine e × (e ≢ record_not_found)
  -- A transaction that succeeds has run its body once, and its tables stand; one that fails has
  -- changed no table, and fails with the error of the body or with one of the engine.
  pub commit :
      {A : Type 0} (m : Exec W A) (s : State W) (a : A) (s' : State W)
      → g.transaction m s ≡ (ok a, s')
      → (w : W) × (w' : W) × (m (beside s w) ≡ (ok a, beside s' w'))
  pub rollback :
      {A : Type 0} (m : Exec W A) (s : State W) (e : Error) (s' : State W)
      → g.transaction m s ≡ (err e, s')
      → (s'.db ≡ s.db)
        × ((IsEngine e × (e ≢ record_not_found))
            ⊎ ((w : W) × (t : State W) × (m (beside s w) ≡ (err e, t))))
