-- ===== src/Platform/Migrations/Plan.antt =====
-- backend/internal/platform/database.go: what the database documents of the calls of `ApplyMigrations`,
-- and what a run of it has done.
use sociomile.Prelude.{
  ℕ, String, ◌≡◌, ◌≢◌, ◌⊎◌, Bool, true, false, List, [], ◌∷◌, ◌++◌, map, Member, select, length,
  trim_space,
}
use sociomile.Apperror.{Error}
use sociomile.Exec.{ok, err}
use sociomile.Exec.Io.{Io}
use sociomile.Platform.Sort.{IsSorted}
use sociomile.Platform.Migrations.{Sql, Directory}

-- The names in `schema_migrations`, none where there is no such table; the statements that have run;
-- the equality of the names by the collation of the column.
pub record View (W : Type 0) : Type 0 where
  pub versions : W → List String
  pub scripts : W → List String
  pub collate : String → String → Bool

-- What the hypotheses say of a call that leaves the tables as they are.
abbrev pub IsKept : {W : Type 0} → View W → W → W → Type 0
IsKept view w v = (view.versions v ≡ view.versions w) × (view.scripts v ≡ view.scripts w)

-- A migration leaves `schema_migrations` alone. A transaction that fails takes its row of
-- `schema_migrations` back, or only its commit has failed: MySQL commits at a DDL statement, so that
-- the row behind it may stand. Nothing is said of the statement of one that fails.
pub record SqlLaws {W : Type 0} (sql : Sql W) (view : View W) : Type 1 where
  pub collate_refl : (name : String) → view.collate name name ≡ true
  pub created : (w v : W) → sql.create_versions w ≡ (ok tt, v) → IsKept view w v
  pub create_failed :
      (w : W) (e : Error) (v : W) → sql.create_versions w ≡ (err e, v) → IsKept view w v
  pub counted :
      (name : String) (w : W) (n : ℕ) (v : W)
      → sql.count_versions name w ≡ (ok n, v)
      → (n ≡ length (select (view.collate name) (view.versions w))) × IsKept view w v
  pub count_failed :
      (name : String) (w : W) (e : Error) (v : W)
      → sql.count_versions name w ≡ (err e, v)
      → IsKept view w v
  pub inserted :
      (name : String) (w v : W)
      → sql.insert_version name w ≡ (ok tt, v)
      → (view.versions v ≡ view.versions w ++ name ∷ []) × (view.scripts v ≡ view.scripts w)
  pub executed :
      (statement : String) (w v : W)
      → sql.exec statement w ≡ (ok tt, v)
      → (view.versions v ≡ view.versions w) × (view.scripts v ≡ view.scripts w ++ statement ∷ [])
  pub committed :
      {A : Type 0} (m : Io W A) (w : W) (a : A) (v : W)
      → sql.transaction m w ≡ (ok a, v)
      → (begun : W) × (done : W) × (m begun ≡ (ok a, done))
        × (IsKept view w begun × IsKept view done v)
  pub rolled_back :
      {A : Type 0} (m : Io W A) (w : W) (e : Error) (v : W)
      → sql.transaction m w ≡ (err e, v)
      → (view.versions v ≡ view.versions w)
        ⊎ ((a : A) × (begun : W) × (done : W) × (m begun ≡ (ok a, done))
            × IsKept view w begun
            × (view.versions v ≡ view.versions done))

-- A file with nothing left to do: it is blank, or a row has its name.
abbrev pub IsSettled : {W : Type 0} → View W → Directory → W → String → Type 0
IsSettled view dir v name =
    ((contents : String) × (dir.contents name ≡ ok contents) × (trim_space contents ≡ ""))
    ⊎ ((x : String) × Member x (view.versions v) × (view.collate name x ≡ true))

module _ {W : Type 0} (view : View W) (dir : Directory) (names : List String) (w : W) where
  -- A file that was applied, with its statement: it is one of the names, its contents are not blank,
  -- and no row had its name before.
  pub record IsStep (step : String × String) : Type 0 where
    pub listed : Member step.0 names
    pub contents : String
    pub read : dir.contents step.0 ≡ ok contents
    pub statement : step.1 ≡ trim_space contents
    pub given : step.1 ≢ ""
    pub fresh : (x : String) → Member x (view.versions w) → view.collate step.0 x ≡ false

module _ {W : Type 0} (view : View W) (dir : Directory) (names : List String) (w v : W) where
  -- The files applied, in their order, and the rows that they have left.
  pub record IsProgress (steps : List (String × String)) : Type 0 where
    pub each : (step : String × String) → Member step steps → IsStep view dir names w step
    pub sorted : IsSorted (map (λ step. step.0) steps)
    pub logged : view.versions v ≡ view.versions w ++ map (λ step. step.0) steps

  -- What a run that succeeds has done.
  pub record IsMigrated : Type 0 where
    pub steps : List (String × String)
    pub progress : IsProgress steps
    pub ran : view.scripts v ≡ view.scripts w ++ map (λ step. step.1) steps
    pub complete : (name : String) → Member name names → IsSettled view dir v name

  -- What a run that fails has done.
  pub record IsStopped : Type 0 where
    pub steps : List (String × String)
    pub progress : IsProgress steps

module _ {W : Type 0} (view : View W) (dir : Directory) where
  -- The state after a file: nothing has changed and there was nothing to do, or its statement has run
  -- and its row was added.
  pub data IsApplied (name : String) (w v : W) : Type 0 where
    idle : IsKept view w v → IsSettled view dir v name → IsApplied name w v
    applied :
        (statement contents : String)
        → dir.contents name ≡ ok contents
        → statement ≡ trim_space contents
        → statement ≢ ""
        → ((x : String) → Member x (view.versions w) → view.collate name x ≡ false)
        → view.versions v ≡ view.versions w ++ name ∷ []
        → view.scripts v ≡ view.scripts w ++ statement ∷ []
        → IsApplied name w v

  -- The rows after a file at which a run fails: as they were, or with the row of the file, where only
  -- the commit has failed.
  pub data IsBroken (name : String) (w v : W) : Type 0 where
    unrecorded : view.versions v ≡ view.versions w → IsBroken name w v
    recorded :
        (statement contents : String)
        → dir.contents name ≡ ok contents
        → statement ≡ trim_space contents
        → statement ≢ ""
        → ((x : String) → Member x (view.versions w) → view.collate name x ≡ false)
        → view.versions v ≡ view.versions w ++ name ∷ []
        → IsBroken name w v
