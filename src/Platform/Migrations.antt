-- ===== src/Platform/Migrations.antt =====
-- backend/internal/platform/database.go: `ApplyMigrations`. The database is a parameter: each call
-- that the loop makes of it. The directory is read while nothing writes to it, so it is a value.
pub mod Plan
pub mod Calls
pub mod Steps
pub mod Files
pub mod Applied
pub mod Rerun
use Prim.Native.String
use sociomile.Prelude.{
  ℕ, zero, String, Bool, true, false, not, ◌&&◌, List, [], ◌∷◌, ◌==◌, trim_space, ltb,
  if◌then◌else◌,
}
use sociomile.Exec.{Result, ok, err}
use sociomile.Exec.Io.{Io, pure, fail, ◌>>=◌, ◌>>◌, wrapping}
use sociomile.Platform.Names.{has_suffix}
use sociomile.Platform.Sort.{sort}

-- `os.DirEntry`
pub record Entry : Type 0 where
  pub name : String
  pub is_dir : Bool

-- What `os.ReadDir` and `os.ReadFile` of a file in the directory give.
pub record Directory : Type 0 where
  pub entries : Result (List Entry)
  pub contents : String → Result String

-- The statements that the code gives to the database.
pub record Sql (W : Type 0) : Type 1 where
  -- `CREATE TABLE IF NOT EXISTS schema_migrations`
  pub create_versions : Io W (Unit {0})
  -- `SELECT COUNT(*) FROM schema_migrations WHERE name = ?`
  pub count_versions : String → Io W ℕ
  -- `INSERT INTO schema_migrations (name) VALUES (?)`
  pub insert_version : String → Io W (Unit {0})
  -- `Exec(statement)`
  pub exec : String → Io W (Unit {0})
  -- `Transaction(fn)`
  pub transaction : {A : Type 0} → Io W A → Io W A

abbrev pub lift : {W A : Type 0} → Result A → Io W A
lift (ok a) = pure a
lift (err e) = fail e

-- The loop over the entries.
unfoldable pub migration_files : List Entry → List String
migration_files [] = []
migration_files (entry ∷ entries) =
    let files = migration_files entries in
    if not entry.is_dir && has_suffix entry.name ".up.sql" then entry.name ∷ files else files

module _ {W : Type 0} (sql : Sql W) (dir : Directory) where
  -- The transaction of a migration.
  unfoldable pub run_migration : String → String → Io W (Unit {0})
  run_migration name statement = sql.transaction (sql.exec statement >> sql.insert_version name)

  unfoldable pub apply_statement : String → String → Io W (Unit {0})
  apply_statement name statement =
      if statement == ""
      then pure tt
      else wrapping (String.◌++◌ "apply migration " name) (run_migration name statement)

  -- What the loop does with a file, by the count of the rows with its name.
  unfoldable pub apply_file : String → ℕ → Io W (Unit {0})
  apply_file name applied =
      if ltb 0 applied
      then pure tt
      else (wrapping (String.◌++◌ "read migration " name) (lift (dir.contents name)) >>= λ contents.
          apply_statement name (trim_space contents))

  -- The loop over the files.
  unfoldable pub apply_files : List String → Io W (Unit {0})
  apply_files [] = pure tt
  apply_files (name ∷ names) = do
    applied ← wrapping (String.◌++◌ "check migration " name) (sql.count_versions name)
    apply_file name applied
    apply_files names

  -- `ApplyMigrations`
  unfoldable pub apply_migrations : Io W (Unit {0})
  apply_migrations = do
    wrapping "create schema_migrations" sql.create_versions
    entries ← wrapping "read migrations dir" (lift dir.entries)
    apply_files (sort (migration_files entries))
