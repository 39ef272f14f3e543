-- ===== src/Examples/Migrations.antt =====
-- The theorems about the migrations, applied to a directory with two of them, a file to undo one, and
-- a folder, over a database that runs each statement that is not refused.
use sociomile.Prelude.{
  inl, ℕ, String, ◌≡◌, refl, sym, ap, trim_space, Bool, true, false, List, [], ◌∷◌, ◌++◌, ◌==◌,
  eq_refl, select, length, if◌then◌else◌,
}
use sociomile.Apperror.{Error, other}
use sociomile.Exec.{Result, ok, err}
use sociomile.Exec.Io.{pure, fail, ◌>>=◌, catch, wrapped}
use sociomile.Platform.Names.{at_most, has_suffix}
use sociomile.Platform.Sort.{sort}
use sociomile.Platform.Migrations.{
  Entry, Directory, Sql, migration_files, run_migration, apply_statement, apply_file, apply_files,
  apply_migrations,
}
use sociomile.Platform.Migrations.Plan.{View, IsKept, SqlLaws, IsMigrated, IsStopped}
use sociomile.Platform.Migrations.Applied.{files_of, apply_migrations_ok, apply_migrations_err}
use sociomile.Platform.Migrations.Rerun.{apply_migrations_twice}
use sociomile.Exec.Results.{ok_injective, ok≢err}

-- The names in `schema_migrations`, the statements that have run, and a clock.
pub record Disk : Type 0 where
  pub names : List String
  pub statements : List String
  pub clock : ℕ

abbrev settled : {A : Type 0} → Disk → Result A × Disk → Result A × Disk
settled d (ok a, e) = (ok a, e)
settled d (err x, e) = (err x, d)

abbrev pub sql : Sql Disk
sql = record {
  create_versions = λ d. (ok tt, d);
  count_versions = λ name d. (ok (length (select (λ x. name == x) d.names)), d);
  insert_version = λ name d. (ok tt, record d { names = d.names ++ name ∷ [] });
  exec = λ statement d.
      if statement == "refused"
      then (err (other "syntax"), d)
      else (ok tt, record d { statements = d.statements ++ statement ∷ [] });
  transaction = λ m d. settled d (m d);
}

abbrev pub view : View Disk
view = record { versions = λ d. d.names; scripts = λ d. d.statements; collate = λ a b. a == b }

executed_lem :
    (b : Bool) (statement : String) (w v : Disk)
    → ◌≡◌ {A = Result (Unit {0}) × Disk}
        (if b
          then (err (other "syntax"), w)
          else (ok tt, record w { statements = w.statements ++ statement ∷ [] }))
        (ok tt, v)
    → (v.names ≡ w.names) × (v.statements ≡ w.statements ++ statement ∷ [])
executed_lem true statement w v e = absurd (ok≢err tt _ (sym (ap (λ p. p.0) e)))
executed_lem false statement w v e = (ap (λ p. p.1.names) (sym e), ap (λ p. p.1.statements) (sym e))

committed_lem :
    {A : Type 0} (w : Disk) (a : A) (v : Disk) (r : Result A × Disk)
    → settled w r ≡ (ok a, v)
    → (done : Disk) × (r ≡ (ok a, done)) × IsKept view done v
committed_lem w a v (ok b, d) e = (v, e, (refl, refl))
committed_lem w a v (err x, d) e = absurd (ok≢err a x (sym (ap (λ p. p.0) e)))

rolled_back_lem :
    {A : Type 0} (w : Disk) (x : Error) (v : Disk) (r : Result A × Disk)
    → settled w r ≡ (err x, v)
    → v.names ≡ w.names
rolled_back_lem w x v (ok b, d) e = absurd (ok≢err b x (ap (λ p. p.0) e))
rolled_back_lem w x v (err y, d) e = ap (λ p. p.1.names) (sym e)

pub sql_laws : SqlLaws sql view
sql_laws = record {
  collate_refl = λ name. eq_refl name;
  created = λ w v e. (ap (λ p. p.1.names) (sym e), ap (λ p. p.1.statements) (sym e));
  create_failed = λ w x v e. absurd (ok≢err tt x (ap (λ p. p.0) e));
  counted = λ name w n v e. (
    sym (ok_injective _ n (ap (λ p. p.0) e)),
    (ap (λ p. p.1.names) (sym e), ap (λ p. p.1.statements) (sym e)),
  );
  count_failed = λ name w x v e. absurd (ok≢err _ x (ap (λ p. p.0) e));
  inserted = λ name w v e. (ap (λ p. p.1.names) (sym e), ap (λ p. p.1.statements) (sym e));
  executed = λ statement w v e. executed_lem (statement == "refused") statement w v e;
  committed = λ m w a v e.
      (let (done, ran, kept) = committed_lem w a v (m w) e in (w, done, ran, ((refl, refl), kept)));
  rolled_back = λ m w x v e. inl (rolled_back_lem w x v (m w) e);
}

abbrev folder : (String → Result String) → Directory
folder contents = record {
  entries = ok (
      record { name = "002_tickets.up.sql"; is_dir = false }
      ∷ record { name = "001_users.up.sql"; is_dir = false }
      ∷ record { name = "001_users.down.sql"; is_dir = false }
      ∷ record { name = "old.up.sql"; is_dir = true }
      ∷ []);
  contents = contents;
}

abbrev pub good : Directory
good =
    folder (λ name. if name == "001_users.up.sql" then ok " create users " else ok "create tickets")

abbrev bad : Directory
bad = folder (λ name. if name == "001_users.up.sql" then ok "create users" else ok " refused ")

abbrev pub empty : Disk
empty = record { names = []; statements = []; clock = 0 }

abbrev applied_all : Disk
applied_all = record {
  names = "001_users.up.sql" ∷ "002_tickets.up.sql" ∷ [];
  statements = "create users" ∷ "create tickets" ∷ [];
  clock = 0;
}

good_run : apply_migrations sql good empty ≡ (ok tt, applied_all)
unfolding apply_migrations apply_files apply_file apply_statement run_migration migration_files sort
    at_most has_suffix trim_space pure fail ◌>>=◌ catch
good_run = refl

good_again : apply_migrations sql good applied_all ≡ (ok tt, applied_all)
unfolding apply_migrations apply_files apply_file apply_statement run_migration migration_files sort
    at_most has_suffix trim_space pure fail ◌>>=◌ catch
good_again = refl

bad_run : apply_migrations sql bad empty ≡ (
  err (other "apply migration 002_tickets.up.sql: syntax"),
  record { names = "001_users.up.sql" ∷ []; statements = "create users" ∷ []; clock = 0 },
)
unfolding apply_migrations apply_files apply_file apply_statement run_migration migration_files sort
    at_most has_suffix trim_space pure fail ◌>>=◌ catch wrapped
bad_run = refl

apply_migrations_ok_example :
    (entries : List Entry) × (good.entries ≡ ok entries)
    × IsMigrated view good (migration_files entries) empty applied_all
apply_migrations_ok_example = apply_migrations_ok sql view sql_laws good empty applied_all good_run

apply_migrations_err_example :
    IsStopped view bad
      (files_of bad.entries)
      empty
      (record { names = "001_users.up.sql" ∷ []; statements = "create users" ∷ []; clock = 0 })
apply_migrations_err_example =
    apply_migrations_err sql view sql_laws bad empty
      (other "apply migration 002_tickets.up.sql: syntax")
      (record { names = "001_users.up.sql" ∷ []; statements = "create users" ∷ []; clock = 0 })
      bad_run

apply_migrations_twice_example : IsKept view applied_all applied_all
apply_migrations_twice_example =
    apply_migrations_twice sql view sql_laws good empty applied_all applied_all good_run good_again
