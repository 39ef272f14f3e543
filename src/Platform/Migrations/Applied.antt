-- ===== src/Platform/Migrations/Applied.antt =====
-- backend/internal/platform/database.go: what `ApplyMigrations` has done, whether it succeeds or fails.
use sociomile.Prelude.{String, ◌≡◌, ◌∙◌, ap, subst⁻¹, List, [], ◌++◌, map, Member}
use sociomile.Apperror.{Error}
use sociomile.Exec.{Result, ok, err}
use sociomile.Exec.Io.{
  Leads, leads_seq, leads_weaken, leads_wrapping, leads_from, leads_ok, leads_err,
}
use sociomile.Platform.Sort.{sort, sort-IsSorted, Member-sort, sort-Member}
use sociomile.Platform.Migrations.{Sql, Directory, apply_migrations, migration_files, Entry}
use sociomile.Platform.Migrations.Plan.{View, IsKept, SqlLaws, IsProgress, IsMigrated, IsStopped}
use sociomile.Platform.Migrations.Calls.{lift_leads}
use sociomile.Platform.Migrations.Files.{no-IsProgress, apply_files_leads}

-- The files of a directory that can be read.
abbrev pub files_of : Result (List Entry) → List String
files_of (ok entries) = migration_files entries
files_of (err e) = []

module _ {W : Type 0} (sql : Sql W) (view : View W) (laws : SqlLaws sql view)
    (dir : Directory) where
  -- What is done with the files in the order of their names, after the table was created, is done with
  -- the files of the directory.
  module _ (files : List String) (w v u : W) (same : view.versions v ≡ view.versions w) where
    IsProgress-begun :
        (steps : List (String × String))
        → IsProgress view dir (sort files) v u steps
        → IsProgress view dir files w u steps
    IsProgress-begun steps p = record {
      each = λ step m.
          (let s = p.each step m in
            record {
              listed = Member-sort _ files s.listed;
              contents = s.contents;
              read = s.read;
              statement = s.statement;
              given = s.given;
              fresh = λ x k. s.fresh x (subst⁻¹ (λ xs. Member x xs) same k);
            });
      sorted = p.sorted;
      logged = p.logged ∙ ap (λ xs. xs ++ map (λ step. step.0) steps) same;
    }

    IsStopped-begun : IsStopped view dir (sort files) v u → IsStopped view dir files w u
    IsStopped-begun m = record { steps = m.steps; progress = IsProgress-begun m.steps m.progress }

    IsMigrated-begun :
        view.scripts v ≡ view.scripts w
        → IsMigrated view dir (sort files) v u
        → IsMigrated view dir files w u
    IsMigrated-begun kept m = record {
      steps = m.steps;
      progress = IsProgress-begun m.steps m.progress;
      ran = m.ran ∙ ap (λ xs. xs ++ map (λ step. step.1) m.steps) kept;
      complete = λ x k. m.complete x (sort-Member x files k);
    }

  no-IsStopped :
      (files : List String) (w v : W)
      → view.versions v ≡ view.versions w
      → IsStopped view dir files w v
  no-IsStopped files w v same = record {
    steps = [];
    progress = no-IsProgress sql view laws dir files w v same;
  }

  apply_migrations_leads :
      (w : W)
      → Leads
          (apply_migrations sql dir)
          w
          (λ u v.
            (es : List Entry) × (dir.entries ≡ ok es)
            × IsMigrated view dir (migration_files es) w v)
          (λ e v. IsStopped view dir (files_of dir.entries) w v)
  unfolding apply_migrations
  apply_migrations_leads w =
      leads_seq _ _
        (leads_wrapping _ _ {P = λ v. IsKept view w v} (
          leads_from sql.create_versions w (λ u v e. laws.created w v e)
            (λ x v e. laws.create_failed w x v e)))
        (λ u t (same, kept).
          leads_seq _ _
            (leads_wrapping _ _ {P = λ v. v ≡ t} (lift_leads sql view laws dir dir.entries t))
            (λ es v (stay, read).
              let files = migration_files es in
              let begun = ap view.versions stay ∙ same in
              leads_weaken _
                (apply_files_leads sql view laws dir (sort files) v (sort-IsSorted files))
                (λ u v' m.
                  (es, read, IsMigrated-begun files w v v' begun (ap view.scripts stay ∙ kept) m))
                (λ e v' m.
                  subst⁻¹ (λ r. IsStopped view dir (files_of r) w v') read
                    (IsStopped-begun files w v v' begun m)))
            (λ e v stay. no-IsStopped _ w v (ap view.versions stay ∙ same)))
        (λ e v (same, kept). no-IsStopped _ w v same)

  -- A run that succeeds has applied files of the directory that end in `.up.sql`, in the order of their
  -- names, each with contents that are not blank and a name that no row had. It has run the statement
  -- of each and added its row, one after the other and nothing else, and each such file is then blank
  -- or has a row.
  pub apply_migrations_ok :
      (w v : W)
      → apply_migrations sql dir w ≡ (ok tt, v)
      → (entries : List Entry) × (dir.entries ≡ ok entries)
        × IsMigrated view dir (migration_files entries) w v
  apply_migrations_ok w v e = leads_ok (apply_migrations_leads w) tt v e

  -- A run that fails, at whichever step, leaves the rows of the files that it had applied until then, or
  -- was about to commit: files of the directory in the order of their names, which had no row before
  -- and are not blank. No other row is added or removed.
  pub apply_migrations_err :
      (w : W) (e : Error) (v : W)
      → apply_migrations sql dir w ≡ (err e, v)
      → IsStopped view dir (files_of dir.entries) w v
  apply_migrations_err w x v e = leads_err (apply_migrations_leads w) x v e
