-- ===== src/Platform/Migrations/Rerun.antt =====
-- backend/internal/platform/database.go: a second run of `ApplyMigrations` finds nothing to do.
use mathlib.Core.Bool.{true≢false}
use mathlib.Core.List.{append-nil}
use sociomile.Prelude.{
  String, ◌≡◌, refl, sym, ◌∙◌, ap, subst⁻¹, inl, inr, List, [], ◌∷◌, ◌++◌, map, Member, trim_space,
}
use sociomile.Exec.{ok}
use sociomile.Platform.Migrations.{Sql, Directory, apply_migrations, migration_files, Entry}
use sociomile.Platform.Migrations.Plan.{View, IsKept, SqlLaws, IsStep, IsSettled, IsMigrated}
use sociomile.Platform.Migrations.Applied.{apply_migrations_ok}
use sociomile.Exec.Results.{ok_injective}

module _ {W : Type 0} (sql : Sql W) (view : View W) (laws : SqlLaws sql view)
    (dir : Directory) where
  -- After a run that succeeds, a second run that succeeds runs no statement and adds no row.
  pub apply_migrations_twice :
      (w v u : W)
      → apply_migrations sql dir w ≡ (ok tt, v)
      → apply_migrations sql dir v ≡ (ok tt, u)
      → IsKept view v u
  apply_migrations_twice w v u first second =
      let (es, read, m) = apply_migrations_ok sql view laws dir w v first in
      let (es', read', m') = apply_migrations_ok sql view laws dir v u second in
      let same : es ≡ es' = ok_injective es es' (sym read ∙ read') in
      idle_run es v u (λ x k. m.complete x k)
        (subst⁻¹ (λ x. IsMigrated view dir (migration_files x) v u) same m')
    where
      contradiction :
          (step : String × String) (es : List Entry) (v : W)
          → IsStep view dir (migration_files es) v step
          → IsSettled view dir v step.0
          → ⊥
      contradiction step es v s (inl (contents, read, blank)) = s.given (
          s.statement
          ∙ (ap trim_space (ok_injective s.contents contents (sym s.read ∙ read)) ∙ blank))
      contradiction step es v s (inr (x, m, hit)) = true≢false (sym hit ∙ s.fresh x m)

      idle_run :
          (es : List Entry) (v u : W)
          → ((x : String) → Member x (migration_files es) → IsSettled view dir v x)
          → IsMigrated view dir (migration_files es) v u
          → IsKept view v u
      idle_run es v u settled m = go m.steps m.progress.each m.progress.logged m.ran
        where
          go :
              (steps : List (String × String))
              → ((step : String × String)
                  → Member step steps
                  → IsStep view dir (migration_files es) v step)
              → view.versions u ≡ view.versions v ++ map (λ step. step.0) steps
              → view.scripts u ≡ view.scripts v ++ map (λ step. step.1) steps
              → IsKept view v u
          go [] each logged ran =
              (logged ∙ append-nil (view.versions v), ran ∙ append-nil (view.scripts v))
          go (step ∷ steps) each logged ran =
              (let s = each step (inl refl) in
                absurd (contradiction step es v s (settled step.0 s.listed)))
