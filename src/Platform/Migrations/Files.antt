-- ===== src/Platform/Migrations/Files.antt =====
-- backend/internal/platform/database.go: what the loop of `ApplyMigrations` over the files has done.
use mathlib.Core.List.{append-nil, append_assoc}
use sociomile.Prelude.{
  String, ◌≡◌, refl, sym, ◌∙◌, ap, subst⁻¹, inl, inr, List, [], ◌∷◌, ◌++◌, map, Member, select,
  length, append-Member,
}
use sociomile.Exec.Io.{pure, Leads, leads_seq, leads_weaken, leads_wrapping, leads_from}
use sociomile.Platform.Sort.{IsSorted}
use sociomile.Platform.Migrations.{Sql, Directory, apply_files}
use sociomile.Platform.Migrations.Plan.{
  View, IsKept, SqlLaws, IsProgress, IsSettled, IsApplied, idle, applied, IsMigrated, IsStopped,
  IsBroken, unrecorded, recorded,
}
use sociomile.Platform.Migrations.Calls.{apply_file_leads}
use sociomile.Platform.Migrations.Steps.{IsProgress-idle, IsProgress-applied, IsSettled-later}

module _ {W : Type 0} (sql : Sql W) (view : View W) (laws : SqlLaws sql view)
    (dir : Directory) where
  -- A file, and then the files behind it.
  migrated_next :
      (name : String) (names : List String) (w u v : W)
      → IsSorted (name ∷ names)
      → IsApplied view dir name w u
      → IsMigrated view dir names u v
      → IsMigrated view dir (name ∷ names) w v
  migrated_next name names w u v sorted (idle (same, kept) settled) m = record {
    steps = m.steps;
    progress = IsProgress-idle view dir name names w u v m.steps same m.progress;
    ran = m.ran ∙ ap (λ xs. xs ++ map (λ step. step.1) m.steps) kept;
    complete = λ x k. elim k [
      | inl e ↦
          subst⁻¹ (IsSettled view dir v) e
            (IsSettled-later view dir name u v _ m.progress.logged settled)
      | inr n ↦ m.complete x n
    ];
  }
  migrated_next name names w u v sorted (applied statement contents read same given fresh added ran)
        m =
      record {
        steps = (name, statement) ∷ m.steps;
        progress =
            IsProgress-applied view dir name statement contents names w u v m.steps sorted read same
              given fresh added m.progress;
        ran =
            m.ran
            ∙ (ap (λ xs. xs ++ map (λ step. step.1) m.steps) ran
                ∙ append_assoc (view.scripts w) (statement ∷ []) _);
        complete = λ x k. elim k [
          | inl e ↦ subst⁻¹ (IsSettled view dir v) e (
              IsSettled-later view dir name u v _ m.progress.logged (
                inr (
                  name,
                  subst⁻¹ (λ xs. Member name xs) added (append-Member name (view.versions w)),
                  laws.collate_refl name,
                )))
          | inr n ↦ m.complete x n
        ];
      }

  stopped_next :
      (name : String) (names : List String) (w u v : W)
      → IsSorted (name ∷ names)
      → IsApplied view dir name w u
      → IsStopped view dir names u v
      → IsStopped view dir (name ∷ names) w v
  stopped_next name names w u v sorted (idle (same, kept) settled) m = record {
    steps = m.steps;
    progress = IsProgress-idle view dir name names w u v m.steps same m.progress;
  }
  stopped_next name names w u v sorted (applied statement contents read same given fresh added ran)
        m =
      record {
        steps = (name, statement) ∷ m.steps;
        progress =
            IsProgress-applied view dir name statement contents names w u v m.steps sorted read same
              given fresh added m.progress;
      }

  pub no-IsProgress :
      (names : List String) (w v : W)
      → view.versions v ≡ view.versions w
      → IsProgress view dir names w v []
  no-IsProgress names w v same = record {
    each = λ step m. elim m [ ];
    sorted = tt;
    logged = same ∙ sym (append-nil (view.versions w));
  }

  stopped_here :
      (name : String) (names : List String) (w t v : W)
      → IsSorted (name ∷ names)
      → view.versions t ≡ view.versions w
      → IsBroken view dir name t v
      → IsStopped view dir (name ∷ names) w v
  stopped_here name names w t v sorted same (unrecorded back) = record {
    steps = [];
    progress = no-IsProgress (name ∷ names) w v (back ∙ same);
  }
  stopped_here name names w t v sorted same (recorded statement contents read e given fresh added) =
      record {
        steps = (name, statement) ∷ [];
        progress =
            IsProgress-applied view dir name statement contents names w v v [] sorted read e given
              (λ x m. fresh x (subst⁻¹ (λ xs. Member x xs) same m))
              (added ∙ ap (λ xs. xs ++ name ∷ []) same) (no-IsProgress names v v refl);
      }

  pub apply_files_leads :
      (names : List String) (w : W)
      → IsSorted names
      → Leads
          (apply_files sql dir names)
          w
          (λ u v. IsMigrated view dir names w v)
          (λ e v. IsStopped view dir names w v)
  unfolding apply_files pure
  apply_files_leads [] w sorted = record {
    at = record {
      steps = [];
      progress = no-IsProgress [] w w refl;
      ran = sym (append-nil (view.scripts w));
      complete = λ x m. elim m [ ];
    };
  }
  apply_files_leads (name ∷ names) w sorted =
      leads_seq _ _
        (leads_wrapping _ _ {P = λ v. IsKept view w v} (
          leads_from (sql.count_versions name) w (λ n v e. laws.counted name w n v e)
            (λ x v e. laws.count_failed name w x v e)))
        (λ n t (count, (same, kept)).
          leads_seq _ _
            (apply_file_leads sql view laws dir name n t
              (count ∙ ap (λ xs. length (select (view.collate name) xs)) (sym same)))
            (λ u v done.
              let step = moved w t v same kept done in
              leads_weaken _ (apply_files_leads names v sorted.1)
                (λ u' v' m. migrated_next name names w v v' sorted step m)
                (λ e v' m. stopped_next name names w v v' sorted step m))
            (λ e v broken. stopped_here name names w t v sorted same broken))
        (λ e v (same, kept). record {
          steps = [];
          progress = no-IsProgress (name ∷ names) w v same;
        })
    where
      moved :
          (w t v : W)
          → view.versions t ≡ view.versions w
          → view.scripts t ≡ view.scripts w
          → IsApplied view dir name t v
          → IsApplied view dir name w v
      moved w t v same kept (idle (s, k) settled) = idle (s ∙ same, k ∙ kept) settled
      moved w t v same kept (applied statement contents read e given fresh added ran) =
          applied statement contents read e given
            (λ x m. fresh x (subst⁻¹ (λ xs. Member x xs) same m))
            (added ∙ ap (λ xs. xs ++ name ∷ []) same) (ran ∙ ap (λ xs. xs ++ statement ∷ []) kept)
