-- ===== src/Platform/Migrations/Calls.antt =====
-- backend/internal/platform/database.go: what each step of the loop of `ApplyMigrations` has done.
use mathlib.Core.Bool.{true≢false}
use sociomile.Prelude.{
  ℕ, suc, arith, String, ◌≡◌, refl, sym, ◌∙◌, ap, subst⁻¹, ◌⊎◌, inl, inr, Bool, true, false, List,
  [], ◌∷◌, ◌++◌, Member, select, length, trim_space, ◌==◌, eq_iff, Bool-cases, ltb,
}
use sociomile.Exec.{Result, ok, err}
use sociomile.Exec.Io.{
  pure, fail, ◌>>◌, Leads, leads_seq, leads_weaken, leads_wrapping, leads_from, leads_ok,
}
use sociomile.Platform.Migrations.{Sql, Directory, lift, run_migration, apply_statement, apply_file}
use sociomile.Platform.Migrations.Plan.{
  View, SqlLaws, IsApplied, idle, applied, IsBroken, unrecorded, recorded,
}

module _ {W : Type 0} (sql : Sql W) (view : View W) (laws : SqlLaws sql view)
    (dir : Directory) where
  pub lift_leads :
      {A : Type 0} (r : Result A) (w : W)
      → Leads (lift r) w (λ a v. (v ≡ w) × (r ≡ ok a)) (λ e v. v ≡ w)
  unfolding pure fail
  lift_leads (ok a) w = record { at = (refl, refl) }
  lift_leads (err e) w = record { at = refl }

  run_migration_leads :
      (name statement : String) (w : W)
      → Leads
          (run_migration sql dir name statement)
          w
          (λ u v.
            (view.versions v ≡ view.versions w ++ name ∷ [])
            × (view.scripts v ≡ view.scripts w ++ statement ∷ []))
          (λ e v.
            (view.versions v ≡ view.versions w) ⊎ (view.versions v ≡ view.versions w ++ name ∷ []))
  unfolding run_migration
  run_migration_leads name statement w =
      leads_from _ w
        (λ u v e.
          let (begun, done, ran, (start, stop)) = laws.committed _ w u v e in
          let (versions, scripts) = leads_ok (body begun) u done ran in
          (
            stop.0 ∙ (versions ∙ ap (λ xs. xs ++ name ∷ []) start.0),
            stop.1 ∙ (scripts ∙ ap (λ xs. xs ++ statement ∷ []) start.1),
          ))
        (λ x v e. elim (laws.rolled_back _ w x v e) [
          | inl back ↦ inl back
          | inr (u, begun, done, ran, start, stop) ↦
              inr
                (stop ∙ ((leads_ok (body begun) u done ran).0 ∙ ap (λ xs. xs ++ name ∷ []) start.0))
        ])
    where
      body :
          (t : W)
          → Leads
              (sql.exec statement >> sql.insert_version name)
              t
              (λ u v.
                (view.versions v ≡ view.versions t ++ name ∷ [])
                × (view.scripts v ≡ view.scripts t ++ statement ∷ []))
              (λ e v. Unit {0})
      body t =
          leads_seq _ _
            (leads_from (sql.exec statement) t {E = λ e v. Unit {0}}
              (λ u v e. laws.executed statement t v e) (λ x v e. tt))
            (λ u v (same, ran).
              leads_from _ v
                (λ u' v' e.
                  let (added, kept) = laws.inserted name v v' e in
                  (added ∙ ap (λ xs. xs ++ name ∷ []) same, kept ∙ ran))
                (λ x v' e. tt))
            (λ e v x. tt)

  found :
      (p : String → Bool) (xs : List String)
      → ltb 0 (length (select p xs)) ≡ true
      → (x : String) × Member x xs × (p x ≡ true)
  found p [] h = ground arith
  found p (x ∷ xs) h = elim (Bool-cases (p x)) [
    | inl hit ↦ (x, inl refl, hit)
    | inr miss ↦ (let (y, m, e) = found p xs (rw miss at h) in (y, inr m, e))
  ]

  unmatched :
      (p : String → Bool) (xs : List String)
      → ltb 0 (length (select p xs)) ≡ false
      → (x : String) → Member x xs
      → p x ≡ false
  unmatched p [] h x m = elim m [ ]
  unmatched p (y ∷ ys) h x m = elim (Bool-cases (p y)) [
    | inl hit ↦ (let h' : ltb 0 (suc (length (select p ys))) ≡ false = rw hit at h in ground arith)
    | inr miss ↦ elim m [ inl e ↦ rw e miss | inr n ↦ unmatched p ys (rw miss at h) x n ]
  ]

  apply_statement_leads :
      (name contents : String) (w : W)
      → dir.contents name ≡ ok contents
      → ((x : String) → Member x (view.versions w) → view.collate name x ≡ false)
      → Leads
          (apply_statement sql dir name (trim_space contents))
          w
          (λ u v. IsApplied view dir name w v)
          (λ e v. IsBroken view dir name w v)
  unfolding apply_statement pure
  apply_statement_leads name contents w read fresh = elim (Bool-cases (trim_space contents == "")) [
    | inl blank ↦
        rw blank (record { at = idle (refl, refl) (inl (contents, read, (eq_iff _ _).0 blank)) })
    | inr given ↦ rw given (
        leads_wrapping _ _ (
          leads_weaken _ (run_migration_leads name (trim_space contents) w)
            (λ u v done.
              applied (trim_space contents) contents read refl
                (λ e. true≢false (sym ((eq_iff _ _).1 e) ∙ given)) fresh done.0 done.1)
            (λ e v k. elim k [
              | inl back ↦ unrecorded back
              | inr added ↦
                  recorded (trim_space contents) contents read refl
                    (λ e. true≢false (sym ((eq_iff _ _).1 e) ∙ given)) fresh added
            ])))
  ]

  pub apply_file_leads :
      (name : String) (n : ℕ) (w : W)
      → n ≡ length (select (view.collate name) (view.versions w))
      → Leads
          (apply_file sql dir name n)
          w
          (λ u v. IsApplied view dir name w v)
          (λ e v. IsBroken view dir name w v)
  unfolding apply_file pure
  apply_file_leads name n w count = elim (Bool-cases (ltb 0 n)) [
    | inl hit ↦ rw hit (record { at = idle (refl, refl) (inr (found _ _ (rw count at hit))) })
    | inr miss ↦ rw miss (
        leads_seq _ _ (leads_wrapping _ _ {P = λ v. v ≡ w} (lift_leads (dir.contents name) w))
          (λ contents v (same, read).
            subst⁻¹
              (λ t.
                Leads (apply_statement sql dir name (trim_space contents)) t
                  (λ u v. IsApplied view dir name w v) (λ e v. IsBroken view dir name w v))
              same (apply_statement_leads name contents w read (unmatched _ _ (rw count at miss))))
          (λ e v same. unrecorded (ap view.versions same)))
  ]
