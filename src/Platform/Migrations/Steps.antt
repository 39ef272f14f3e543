-- ===== src/Platform/Migrations/Steps.antt =====
-- backend/internal/platform/database.go: the steps of a run, put before those of the files behind.
use mathlib.Core.List.{append_assoc}
use sociomile.Prelude.{
  String, ◌≡◌, ◌≢◌, refl, ◌∙◌, ap, subst⁻¹, inl, inr, false, List, [], ◌∷◌, ◌++◌, map, Member,
  trim_space, Member-append_left,
}
use sociomile.Exec.{ok}
use sociomile.Platform.Sort.{IsSorted}
use sociomile.Platform.Migrations.{Directory}
use sociomile.Platform.Migrations.Plan.{View, IsStep, IsProgress, IsSettled}

module _ {W : Type 0} (view : View W) (dir : Directory) where
  -- A file of a longer list that was applied.
  weaken_step :
      (name : String) (names : List String) (w u : W) (step : String × String)
      → ((x : String) → Member x (view.versions w) → Member x (view.versions u))
      → IsStep view dir names u step
      → IsStep view dir (name ∷ names) w step
  weaken_step name names w u step earlier s = record {
    listed = inr s.listed;
    contents = s.contents;
    read = s.read;
    statement = s.statement;
    given = s.given;
    fresh = λ x m. s.fresh x (earlier x m);
  }

  pub IsProgress-idle :
      (name : String) (names : List String) (w u v : W) (steps : List (String × String))
      → view.versions u ≡ view.versions w
      → IsProgress view dir names u v steps
      → IsProgress view dir (name ∷ names) w v steps
  IsProgress-idle name names w u v steps same p = record {
    each = λ step m.
        weaken_step name names w u step (λ x k. subst⁻¹ (λ xs. Member x xs) same k) (p.each step m);
    sorted = p.sorted;
    logged = p.logged ∙ ap (λ xs. xs ++ map (λ step. step.0) steps) same;
  }

  pub step_names :
      (names : List String) (u : W) (steps : List (String × String))
      → ((step : String × String) → Member step steps → IsStep view dir names u step)
      → (y : String) → Member y (map (λ (step : String × String). step.0) steps)
      → Member y names
  step_names names u [] each y m = elim m [ ]
  step_names names u (step ∷ steps) each y (inl e) =
      subst⁻¹ (λ x. Member x names) e (each step (inl refl)).listed
  step_names names u (step ∷ steps) each y (inr m) =
      step_names names u steps (λ s k. each s (inr k)) y m

  pub IsSettled-later :
      (name : String) (u v : W) (more : List String)
      → view.versions v ≡ view.versions u ++ more
      → IsSettled view dir u name
      → IsSettled view dir v name
  IsSettled-later name u v more grown (inl blank) = inl blank
  IsSettled-later name u v more grown (inr (x, m, hit)) =
      inr
        (x, subst⁻¹ (λ xs. Member x xs) grown (Member-append_left x (view.versions u) more m), hit)

  pub IsProgress-applied :
      (name statement contents : String) (names : List String) (w u v : W)
      (steps : List (String × String))
      → IsSorted (name ∷ names)
      → dir.contents name ≡ ok contents
      → statement ≡ trim_space contents
      → statement ≢ ""
      → ((x : String) → Member x (view.versions w) → view.collate name x ≡ false)
      → view.versions u ≡ view.versions w ++ name ∷ []
      → IsProgress view dir names u v steps
      → IsProgress view dir (name ∷ names) w v ((name, statement) ∷ steps)
  IsProgress-applied name statement contents names w u v steps sorted read same given fresh added
        p =
      record {
        each = λ step m. elim m [
          | inl e ↦ subst⁻¹ (IsStep view dir (name ∷ names) w) e (record {
            listed = inl refl;
            contents = contents;
            read = read;
            statement = same;
            given = given;
            fresh = fresh;
          })
          | inr k ↦
              weaken_step name names w u step
                (λ x n.
                  subst⁻¹ (λ xs. Member x xs) added
                    (Member-append_left x (view.versions w) (name ∷ []) n))
                (p.each step k)
        ];
        sorted = (λ y m. sorted.0 y (step_names names u steps p.each y m), p.sorted);
        logged =
            p.logged
            ∙ (ap (λ xs. xs ++ map (λ step. step.0) steps) added
                ∙ append_assoc (view.versions w) (name ∷ []) _);
      }
