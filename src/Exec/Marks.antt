-- ===== src/Exec/Marks.antt =====
-- Code that leaves the tables as they are, or else raises a number of the world outside, however it ends.
use sociomile.Prelude.{ℕ, ◌≤◌, ◌<◌, ◌≡◌, ◌≢◌, ◌⊎◌, inl, inr, refl, ◌∙◌, Bool, true, false, arith}
use sociomile.Apperror.{Error}
use sociomile.Exec.{
  Result, ok, err, State, Exec, pure, fail, ◌>>=◌, continue, fail_if, catch, recover,
}
use sociomile.Exec.Grows.{Grows}

module _ {W : Type 0} (rank : W → ℕ) where
  -- The tables stay, and the number does not fall.
  pub record Keeps {A : Type 0} (m : Exec W A) : Type 0 where
    pub same : (s : State W) → (m s).1.db ≡ s.db
    pub grows : Grows rank m

  -- The number rises.
  pub record Bumps {A : Type 0} (m : Exec W A) : Type 0 where
    pub at : (s : State W) → rank s.world < rank (m s).1.world

  -- The tables stay, or the number rises.
  pub record Marks {A : Type 0} (m : Exec W A) : Type 0 where
    pub at : (s : State W) → ((m s).1.db ≡ s.db) ⊎ (rank s.world < rank (m s).1.world)

  -- The code returns no error, and the number does not fall.
  pub record Passes {A : Type 0} (m : Exec W A) : Type 0 where
    pub ends : (s : State W) (e : Error) → (m s).0 ≢ err e
    pub grows : Grows rank m

module _ {W A : Type 0} {rank : W → ℕ} where
  pub Keeps-fail : (e : Error) → Keeps rank (fail {A = A} e)
  unfolding fail
  Keeps-fail e = record { same = λ s. refl; grows = record { at = λ s. omega arith } }

  pub Keeps-catch :
      (m : Exec W A) (h : Error → Exec W A)
      → Keeps rank m
      → ((e : Error) → Keeps rank (h e))
      → Keeps rank (catch m h)
  unfolding catch
  Keeps-catch m h km kh = record {
    same = λ s. (go (m s).0 (m s).1 s (km.same s) (km.grows.at s)).0;
    grows = record { at = λ s. (go (m s).0 (m s).1 s (km.same s) (km.grows.at s)).1 };
  }
    where
      go :
          (r : Result A) (t s : State W)
          → t.db ≡ s.db
          → rank s.world ≤ rank t.world
          → ((recover h r t).1.db ≡ s.db) × (rank s.world ≤ rank (recover h r t).1.world)
      go (ok a) t s e le = (e, le)
      go (err x) t s e le = let more = (kh x).grows.at t in ((kh x).same t ∙ e, omega arith)

  -- A chain whose first step leaves the tables alone.
  pub Marks-seq :
      {B : Type 0} (m : Exec W B) (f : B → Exec W A)
      → Keeps rank m
      → ((b : B) → Marks rank (f b))
      → Marks rank (m >>= f)
  unfolding ◌>>=◌
  Marks-seq {B} m f km mf = record { at = λ s. go (m s).0 (m s).1 s (km.same s) (km.grows.at s) }
    where
      go :
          (r : Result B) (t s : State W)
          → t.db ≡ s.db
          → rank s.world ≤ rank t.world
          → ((continue f r t).1.db ≡ s.db) ⊎ (rank s.world < rank (continue f r t).1.world)
      go (err x) t s e le = inl e
      go (ok b) t s e le = elim ((mf b).at t) [
        | inl same ↦ inl (same ∙ e)
        | inr more ↦ inr (omega arith)
      ]

  -- A chain whose first step leaves the tables alone where it fails, and what follows raises the number.
  pub Marks-commit :
      {B : Type 0} (m : Exec W B) (f : B → Exec W A)
      → Grows rank m
      → ((s : State W) (e : Error) (s' : State W) → m s ≡ (err e, s') → s'.db ≡ s.db)
      → ((b : B) → Bumps rank (f b))
      → Marks rank (m >>= f)
  unfolding ◌>>=◌
  Marks-commit {B} m f gm back bf = record { at = λ s. go (m s).0 (m s).1 s refl (gm.at s) }
    where
      go :
          (r : Result B) (t s : State W)
          → m s ≡ (r, t)
          → rank s.world ≤ rank t.world
          → ((continue f r t).1.db ≡ s.db) ⊎ (rank s.world < rank (continue f r t).1.world)
      go (err x) t s e le = inl (back s x t e)
      go (ok b) t s e le = let more = (bf b).at t in inr (omega arith)

  pub Bumps-first :
      {B : Type 0} (m : Exec W B) (f : B → Exec W A)
      → Bumps rank m
      → ((b : B) → Grows rank (f b))
      → Bumps rank (m >>= f)
  unfolding ◌>>=◌
  Bumps-first {B} m f bm gf = record { at = λ s. go (m s).0 (m s).1 s (bm.at s) }
    where
      go :
          (r : Result B) (t s : State W)
          → rank s.world < rank t.world
          → rank s.world < rank (continue f r t).1.world
      go (ok b) t s h = let more = (gf b).at t in omega arith
      go (err e) t s h = h

  pub Bumps-then :
      {B : Type 0} (m : Exec W B) (f : B → Exec W A)
      → Passes rank m
      → ((b : B) → Bumps rank (f b))
      → Bumps rank (m >>= f)
  unfolding ◌>>=◌
  Bumps-then {B} m f pm bf = record {
    at = λ s. go (m s).0 (m s).1 s (λ e. pm.ends s e) (pm.grows.at s);
  }
    where
      go :
          (r : Result B) (t s : State W)
          → ((e : Error) → r ≢ err e)
          → rank s.world ≤ rank t.world
          → rank s.world < rank (continue f r t).1.world
      go (ok b) t s never h = let more = (bf b).at t in omega arith
      go (err e) t s never h = absurd (never e refl)

module _ {W : Type 0} {rank : W → ℕ} where
  pub Keeps-fail_if : (b : Bool) (e : Error) → Keeps rank (fail_if b e)
  unfolding fail_if pure fail
  Keeps-fail_if true e = record { same = λ s. refl; grows = record { at = λ s. omega arith } }
  Keeps-fail_if false e = record { same = λ s. refl; grows = record { at = λ s. omega arith } }

pub ruleset mark_rules =
    (Keeps-fail, Keeps-fail_if, Keeps-catch, Marks-seq, Bumps-first, Bumps-then)
