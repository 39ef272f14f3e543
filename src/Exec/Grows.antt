-- ===== src/Exec/Grows.antt =====
-- Code during which a number of the world outside only grows: `rank`, for one of the counters that Redis
-- keeps.
use sociomile.Prelude.{ℕ, ◌≤◌, Bool, true, false, if◌then◌else◌, arith}
use sociomile.Apperror.{Error}
use sociomile.Exec.{
  Result, ok, err, State, Exec, pure, fail, ◌>>=◌, continue, fail_if, catch, recover, outside,
}

module _ {W : Type 0} (rank : W → ℕ) where
  -- However `m` ends, the number is at least what it was.
  pub record Grows {A : Type 0} (m : Exec W A) : Type 0 where
    pub at : (s : State W) → rank s.world ≤ rank (m s).1.world

module _ {W : Type 0} {rank : W → ℕ} where
  pub Grows-outside :
      {A : Type 0} (f : W → Result A × W)
      → ((w : W) → rank w ≤ rank (f w).1)
      → Grows rank (outside f)
  unfolding outside
  Grows-outside f h = record { at = λ s. h s.world }

  pub Grows-fail_if : (b : Bool) (e : Error) → Grows rank (fail_if b e)
  unfolding fail_if pure fail
  Grows-fail_if true e = record { at = λ s. omega arith }
  Grows-fail_if false e = record { at = λ s. omega arith }

module _ {W A : Type 0} {rank : W → ℕ} where
  pub Grows-pure : (a : A) → Grows rank (pure a)
  unfolding pure
  Grows-pure a = record { at = λ s. omega arith }

  pub Grows-fail : (e : Error) → Grows rank (fail {A = A} e)
  unfolding fail
  Grows-fail e = record { at = λ s. omega arith }

  pub Grows-if :
      (b : Bool) (m n : Exec W A) → Grows rank m → Grows rank n → Grows rank (if b then m else n)
  Grows-if true m n gm gn = gm
  Grows-if false m n gm gn = gn

  pub Grows-seq :
      {B : Type 0} (m : Exec W B) (f : B → Exec W A)
      → Grows rank m
      → ((b : B) → Grows rank (f b))
      → Grows rank (m >>= f)
  unfolding ◌>>=◌
  Grows-seq {B} m f gm gf = record { at = λ s. go (m s).0 (m s).1 s.world (gm.at s) }
    where
      go :
          (r : Result B) (s' : State W) (w : W)
          → rank w ≤ rank s'.world
          → rank w ≤ rank (continue f r s').1.world
      go (ok b) s' w h = let k = (gf b).at s' in omega arith
      go (err e) s' w h = h

  pub Grows-catch :
      (m : Exec W A) (h : Error → Exec W A)
      → Grows rank m
      → ((e : Error) → Grows rank (h e))
      → Grows rank (catch m h)
  unfolding catch
  Grows-catch m h gm gh = record { at = λ s. go (m s).0 (m s).1 s.world (gm.at s) }
    where
      go :
          (r : Result A) (s' : State W) (w : W)
          → rank w ≤ rank s'.world
          → rank w ≤ rank (recover h r s').1.world
      go (ok a) s' w k = k
      go (err e) s' w k = let j = (gh e).at s' in omega arith

pub ruleset grow_rules =
    (Grows-pure, Grows-fail, Grows-fail_if, Grows-if, Grows-seq, Grows-catch, Grows-outside)
