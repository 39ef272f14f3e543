-- ===== src/Exec.antt =====
-- Code that reads and writes the database and may return an error: explicit state passing, with
-- `do` blocks for the ladders of `if err != nil { return err }`.
pub mod Ends
pub mod Io
pub mod Results
pub mod Grows
pub mod Marks
use sociomile.Prelude.{Bool, true, false}
use sociomile.Apperror.{Error}
use sociomile.Model.{Db}

pub data Result (A : Type 0) : Type 0 where
  ok : A → Result A
  err : Error → Result A

-- The tables, and the world outside them: the connections, the clock, Redis, the broker.
pub record State (W : Type 0) : Type 0 where
  pub db : Db
  pub world : W

abbrev pub Exec : Type 0 → Type 0 → Type 0
Exec W A = State W → Result A × State W

module _ {W : Type 0} where
  unfoldable pub pure : {A : Type 0} → A → Exec W A
  pure a s = (ok a, s)

  unfoldable pub fail : {A : Type 0} → Error → Exec W A
  fail e s = (err e, s)

  -- What follows a step that has ended.
  abbrev pub continue : {A B : Type 0} → (A → Exec W B) → Result A → Exec W B
  continue f (ok a) s = f a s
  continue f (err e) s = (err e, s)

  infixl 5 ◌>>=◌ ◌>>◌
  unfoldable pub ◌>>=◌ : {A B : Type 0} → Exec W A → (A → Exec W B) → Exec W B
  ◌>>=◌ m f s = continue f (m s).0 (m s).1

  abbrev pub ◌>>◌ : {B : Type 0} → Exec W (Unit {0}) → Exec W B → Exec W B
  m >> k = m >>= λ _. k

  -- `if test { return e }`
  unfoldable pub fail_if : Bool → Error → Exec W (Unit {0})
  unfolding pure fail
  fail_if true e = fail e
  fail_if false e = pure tt

  abbrev pub recover : {A : Type 0} → (Error → Exec W A) → Result A → Exec W A
  recover h (ok a) s = (ok a, s)
  recover h (err e) s = h e s

  -- A step whose error the caller handles.
  unfoldable pub catch : {A : Type 0} → Exec W A → (Error → Exec W A) → Exec W A
  catch m h s = recover h (m s).0 (m s).1

  -- A step that reads and changes the world alone.
  unfoldable pub outside : {A : Type 0} → (W → Result A × W) → Exec W A
  outside f s = ((f s.world).0, record s { world = (f s.world).1 })
