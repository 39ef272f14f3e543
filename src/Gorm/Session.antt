-- ===== src/Gorm/Session.antt =====
-- A `*gorm.DB` handle: the operations of `Gorm` on the tables of a state.
pub mod Rules
pub mod Writes
use sociomile.Prelude.{ℕ, String, Bool, Option, List}
use sociomile.Model.{Db}
use sociomile.Model.Schema.{Schema}
use sociomile.Exec.{Result, ok, err, State, Exec, outside}
use sociomile.Gorm.{Gorm, Query, Page}

-- Where the rows of a type stand in the database.
pub record Table (R : Type 0) : Type 0 where
  pub rows : Db → List R
  pub put : List R → Db → Db

-- The state after a write: the new rows, where it succeeded.
abbrev pub wrote : {W R : Type 0} → Table R → State W → Result (R × List R) × W → Result R × State W
wrote t s (ok (r, rows), w) = (ok r, record { db = t.put rows s.db; world = w })
wrote t s (err e, w) = (err e, record s { world = w })

abbrev pub updated :
    {W R : Type 0} → Table R → State W → Result (List R) × W → Result (Unit {0}) × State W
updated t s (ok rows, w) = (ok tt, record { db = t.put rows s.db; world = w })
updated t s (err e, w) = (err e, record s { world = w })

module _ {W : Type 0} (g : Gorm W) where
  unfoldable pub first : {R : Type 0} → Table R → Query R → Exec W R
  first t q s = outside (g.first q (t.rows s.db)) s

  unfoldable pub find : {R : Type 0} → Table R → Query R → Page → Exec W (List R)
  find t q p s = outside (g.find q p (t.rows s.db)) s

  unfoldable pub count : {R : Type 0} → Table R → (R → Bool) → Exec W ℕ
  count t p s = outside (g.count p (t.rows s.db)) s

  unfoldable pub preload : {R : Type 0} → Table R → (R → String) → Option String → Exec W (Option R)
  preload t id fk s = outside (g.preload id fk (t.rows s.db)) s

  unfoldable pub create : {R : Type 0} → Table R → Schema R → R → Exec W R
  create t sc r s = wrote t s (g.create sc r (t.rows s.db) s.world)

  unfoldable pub save : {R : Type 0} → Table R → Schema R → R → Exec W R
  save t sc r s = wrote t s (g.save sc r (t.rows s.db) s.world)

  unfoldable pub updates : {R : Type 0} → Table R → (R → Bool) → (ℕ → R → R) → Exec W (Unit {0})
  updates t p f s = updated t s (g.updates p f (t.rows s.db) s.world)

  unfoldable pub now : Exec W ℕ
  now s = (ok (g.now s.world).0, record s { world = (g.now s.world).1 })
