-- ===== src/Gorm/Grows.antt =====
-- The calls of GORM while a counter of Redis only grows.
use sociomile.Prelude.{ℕ, String, ◌≤◌, Bool, Option, List}
use sociomile.Model.Schema.{Schema}
use sociomile.Exec.{Result, ok, err, State, Exec, outside}
use sociomile.Exec.Grows.{Grows}
use sociomile.Gorm.{Gorm, Query, Page}
use sociomile.Gorm.Session.{Table, first, find, count, preload, create, save, now, wrote}

-- No call of GORM takes a counter back. Redis is another server, and what other clients do to the counter
-- meanwhile is to raise it.
pub record GormGrows {W : Type 0} (g : Gorm W) (rank : W → ℕ) : Type 1 where
  pub on_first :
      {R : Type 0} (q : Query R) (rows : List R) (w : W) → rank w ≤ rank (g.first q rows w).1
  pub on_find :
      {R : Type 0} (q : Query R) (p : Page) (rows : List R) (w : W)
      → rank w ≤ rank (g.find q p rows w).1
  pub on_count :
      {R : Type 0} (p : R → Bool) (rows : List R) (w : W) → rank w ≤ rank (g.count p rows w).1
  pub on_preload :
      {R : Type 0} (id : R → String) (fk : Option String) (rows : List R) (w : W)
      → rank w ≤ rank (g.preload id fk rows w).1
  pub on_create :
      {R : Type 0} (sc : Schema R) (r : R) (rows : List R) (w : W)
      → rank w ≤ rank (g.create sc r rows w).1
  pub on_save :
      {R : Type 0} (sc : Schema R) (r : R) (rows : List R) (w : W)
      → rank w ≤ rank (g.save sc r rows w).1
  pub on_now : (w : W) → rank w ≤ rank (g.now w).1
  pub on_transaction : {A : Type 0} (m : Exec W A) → Grows rank m → Grows rank (g.transaction m)

module _ {W : Type 0} {g : Gorm W} {rank : W → ℕ} (grows : GormGrows g rank) where
  open grows use {on_first, on_find, on_count, on_preload, on_create, on_save, on_now}

  module _ {R : Type 0} (t : Table R) where
    pub Grows-first : (q : Query R) → Grows rank (first g t q)
    unfolding first outside
    Grows-first q = record { at = λ s. on_first q (t.rows s.db) s.world }

    pub Grows-find : (q : Query R) (p : Page) → Grows rank (find g t q p)
    unfolding find outside
    Grows-find q p = record { at = λ s. on_find q p (t.rows s.db) s.world }

    pub Grows-count : (p : R → Bool) → Grows rank (count g t p)
    unfolding count outside
    Grows-count p = record { at = λ s. on_count p (t.rows s.db) s.world }

    pub Grows-preload : (id : R → String) (fk : Option String) → Grows rank (preload g t id fk)
    unfolding preload outside
    Grows-preload id fk = record { at = λ s. on_preload id fk (t.rows s.db) s.world }

    wrote_world :
        (s : State W) (x : Result (R × List R)) (w v : W)
        → rank w ≤ rank v
        → rank w ≤ rank (wrote t s (x, v)).1.world
    wrote_world s (ok r) w v h = h
    wrote_world s (err e) w v h = h

    pub Grows-create : (sc : Schema R) (r : R) → Grows rank (create g t sc r)
    unfolding create
    Grows-create sc r = record {
      at = λ s. wrote_world s _ s.world _ (on_create sc r (t.rows s.db) s.world);
    }

    pub Grows-save : (sc : Schema R) (r : R) → Grows rank (save g t sc r)
    unfolding save
    Grows-save sc r = record {
      at = λ s. wrote_world s _ s.world _ (on_save sc r (t.rows s.db) s.world);
    }

  pub Grows-now : Grows rank (now g)
  unfolding now
  Grows-now = record { at = λ s. on_now s.world }
