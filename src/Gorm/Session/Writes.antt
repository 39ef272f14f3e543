-- ===== src/Gorm/Session/Writes.antt =====
-- The rules of `Ends` for a write that is the last step, and for an update of rows by a test.
use sociomile.Prelude.{ℕ, ◌≡◌, refl, ap, Bool, List, map, if◌then◌else◌}
use sociomile.Model.Schema.{Schema}
use sociomile.Exec.{Result, ok, err, State}
use sociomile.Exec.Ends.{Ends, Holds}
use sociomile.Gorm.{Gorm}
use sociomile.Gorm.Laws.{GormLaws, IsCreated, IsSaved}
use sociomile.Gorm.Session.Rules.{IsFault}
use sociomile.Gorm.Session.{Table, create, save, updates, wrote, updated}

module _ {W : Type 0} (g : Gorm W) (laws : GormLaws g) (s : State W) where
  open laws use {create_row, create_engine, save_row, save_engine, updates_rows, updates_engine}

  module _ {R : Type 0} (t : Table R) where
    pub create_ends :
        (sc : Schema R) (r : R)
        → Ends
            (create g t sc r)
            s
            (λ r' s'.
              (rows : List R) × IsCreated sc r (t.rows s.db) r' rows × (s'.db ≡ t.put rows s.db))
            (λ e s'. (s'.db ≡ s.db) × IsFault e)
    unfolding create
    create_ends sc r = record {
      at = go (g.create sc r (t.rows s.db) s.world).0 (g.create sc r (t.rows s.db) s.world).1 refl;
    }
      where
        go :
            (x : Result (R × List R)) (w : W)
            → g.create sc r (t.rows s.db) s.world ≡ (x, w)
            → Holds
                (λ r' s'.
                  (rows : List R) × IsCreated sc r (t.rows s.db) r' rows
                  × (s'.db ≡ t.put rows s.db))
                (λ e s'. (s'.db ≡ s.db) × IsFault e)
                (wrote t s (x, w)).0
                (wrote t s (x, w)).1
        go (ok (r', rows)) w e = (rows, create_row sc r _ s.world r' rows w e, refl)
        go (err x) w e = (refl, create_engine sc r _ s.world x w e)

    pub save_ends :
        (sc : Schema R) (r : R)
        → Ends
            (save g t sc r)
            s
            (λ r' s'.
              (rows : List R) × IsSaved sc r (t.rows s.db) r' rows × (s'.db ≡ t.put rows s.db))
            (λ e s'. (s'.db ≡ s.db) × IsFault e)
    unfolding save
    save_ends sc r = record {
      at = go (g.save sc r (t.rows s.db) s.world).0 (g.save sc r (t.rows s.db) s.world).1 refl;
    }
      where
        go :
            (x : Result (R × List R)) (w : W)
            → g.save sc r (t.rows s.db) s.world ≡ (x, w)
            → Holds
                (λ r' s'.
                  (rows : List R) × IsSaved sc r (t.rows s.db) r' rows × (s'.db ≡ t.put rows s.db))
                (λ e s'. (s'.db ≡ s.db) × IsFault e)
                (wrote t s (x, w)).0
                (wrote t s (x, w)).1
        go (ok (r', rows)) w e = (rows, save_row sc r _ s.world r' rows w e, refl)
        go (err x) w e = (refl, save_engine sc r _ s.world x w e)

    pub updates_ends :
        (p : R → Bool) (f : ℕ → R → R)
        → Ends
            (updates g t p f)
            s
            (λ u s'.
              (time : ℕ) × (s'.db
                ≡ t.put (map (λ r. if p r then f time r else r) (t.rows s.db)) s.db))
            (λ e s'. (s'.db ≡ s.db) × IsFault e)
    unfolding updates
    updates_ends p f = record {
      at = go (g.updates p f (t.rows s.db) s.world).0 (g.updates p f (t.rows s.db) s.world).1 refl;
    }
      where
        go :
            (x : Result (List R)) (w : W)
            → g.updates p f (t.rows s.db) s.world ≡ (x, w)
            → Holds
                (λ u s'.
                  (time : ℕ) × (s'.db
                    ≡ t.put (map (λ r. if p r then f time r else r) (t.rows s.db)) s.db))
                (λ e s'. (s'.db ≡ s.db) × IsFault e)
                (updated t s (x, w)).0
                (updated t s (x, w)).1
        go (ok rows) w e =
            let (time, same) = updates_rows p f _ s.world rows w e in
            (time, ap (λ rows. t.put rows s.db) same)
        go (err x) w e = (refl, updates_engine p f _ s.world x w e)
