-- ===== src/Worker/Delivery.antt =====
-- backend/cmd/worker/main.go: what a tick leaves in the outbox.
use sociomile.Prelude.{
  ℕ, String, ◌≡◌, refl, subst⁻¹, inl, inr, Member, some, List, [], ◌∷◌, map, ◌==◌, if◌then◌else◌,
}
use sociomile.Model.{Db, OutboxEvent}
use sociomile.Exec.{Result, ok, err, State, Exec}
use sociomile.Exec.Ends.{Ends, Holds, ends_at, ends_seq, ends_catch, ends_pure, ends_weaken}
use sociomile.Gorm.{Gorm}
use sociomile.Gorm.Laws.{GormLaws, beside}
use sociomile.Gorm.Paged.{IsPage-Member}
use mathlib.Core.Logic.{∥∥₁_map}
use sociomile.Gorm.Session.Rules.{reads_seq, outside_reads, find_reads, now_reads}
use sociomile.Gorm.Session.Writes.{updates_ends}
use sociomile.Redis.{Codec}
use sociomile.Repository.Tables
use sociomile.Repository.Store.{list_pending_outbox, mark_outbox_published, mark_outbox_failed}
use sociomile.Cache.{Client, ignore_error}
use sociomile.Cache.Rules.{set_json_reads, ignore_ends}
use sociomile.Worker.{Publisher, record_worker_heartbeat, deliver, deliver_all, tick}
use sociomile.Worker.Progress.{
  IsAccepted, IsProgress, failed, published, IsAdvanced, IsAdvanced-refl, IsAdvanced-update,
}

-- The tables since the rows `xs` of the outbox: only the outbox has changed.
pub record IsMoved {W : Type 0} (publish : Publisher W) (start d : Db) : Type 0 where
  pub rows : IsAdvanced publish start.outbox_events start.outbox_events d.outbox_events
  pub frame : d ≡ record start { outbox_events = d.outbox_events }

module _ {W : Type 0} (g : Gorm W) (laws : GormLaws g) (publish : Publisher W) (start : Db) where
  updated_moves :
      (s : State W) (id : String) (f : ℕ → OutboxEvent → OutboxEvent) (s' : State W)
      → IsMoved publish start s.db
      → ((t : ℕ) (x y : OutboxEvent)
          → y.id ≡ id
          → IsProgress publish start.outbox_events x y
          → IsProgress publish start.outbox_events x (f t y))
      → (time : ℕ) × (s'.db ≡ record s.db {
        outbox_events = map (λ r. if r.id == id then f time r else r) s.db.outbox_events;
      })
      → IsMoved publish start s'.db
  updated_moves s id f s' moved step (time, same) = subst⁻¹ (IsMoved publish start) same (record {
    rows =
        IsAdvanced-update publish start.outbox_events id (f time) start.outbox_events
          s.db.outbox_events (step time) moved.rows;
    frame = λ i. record (moved.frame i) {
      outbox_events = map (λ r. if r.id == id then f time r else r) s.db.outbox_events;
    };
  })

  mark_published_ends :
      (s : State W) (id : String)
      → ∥ IsAccepted publish start.outbox_events id ∥₁
      → IsMoved publish start s.db
      → Ends
          (ignore_error (mark_outbox_published g id))
          s
          (λ u s'. IsMoved publish start s'.db)
          (λ e s'. ⊥)
  unfolding mark_outbox_published
  mark_published_ends s id accepted moved =
      ignore_ends _ s (λ s'. IsMoved publish start s'.db)
        (ends_weaken _ (updates_ends g laws s Tables.outbox_events _ _)
          (λ u s' done.
            updated_moves s id _ s' moved
              (λ t x y same p.
                published x y t p
                  (subst⁻¹ (λ k. ∥ IsAccepted publish start.outbox_events k ∥₁) same accepted))
              done)
          (λ e s' f. subst⁻¹ (IsMoved publish start) f.0 moved))

  mark_failed_ends :
      (s : State W) (id : String)
      → IsMoved publish start s.db
      → Ends
          (ignore_error (mark_outbox_failed g id))
          s
          (λ u s'. IsMoved publish start s'.db)
          (λ e s'. ⊥)
  unfolding mark_outbox_failed
  mark_failed_ends s id moved =
      ignore_ends _ s (λ s'. IsMoved publish start s'.db)
        (ends_weaken _ (updates_ends g laws s Tables.outbox_events _ _)
          (λ u s' done. updated_moves s id _ s' moved (λ t x y same p. failed x y t p) done)
          (λ e s' f. subst⁻¹ (IsMoved publish start) f.0 moved))

  deliver_ends :
      (s : State W) (event : OutboxEvent)
      → ∥ Member event start.outbox_events ∥₁
      → IsMoved publish start s.db
      → Ends (deliver g publish event) s (λ u s'. IsMoved publish start s'.db) (λ e s'. ⊥)
  unfolding deliver
  deliver_ends s event listed moved =
      ends_catch _ _ {P = λ u s'. IsMoved publish start s'.db}
        {F = λ e s'. IsMoved publish start s'.db}
        (reads_seq _ _
          (outside_reads (publish event.routing_key event.payload) s
            {P = λ u. ∥ IsAccepted publish start.outbox_events event.id ∥₁} {F = λ e. Unit {0}}
            (λ u w e. ∥∥₁_map listed (λ m. record {
              event = event;
              listed = m;
              same_id = refl;
              before = s.world;
              later = w;
              accepted = e;
            }))
            (λ e w h. tt))
          (λ u w accepted.
            ends_weaken _ (mark_published_ends (beside s w) event.id accepted moved) (λ u s' m. m)
              (λ e s' x. absurd x))
          (λ e w x. moved))
        (λ u s' m. m) (λ e s' m. mark_failed_ends s' event.id m)

  deliver_all_ends :
      (events : List OutboxEvent) (s : State W)
      → ((e : OutboxEvent) → Member e events → ∥ Member e start.outbox_events ∥₁)
      → IsMoved publish start s.db
      → Ends (deliver_all g publish events) s (λ u s'. IsMoved publish start s'.db) (λ e s'. ⊥)
  unfolding deliver_all
  deliver_all_ends [] s listed moved = ends_pure tt moved
  deliver_all_ends (event ∷ events) s listed moved =
      ends_seq _ _ (deliver_ends s event (listed event (inl refl)) moved)
        (λ u s' m. deliver_all_ends events s' (λ e k. listed e (inr k)) m) (λ e s' x. x)

ended :
    {W : Type 0} (m : Exec W (Unit {0})) (s : State W) (P : State W → Type 0)
    → Ends m s (λ u s'. P s') (λ e s'. ⊥)
    → ((m s).0 ≡ ok tt) × P (m s).1
ended {W} m s P h = go (m s).0 (m s).1 h.at
  where
    go :
        (r : Result (Unit {0})) (s' : State W)
        → Holds (λ u s'. P s') (λ e s'. ⊥) r s'
        → (r ≡ ok tt) × P s'
    go (ok tt) s' p = (refl, p)
    go (err e) s' p = elim p [ ]

module _ {W : Type 0} (g : Gorm W) (laws : GormLaws g) (cache : Client W) (codec : Codec ℕ)
    (publish : Publisher W) (s : State W) where
  pub heartbeat_ends :
      Ends (record_worker_heartbeat g cache codec) s (λ u s'. s'.db ≡ s.db) (λ e s'. s'.db ≡ s.db)
  unfolding record_worker_heartbeat
  heartbeat_ends =
      reads_seq _ _ (now_reads g laws s)
        (λ time w u.
          ends_weaken _ (set_json_reads (beside s w) cache codec _ time _).reads (λ u s' p. p.0)
            (λ e s' p. p.0))
        (λ e w x. absurd x)

  tick_ends : Ends (tick g cache codec publish) s (λ u s'. IsMoved publish s.db s'.db) (λ e s'. ⊥)
  unfolding tick list_pending_outbox
  tick_ends =
      ends_seq _ _ (ignore_ends _ s (λ s'. s'.db ≡ s.db) heartbeat_ends)
        (λ u t same. ends_at _ t s.db same (
          ends_catch _ _ {P = λ u s'. IsMoved publish s.db s'.db} {F = λ e s'. s'.db ≡ s.db}
            (reads_seq _ _ (find_reads g laws (beside s t.world) Tables.outbox_events _ 0 (some 50))
              (λ pending w page.
                ends_weaken _
                  (deliver_all_ends g laws publish s.db pending (beside s w)
                    (IsPage-Member _ 0 (some 50) s.db.outbox_events pending page)
                    (record {
                      rows = IsAdvanced-refl publish s.db.outbox_events s.db.outbox_events;
                      frame = refl;
                    }))
                  (λ u s' m. m) (λ e s' x. absurd x))
              (λ e w f. refl))
            (λ u s' m. m)
            (λ e s' same. ends_pure tt (
              subst⁻¹ (IsMoved publish s.db) same (record {
                rows = IsAdvanced-refl publish s.db.outbox_events s.db.outbox_events;
                frame = refl;
              })))))
        (λ e s' x. x)

  -- A tick of the worker never stops the loop. It changes no table but the outbox, adds and removes
  -- no event, and leaves each one as it was, or failed once more and no more published than before,
  -- or marked as published, which is done only where the broker accepted the event of the outbox with
  -- that identifier.
  pub tick_ok :
      ((tick g cache codec publish s).0 ≡ ok tt)
      × IsMoved publish s.db (tick g cache codec publish s).1.db
  tick_ok = ended (tick g cache codec publish) s (λ s'. IsMoved publish s.db s'.db) tick_ends
