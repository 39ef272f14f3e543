-- ===== src/Worker/Tries.antt =====
-- backend/cmd/worker/main.go: a tick tries each event that it lists, whatever the broker answers.
use sociomile.Prelude.{
  ℕ, ◌+◌, String, ◌≡◌, inl, inr, refl, subst⁻¹, Bool, some, none, List, [], ◌∷◌, ◌==◌, ltb, pos,
  arith,
}
use sociomile.Apperror.{Error}
use sociomile.Model.{OutboxEvent}
use sociomile.Exec.{Result, ok, err, State}
use sociomile.Exec.Ends.{
  Ends, Holds, ends_at, ends_state, ends_seq, ends_catch, ends_pure, ends_weaken,
}
use sociomile.Gorm.{Gorm, Query, IsPage}
use sociomile.Gorm.Laws.{GormLaws, beside}
use sociomile.Gorm.Session.{find, updates, updated}
use sociomile.Gorm.Session.Rules.{Reads, reads_seq, outside_reads}
use sociomile.Redis.{Codec}
use sociomile.Repository.Tables
use sociomile.Repository.Store.{list_pending_outbox, mark_outbox_published, mark_outbox_failed}
use sociomile.Repository.Filters.{is_none}
use sociomile.Cache.{Client}
use sociomile.Cache.Rules.{outside_keeps, ignore_ends}
use sociomile.Worker.{Publisher, deliver, deliver_all, tick}
use sociomile.Worker.Delivery.{heartbeat_ends}
use sociomile.Worker.Attempts.{
  Tracked, AllTried, IsTry, WithId, After, Tracked-update, Tracked-refl, Tracked-AllTried,
}

-- The events not yet published, the oldest first.
abbrev pub unpublished : Query OutboxEvent
unpublished = record {
  matches = λ r. is_none r.published_at;
  before = λ a b. ltb a.created_at b.created_at;
}

publication :
    (t : ℕ)
    → IsTry (λ y. record y {
      base = record y.base { updated_at = t };
      published_at = some t;
      failed_at = none;
    })
publication t = record {
  keeps_id = λ y. refl;
  counts = λ y. omega arith;
  tries = λ x y le. inl (t, refl);
}

failure :
    (t : ℕ)
    → IsTry (λ y. record y {
      base = record y.base { updated_at = t };
      failed_at = some t;
      attempts = y.attempts + 1;
    })
failure t = record {
  keeps_id = λ y. refl;
  counts = λ y. omega arith;
  tries = λ x y le. inr (omega arith);
}

-- The database takes each update of the outbox.
abbrev pub Updates : {W : Type 0} → Gorm W → Type 0
Updates {W} g =
    (p : OutboxEvent → Bool) (f : ℕ → OutboxEvent → OutboxEvent) (rows : List OutboxEvent) (w : W)
    (e : Error) (w' : W)
    → g.updates p f rows w ≡ (err e, w')
    → ⊥

module _ {W : Type 0} (g : Gorm W) (laws : GormLaws g) (writes : Updates g)
    (start : List OutboxEvent) where
  open laws use {updates_rows, find_page}

  mark_ends :
      (D : String → Type 0) (id : String) (f : ℕ → OutboxEvent → OutboxEvent)
      → ((t : ℕ) → IsTry (f t))
      → (s : State W) → Tracked D start s.db.outbox_events
      → Ends
          (updates g Tables.outbox_events (λ r. r.id == id) f)
          s
          (λ u s'. Tracked (WithId D id) start s'.db.outbox_events)
          (λ e s'. ⊥)
  unfolding updates
  mark_ends D id f try s h = record {
    at =
        go (g.updates (λ r. r.id == id) f s.db.outbox_events s.world).0
          (g.updates (λ r. r.id == id) f s.db.outbox_events s.world).1 refl;
  }
    where
      go :
          (x : Result (List OutboxEvent)) (w : W)
          → g.updates (λ r. r.id == id) f s.db.outbox_events s.world ≡ (x, w)
          → Holds
              (λ u s'. Tracked (WithId D id) start s'.db.outbox_events)
              (λ e s'. ⊥)
              (updated Tables.outbox_events s (x, w)).0
              (updated Tables.outbox_events s (x, w)).1
      go (ok rows) w e =
          let (time, same) = updates_rows _ f s.db.outbox_events s.world rows w e in
          subst⁻¹ (Tracked (WithId D id) start) same
            (Tracked-update D id (f time) (try time) start s.db.outbox_events h)
      go (err x) w e = writes _ f _ s.world x w e

  deliver_ends :
      (publish : Publisher W) (D : String → Type 0) (event : OutboxEvent) (s : State W)
      → Tracked D start s.db.outbox_events
      → Ends
          (deliver g publish event)
          s
          (λ u s'. Tracked (WithId D event.id) start s'.db.outbox_events)
          (λ e s'. ⊥)
  unfolding deliver mark_outbox_published mark_outbox_failed
  deliver_ends publish D event s h =
      ends_catch _ _ {P = λ u s'. Tracked (WithId D event.id) start s'.db.outbox_events}
        {F = λ e s'. Tracked D start s'.db.outbox_events}
        (reads_seq _ _ (outside_keeps s (publish event.routing_key event.payload))
          (λ u w k.
            ends_weaken _
              (ignore_ends _ (beside s w)
                (λ s'. Tracked (WithId D event.id) start s'.db.outbox_events)
                (ends_weaken _ (mark_ends D event.id _ publication (beside s w) h) (λ u s' t. t)
                  (λ e s' x. absurd x)))
              (λ u s' t. t) (λ e s' x. absurd x))
          (λ e w k. h))
        (λ u s' t. t)
        (λ e s' h.
          ignore_ends _ s' (λ s'. Tracked (WithId D event.id) start s'.db.outbox_events)
            (ends_weaken _ (mark_ends D event.id _ failure s' h) (λ u s' t. t)
              (λ e s' x. absurd x)))

  deliver_all_ends :
      (publish : Publisher W) (events : List OutboxEvent) (D : String → Type 0) (s : State W)
      → Tracked D start s.db.outbox_events
      → Ends
          (deliver_all g publish events)
          s
          (λ u s'. Tracked (After events D) start s'.db.outbox_events)
          (λ e s'. ⊥)
  unfolding deliver_all
  deliver_all_ends publish [] D s h = ends_pure tt h
  deliver_all_ends publish (event ∷ events) D s h =
      ends_seq _ _ (deliver_ends publish D event s h)
        (λ u s' t. deliver_all_ends publish events (WithId D event.id) s' t) (λ e s' x. x)

-- What a tick that starts with the outbox `start` leaves: either the list of the events failed and
-- the outbox is as it was, or the events of the page have been tried.
pub data Ticked {W : Type 0} (g : Gorm W) (start final : List OutboxEvent) : Type 0 where
  unlisted :
      (e : Error) (w w' : W)
      → g.find unpublished (record { offset = pos 0; limit = some (pos 50) }) start w ≡ (err e, w')
      → final ≡ start
      → Ticked g start final
  listed :
      (events : List OutboxEvent)
      → IsPage unpublished 0 (some 50) start events
      → AllTried events start final
      → Ticked g start final

module _ {W : Type 0} (g : Gorm W) (laws : GormLaws g) (writes : Updates g) (cache : Client W)
    (codec : Codec ℕ) (publish : Publisher W) (s : State W) where
  open laws use {find_page}

  listed_reads :
      (w : W)
      → Reads
          (list_pending_outbox g (pos 50))
          (beside s w)
          (IsPage unpublished 0 (some 50) s.db.outbox_events)
          (λ e.
            (w' : W) × (g.find unpublished
                (record { offset = pos 0; limit = some (pos 50) })
                s.db.outbox_events
                w
              ≡ (err e, w')))
  unfolding list_pending_outbox find
  listed_reads w = record {
    reads = record {
      at =
          (outside_reads (g.find unpublished _ s.db.outbox_events) (beside s w)
            {P = IsPage unpublished 0 (some 50) s.db.outbox_events}
            {F = λ e.
              (w' : W) × (g.find unpublished (record { offset = pos 0; limit = some (pos 50) })
                  s.db.outbox_events w
                ≡ (err e, w'))}
            (λ xs w' e. find_page unpublished 0 (some 50) s.db.outbox_events w xs w' e)
            (λ e w' h. (w', h))).reads.at;
    };
  }

  tick_ends :
      Ends
        (tick g cache codec publish)
        s
        (λ u s'. Ticked g s.db.outbox_events s'.db.outbox_events)
        (λ e s'. ⊥)
  unfolding tick
  tick_ends =
      ends_seq _ _
        (ignore_ends _ s (λ s'. s'.db ≡ s.db) (heartbeat_ends g laws cache codec publish s))
        (λ u t same. ends_at _ t s.db same (
          ends_catch _ _ {P = λ u s'. Ticked g s.db.outbox_events s'.db.outbox_events}
            {F = λ e s'. Ticked g s.db.outbox_events s'.db.outbox_events}
            (reads_seq _ _ (listed_reads t.world)
              (λ pending w page.
                ends_weaken _
                  (deliver_all_ends g laws writes s.db.outbox_events publish pending (λ i. ⊥)
                    (beside s w) (Tracked-refl s.db.outbox_events))
                  (λ u s' h. listed pending page (Tracked-AllTried pending _ _ h))
                  (λ e s' x. absurd x))
              (λ e w f. unlisted e t.world f.0 f.1 refl))
            (λ u s' m. m) (λ e s' k. ends_pure tt k)))
        (λ e s' x. x)

  -- While the database takes the updates of the outbox, a tick tries each event that it lists, even
  -- after others that failed: the events listed are the first 50, in order of creation, of those not
  -- yet published, and afterwards each of them is published or has at least one failed attempt more
  -- than before the tick. If the list fails, the outbox stays as it was.
  pub tick_tries : Ticked g s.db.outbox_events (tick g cache codec publish s).1.db.outbox_events
  tick_tries =
      ends_state (tick g cache codec publish) s
        (λ s'. Ticked g s.db.outbox_events s'.db.outbox_events)
        (ends_weaken _ tick_ends (λ u s' h. h) (λ e s' x. absurd x))
