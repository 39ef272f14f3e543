-- ===== src/Worker/Loop/Runs.antt =====
-- backend/cmd/worker/main.go: what the loop of `run` leaves in the outbox, and that `run` returns.
use sociomile.Prelude.{
  ℕ, ◌<◌, ◌≡◌, refl, ap, ◌∙◌, subst, subst⁻¹, inl, inr, Option, none, some, List, [], ◌∷◌, Member,
}
use sociomile.Model.{Db}
use sociomile.Exec.{Result, ok, err, State}
use sociomile.Exec.Ends.{Ends, ends_state, ends_weaken}
use sociomile.Gorm.{Gorm}
use sociomile.Gorm.Laws.{GormLaws}
use sociomile.Redis.{Codec}
use sociomile.Cache.{Client, ignore_error}
use sociomile.Cache.Rules.{ignore_ends}
use sociomile.Config.{Config}
use sociomile.Platform.{open_redis}
use sociomile.Broker.{publish}
use sociomile.Broker
use sociomile.Worker.{Publisher, record_worker_heartbeat, tick}
use sociomile.Worker.Progress.{IsAdvanced-refl, IsAdvanced-trans}
use sociomile.Worker.Delivery.{IsMoved, tick_ok, heartbeat_ends}
use sociomile.Worker.Start.{wait_for_publisher}
use sociomile.Worker.Start.Waiting.{Answers, Returns, wait_for_publisher-Returns}
use sociomile.Worker.Loop.{
  Signal, done, ticked, Outcome, running, returned, serve, start_serving, Machine, prepare,
  attempts, closing, with_publisher, prepared, run,
}

module _ {W : Type 0} (publish : Publisher W) where
  IsMoved-refl : (d : Db) → IsMoved publish d d
  IsMoved-refl d = record {
    rows = IsAdvanced-refl publish d.outbox_events d.outbox_events;
    frame = refl;
  }

  IsMoved-trans : (a b c : Db) → IsMoved publish a b → IsMoved publish b c → IsMoved publish a c
  IsMoved-trans a b c h k = record {
    rows = IsAdvanced-trans publish a.outbox_events b.outbox_events c.outbox_events h.rows k.rows;
    frame = k.frame ∙ ap (λ (x : Db). record x { outbox_events = c.outbox_events }) h.frame;
  }

-- The loop returns at the first signal to stop.
abbrev pub after : List Signal → Outcome
after [] = running
after (done ∷ signals) = returned (ok tt)
after (ticked ∷ signals) = after signals

module _ {W : Type 0} (g : Gorm W) (laws : GormLaws g) (cache : Client W) (codec : Codec ℕ)
    (publish : Publisher W) where
  serve_moves :
      (signals : List Signal) (s : State W)
      → ((serve g cache codec publish signals s).0 ≡ after signals)
        × IsMoved publish s.db (serve g cache codec publish signals s).1.db
  unfolding serve
  serve_moves [] s = (refl, IsMoved-refl publish s.db)
  serve_moves (done ∷ signals) s = (refl, IsMoved-refl publish s.db)
  serve_moves (ticked ∷ signals) s =
      let moved = (tick_ok g laws cache codec publish s).1 in
      let (same, later) = serve_moves signals (tick g cache codec publish s).1 in
      (same, IsMoved-trans publish _ _ _ moved later)

  -- Whatever it receives, the worker serves until it is told to stop, and then returns no error. All the
  -- while it changes no table but the outbox, adds and removes no event, and marks as published only
  -- where the broker accepted the event of the outbox with that identifier.
  pub start_serving_ok :
      (signals : List Signal) (s : State W)
      → ((start_serving g cache codec publish signals s).0 ≡ after signals)
        × IsMoved publish s.db (start_serving g cache codec publish signals s).1.db
  unfolding start_serving
  start_serving_ok signals s =
      let begun =
        heart
          (ignore_ends _ s (λ s'. s'.db ≡ s.db) (heartbeat_ends g laws cache codec publish s)) in
      let (same, moved) =
        serve_moves signals (ignore_error (record_worker_heartbeat g cache codec) s).1 in
      (
        same,
        subst
            (λ d.
              IsMoved publish d
                (serve g cache codec publish signals
                  (ignore_error (record_worker_heartbeat g cache codec) s).1).1.db)
            begun moved,
      )
    where
      heart :
          Ends
            (ignore_error (record_worker_heartbeat g cache codec))
            s
            (λ u s'. s'.db ≡ s.db)
            (λ e s'. ⊥)
          → (ignore_error (record_worker_heartbeat g cache codec) s).1.db ≡ s.db
      heart h =
          ends_state (ignore_error (record_worker_heartbeat g cache codec)) s (λ s'. s'.db ≡ s.db)
            (ends_weaken _ h (λ u s' k. k) (λ e s' k. absurd k))

module _ {W H P C Ch : Type 0} (m : Machine W H P C Ch) (laws : (h : H) → GormLaws (m.gorm h)) where
  -- A run that has returned.
  pub record IsStopped (run : Option (Outcome × State W)) : Type 0 where
    pub result : Result (Unit {0})
    pub state : State W
    pub same : run ≡ some (returned result, state)

  closed_stops :
      (p : Broker.Publisher C Ch) (r : Outcome × State W)
      → r.0 ≡ returned (ok tt)
      → IsStopped (some (closing m p r))
  closed_stops p (running, s) e = absurd (cc)
  closed_stops p (returned r, s) e = record { result = r; state = _; same = refl }

  stops_after : (signals : List Signal) → Member done signals → after signals ≡ returned (ok tt)
  stops_after [] h = elim h [ ]
  stops_after (done ∷ signals) h = refl
  stops_after (ticked ∷ signals) (inl e) = absurd (cc)
  stops_after (ticked ∷ signals) (inr h) = stops_after signals h

  publisher_stops :
      (fuel : ℕ) (signals : List Signal) (start : Config × H) (s : State W)
      → Member done signals
      → Returns (attempts m start.0) (wait_for_publisher (attempts m start.0) fuel none 0 s.world)
      → IsStopped (
          with_publisher m signals start s
            (wait_for_publisher (attempts m start.0) fuel none 0 s.world))
  publisher_stops fuel signals start s h r =
      subst⁻¹ (λ x. IsStopped (with_publisher m signals start s x)) r.same (go r.result r.world)
    where
      go :
          (x : Result (Broker.Publisher C Ch)) (w : W)
          → IsStopped (with_publisher m signals start s (some (x, w)))
      go (err e) w = record { result = err e; state = _; same = refl }
      go (ok p) w = closed_stops p _ (
          (start_serving_ok (m.gorm start.1) (laws start.1) (open_redis m.new_client start.0)
            m.codec (publish m.amqp (some p)) signals (record s { world = w })).0
          ∙ stops_after signals h)

  -- A run of the worker that is told to stop returns, if the broker stays away for fewer rounds than
  -- there is fuel when the start has come to wait for it.
  pub run_returns :
      (away : W → ℕ)
      → ((cfg : Config) → Answers (attempts m cfg) away)
      → (fuel : ℕ) (signals : List Signal) (s : State W) → Member done signals
      → away (prepare m s).1.world < fuel
      → IsStopped (run m fuel signals s)
  unfolding run
  run_returns away answers fuel signals s h enough = go (prepare m s).0 (prepare m s).1 enough
    where
      go :
          (r : Result (Config × H)) (t : State W)
          → away t.world < fuel
          → IsStopped (prepared m fuel signals (r, t))
      go (err e) t near = record { result = err e; state = t; same = refl }
      go (ok start) t near = publisher_stops fuel signals start t h (
          wait_for_publisher-Returns (attempts m start.0) away (answers start.0) fuel none 0 t.world
            near)
