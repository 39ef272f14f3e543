-- ===== src/Worker/Start/Waiting.antt =====
-- backend/cmd/worker/main.go: `waitForPublisher` returns once the broker answers, or once the worker is
-- told to stop.
use sociomile.Prelude.{
  ℕ, zero, suc, ◌+◌, ◌-◌, ◌≤◌, ◌<◌, ◌≡◌, ◌⊎◌, inl, inr, refl, sym, ap, ◌∙◌, subst, ◌&&◌, arith,
  Bool, true, false, Option, none, some, leb, eqb, if◌then◌else◌, ◌%◌,
}
use sociomile.Apperror.{Error}
use sociomile.Exec.{Result, ok, err}
use sociomile.Worker.Start.{
  Surroundings, Line, still_waiting, wait_for_publisher, attempted, paused, log_waiting,
  log_available,
}
use sociomile.Exec.Results.{ok≢err}

-- `away w` is how many rounds of two seconds the broker stays away. Where it is 0 an attempt succeeds;
-- a pause that is not cut short brings it nearer; the other calls take no time.
pub record Answers {W P : Type 0} (env : Surroundings W P) (away : W → ℕ) : Type 0 where
  pub ready : (w : W) → away w ≡ 0 → (p : P) × (v : W) × (env.new_publisher w ≡ (ok p, v))
  pub attempt : (w : W) → away (env.new_publisher w).1 ≤ away w
  pub clock : (w : W) → away (env.now w).1 ≤ away w
  pub logged : (line : Line) (w : W) → away (env.log line w) ≤ away w
  pub passed : (w v : W) → env.cancelled w ≡ (false, v) → away v ≤ away w - 1

zero_or : (n : ℕ) → (n ≡ 0) ⊎ (0 < n)
zero_or zero = inl refl
zero_or (suc n) = inr (omega arith)

module _ {W P : Type 0} (env : Surroundings W P) where
  -- How it returned.
  pub data IsReturned : Result P → Type 0 where
    connected : (p : P) (u v : W) → env.new_publisher u ≡ (ok p, v) → IsReturned (ok p)
    stopped : (u v : W) → env.cancelled u ≡ (true, v) → IsReturned (err env.context_error)

  -- A run that has returned.
  pub record Returns (run : Option (Result P × W)) : Type 0 where
    pub result : Result P
    pub world : W
    pub same : run ≡ some (result, world)
    pub reason : IsReturned result

module _ {W P : Type 0} (env : Surroundings W P) (away : W → ℕ) (answers : Answers env away) where
  if_away : (b : Bool) (u v : W) → away u ≤ away v → away (if b then u else v) ≤ away v
  if_away true u v h = h
  if_away false u v h = omega arith

  away-log_waiting :
      (since : Option ℕ) (n : ℕ) (e : Error) (w : W) → away (log_waiting env since n e w).1 ≤ away w
  away-log_waiting none n e w =
      let a = answers.logged (Line.waiting e) (env.now w).1 in
      let b = answers.clock w in omega arith
  away-log_waiting (some t) n e w =
      let a =
        if_away (leb 30_000_000_000 ((env.now w).0 - t) && eqb (n % 15) 0)
          (env.log (still_waiting n e) (env.now w).1) (env.now w).1
          (answers.logged (still_waiting n e) (env.now w).1) in
      let b = answers.clock w in omega arith

  paused-Returns :
      (next : W → Option (Result P × W)) (u : W) (b : Bool) (v : W)
      → env.cancelled u ≡ (b, v)
      → (b ≡ false → Returns env (next v))
      → Returns env (paused env next (b, v))
  paused-Returns next u true v e again = record {
    result = err env.context_error;
    world = v;
    same = refl;
    reason = stopped u v e;
  }
  paused-Returns next u false v e again = again refl

  attempted-Returns :
      (next : Option ℕ → W → Option (Result P × W)) (since : Option ℕ) (n : ℕ) (w : W)
      (r : Result P) (v : W)
      → env.new_publisher w ≡ (r, v)
      → ((since' : Option ℕ) (u : W) → away u < away w → Returns env (next since' u))
      → Returns env (attempted env next since n (r, v))
  attempted-Returns next since n w (ok p) v e again = record {
    result = ok p;
    world = log_available env since n v;
    same = refl;
    reason = connected p w v e;
  }
  attempted-Returns next since n w (err x) v e again =
      let noted = log_waiting env since (n + 1) x v in
      paused-Returns (next noted.0) noted.1 (env.cancelled noted.1).0 (env.cancelled noted.1).1 refl
        (λ waits.
          again noted.0 (env.cancelled noted.1).1
            (nearer noted.1 waits (near noted.1 (away-log_waiting since (n + 1) x v))))
    where
      far : 0 < away w
      far = elim (zero_or (away w)) [
        | inl none_left ↦
            (let (p, u, e') = answers.ready w none_left in
              absurd (ok≢err p x (ap (λ r. r.0) (sym e' ∙ e))))
        | inr some_left ↦ some_left
      ]

      near : (u : W) → away u ≤ away v → away u ≤ away w
      near u h = (let a = subst (λ r. away r.1 ≤ away w) e (answers.attempt w) in omega arith)

      nearer :
          (u : W)
          → (env.cancelled u).0 ≡ false
          → away u ≤ away w
          → away (env.cancelled u).1 < away w
      nearer u waits h =
          let f : 0 < away w = far in
          let a = answers.passed u (env.cancelled u).1 (λ i. (waits i, (env.cancelled u).1)) in
          omega arith

  -- If the broker stays away for fewer rounds than there is fuel, the wait returns: with a publisher,
  -- or with the error of the context where the worker was told to stop first.
  pub wait_for_publisher-Returns :
      (fuel : ℕ) (since : Option ℕ) (retry_count : ℕ) (w : W)
      → away w < fuel
      → Returns env (wait_for_publisher env fuel since retry_count w)
  unfolding wait_for_publisher
  wait_for_publisher-Returns zero since count w h = absurd (omega arith)
  wait_for_publisher-Returns (suc fuel) since count w h =
      attempted-Returns (λ since' v. wait_for_publisher env fuel since' (count + 1) v) since count w
        (env.new_publisher w).0 (env.new_publisher w).1 refl
        (λ since' u nearer. wait_for_publisher-Returns fuel since' (count + 1) u (omega arith))
