-- ===== src/Worker/Start.antt =====
-- backend/cmd/worker/main.go: `waitForPublisher`. What `select` receives, from the context and from
-- `time.After`, is the world's to say; so are the clock and the log.
pub mod Waiting
use sociomile.Prelude.{
  ℕ, zero, suc, ◌+◌, ◌-◌, ◌%◌, String, Bool, true, false, ◌&&◌, Option, none, some, leb, eqb,
  if◌then◌else◌,
}
use sociomile.Apperror.{Error, other}
use sociomile.Exec.{Result, ok, err}
use sociomile.Exec.Io.{Io}

-- The lines that it logs.
pub data Line : Type 0 where
  became_available : ℕ → Line
  waiting : Error → Line
  still_waiting : ℕ → Error → Line

-- `P` is what `newPublisher` makes.
pub record Surroundings (W P : Type 0) : Type 0 where
  pub new_publisher : Io W P
  -- `time.Now`, in nanoseconds
  pub now : W → ℕ × W
  pub log : Line → W → W
  -- Whether `ctx.Done()` is what the `select` receives, and not the timer of two seconds.
  pub cancelled : W → Bool × W
  -- `ctx.Err()`
  pub context_error : Error

module _ {W P : Type 0} (env : Surroundings W P) where
  -- What is logged when the publisher was made.
  abbrev pub log_available : Option ℕ → ℕ → W → W
  log_available none retry_count w = w
  log_available (some since) retry_count w = env.log (became_available retry_count) w

  -- What is logged when it was not, and since when it has been waited for.
  abbrev pub log_waiting : Option ℕ → ℕ → Error → W → Option ℕ × W
  log_waiting none retry_count e w = (some (env.now w).0, env.log (waiting e) (env.now w).1)
  log_waiting (some since) retry_count e w = (
    some since,
    if leb 30_000_000_000 ((env.now w).0 - since) && eqb (retry_count % 15) 0
        then env.log (still_waiting retry_count e) (env.now w).1
        else (env.now w).1,
  )

  -- The `select`, and the next round.
  abbrev pub paused : (W → Option (Result P × W)) → Bool × W → Option (Result P × W)
  paused next (true, w) = some (err env.context_error, w)
  paused next (false, w) = next w

  -- What follows an attempt.
  abbrev pub attempted :
      (Option ℕ → W → Option (Result P × W)) → Option ℕ → ℕ → Result P × W → Option (Result P × W)
  attempted next since retry_count (ok p, w) = some (ok p, log_available since retry_count w)
  attempted next since retry_count (err e, w) =
      let noted = log_waiting since (retry_count + 1) e w in
      paused (next noted.0) (env.cancelled noted.1)

  -- `waitForPublisher`, from the variables of its loop; none where the fuel is used up
  unfoldable pub wait_for_publisher : ℕ → Option ℕ → ℕ → W → Option (Result P × W)
  wait_for_publisher zero since retry_count w = none
  wait_for_publisher (suc fuel) since retry_count w =
      attempted (λ since' v. wait_for_publisher fuel since' (retry_count + 1) v) since retry_count
        (env.new_publisher w)
