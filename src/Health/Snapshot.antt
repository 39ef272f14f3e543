-- ===== src/Health/Snapshot.antt =====
-- backend/internal/health/health.go: when the report says that the service is degraded.
use sociomile.Prelude.{
  ℕ, ℤ, ◌+◌, ◌<◌, ◌≤◌, String, ◌≡◌, ◌⊎◌, false, inl, inr, refl, sym, ap, true, Option, none, some,
  ltb, Bool-cases, arith, if◌then◌else◌,
}
use sociomile.Apperror.{Error}
use sociomile.Exec.{Result, ok, err, State, pure}
use sociomile.Exec.Ends.{Ends, ends_if, ends_pure, ends_catch, ends_from, ends_ok, ends_err}
use sociomile.Gorm.{Gorm}
use sociomile.Gorm.Laws.{GormLaws, beside}
use sociomile.Gorm.Session.Rules.{Reads, reads_seq, now_reads, IsNow}
use sociomile.Redis.{Codec}
use mathlib.Core.Bool.{false≢true}
use sociomile.Cache.{Client, enabled, get_json, key, join}
use sociomile.Cache.Rules.{IsHit, IsHitOption, get_json_reads}
use sociomile.Worker.{worker_heartbeat_ttl}
use sociomile.Health.{
  online, offline, unknown, Service, Report, seen_at, judged, heartbeat_key, worker_snapshot,
  overall, snapshot,
}

-- The key that the worker keeps its heartbeat under.
abbrev pub kept_at : String
kept_at = "sociomile:runtime:worker:heartbeat"

-- There is a cache.
abbrev pub IsOn : {W : Type 0} → Client W → Type 0
IsOn none = ⊥
IsOn (some redis) = Unit

on_lem : {W : Type 0} (cache : Client W) → enabled cache ≡ true → IsOn cache
unfolding enabled
on_lem none h = absurd (false≢true h)
on_lem (some redis) h = tt

off_lem : {W : Type 0} (cache : Client W) → enabled cache ≡ false → ¬ IsOn cache
unfolding enabled
off_lem none h = λ x. x
off_lem (some redis) h = absurd (false≢true (sym h))

-- A read of the heartbeat came back with this.
abbrev pub IsAnswered : {W : Type 0} → Client W → Codec ℕ → Result (Option ℕ) → Type 0
IsAnswered {W} cache codec r =
    (before : State W) × (later : State W) × (get_json cache codec kept_at before ≡ (r, later))

-- The status of the worker at a time, and that of the whole.
pub data IsJudged {W : Type 0} (cache : Client W) (codec : Codec ℕ) (now : ℕ) (worker : Service)
    (status : String) : Type 0 where
  unread :
      (¬ IsOn cache) ⊎ ((e : Error) × IsAnswered cache codec (err e))
      → worker ≡ record { status = unknown; checked_at = none }
      → status ≡ "ok"
      → IsJudged cache codec now worker status
  missing :
      worker ≡ record { status = offline; checked_at = none }
      → status ≡ "degraded"
      → IsOn cache
      → IsAnswered cache codec (ok none)
      → IsJudged cache codec now worker status
  stale :
      (t : ℕ)
      → IsHit cache codec kept_at t
      → t + 20_000_000_000 < now
      → worker ≡ record { status = offline; checked_at = some t }
      → status ≡ "degraded"
      → IsJudged cache codec now worker status
  alive :
      (t : ℕ)
      → IsHit cache codec kept_at t
      → now ≤ t + 20_000_000_000
      → worker ≡ record { status = online; checked_at = some t }
      → status ≡ "ok"
      → IsJudged cache codec now worker status

module _ {W : Type 0} (cache : Client W) (codec : Codec ℕ) (now : ℕ) where
  judged_lem :
      (hit : Option ℕ)
      → enabled cache ≡ true
      → IsHitOption cache codec kept_at hit
      → IsAnswered cache codec (ok hit)
      → IsJudged cache codec now (judged now hit) (overall (judged now hit).status)
  judged_lem none on h run = missing refl refl (on_lem cache on) run
  judged_lem (some t) on h run = elim (Bool-cases (ltb (t + worker_heartbeat_ttl) now)) [
    | inl late ↦
        stale t h (ground arith) (ap (λ b. seen_at b t) late)
          (ap (λ b. overall (seen_at b t).status) late)
    | inr fresh ↦
        alive t h (ground arith) (ap (λ b. seen_at b t) fresh)
          (ap (λ b. overall (seen_at b t).status) fresh)
  ]

  worker_reads :
      (s : State W)
      → enabled cache ≡ true
      → Reads
          (worker_snapshot cache codec now)
          s
          (λ worker. IsJudged cache codec now worker (overall worker.status))
          (λ e. ⊥)
  unfolding worker_snapshot heartbeat_key key join
  worker_reads s on = record {
    reads =
        ends_catch _ _
          {P = λ worker s'.
            (s'.db ≡ s.db) × IsJudged cache codec now worker (overall worker.status)}
          {F = λ e s'. (s'.db ≡ s.db) × IsAnswered cache codec (err e)}
          (reads_seq _ _ heartbeat_reads (λ hit w h. ends_pure _ (refl, judged_lem hit on h.0 h.1))
            (λ e w run. (refl, run)))
          (λ worker s' p. p) (λ e s' p. ends_pure _ (p.0, unread (inr (e, p.1)) refl refl));
  }
    where
      heartbeat_reads :
          Reads
            (get_json cache codec heartbeat_key)
            s
            (λ hit. IsHitOption cache codec kept_at hit × IsAnswered cache codec (ok hit))
            (λ e. IsAnswered cache codec (err e))
      heartbeat_reads = record {
        reads =
            ends_from
              (λ hit s' run.
                let p = ends_ok (get_json_reads s cache codec heartbeat_key).reads hit s' run in
                (p.0, (p.1, (s, s', run))))
              (λ e s' run.
                let p = ends_err (get_json_reads s cache codec heartbeat_key).reads e s' run in
                (p.0, (s, s', run)));
      }

-- A report: the API is online at the time of the report, and the worker is judged at that time.
pub record IsReport {W : Type 0} (g : Gorm W) (cache : Client W) (codec : Codec ℕ) (port : ℤ)
    (r : Report) : Type 0 where
  pub time : ℕ
  pub told : IsNow g time
  pub api : r.api ≡ record { status = online; checked_at = some time }
  pub is_judged : IsJudged cache codec time r.worker r.status
  pub same_port : r.port ≡ port

module _ {W : Type 0} (g : Gorm W) (laws : GormLaws g) (cache : Client W) (codec : Codec ℕ)
    (port : ℤ) (s : State W) where
  snapshot_ends :
      Ends
        (snapshot g cache codec port)
        s
        (λ r s'. (s'.db ≡ s.db) × IsReport g cache codec port r)
        (λ e s'. ⊥)
  unfolding snapshot
  snapshot_ends =
      reads_seq _ _ (now_reads g laws s)
        (λ time w u.
          reads_seq _ _ (seen time w)
            (λ worker w j.
              ends_pure _ (
                refl,
                record { time = time; told = u; api = refl; is_judged = j; same_port = refl },
              ))
            (λ e w x. absurd x))
        (λ e w x. absurd x)
    where
      seen :
          (time : ℕ) (w : W)
          → Reads
              (if enabled cache
                then worker_snapshot cache codec time
                else pure (record { status = unknown; checked_at = none }))
              (beside s w)
              (λ worker. IsJudged cache codec time worker (overall worker.status))
              (λ e. ⊥)
      seen time w = record {
        reads =
            ends_if (enabled cache) _ _
              (λ on. (worker_reads cache codec time (beside s w) on).reads)
              (λ off. ends_pure _ (refl, unread (inl (off_lem cache off)) refl refl));
      }

  -- The report changes no table. The worker is online if its heartbeat is in the cache and not older
  -- than its time to live, offline if it is missing or older, and unknown only if there is no
  -- cache or it answered with an error; the whole is degraded
  -- exactly where the worker is offline.
  pub snapshot_ok :
      (r : Report) (s' : State W)
      → snapshot g cache codec port s ≡ (ok r, s')
      → (s'.db ≡ s.db) × IsReport g cache codec port r
  snapshot_ok r s' e = ends_ok snapshot_ends r s' e
