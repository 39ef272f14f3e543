-- ===== src/Cache/Versions.antt =====
-- backend/internal/cache/cache.go: the version of the lists of a tenant, while Redis answers.
use sociomile.Prelude.{ℕ, ◌≤◌, ◌<◌, ℤ, pos, String, ◌≡◌, ◌≢◌, refl, ◌∙◌, some, subst⁻¹, arith}
use sociomile.Apperror.{Error}
use sociomile.Exec.{Result, ok, err, State, pure, ◌>>=◌, continue, catch, recover, outside}
use sociomile.Exec.Grows.{Grows, grow_rules}
use sociomile.Exec.Marks.{Bumps, Passes}
use sociomile.Exec.Ends.{ends_err}
use sociomile.Redis.{Redis, Reply, value, nil, failed}
use sociomile.Cache.{version_key, bump_version}
use sociomile.Cache.Rules.{Stands, IsVersion, counter_of_lem, bump_version_reads}

-- What Redis documents of a counter, 0 where there is no key, while it answers: INCR raises it by one or
-- fails, GET reads it. Other clients only raise it.
pub record Counter {W : Type 0} (redis : Redis W) (tenant_id resource : String) (rank : W → ℕ)
    : Type 0 where
  pub incr_raises :
      (w : W) (n : ℤ) (w' : W)
      → redis.incr (version_key tenant_id resource) w ≡ (ok n, w')
      → rank w < rank w'
  pub incr_answers :
      (w : W) (e : Error) (w' : W) → redis.incr (version_key tenant_id resource) w ≢ (err e, w')
  pub incr_grows : (k : String) (w : W) → rank w ≤ rank (redis.incr k w).1
  pub get_value :
      (w : W) (n : ℤ)
      → (redis.get_int64 (version_key tenant_id resource) w).0 ≡ value n
      → n ≡ pos (rank w)
  pub get_nil : (w : W) → (redis.get_int64 (version_key tenant_id resource) w).0 ≡ nil → rank w ≡ 0
  pub get_answers :
      (w : W) (e : Error) → (redis.get_int64 (version_key tenant_id resource) w).0 ≢ failed e

module _ {W : Type 0} {redis : Redis W} {rank : W → ℕ} {tenant_id resource : String}
    (counter : Counter redis tenant_id resource rank) where
  pub Grows-bump : (t r : String) → Grows rank (bump_version (some redis) t r)
  unfolding bump_version
  Grows-bump t r = search (grow_rules, counter.incr_grows (version_key t r))

  pub Passes-bump : (t r : String) → Passes rank (bump_version (some redis) t r)
  Passes-bump t r = record {
    ends = λ s e h.
        (ends_err (bump_version_reads s (some redis) t r).reads e
          (bump_version (some redis) t r s).1 (λ i. (h i, (bump_version (some redis) t r s).1))).1;
    grows = Grows-bump t r;
  }

  pub Bumps-bump : Bumps rank (bump_version (some redis) tenant_id resource)
  unfolding bump_version catch ◌>>=◌ outside pure
  Bumps-bump = record {
    at = λ s.
        go s (redis.incr (version_key tenant_id resource) s.world).0
          (redis.incr (version_key tenant_id resource) s.world).1 refl;
  }
    where
      go :
          (s : State W) (r : Result ℤ) (w : W)
          → redis.incr (version_key tenant_id resource) s.world ≡ (r, w)
          → rank s.world
            < rank
                (recover
                  (λ e t. (ok tt, t))
                  (continue (λ n t. (ok tt, t)) r (record s { world = w })).0
                  (continue (λ n t. (ok tt, t)) r (record s { world = w })).1).1.world
      go s (ok n) w e = counter.incr_raises s.world n w e
      go s (err x) w e = absurd (counter.incr_answers s.world x w e)

  -- The version that `Version` gives is the counter, or 1 where it has not been raised yet.
  pub IsVersion-rank :
      (w : W) (v : ℤ)
      → IsVersion (some redis) tenant_id resource w v
      → 0 < rank w
      → v ≡ pos (rank w)
  IsVersion-rank w v h up =
      go (redis.get_int64 (version_key tenant_id resource) w).0 refl
        (subst⁻¹ (λ k. Stands (redis.get_int64 k w).0 v) (counter_of_lem tenant_id resource) h)
    where
      go :
          (r : Reply ℤ)
          → (redis.get_int64 (version_key tenant_id resource) w).0 ≡ r
          → Stands r v
          → v ≡ pos (rank w)
      go (value n) e h = h ∙ counter.get_value w n e
      go nil e h = absurd (let zero_rank = counter.get_nil w e in omega arith)
      go (failed x) e h = absurd (counter.get_answers w x e)
