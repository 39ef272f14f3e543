-- ===== src/Service/Webhook/Limit.antt =====
-- backend/internal/service/conversation_service.go: when `AllowWebhook` refuses a call.
use mathlib.Core.Bool.{false≢true}
use sociomile.Prelude.{
  ℕ, ℤ, pos, negsuc, String, ◌≡◌, ◌≢◌, ◌⊎◌, ◌<◌, ◌≤◌, inl, inr, refl, sym, ◌∙◌, subst, [], ◌∷◌,
  Bool, true, false, not, some, eq_iff, arith,
}
use sociomile.Apperror.{Error, fails}
use sociomile.Exec.{ok, err, State, pure, catch}
use sociomile.Exec.Ends.{
  Ends, ends_guard, ends_guard_last, ends_pure, ends_catch, ends_ok, ends_err, ends_weaken,
}
use sociomile.Gorm.Laws.{beside}
use sociomile.Gorm.Session.Rules.{Reads, reads_seq, outside_reads}
use Prim.Native.String
use sociomile.Redis.{Redis}
use sociomile.Cache.Keys.{behind, key_lem}
use sociomile.Cache.{check_rate_limit, open_window, is_one, at_most}
use sociomile.Service.Conversation.Commit.{not-true, not-false}
use sociomile.Service.Webhook.{minute, rate_key, allow_webhook}

-- The key of the counter of a caller, with the tenant and the address in it.
abbrev pub counter_key : String → String → String
counter_key tenant_id ip =
    String.◌++◌ "sociomile" (behind ("tenant" ∷ tenant_id ∷ "webhook" ∷ "rate" ∷ ip ∷ []))

counted_under : (tenant_id ip : String) → rate_key tenant_id ip ≡ counter_key tenant_id ip
unfolding rate_key
counted_under tenant_id ip = key_lem _ _

-- What the counter of a caller says of a call: it could not be counted, or it counts `n` calls, and
-- the call is allowed up to 30 of them.
abbrev IsCounted : {W : Type 0} → Redis W → String → W → Bool → Type 0
IsCounted redis k w allowed =
    (n : ℤ) × ((w' : _) × (redis.incr k w ≡ (ok n, w'))) × (at_most n 30 ≡ allowed)

over : (n : ℤ) → at_most n 30 ≡ false → (k : ℕ) × (n ≡ pos k) × (30 < k)
over (pos k) h = (k, refl, ground arith)
over (negsuc k) h = absurd (false≢true (sym h))

-- Why a call is let through: it could not be counted, or it is one of the first 30.
pub data LimitPassed {W : Type 0} (redis : Redis W) (k : String) (w : W) : Type 0 where
  uncounted : (x : Error) (w' : W) → redis.incr k w ≡ (err x, w') → LimitPassed redis k w
  within :
      (n : ℤ) (w' : W)
      → redis.incr k w ≡ (ok n, w')
      → ((m : ℕ) → n ≡ pos m → m ≤ 30)
      → LimitPassed redis k w

few : (n : ℤ) → at_most n 30 ≡ true → (m : ℕ) → n ≡ pos m → m ≤ 30
few n h m e =
    (let h' : at_most (pos m) 30 ≡ true = subst (λ x. at_most x 30 ≡ true) e h in ground arith)

first_one : (n : ℤ) → is_one n ≡ true → at_most n 30 ≡ true
first_one (pos n) h = ground arith
first_one (negsuc n) h = refl

module _ {W : Type 0} (redis : Redis W) (k : String) (s : State W) where
  window_reads :
      (b : Bool) (w : W)
      → Reads (open_window redis k minute b) (beside s w) (λ u. Unit) (λ e. b ≡ true)
  window_reads true w =
      outside_reads (redis.expire k minute) (beside s w) (λ u w e. tt) (λ e w h. refl)
  window_reads false w = record { reads = ends_pure tt (refl, tt) }

  limit_reads :
      Reads
        (check_rate_limit (some redis) k 30 minute)
        s
        (IsCounted redis k s.world)
        (λ e. LimitPassed redis k s.world)
  unfolding check_rate_limit
  limit_reads = record {
    reads =
        reads_seq _ _
          (outside_reads (redis.incr k) s {P = λ n. (w' : _) × (redis.incr k s.world ≡ (ok n, w'))}
            {F = λ e. LimitPassed redis k s.world} (λ n w e. (w, e)) (λ e w h. uncounted e w h))
          (λ n w counted.
            reads_seq _ _ (window_reads (is_one n) w)
              (λ u w x. ends_pure _ (refl, (n, counted, refl)))
              (λ e w one. (refl, within n counted.0 counted.1 (few n (first_one n one)))))
          (λ e w passed. (refl, passed));
  }

-- Why a call is refused.
pub data LimitRefused {W : Type 0} (redis : Redis W) (tenant_id ip : String) (w : W) (e : Error)
    : Type 0 where
  no_tenant :
      tenant_id ≡ ""
      → e ≡ fails 400 "invalid_tenant" "tenant_id is required"
      → LimitRefused redis tenant_id ip w e
  exceeded :
      (n : ℕ) (w' : W)
      → redis.incr (counter_key tenant_id ip) w ≡ (ok (pos n), w')
      → 30 < n
      → e ≡ fails 429 "rate_limited" "webhook rate limit exceeded"
      → LimitRefused redis tenant_id ip w e

module _ {W : Type 0} (redis : Redis W) (tenant_id ip : String) (s : State W) where
  allow_ends :
      Ends
        (allow_webhook (some redis) tenant_id ip)
        s
        (λ u s'.
          (s'.db ≡ s.db) × (tenant_id ≢ "") × LimitPassed redis (rate_key tenant_id ip) s.world)
        (λ e s'. (s'.db ≡ s.db) × LimitRefused redis tenant_id ip s.world e)
  unfolding allow_webhook
  allow_ends =
      ends_guard _ _ _ (λ empty. (refl, no_tenant ((eq_iff _ _).0 empty) refl))
        (λ named.
          reads_seq _ _ counted
            (λ allowed w c.
              ends_weaken _ (ends_guard_last (not allowed) _ (beside s w))
                (λ u s' p.
                  (p.0, (λ e. false≢true (sym named ∙ (eq_iff _ _).1 e)), passed allowed c p.1))
                (λ e s' p. (p.0, refused allowed e c p.1.0 p.1.1)))
            (λ e w x. absurd x))
    where
      counted :
          Reads
            (catch
              (check_rate_limit (some redis) (rate_key tenant_id ip) 30 minute)
              (λ e. pure true))
            s
            (λ allowed.
              ((allowed ≡ true) × LimitPassed redis (rate_key tenant_id ip) s.world)
              ⊎ IsCounted redis (rate_key tenant_id ip) s.world allowed)
            (λ e. ⊥)
      counted = record {
        reads =
            ends_catch _ _ (limit_reads redis (rate_key tenant_id ip) s).reads
              (λ b s' p. (p.0, inr p.1)) (λ e s' p. ends_pure true (p.0, inl (refl, p.1)));
      }

      passed :
          (allowed : Bool)
          → ((allowed ≡ true) × LimitPassed redis (rate_key tenant_id ip) s.world)
            ⊎ IsCounted redis (rate_key tenant_id ip) s.world allowed
          → not allowed ≡ false
          → LimitPassed redis (rate_key tenant_id ip) s.world
      passed allowed (inl (yes_it, p)) on = p
      passed allowed (inr (n, (w', run), fits)) on =
          within n w' run (few n (fits ∙ not-false allowed on))

      refused :
          (allowed : Bool) (e : Error)
          → ((allowed ≡ true) × LimitPassed redis (rate_key tenant_id ip) s.world)
            ⊎ IsCounted redis (rate_key tenant_id ip) s.world allowed
          → not allowed ≡ true
          → e ≡ fails 429 "rate_limited" "webhook rate limit exceeded"
          → LimitRefused redis tenant_id ip s.world e
      refused allowed e (inl (yes_it, p)) off same =
          absurd (false≢true (sym (not-true allowed off) ∙ yes_it))
      refused allowed e (inr (n, (w', run), fits)) off same =
          let (k, is_pos, many) = over n (fits ∙ not-true allowed off) in
          exceeded k w'
            (subst (λ key. redis.incr key s.world ≡ (ok (pos k), w')) (counted_under tenant_id ip)
              (run ∙ (λ i. (ok (is_pos i), w'))))
            many same

  -- The rate limiter lets a call through only for a tenant that is not blank, and only if Redis could
  -- not count it, or the counter of the tenant and the address, with this call, is at most 30. No
  -- table changes.
  pub allow_webhook_ok :
      (s' : State W)
      → allow_webhook (some redis) tenant_id ip s ≡ (ok tt, s')
      → (s'.db ≡ s.db) × (tenant_id ≢ "") × LimitPassed redis (counter_key tenant_id ip) s.world
  allow_webhook_ok s' e =
      let (same, given, passed) = ends_ok allow_ends tt s' e in
      (same, given, subst (λ k. LimitPassed redis k s.world) (counted_under tenant_id ip) passed)

  -- The rate limiter changes no table. It refuses a call only if its tenant is blank (400), or if the
  -- counter of the tenant and the address, with this call, is over 30 (429); an error of Redis lets
  -- the call through.
  pub allow_webhook_err :
      (e : Error) (s' : State W)
      → allow_webhook (some redis) tenant_id ip s ≡ (err e, s')
      → (s'.db ≡ s.db) × LimitRefused redis tenant_id ip s.world e
  allow_webhook_err e s' h = ends_err allow_ends e s' h
