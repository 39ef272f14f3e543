-- ===== src/Examples/Limits.antt =====
-- The theorem about the rate limiter, applied to a counter that stands at 30 calls.
use sociomile.Prelude.{ℕ, ◌+◌, pos, String, ◌≡◌, ◌≢◌, some}
use sociomile.Apperror.{new}
use sociomile.Exec.{Result, ok, State, pure, fail, ◌>>=◌, fail_if, catch, outside}
use sociomile.Redis.{Redis, nil}
use sociomile.Cache.{check_rate_limit, key, join}
use sociomile.Service.Webhook.{rate_key, allow_webhook}
use sociomile.Service.Webhook.Limit.{
  counter_key, LimitPassed, LimitRefused, allow_webhook_ok, allow_webhook_err,
}
use sociomile.Examples.Data.{free, error_of, returned, refused}

-- A Redis that holds one counter, which is the world.
abbrev pub redis : Redis ℕ
redis = record {
  get = λ k w. (nil, w);
  get_int64 = λ k w. (nil, w);
  set = λ k text ttl w. (ok tt, w);
  set_int = λ k n ttl w. (ok tt, w);
  incr = λ k w. (ok (pos (w + 1)), w + 1);
  expire = λ k ttl w. (ok tt, w);
}

abbrev busy : State ℕ
busy = record free { world = 30 }

abbrev limited : Result (Unit {0}) × State ℕ
limited = allow_webhook (some redis) "t" "10.0.0.1" busy

allow_webhook_err_example :
    (limited.1.db ≡ busy.db) × LimitRefused redis "t" "10.0.0.1" busy.world (error_of limited.0)
unfolding allow_webhook rate_key check_rate_limit key join pure fail ◌>>=◌ fail_if catch outside new
allow_webhook_err_example =
    allow_webhook_err redis "t" "10.0.0.1" busy (error_of limited.0) limited.1 (refused limited tt)

abbrev tenant : String
tenant = "t"

abbrev let_through : Result (Unit {0}) × State ℕ
let_through = allow_webhook (some redis) "t" "10.0.0.1" free

allow_webhook_ok_example :
    (let_through.1.db ≡ free.db)
    × (tenant ≢ "")
    × LimitPassed redis (counter_key "t" "10.0.0.1") free.world
unfolding allow_webhook rate_key check_rate_limit key join pure fail ◌>>=◌ fail_if catch outside new
allow_webhook_ok_example =
    allow_webhook_ok redis "t" "10.0.0.1" free let_through.1 (returned tt let_through tt)
