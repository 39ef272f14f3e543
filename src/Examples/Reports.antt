-- ===== src/Examples/Reports.antt =====
-- The theorem about the health report, applied to a cache that holds an old heartbeat.
use sociomile.Prelude.{ℕ, pos, ◌≡◌, some, none}
use sociomile.Exec.{Result, ok, State, pure, fail, ◌>>=◌, catch, outside}
use sociomile.Gorm.Session.{now}
use sociomile.Redis.{Redis, value, Codec}
use sociomile.Cache.{enabled, get_json, key, join}
use sociomile.Health.{Report, unknown, heartbeat_key, worker_snapshot, snapshot}
use sociomile.Health.Snapshot.{IsReport, snapshot_ok}
use sociomile.Examples.Engine.{engine}
use sociomile.Examples.Engine.Laws.{engine_laws}
use sociomile.Examples.Data.{free, value_or, returned}
use sociomile.Examples.Limits.{redis}

abbrev beating : Redis ℕ
beating = record redis { get = λ k w. (value "7", w) }

abbrev codec : Codec ℕ
codec = record { marshal = λ n. ok "7"; unmarshal = λ text. ok 7 }

abbrev late : State ℕ
late = record free { world = 90_000_000_000 }

abbrev empty : Report
empty = record {
  status = "";
  port = pos 0;
  api = record { status = unknown; checked_at = none };
  worker = record { status = unknown; checked_at = none };
}

abbrev report_run : Result Report × State ℕ
report_run = snapshot engine (some beating) codec (pos 8080) late

snapshot_ok_example :
    (report_run.1.db ≡ late.db)
    × IsReport engine (some beating) codec (pos 8080) (value_or empty report_run.0)
unfolding snapshot worker_snapshot heartbeat_key enabled get_json key join now pure fail ◌>>=◌ catch
    outside
snapshot_ok_example =
    snapshot_ok engine engine_laws (some beating) codec (pos 8080) late
      (value_or empty report_run.0) report_run.1 (returned empty report_run tt)
