-- ===== src/Examples/Programs.antt =====
-- The theorems about the demo data and the program of the API, applied to the database of the examples of
-- the migrations.
use sociomile.Prelude.{
  ℕ, ◌+◌, pos, String, ◌≡◌, refl, sym, ap, none, [], ◌==◌, if◌then◌else◌, trim_space,
}
use sociomile.Apperror.{other}
use sociomile.Model.{Db}
use sociomile.Exec.{Result, ok, err, State, pure, fail, ◌>>=◌, catch, outside}
use sociomile.Exec.Io.{Io, wrapped}
use sociomile.Exec.Io
use sociomile.Gorm.{Gorm}
use sociomile.Redis.{nil}
use sociomile.Config.{load, get_env, get_env_int, get_env_duration, configured}
use sociomile.Platform.{open_database}
use sociomile.Platform.Names.{at_most, has_suffix}
use sociomile.Platform.Sort.{sort}
use sociomile.Platform.Migrations.{
  migration_files, run_migration, apply_statement, apply_file, apply_files, apply_migrations,
}
use sociomile.Seeds.Columns.{Clauses}
use sociomile.Seeds.Load.{upsert, load_demo_data}
use sociomile.Seeds.Rows.{put_rows}
use sociomile.Seeds.Loaded.{IsClear, IsLoaded, load_demo_data_ok}
use sociomile.Seeds.Upserted.{ClausesLaws}
use sociomile.Api.{Machine, start, serve, command, run}
use sociomile.Api.Runs.{HasRun, run_ok}
use sociomile.Examples.Engine.{engine}
use sociomile.Examples.Access.{jwt}
use sociomile.Examples.Lists.{codec}
use sociomile.Examples.Migrations.{Disk, sql, view, sql_laws, good, empty}
use sociomile.Examples.Outbox
use sociomile.Exec.Results.{ok_injective}

abbrev pass : {A : Type 0} → Disk → Result A × ℕ → Result A × Disk
pass d (r, n) = (r, record d { clock = n })

abbrev gorm : Gorm Disk
gorm = record {
  first = λ q rows d. pass d (engine.first q rows d.clock);
  find = λ q p rows d. pass d (engine.find q p rows d.clock);
  count = λ p rows d. pass d (engine.count p rows d.clock);
  preload = λ id fk rows d. pass d (engine.preload id fk rows d.clock);
  create = λ sc r rows d. pass d (engine.create sc r rows d.clock);
  save = λ sc r rows d. pass d (engine.save sc r rows d.clock);
  updates = λ p f rows d. pass d (engine.updates p f rows d.clock);
  transaction = λ m. m;
  now = λ d. (d.clock, record d { clock = d.clock + 1 });
}

abbrev clauses : Clauses Disk
clauses = record { create = λ c values rows d. (ok (put_rows c d.clock values rows), d) }

clauses_laws : ClausesLaws clauses
clauses_laws = record {
  put = λ c values rows d rows' d' apart free e.
      (d.clock, sym (ok_injective (put_rows c d.clock values rows) rows' (ap (λ p. p.0) e)));
}

abbrev nothing : Db
nothing = record {
  tenants = [];
  users = [];
  channels = [];
  customers = [];
  conversations = [];
  messages = [];
  tickets = [];
  activity_logs = [];
  outbox_events = [];
}

abbrev fresh : State Disk
fresh = record { db = nothing; world = empty }

abbrev hashed : String → Disk → Result String × Disk
hashed password d = (ok "hash", d)

abbrev result_state : {W : Type 0} → Result (Unit {0}) × State W → State W
result_state r = r.1

nothing-IsClear : IsClear nothing
nothing-IsClear = record {
  tenants = refl;
  users = refl;
  channels = refl;
  customers = refl;
  tickets = refl;
}

load_runs :
    load_demo_data clauses hashed fresh
    ≡ (ok tt, result_state (load_demo_data clauses hashed fresh))
unfolding load_demo_data upsert pure ◌>>=◌ outside
load_runs = refl

load_demo_data_ok_example :
    (hash : String) × IsLoaded hash nothing (result_state (load_demo_data clauses hashed fresh)).db
load_demo_data_ok_example =
    load_demo_data_ok clauses clauses_laws hashed fresh
      (result_state (load_demo_data clauses hashed fresh)) nothing-IsClear load_runs

abbrev machine : Machine Disk (Unit {0}) (Unit {0})
machine = record {
  getenv = λ key. if key == "APP_ENV" then "production" else "";
  parse_duration = λ text. err (other "invalid duration");
  mysql = record {
    connect = λ dsn w. (ok tt, w);
    access = λ h w. (ok tt, w);
    limit = λ p idle most life w. (ok tt, w);
    ping = λ p timeout w. (ok tt, w);
    number = λ e. none;
  };
  gorm = λ h. gorm;
  sql = λ h. sql;
  clauses = λ h. clauses;
  directory = good;
  generate_from_password = hashed;
  new_client = λ addr password. record {
    get = λ key w. (nil, w);
    get_int64 = λ key w. (nil, w);
    set = λ key value ttl w. (ok tt, w);
    set_int = λ key value ttl w. (ok tt, w);
    incr = λ key w. (ok (pos 1), w);
    expire = λ key ttl w. (ok tt, w);
  };
  jwt = jwt;
  compare = λ hash password. hash == password;
  heartbeat = Outbox.codec;
  conversation_codec = codec ([], 0);
  ticket_codec = codec ([], 0);
  new_uuid = λ d. ("id", d);
  listen = λ server address s. (ok tt, s);
}

run_runs : run machine [] fresh ≡ (ok tt, result_state (run machine [] fresh))
unfolding run start serve command load get_env get_env_int get_env_duration configured open_database
    apply_migrations apply_files apply_file apply_statement run_migration migration_files sort
    at_most has_suffix trim_space pure fail ◌>>=◌ catch outside Io.pure Io.fail Io.◌>>=◌ Io.catch
run_runs = refl

run_ok_example : HasRun machine view [] fresh (result_state (run machine [] fresh))
run_ok_example =
    run_ok machine view (λ h. sql_laws) (λ h. clauses_laws) [] fresh
      (result_state (run machine [] fresh)) nothing-IsClear run_runs
