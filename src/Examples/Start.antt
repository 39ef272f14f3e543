-- ===== src/Examples/Start.antt =====
-- The theorems about the start of the processes and the loop of the worker, applied: an environment, a
-- broker whose world is its open connections, and a machine whose broker stays away for a while.
use sociomile.Prelude.{
  ℕ, ◌+◌, ◌-◌, ◌<◌, ℤ, pos, String, ◌≡◌, ◌⊎◌, inl, inr, refl, sym, ap, ◌∙◌, arith, true, false,
  none, some, List, [], ◌∷◌, ◌==◌, leb, length, if◌then◌else◌, Bool-cases,
}
use sociomile.Apperror.{other}
use sociomile.Exec.{Result, ok, err, State}
use sociomile.Exec.Io.{Leads, pure, fail, ◌>>=◌, catch}
use sociomile.Redis.{nil}
use sociomile.Config.{Config, load, configured, default_ttl}
use sociomile.Config.Loaded.{IsLoaded, IsUnloaded, load_lem}
use sociomile.Broker.{Amqp, new_publisher, close, exchange_name}
use sociomile.Broker.Resources.{AmqpLaws, close-new_publisher}
use sociomile.Worker.Delivery.{IsMoved}
use sociomile.Worker.Start.{wait_for_publisher}
use sociomile.Worker.Start.Waiting.{Answers, Returns, wait_for_publisher-Returns}
use sociomile.Worker.Loop.{done, ticked, start_serving, Machine, attempts, prepare, run}
use sociomile.Worker.Loop.Runs.{IsStopped, after, start_serving_ok, run_returns}
use sociomile.Examples.Engine.{engine}
use sociomile.Examples.Engine.Laws.{engine_laws}
use sociomile.Examples.Data.{free}
use sociomile.Examples.Outbox.{codec, broker, waiting}
use sociomile.Exec.Results.{ok_injective, ok≢err}

abbrev environment : String → String
environment key = if key == "BACKEND_PORT" then "9000" else ""

abbrev duration : String → Result ℤ
duration text = err (other "invalid duration")

load_lem_example :
    ((cfg : Config) × (load environment duration ≡ ok cfg) × IsLoaded environment duration cfg)
    ⊎ IsUnloaded environment duration
load_lem_example = load_lem environment duration

-- A broker that refuses an exchange once it has two connections.
abbrev hang_up : List ℕ → List ℕ
hang_up [] = []
hang_up (c ∷ cs) = cs

abbrev two_lines : Amqp (List ℕ) ℕ ℕ
two_lines = record {
  dial = λ url w. (ok (length w), length w ∷ w);
  open_channel = λ c w. (ok c, w);
  declare_exchange = λ ch name w. (if leb (length w) 1 then ok tt else err (other "refused"), w);
  publish = λ ch exchange key p w. (ok tt, w);
  close_channel = λ ch w. (err (other "broken"), w);
  close_connection = λ c w. (ok tt, hang_up w);
}

two_lines_laws : AmqpLaws two_lines (λ w. w)
two_lines_laws = record {
  dialled = λ url w c v e.
      sym (ap (λ p. p.1) e) ∙ ap (λ x. x ∷ w) (ok_injective (length w) c (ap (λ p. p.0) e));
  dial_failed = λ url w x v e. absurd (ok≢err (length w) x (ap (λ p. p.0) e));
  channel_kept = λ c w. refl;
  declare_kept = λ ch name w. refl;
  publish_kept = λ ch exchange key p w. refl;
  close_channel_kept = λ ch w. refl;
  closed = λ c w others e. ap hang_up e;
}

close-new_publisher_example :
    Leads
      (new_publisher two_lines "amqp://broker")
      (7 ∷ [])
      (λ p v. (v ≡ p.connection ∷ 7 ∷ []) × ((close two_lines (some p) v).1 ≡ 7 ∷ []))
      (λ e v. v ≡ 7 ∷ [])
close-new_publisher_example =
    close-new_publisher two_lines (λ w. w) two_lines_laws "amqp://broker" (7 ∷ [])

start_serving_ok_example :
    ((start_serving engine none codec broker (ticked ∷ ticked ∷ done ∷ []) waiting).0
      ≡ after (ticked ∷ ticked ∷ done ∷ []))
    × IsMoved broker waiting.db
        (start_serving engine none codec broker (ticked ∷ ticked ∷ done ∷ []) waiting).1.db
start_serving_ok_example =
    start_serving_ok engine engine_laws none codec broker (ticked ∷ ticked ∷ done ∷ []) waiting

-- A broker that answers from the third round on.
abbrev late : Amqp ℕ ℕ ℕ
late = record {
  dial = λ url w. (if leb 3 w then ok w else err (other "connection refused"), w);
  open_channel = λ c w. (ok c, w);
  declare_exchange = λ ch name w. (ok tt, w);
  publish = λ ch exchange key p w. (ok tt, w);
  close_channel = λ ch w. (ok tt, w);
  close_connection = λ c w. (ok tt, w);
}

abbrev machine : Machine ℕ (Unit {0}) (Unit {0}) ℕ ℕ
machine = record {
  getenv = environment;
  parse_duration = duration;
  mysql = record {
    connect = λ dsn w. (ok tt, w);
    access = λ h w. (ok tt, w);
    limit = λ p idle most life w. (ok tt, w);
    ping = λ p timeout w. (ok tt, w);
    number = λ e. none;
  };
  gorm = λ h. engine;
  sql = λ h. record {
    create_versions = λ w. (ok tt, w);
    count_versions = λ name w. (ok 0, w);
    insert_version = λ name w. (ok tt, w);
    exec = λ statement w. (ok tt, w);
    transaction = λ m. m;
  };
  directory = record { entries = ok []; contents = λ name. err (other "no such file") };
  new_client = λ addr password. record {
    get = λ key w. (nil, w);
    get_int64 = λ key w. (nil, w);
    set = λ key value ttl w. (ok tt, w);
    set_int = λ key value ttl w. (ok tt, w);
    incr = λ key w. (ok (pos 1), w);
    expire = λ key ttl w. (ok tt, w);
  };
  codec = codec;
  amqp = late;
  surroundings = record {
    new_publisher = λ w. (err (other "none"), w);
    now = λ w. (w, w);
    log = λ line w. w;
    cancelled = λ w. (false, w + 1);
    context_error = other "context canceled";
  };
}

abbrev away : ℕ → ℕ
away w = 3 - w

attempt_lem : (url : String) (w : ℕ) → (new_publisher late url w).1 ≡ w
unfolding new_publisher pure fail ◌>>=◌ catch
attempt_lem url w = elim (Bool-cases (leb 3 w)) [ inl up ↦ rw up refl | inr down ↦ rw down refl ]

ready_lem :
    (url : String) (w : ℕ)
    → leb 3 w ≡ true
    → new_publisher late url w
      ≡ (ok (record { connection = w; channel = w; exchange = exchange_name }), w)
unfolding new_publisher pure fail ◌>>=◌ catch
ready_lem url w up = rw up refl

answers : (cfg : Config) → Answers (attempts machine cfg) away
answers cfg = record {
  ready = λ w h. (_, w, ready_lem cfg.rabbitmq_url w (ground arith));
  attempt = λ w.
      (let e : (new_publisher late cfg.rabbitmq_url w).1 ≡ w = attempt_lem cfg.rabbitmq_url w in
        rw e (omega arith));
  clock = λ w. omega arith;
  logged = λ line w. omega arith;
  passed = λ w v e. (let e' : w + 1 ≡ v = ap (λ p. p.1) e in omega arith);
}

wait_for_publisher-Returns_example :
    Returns (attempts machine (configured environment (pos 9000) default_ttl)) (
      wait_for_publisher
        (attempts machine (configured environment (pos 9000) default_ttl))
        4
        none
        0
        0)
wait_for_publisher-Returns_example =
    wait_for_publisher-Returns (attempts machine (configured environment (pos 9000) default_ttl))
      away (answers (configured environment (pos 9000) default_ttl)) 4 none 0 0 (omega arith)

near : (s : State ℕ) → away s.world < 4
near s = omega arith

run_returns_example : IsStopped machine (λ h. engine_laws) (run machine 4 (ticked ∷ done ∷ []) free)
run_returns_example =
    run_returns machine (λ h. engine_laws) away answers 4 (ticked ∷ done ∷ []) free (inr (inl refl))
      (near (prepare machine free).1)
