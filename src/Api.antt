-- ===== src/Api.antt =====
-- backend/cmd/api/main.go: `run`, from the configuration to the listening server.
pub mod Runs
use Prim.Native.String
use sociomile.Prelude.{
  ℕ, ℤ, String, Option, none, some, List, [], ◌∷◌, ◌==◌, decimal, if◌then◌else◌,
}
use sociomile.Apperror.{other}
use sociomile.Model.{Conversation, Ticket}
use sociomile.Exec.{Result, ok, err, State, Exec, pure, fail, ◌>>=◌, ◌>>◌, outside}
use sociomile.Gorm.{Gorm}
use sociomile.Redis.{Redis, Codec}
use sociomile.Auth.{Jwt, Compare, lift}
use sociomile.Config.{Config, load}
use sociomile.Platform.{Mysql, open_database, open_redis}
use sociomile.Platform.Migrations.{Sql, Directory, apply_migrations}
use sociomile.Seeds.Columns.{Clauses}
use sociomile.Seeds.Load.{load_demo_data}
use sociomile.Http.Routes.{Server}

-- The libraries and the machine that `run` is given; `H` is `*gorm.DB`.
pub record Machine (W H P : Type 0) : Type 1 where
  pub getenv : String → String
  pub parse_duration : String → Result ℤ
  pub mysql : Mysql W H P
  pub gorm : H → Gorm W
  pub sql : H → Sql W
  pub clauses : H → Clauses W
  pub directory : Directory
  pub generate_from_password : String → W → Result String × W
  pub new_client : String → String → Redis W
  pub jwt : Jwt
  pub compare : Compare
  pub heartbeat : Codec ℕ
  pub conversation_codec : Codec (List Conversation × ℕ)
  pub ticket_codec : Codec (List Ticket × ℕ)
  pub new_uuid : W → String × W
  -- `app.Listen(address)`, which returns when the server is over
  pub listen : Server W → String → Exec W (Unit {0})

module _ {W H P : Type 0} (m : Machine W H P) where
  -- The steps before the command is looked at.
  unfoldable pub start : Exec W (Config × H)
  start = do
    cfg ← lift (load m.getenv m.parse_duration)
    db ← outside (open_database m.mysql cfg)
    outside (apply_migrations (m.sql db) m.directory)
    pure (cfg, db)

  -- The services and handlers, and the router made of them.
  abbrev pub server : Config × H → Server W
  server started = record {
    gorm = m.gorm started.1;
    cache = open_redis m.new_client started.0;
    jwt = m.jwt;
    compare = m.compare;
    secret = started.0.jwt_secret;
    ttl = started.0.access_token_ttl;
    port = started.0.port;
    reporter = some m.heartbeat;
    conversation_codec = m.conversation_codec;
    ticket_codec = m.ticket_codec;
    new_uuid = m.new_uuid;
  }

  abbrev pub demo : H → Exec W (Unit {0})
  demo db = load_demo_data (m.clauses db) m.generate_from_password

  -- What follows the migrations without a command.
  unfoldable pub serve : Config × H → Exec W (Unit {0})
  serve started =
      (if started.0.app_env == "development" then demo started.1 else pure tt)
      >> m.listen (server started) (String.◌++◌ ":" (decimal started.0.port))

  -- The `switch` on `os.Args[1]`.
  unfoldable pub command : String → H → Exec W (Unit {0})
  command name db =
      if name == "migrate"
      then pure tt
      else if name == "seed"
      then demo db
      else fail (other (String.◌++◌ "unknown command: " name))

  abbrev pub with_arguments : List String → Config × H → Exec W (Unit {0})
  with_arguments [] started = serve started
  with_arguments (name ∷ rest) started = command name started.1

  -- `run`, of the arguments behind the name of the program
  unfoldable pub run : List String → Exec W (Unit {0})
  run arguments = start >>= λ started. with_arguments arguments started
