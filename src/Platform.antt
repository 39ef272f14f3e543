-- ===== src/Platform.antt =====
-- backend/internal/platform: the connections and the logger. The drivers (gorm.io/gorm with
-- go-sql-driver/mysql, and redis/go-redis) are not part of the repository and are parameters.
-- `Migrations` is about the migrations.
pub mod Names
pub mod Sort
pub mod Migrations
use sociomile.Prelude.{
  ℕ, String, Bool, true, Option, none, some, ◌==◌, eqb, equal_fold, if◌then◌else◌,
}
use sociomile.Apperror.{Error}
use sociomile.Exec.Io.{Io, pure, fail, ◌>>=◌, ◌>>◌, catch, wrapped, wrapping}
use sociomile.Config.{Config}

-- What the code calls to open a database: `H` is `*gorm.DB` and `P` is `*sql.DB`, its pool.
pub record Mysql (W H P : Type 0) : Type 0 where
  -- `gorm.Open(mysql.Open(dsn), …)`
  pub connect : String → Io W H
  -- `db.DB()`
  pub access : H → Io W P
  -- `SetMaxIdleConns`, `SetMaxOpenConns` and `SetConnMaxLifetime`, in nanoseconds
  pub limit : P → ℕ → ℕ → ℕ → Io W (Unit {0})
  -- `PingContext`, with a timeout in nanoseconds
  pub ping : P → ℕ → Io W (Unit {0})
  -- `errors.As` of a `*mysql.MySQLError`, and its `Number`
  pub number : Error → Option ℕ

abbrev pub denied : String
denied =
    "ping mysql: access denied; verify MYSQL_USER and MYSQL_PASSWORD, or recreate the local MySQL volume so the container can provision the user from env again"

abbrev pub unknown : String
unknown =
    "ping mysql: unknown database; verify MYSQL_DATABASE, or recreate the local MySQL volume so the container can provision the database from env again"

abbrev pub ping_message : Option ℕ → String
ping_message none = "ping mysql"
ping_message (some n) = if eqb n 1045 then denied else if eqb n 1049 then unknown else "ping mysql"

module _ {W H P : Type 0} (mysql : Mysql W H P) where
  -- `classifyMySQLError`
  unfoldable pub classify_mysql_error : Error → Error
  classify_mysql_error e = wrapped (ping_message (mysql.number e)) e

  -- `OpenDatabase`
  unfoldable pub open_database : Config → Io W H
  open_database cfg = do
    db ← wrapping "open mysql connection" (mysql.connect cfg.mysql_dsn)
    sql_db ← wrapping "access sql db" (mysql.access db)
    mysql.limit sql_db 5 20 1_800_000_000_000
    catch (mysql.ping sql_db 5_000_000_000) (λ e. fail (classify_mysql_error e))
    pure db

-- `OpenRedis`, over `redis.NewClient`
unfoldable pub open_redis : {R : Type 0} → (String → String → R) → Config → Option R
open_redis new_client cfg =
    if cfg.redis_addr == "" then none else some (new_client cfg.redis_addr cfg.redis_password)

-- `slog.Level`
pub data Level : Type 0 where
  debug : Level
  info : Level
  warn : Level
  error : Level

-- `parseLevel`. No character but those of ASCII becomes a letter of these words by `ToLower`, and the
-- words have no K and no S, so to compare the lower case is to compare by `equal_fold`.
unfoldable pub parse_level : String → Level
parse_level level =
    if equal_fold level "debug"
    then debug
    else if equal_fold level "warn"
    then warn
    else if equal_fold level "error"
    then error
    else info

-- What `slog.New` is given: whether the handler writes text, or JSON, and the least level.
pub record Logger : Type 0 where
  pub text : Bool
  pub level : Level

-- `NewLogger`
unfoldable pub new_logger : String → String → Logger
new_logger env level = record { text = equal_fold env "development"; level = parse_level level }
