-- ===== src/Lib.antt =====
-- Sociomile, a help desk for several tenants: the Go backend under backend/.
--
-- Messages come in by a webhook, agents answer them in conversations, conversations become tickets,
-- and each change appends an activity row and an outbox event in the same database transaction; a
-- worker publishes the events to a broker. The parts and their files:
--
--   Model, Model/Schema       backend/internal/model/models.go: a record for each struct; the tables (Db) are
--                             lists of rows; what GORM reads from the field tags by reflection.
--   Apperror                  backend/internal/apperror/apperror.go
--   Exec, Exec/Ends, Exec/Results  code that reads and writes the database and may fail: State is the
--                             tables and a world (connections, clock, Redis, broker), an action is a
--                             function from a state to a result and a state. Ends m s Q E says how
--                             the action m ends from s, with a rule for each way to build an action.
--   Gorm, Gorm/*              the database handle. Gorm is a parameter with an operation for each
--                             kind of call; GormLaws are the named hypotheses, as GORM and MySQL
--                             document them: what First, Find, Count, Preload, Create, Save and
--                             Updates do to the rows of a table, that a transaction which fails
--                             changes nothing, and that one which succeeds has run its body. Any of
--                             these calls may fail. Save takes a foreign key from the association
--                             that is loaded, as GORM does; where the key is a pointer, it writes through
--                             it, which AssignConversation reads back (through). Gorm/Paged: the rows
--                             of a page are rows of its table.
--   Exec/Grows, Exec/Marks, Gorm/Grows
--                             code during which a counter of Redis only grows; GormGrows is the hypothesis
--                             that no call of GORM takes one back.
--   Repository, Repository/*  backend/internal/repository/store.go: a definition for each method.
--   Redis, Cache, Cache/*     backend/internal/cache/cache.go, over a Redis handle that is a parameter.
--                             Counter is what Redis documents of INCR and GET, while it answers.
--   Auth                      backend/internal/auth/token.go; JWT and bcrypt are parameters.
--   Service/Events            backend/internal/service/events.go
--   Service/Conversation, Service/Webhook
--                             backend/internal/service/conversation_service.go
--   Service/Ticket            backend/internal/service/ticket_service.go
--   Service/Listing, Service/Paging
--                             the lists of both services, with their cache, and the page they ask for.
--                             Service/Listing/Asked says apart from the code which rows, page and key
--                             a list is asked for with.
--   Service/Grows, Service/Marks
--                             how each method that writes treats the versions of the cached lists.
--   Service/Auth              backend/internal/service/auth_service.go and user_service.go
--   Http, Http/Access         backend/internal/http: middleware, responses, handlers, protected routes.
--   Http/Lists, Http/Lists/Bounds
--                             the handlers of the two lists, with parsePagination and Paginated.
--   Http/Routes, Http/Routes/Guarded, Http/Routes/Posted
--                             backend/internal/http/router/router.go: the routes as data, with their roles
--                             and handlers, behind RequestID and CORS.
--   Strconv, Strconv/*        strconv.Atoi, with the bounds of a 64-bit int, and the text of a number.
--   Config, Config/Loaded     backend/internal/config/config.go
--   Exec/Io                   code that only calls the world outside, where no table of the model is at
--                             stake; Leads is for it what Ends is for an action.
--   Platform                  backend/internal/platform: connections and the settings of the logger.
--   Platform/Migrations, Platform/Migrations/*
--                             backend/internal/platform/database.go: ApplyMigrations. The database is the
--                             statements that it is given (Sql), with SqlLaws on the rows of
--                             schema_migrations and on the statements that have run.
--   Platform/Sort, Platform/Names
--                             sort.Strings and the order of names.
--   Broker, Broker/Resources  backend/internal/events/publisher.go, over the RabbitMQ client (Amqp).
--   Seeds, Seeds/*            backend/seeds/default.go: the demo data and its loading.
--   Api, Api/Runs             backend/cmd/api/main.go: run, from the configuration to the server.
--   Worker, Worker/Progress, Worker/Delivery, Worker/Attempts, Worker/Tries
--                             backend/cmd/worker/main.go: a tick, with the heartbeat of
--                             backend/internal/health.
--   Worker/Start, Worker/Start/Waiting
--                             waitForPublisher.
--   Worker/Loop, Worker/Loop/Runs
--                             run: the start, the loop over what select receives, and the end.
--   Health, Health/Snapshot   backend/internal/health/health.go: the report of the API.
--   Invariant, Invariant/*    across the services: requests, the states that they reach, what stays
--                             true of the tables, and what another tenant sees. Invariant/Lifecycle is
--                             the abstract life of a conversation, a machine of three phases, and
--                             Invariant/Lifecycle/Simulation the runs of it;
--                             Invariant/Fresh is about the lists that are cached.
--   Examples, Examples/*      a database engine in memory for which GormLaws is proved, small
--                             databases, and each theorem applied to a run.
--
-- A method whose body runs in a transaction is two definitions: the body, named with _tx, and the
-- method. The theorems about a method come in pairs, _ok for a run that returns a value and _err for
-- one that returns an error, whatever the cache and the world do. Where the code makes one refusal of
-- every error of a query, the theorem names the call of GORM that was answered with that error
-- (IsMissed), which says that no row matches where it is ErrRecordNotFound.
--
-- Texts are compared exactly, as a binary collation does. Times are natural numbers of nanoseconds.
-- An event keeps the value that json.Marshal is given, not its text. A struct field that GORM fills
-- by Preload is an option, none for what is not loaded. Transactions run one after the other: what
-- isolation levels let two of them see of each other is not modelled.
--
-- Fuel: the decimal digits of an int have 20, the most that there are; waitForPublisher has as much as
-- it is given, and is proved to return where that is more than the rounds for which the broker stays
-- away. The loop of the worker is over the list of what its select receives; other loops are over lists.
-- A text of an error that wraps another one is kept, but not the error that it wraps, which only
-- response.Error looks at, and none of these reach it.
--
-- Not modelled: logging, but for the lines of waitForPublisher and the settings of the logger; main of
-- both programs, which logs an error and exits; which route a method and a path are, and the Swagger
-- page, which are those of Fiber; time.ParseDuration, which computes fractions in floating point and is
-- a parameter; the SQL of the migrations; and the frontend.
pub mod Prelude
pub mod Strconv
pub mod Apperror
pub mod Model
pub mod Exec
pub mod Gorm
pub mod Repository
pub mod Redis
pub mod Cache
pub mod Auth
pub mod Service
pub mod Http
pub mod Platform
pub mod Config
pub mod Broker
pub mod Seeds
pub mod Api
pub mod Worker
pub mod Health
pub mod Invariant
pub mod Examples
