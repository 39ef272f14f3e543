-- ===== src/Api/Runs.antt =====
-- backend/cmd/api/main.go: what a run that ends well has done.
use Prim.Native.String
use mathlib.Core.Bool.{false≢true}
use sociomile.Prelude.{
  String, ◌≡◌, ◌≢◌, ◌⊎◌, inl, inr, refl, sym, ap, ◌∙◌, subst, subst⁻¹, List, [], ◌∷◌, ◌==◌, eq_iff,
  Bool-cases, if◌then◌else◌, decimal,
}
use sociomile.Exec.{Result, ok, err, State, Exec, pure, fail, ◌>>=◌, continue, outside}
use sociomile.Auth.{lift}
use sociomile.Config.{Config, load}
use sociomile.Platform.{open_database}
use sociomile.Platform.Migrations.{Entry, apply_migrations, migration_files}
use sociomile.Platform.Migrations.Plan.{View, SqlLaws, IsMigrated}
use sociomile.Platform.Migrations.Applied.{apply_migrations_ok}
use sociomile.Seeds.Loaded.{IsClear, IsLoaded, load_demo_data_ok}
use sociomile.Seeds.Upserted.{ClausesLaws}
use sociomile.Api.{Machine, start, server, demo, serve, command, with_arguments, run}
use sociomile.Exec.Results.{ok_injective, ok≢err}

module _ {W : Type 0} where
  -- The two parts of a chain that ended well.
  sequenced :
      {A B : Type 0} (m : Exec W A) (f : A → Exec W B) (s : State W) (b : B) (s' : State W)
      → (m >>= f) s ≡ (ok b, s')
      → (a : A) × (t : State W) × (m s ≡ (ok a, t)) × (f a t ≡ (ok b, s'))
  unfolding ◌>>=◌
  sequenced {A} {B} m f s b s' e = go (m s).0 (m s).1 refl e
    where
      go :
          (r : Result A) (t : State W)
          → m s ≡ (r, t)
          → ◌≡◌ {A = Result B × State W} (continue f r t) (ok b, s')
          → (a : A) × (t : State W) × (m s ≡ (ok a, t)) × (f a t ≡ (ok b, s'))
      go (ok a) t same e = (a, t, same, e)
      go (err x) t same e = absurd (ok≢err b x (sym (ap (λ p. p.0) e)))

  lifted :
      {A : Type 0} (r : Result A) (s : State W) (a : A) (s' : State W)
      → lift r s ≡ (ok a, s')
      → (r ≡ ok a) × (s ≡ s')
  unfolding pure fail
  lifted (ok b) s a s' e = (ap (λ p. p.0) e, ap (λ p. p.1) e)
  lifted (err x) s a s' e = absurd (ok≢err a x (sym (ap (λ p. p.0) e)))

  came :
      {A : Type 0} (f : W → Result A × W) (s : State W) (a : A) (s' : State W)
      → outside f s ≡ (ok a, s')
      → (f s.world ≡ (ok a, s'.world)) × (s'.db ≡ s.db)
  unfolding outside
  came f s a s' e = (λ i. ((e i).0, (e i).1.world), ap (λ p. p.1.db) (sym e))

module _ {W H P : Type 0} (m : Machine W H P) (view : View W) where
  -- The start: the configuration that the environment gives, the database that it names, with its
  -- migrations applied, and no table of the model touched.
  pub record IsStarted (cfg : Config) (db : H) (s s' : State W) : Type 0 where
    pub loaded : load m.getenv m.parse_duration ≡ ok cfg
    pub opened : W
    pub connected : open_database m.mysql cfg s.world ≡ (ok db, opened)
    pub entries : List Entry
    pub listed : m.directory.entries ≡ ok entries
    pub migrated : IsMigrated view m.directory (migration_files entries) opened s'.world
    pub same_tables : s'.db ≡ s.db

  -- What follows: a command loads the demo data or does nothing more; without one the server listens,
  -- in development once the demo data is there.
  pub data Did (arguments : List String) (cfg : Config) (db : H) (t s' : State W) : Type 0 where
    migrated :
        (rest : List String) → arguments ≡ "migrate" ∷ rest → t ≡ s' → Did arguments cfg db t s'
    seeded :
        (rest : List String)
        → arguments ≡ "seed" ∷ rest
        → (hash : String) → IsLoaded hash t.db s'.db
        → Did arguments cfg db t s'
    listened :
        arguments ≡ []
        → (u : State W)
        → ((cfg.app_env ≡ "development") × ((hash : String) × IsLoaded hash t.db u.db))
          ⊎ ((cfg.app_env ≢ "development") × (t ≡ u))
        → m.listen (server m (cfg, db)) (String.◌++◌ ":" (decimal cfg.port)) u ≡ (ok tt, s')
        → Did arguments cfg db t s'

  pub record HasRun (arguments : List String) (s s' : State W) : Type 0 where
    pub cfg : Config
    pub db : H
    pub between : State W
    pub started : IsStarted cfg db s between
    pub did : Did arguments cfg db between s'

  module _ (sql_laws : (h : H) → SqlLaws (m.sql h) view)
      (clauses_laws : (h : H) → ClausesLaws (m.clauses h)) where
    start_ok :
        (cfg : Config) (db : H) (s s' : State W)
        → start m s ≡ (ok (cfg, db), s')
        → IsStarted cfg db s s'
    unfolding start pure
    start_ok cfg db s s' e =
        let (cfg', t, loads, rest) =
          sequenced (lift (load m.getenv m.parse_duration)) _ s (cfg, db) s' e in
        let (loaded, stay) = lifted (load m.getenv m.parse_duration) s cfg' t loads in
        let (db', u, opens, rest') =
          sequenced (outside (open_database m.mysql cfg')) _ t (cfg, db) s' rest in
        let (connected, same_u) = came (open_database m.mysql cfg') t db' u opens in
        let (x, v, migrates, rest'') =
          sequenced (outside (apply_migrations (m.sql db') m.directory)) _ u (cfg, db) s' rest' in
        let (run, same_v) = came (apply_migrations (m.sql db') m.directory) u x v migrates in
        let pair = ok_injective (cfg', db') (cfg, db) (ap (λ p. p.0) rest'') in
        let last : v ≡ s' = ap (λ p. p.1) rest'' in
        let (entries, listed, done) =
          apply_migrations_ok (m.sql db') view (sql_laws db') m.directory u.world v.world run in
        record {
          loaded = loaded ∙ ap (λ p. ok p.0) pair;
          opened = u.world;
          connected =
              subst⁻¹ (λ w. open_database m.mysql cfg w ≡ (ok db, u.world))
                (ap (λ (z : State W). z.world) stay)
                (subst (λ (p : Config × H). open_database m.mysql p.0 t.world ≡ (ok p.1, u.world))
                  pair connected);
          entries = entries;
          listed = listed;
          migrated =
              subst
                (λ (z : State W).
                  IsMigrated view m.directory (migration_files entries) u.world z.world)
                last done;
          same_tables =
              ap (λ (z : State W). z.db) (sym last)
              ∙ (same_v ∙ (same_u ∙ ap (λ (z : State W). z.db) (sym stay)));
        }

    Did-command :
        (name : String) (rest : List String) (cfg : Config) (db : H) (t s' : State W)
        → IsClear t.db
        → command m name db t ≡ (ok tt, s')
        → Did (name ∷ rest) cfg db t s'
    unfolding command pure fail
    Did-command name rest cfg db t s' free e = elim (Bool-cases (name == "migrate")) [
      | inl migrate ↦
          migrated rest (ap (λ x. x ∷ rest) ((eq_iff _ _).0 migrate))
            (ap (λ p. p.1) (rw migrate at e))
      | inr other ↦ elim (Bool-cases (name == "seed")) [
        | inl seed ↦
            (let (hash, l) =
                load_demo_data_ok (m.clauses db) (clauses_laws db) m.generate_from_password t s'
                  free (rw (other, seed) at e) in
              seeded rest (ap (λ x. x ∷ rest) ((eq_iff _ _).0 seed)) hash l)
        | inr unknown ↦ absurd (ok≢err tt _ (sym (ap (λ p. p.0) (rw (other, unknown) at e))))
      ]
    ]

    Did-serve :
        (cfg : Config) (db : H) (t s' : State W)
        → IsClear t.db
        → serve m (cfg, db) t ≡ (ok tt, s')
        → Did [] cfg db t s'
    unfolding serve pure
    Did-serve cfg db t s' free e =
        let (x, u, first, listens) =
          sequenced (if cfg.app_env == "development" then demo m db else pure tt) _ t tt s' e in
        elim (Bool-cases (cfg.app_env == "development")) [
          | inl dev ↦
              listened refl u
                (inl (
                  (eq_iff _ _).0 dev,
                  load_demo_data_ok (m.clauses db) (clauses_laws db) m.generate_from_password t u
                      free (rw dev at first),
                ))
                listens
          | inr other ↦
              listened refl u
                (inr (
                  λ e'. false≢true (sym other ∙ (eq_iff _ _).1 e'),
                  ap (λ p. p.1) (rw other at first),
                ))
                listens
        ]

    did :
        (arguments : List String) (cfg : Config) (db : H) (t s' : State W)
        → IsClear t.db
        → with_arguments m arguments (cfg, db) t ≡ (ok tt, s')
        → Did arguments cfg db t s'
    did [] cfg db t s' free e = Did-serve cfg db t s' free e
    did (name ∷ rest) cfg db t s' free e = Did-command name rest cfg db t s' free e

    -- Where no row of the tables is the same as a demo record in a unique column but not in its
    -- identifier, a run that ends without an error has loaded the configuration and applied the
    -- migrations to the database that it opened. Then `migrate` has done nothing more, `seed` has
    -- loaded the demo data, no other command is known, and without a command the server has
    -- listened at the port of the configuration, in development after the demo data was loaded, and
    -- elsewhere with no such data.
    pub run_ok :
        (arguments : List String) (s s' : State W)
        → IsClear s.db
        → run m arguments s ≡ (ok tt, s')
        → HasRun arguments s s'
    unfolding run
    run_ok arguments s s' free e =
        let (started, t, starts, rest) =
          sequenced (start m) (λ started. with_arguments m arguments started) s tt s' e in
        let begun = start_ok started.0 started.1 s t starts in
        record {
          cfg = started.0;
          db = started.1;
          between = t;
          started = begun;
          did =
              did arguments started.0 started.1 t s' (subst⁻¹ IsClear begun.same_tables free) rest;
        }
