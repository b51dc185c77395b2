-- ===== src/Migrations/Environment.antt =====
-- alembic/env.py: which database the migrations run on, and how they are run. Alembic's context and
-- SQLAlchemy's engines are parameters.
use ai_compliance_orquestrat.Errors.{Result, Error, ok, err}
use ai_compliance_orquestrat.Migrations.Statements.{Catalog}
use ai_compliance_orquestrat.Settings.{Settings, migration_database_url}
use ai_compliance_orquestrat.Prelude.{
  Bool, List, Option, String, ℕ, ◌+◌, ◌-◌, ◌==◌, ◌∷◌, ◌++◌, [], ◌≡◌, if◌then◌else◌, none, some,
  eq_iff, arith,
}

-- an option of a section
unfoldable pub option_of : String → List (String × String) → Option String
option_of key [] = none
option_of key ((k, v) ∷ rest) = if k == key then some v else option_of key rest

-- `configuration[key] = value`
unfoldable pub set_option : String → String → List (String × String) → List (String × String)
set_option key value [] = (key, value) ∷ []
set_option key value ((k, v) ∷ rest) =
    let others = set_option key value rest in
    if k == key then (k, value) ∷ rest else (k, v) ∷ others

pub option_of-set_option :
    (key value : String) (section : List (String × String))
    → option_of key (set_option key value section) ≡ some value
unfolding option_of set_option
option_of-set_option key value [] = ground (arith, eq_iff key key)
option_of-set_option key value ((k, v) ∷ rest) = ground (arith, option_of-set_option key value rest)

-- `alembic.context` and `async_engine_from_config`, with the settings of the process.
pub record Alembic : Type 0 where
  pub settings : Settings
  -- `config.get_main_option("sqlalchemy.url")`
  pub main_option : Option String
  -- `config.get_section(config.config_ini_section, {})`
  pub section : List (String × String)
  pub is_offline_mode : Bool
  -- the URL of the engine that `async_engine_from_config` makes of a configuration
  pub engine_url : List (String × String) → String
  -- `context.run_migrations()` on a connection
  pub run_migrations : Catalog → Result Catalog
  -- the same without a connection: the SQL script for a URL
  pub write_script : String → Result String
  -- `with context.begin_transaction(): …` on a connection
  pub transaction : (Catalog → Result Catalog) → Catalog → Result (Unit {0}) × Catalog

-- What Alembic and SQLAlchemy document: an engine is made for the configuration's `sqlalchemy.url`,
-- and a transaction is committed at its end, or rolled back if an exception leaves it.
pub record AlembicLaws (a : Alembic) : Type 0 where
  pub configured :
      (configuration : List (String × String)) (url : String)
      → option_of "sqlalchemy.url" configuration ≡ some url
      → a.engine_url configuration ≡ url
  pub commits :
      (f : Catalog → Result Catalog) (c d : Catalog) → f c ≡ ok d → a.transaction f c ≡ (ok tt, d)
  pub rolls_back :
      (f : Catalog → Result Catalog) (c : Catalog) (e : Error)
      → f c ≡ err e
      → a.transaction f c ≡ (err e, c)

-- The databases by their URLs, what the process holds open, and the scripts it has written.
pub record Deployment : Type 0 where
  pub database : String → Catalog
  pub connections : ℕ
  pub engines : ℕ
  pub scripts : List String

module _ (a : Alembic) where
  unfoldable pub database_url : String
  unfolding migration_database_url
  database_url = migration_database_url a.settings a.main_option

  unfoldable pub run_migrations_offline : Deployment → Result (Unit {0}) × Deployment
  unfolding database_url
  run_migrations_offline s = elim (a.write_script database_url) [
    | ok script ↦ (ok tt, record s { scripts = s.scripts ++ script ∷ [] })
    | err e ↦ (err e, s)
  ]

  -- on a connection to the database at the URL
  unfoldable pub do_run_migrations : String → Deployment → Result (Unit {0}) × Deployment
  do_run_migrations url s =
      let (r, after) = a.transaction a.run_migrations (s.database url) in
      (r, record s { database = λ u. if u == url then after else s.database u })

  -- `await connectable.dispose()` is reached only if nothing was raised
  unfoldable pub dispose : Result (Unit {0}) → Deployment → Result (Unit {0}) × Deployment
  dispose (ok tt) s = (ok tt, record s { engines = s.engines - 1 })
  dispose (err e) s = (err e, s)

  unfoldable pub run_migrations_online : Deployment → Result (Unit {0}) × Deployment
  unfolding database_url do_run_migrations dispose
  run_migrations_online s =
      let configuration = set_option "sqlalchemy.url" database_url a.section in
      let url = a.engine_url configuration in
      let (r, s') =
        do_run_migrations url
          (record s { engines = s.engines + 1; connections = s.connections + 1 }) in
      dispose r (record s' { connections = s'.connections - 1 })

  -- the end of the module
  unfoldable pub run_environment : Deployment → Result (Unit {0}) × Deployment
  unfolding run_migrations_offline run_migrations_online
  run_environment s =
      if a.is_offline_mode then run_migrations_offline s else run_migrations_online s
