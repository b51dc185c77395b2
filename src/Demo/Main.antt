-- ===== src/Demo/Main.antt =====
-- scripts/seed_demo.py: `main`, from the parsed arguments to what it leaves. A database URL stands
-- for its database. What listens at a base URL, with its database, is part of the surroundings.
use ai_compliance_orquestrat.Planner.PolicyEvent.{contains}
use ai_compliance_orquestrat.Demo.Run.{selected_scenarios, run_scenarios}
use ai_compliance_orquestrat.DateTime.{DateTime}
use ai_compliance_orquestrat.Api.Readers.{Pydantic}
use ai_compliance_orquestrat.Text.{drop_trailing}
use ai_compliance_orquestrat.Demo.{DemoScenario, reset_database, reset_models, demo_scenarios}
use ai_compliance_orquestrat.World.{World}
use ai_compliance_orquestrat.Errors.{Result, ok, err, runtime_error}
use ai_compliance_orquestrat.Settings.{or_else, Settings}
use ai_compliance_orquestrat.Prelude.{
  String, none, List, ℕ, Option, false, if◌then◌else◌, Bool, ◌==◌, eqb, ◌||◌, some, map,
}
pub mod Effect
use ai_compliance_orquestrat.Models.{Database}

-- what `parse_args` returns
pub record Arguments : Type 0 where
  pub api_url : String
  pub database_url : Option String
  pub scenario : Option (List String)
  pub skip_reset : Bool

-- the defaults of the arguments
abbrev pub default_arguments : Arguments
default_arguments = record {
  api_url = "http://localhost:8000";
  database_url = none;
  scenario = none;
  skip_reset = false;
}

-- `choices` of `--scenario`
unfoldable pub is_choice : List DemoScenario → String → Bool
is_choice scenarios value = value == "all" || contains value (map (λ s. s.name) scenarios)

pub record Surroundings : Type 0 where
  pub databases : String → Database
  pub service_at : String → Option String
  pub tick : ℕ

abbrev pub store : String → Database → Surroundings → Surroundings
store url d s = record s { databases = λ u. if u == url then d else s.databases u }

-- `args.database_url or os.getenv("DATABASE_URL") or get_settings().database_url`
unfoldable pub target_url : Settings → Option String → Arguments → String
unfolding or_else
target_url settings environment args =
    or_else args.database_url (or_else environment settings.database_url)

-- `base_url.rstrip("/")`
unfoldable pub base_url : Arguments → String
base_url args = drop_trailing (eqb 47) args.api_url

abbrev pub Ending : Type 0
Ending = Result (Unit {0}) × Surroundings

-- what a transaction on a database leaves
abbrev pub after_transaction : String → Surroundings → Result Database → Ending
after_transaction url s (err e) = (err e, s)
after_transaction url s (ok d) = (ok tt, store url d s)

-- `reset_database`
unfoldable pub reset_at : String → Surroundings → Ending
reset_at url s = after_transaction url s (reset_database reset_models (s.databases url))

unfoldable pub reset_unless_skipped : Settings → Option String → Arguments → Surroundings → Ending
unfolding reset_at target_url
reset_unless_skipped settings environment args s =
    if args.skip_reset then (ok tt, s) else reset_at (target_url settings environment args) s

module _ ⦃w : World⦄ ⦃p : Pydantic⦄ (service : Settings) where
  -- `run_scenarios` with the client of a base URL; its first request fails if nothing listens
  unfoldable pub run_against : DateTime → List String → Option String → Surroundings → Ending
  run_against now names none s = (err (runtime_error "failed"), s)
  run_against now names (some url) s =
      let (r, t) =
        run_scenarios service now names (record { database = s.databases url; tick = s.tick }) in
      (r, record (store url t.database s) { tick = t.tick })

  abbrev pub selected_run :
      DateTime → Arguments → Surroundings → Result (List DemoScenario) → Ending
  selected_run now args s (err e) = (err e, s)
  selected_run now args s (ok scenarios) =
      run_against now (selected_scenarios scenarios args.scenario) (s.service_at (base_url args)) s

  -- the selection, made at one time, and the run at another
  unfoldable pub run_selected : DateTime → DateTime → Arguments → Surroundings → Ending
  unfolding run_against selected_scenarios demo_scenarios base_url
  run_selected selecting now args s = selected_run now args s (demo_scenarios selecting)

  abbrev pub after_reset : DateTime → DateTime → Arguments → Ending → Ending
  after_reset selecting now args (err e, s) = (err e, s)
  after_reset selecting now args (ok done, s) = run_selected selecting now args s

  unfoldable pub main :
      Settings → Option String → DateTime → DateTime → Arguments → Surroundings → Ending
  unfolding reset_unless_skipped run_selected
  main settings environment selecting now args s =
      after_reset selecting now args (reset_unless_skipped settings environment args s)

-- `raise SystemExit(1)` after a RuntimeError; any other exception ends the process in the same way
unfoldable pub exit_status : Ending → ℕ
exit_status (ok done, s) = 0
exit_status (err e, s) = 1
