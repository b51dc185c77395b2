-- ===== src/Demo/Main/Effect.antt =====
-- What `main` of scripts/seed_demo.py does to the databases.
use mathlib.Core.Path.{fun_ext}
use ai_compliance_orquestrat.Demo.Run.{selected_scenarios}
use ai_compliance_orquestrat.Demo.{DemoScenario, demo_scenarios}
use ai_compliance_orquestrat.Demo.Run.Moves.{run_scenarios-Runs}
use ai_compliance_orquestrat.DateTime.{DateTime}
use ai_compliance_orquestrat.System.Runs.{Runs, stays}
use ai_compliance_orquestrat.Demo.Accepted.{reset_database_lem}
use ai_compliance_orquestrat.Errors.{ok, Result, err}
use ai_compliance_orquestrat.Settings.{Settings}
use ai_compliance_orquestrat.System.{Server, IsFairWork}
use ai_compliance_orquestrat.Api.Readers.{Pydantic}
use ai_compliance_orquestrat.World.{World}
use ai_compliance_orquestrat.Demo.Main.{
  reset_at, Surroundings, store, run_against, run_selected, main, after_transaction, Arguments,
  reset_unless_skipped, base_url, target_url, after_reset, selected_run,
}
use ai_compliance_orquestrat.Prelude.{
  [], Bool, String, Option, ◌≡◌, true, some, false, List, none, refl, ap, ==_self, if◌then◌else◌,
  ◌==◌, ◌⊎◌, inl, eq_iff, inr, Bool-cases,
}
use ai_compliance_orquestrat.Models.{Database}

abbrev empty_tables : Database
empty_tables = record {
  customers = [];
  accounts = [];
  inbound_events = [];
  policy_decisions = [];
  outreach_tasks = [];
  audit_events = [];
}

-- the surroundings that the scenarios meet
abbrev pub start : Bool → String → Surroundings → Surroundings
start true url s = s
start false url s = store url empty_tables s

-- the service with the database of a URL
abbrev pub served : String → Surroundings → Server
served url s = record { database = s.databases url; tick = s.tick }

reset_at_lem :
    (url : String) (s : Surroundings) → reset_at url s ≡ (ok tt, store url empty_tables s)
unfolding reset_at
reset_at_lem url s = ap (after_transaction url s) (reset_database_lem (s.databases url))

-- Between two states of the surroundings: the service that listens, if any, has run, and no other
-- database has changed.
abbrev pub IsRunOf : ⦃w : World⦄ → Option String → Surroundings → Surroundings → Type 0
IsRunOf none s t = t.databases ≡ s.databases
IsRunOf (some url) s t =
    Runs IsFairWork (served url s) (served url t)
    × (t.databases ≡ (store url (t.databases url) s).databases)

module _ ⦃w : World⦄ ⦃p : Pydantic⦄ (service : Settings) where
  run_against-IsRunOf :
      (now : DateTime) (names : List String) (listening : Option String) (s : Surroundings)
      → IsRunOf listening s (run_against service now names listening s).1
  unfolding run_against
  run_against-IsRunOf now names none s = refl
  run_against-IsRunOf now names (some url) s = (
    rw (==_self url) (run_scenarios-Runs service now names (served url s)),
    rw (==_self url) refl,
  )

  run_selected-IsRunOf :
      (selecting now : DateTime) (args : Arguments) (s : Surroundings)
      → IsRunOf (s.service_at (base_url args)) s (run_selected service selecting now args s).1
  unfolding run_selected
  run_selected-IsRunOf selecting now args s = by_scenarios (demo_scenarios selecting)
    where
      unmoved : (listening : Option String) → IsRunOf listening s s
      unmoved none = refl
      unmoved (some url) = (stays, fun_ext λ u. store_own u (Bool-cases (u == url)))
        where
          store_own :
              (u : String)
              → ((u == url) ≡ true) ⊎ ((u == url) ≡ false)
              → s.databases u ≡ (store url (s.databases url) s).databases u
          store_own u (inl k) = rw k (ap s.databases ((eq_iff u url).0 k))
          store_own u (inr k) = rw k refl

      by_scenarios :
          (scenarios : Result (List DemoScenario))
          → IsRunOf (s.service_at (base_url args)) s (selected_run service now args s scenarios).1
      by_scenarios (err e) = unmoved (s.service_at (base_url args))
      by_scenarios (ok scenarios) =
          run_against-IsRunOf now (selected_scenarios scenarios args.scenario)
            (s.service_at (base_url args)) s

  pub main-IsRunOf :
      (settings : Settings) (environment : Option String) (selecting now : DateTime)
      (args : Arguments) (s : Surroundings)
      → IsRunOf
          (s.service_at (base_url args))
          (start args.skip_reset (target_url settings environment args) s)
          (main service settings environment selecting now args s).1
  unfolding main reset_unless_skipped
  main-IsRunOf settings environment selecting now args s = by_flag args.skip_reset
    where
      target : String
      target = target_url settings environment args

      by_flag :
          (skip : Bool)
          → IsRunOf
              (s.service_at (base_url args))
              (start skip target s)
              (after_reset service selecting now args
                (if skip then (ok tt, s) else reset_at target s)).1
      by_flag true = run_selected-IsRunOf selecting now args s
      by_flag false =
          rw (reset_at_lem target s)
            (run_selected-IsRunOf selecting now args (store target empty_tables s))
