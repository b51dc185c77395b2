-- ===== src/Tests/EnvironmentRuns.antt =====
-- Runs of alembic/env.py against a concrete Alembic.
use ai_compliance_orquestrat.Errors.{Result, ok, err, integrity_error}
use ai_compliance_orquestrat.Json.{Fields, Json, field, text, end}
use ai_compliance_orquestrat.Migrations.Compare.{same_schema}
use ai_compliance_orquestrat.Migrations.Environment.{
  Alembic, AlembicLaws, Deployment, option_of, run_environment, database_url,
}
use ai_compliance_orquestrat.Migrations.Metadata.{metadata}
use ai_compliance_orquestrat.Migrations.Revised.{core_tables}
use ai_compliance_orquestrat.Migrations.Statements.{Catalog, are_distinct, has_rows, has_twin}
use ai_compliance_orquestrat.Migrations.Upgraded.{
  later_revisions, later_revisions-same_schema, upgraded_or_unchanged,
}
use ai_compliance_orquestrat.Settings.{default_settings}
use ai_compliance_orquestrat.Prelude.{
  List, Option, String, false, true, ◌==◌, ◌≡◌, ◌∷◌, [], ap, if◌then◌else◌, none, refl, some,
}

abbrev as_text : Json → Option String
as_text (text s) = some s
as_text _ = none

abbrev commit_or_rollback : (Catalog → Result Catalog) → Catalog → Result (Unit {0}) × Catalog
commit_or_rollback f c = elim (f c) [ ok d ↦ (ok tt, d) | err e ↦ (err e, c) ]

abbrev or_empty : Option String → String
or_empty none = ""
or_empty (some s) = s

abbrev online : Alembic
online = record {
  settings = default_settings;
  main_option = some "postgresql://db";
  section = ("sqlalchemy.url", "") ∷ [];
  is_offline_mode = false;
  engine_url = λ configuration. or_empty (option_of "sqlalchemy.url" configuration);
  run_migrations = later_revisions as_text;
  write_script = λ url. ok "";
  transaction = commit_or_rollback;
}

online_laws : AlembicLaws online
online_laws = record {
  configured = λ configuration url e. ap or_empty e;
  commits = λ f c d e. ap (λ r. elim r [ ok d ↦ (ok tt, d) | err e ↦ (err e, c) ]) e;
  rolls_back = λ f c e h. ap (λ r. elim r [ ok d ↦ (ok tt, d) | err e ↦ (err e, c) ]) h;
}

-- an event and a task
abbrev in_use : String → List Fields
in_use table =
    if table == "inbound_events"
    then field "external_id" (text "ev-1") end ∷ []
    else if table == "outreach_tasks"
    then field "id" (text "t1") end ∷ []
    else []

abbrev without_tasks : String → List Fields
without_tasks table = if table == "outreach_tasks" then [] else in_use table

abbrev deployed : (String → List Fields) → Deployment
deployed rows = record {
  database = λ url. if url == "postgresql://db" then core_tables rows else [];
  connections = 0;
  engines = 0;
  scripts = [];
}

upgraded_or_unchanged_example :
    run_environment online (deployed in_use)
    ≡ (err integrity_error, record (deployed in_use) { engines = 1 })
unfolding are_distinct has_twin has_rows database_url
upgraded_or_unchanged_example =
    upgraded_or_unchanged online online_laws (deployed in_use) refl as_text in_use (λ c. refl) refl
      refl

later_revisions-same_schema_example :
    (c : Catalog) × (later_revisions as_text (core_tables without_tasks) ≡ ok c)
    × (same_schema c metadata ≡ true)
unfolding are_distinct has_twin has_rows
later_revisions-same_schema_example = later_revisions-same_schema as_text without_tasks refl refl
