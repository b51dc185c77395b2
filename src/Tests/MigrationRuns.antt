-- ===== src/Tests/MigrationRuns.antt =====
-- The migrations on concrete tables.
use ai_compliance_orquestrat.Errors.{ok, err, integrity_error, ◌>>=◌}
use ai_compliance_orquestrat.Migrations.SourceIdentity.{
  set_source, add_task_correlation, text_at, null_if_empty, or_unknown, derive_source_identity,
  drop_source_identity,
}
use ai_compliance_orquestrat.Migrations.Statements.{
  are_distinct, has_rows, has_twin, same_texts, text_of, text_value,
}
use ai_compliance_orquestrat.Migrations.CoreTables.{create_core_tables, drop_core_tables}
use ai_compliance_orquestrat.Migrations.Revised.{
  core_tables_dropped, sourced_tables, core_tables, add_task_correlation_lem,
  drop_source_identity_lem, restored_tables, source_identity_restored,
}
use ai_compliance_orquestrat.Json.{Fields, field, text, end, object, Json, put, get}
use ai_compliance_orquestrat.Prelude.{
  String, List, if◌then◌else◌, ◌≡◌, ◌==◌, Option, [], ◌∷◌, some, none, map, refl,
}

-- an event as the first revision stores it
abbrev event_row : String → Fields → Fields
event_row external_id payload =
    field "external_id" (text external_id) (field "payload" (object payload) end)

abbrev two_events : String → List Fields
two_events table =
    if table == "inbound_events"
    then event_row "ev-1" (field "source" (text "crm") end) ∷ event_row "ev-2" end ∷ []
    else []

abbrev shared_id : String → List Fields
shared_id table =
    if table == "inbound_events"
    then put "source" (text "crm") (event_row "ev-1" end)
      ∷ put "source" (text "erp") (event_row "ev-1" end)
      ∷ []
    else []

abbrev one_task : String → List Fields
one_task table = if table == "outreach_tasks" then field "id" (text "t1") end ∷ [] else []

abbrev text_only : Json → Option String
text_only (text s) = some s
text_only _ = none

two_events_dropped :
    (create_core_tables [] ≡ ok (core_tables (λ t. [])))
    × (drop_core_tables (core_tables two_events) ≡ ok [])
two_events_dropped = core_tables_dropped two_events

source_identity_restored_example :
    (derive_source_identity text_only (core_tables two_events) >>= drop_source_identity)
    ≡ ok (restored_tables two_events)
unfolding are_distinct has_twin same_texts text_of text_value get
source_identity_restored_example =
    source_identity_restored text_only two_events refl (refl, (refl, tt))

drop_source_identity_lem_example :
    drop_source_identity (sourced_tables shared_id) ≡ err integrity_error
unfolding are_distinct has_twin same_texts text_of text_value get put
drop_source_identity_lem_example = drop_source_identity_lem shared_id

correlation_refused : add_task_correlation (sourced_tables one_task) ≡ err integrity_error
unfolding has_rows
correlation_refused = add_task_correlation_lem one_task

-- The sources that the upgrade derives.
sources : List String
unfolding set_source text_at null_if_empty or_unknown get put text_of text_value
sources = map (λ r. text_of "source" (set_source text_only r)) (two_events "inbound_events")

derived_sources : sources ≡ "crm" ∷ "unknown" ∷ []
unfolding sources
derived_sources = refl
