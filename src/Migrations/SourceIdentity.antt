-- ===== src/Migrations/SourceIdentity.antt =====
-- alembic/versions: 6d9d6c4f1f1a, which makes the source a part of an event's identity, and
-- 53d8b15e9a4c, which adds the tasks' correlation id.
use ai_compliance_orquestrat.Migrations.Statements.{
  Table, Catalog, Column, alter, add_column, alter_default, drop_constraint,
  create_unique_constraint, drop_column, string, uuid,
}
use ai_compliance_orquestrat.Migrations.CoreTables.{needed}
use ai_compliance_orquestrat.Json.{Json, Fields, get, put, text, object}
use ai_compliance_orquestrat.Errors.{Result, ok, ◌>>=◌}
use ai_compliance_orquestrat.Prelude.{
  String, Option, some, none, map, ◌∷◌, [], if◌then◌else◌, ◌==◌, false,
}

-- `column ->> key`, where the parameter is the text that PostgreSQL gives of a JSON value
unfoldable pub text_at : (Json → Option String) → String → Option Json → Option String
text_at as_text key (some (object payload)) = elim (get key payload) [
  | none ↦ none
  | some v ↦ as_text v
]
text_at as_text key _ = none

-- `NULLIF(…, '')`
unfoldable pub null_if_empty : Option String → Option String
null_if_empty none = none
null_if_empty (some s) = if s == "" then none else some s

-- `COALESCE(…, 'unknown')`
unfoldable pub or_unknown : Option String → String
or_unknown none = "unknown"
or_unknown (some s) = s

abbrev pub source_column : Option String → Column
source_column server_default = record {
  name = "source";
  type_ = string 255;
  nullable = false;
  server_default = server_default;
}

-- `UPDATE inbound_events SET source = …`
unfoldable pub set_source : (Json → Option String) → Fields → Fields
unfolding text_at null_if_empty or_unknown
set_source as_text row =
    put "source" (text (or_unknown (null_if_empty (text_at as_text "source" (get "payload" row)))))
      row

unfoldable pub set_sources : (Json → Option String) → Table → Result Table
set_sources as_text t = ok (record t { rows = map (set_source as_text) t.rows })

-- 6d9d6c4f1f1a
unfoldable pub derive_source_identity : (Json → Option String) → Catalog → Result Catalog
derive_source_identity as_text c = do
  c ← alter "inbound_events" (add_column (source_column (some "unknown"))) c
  c ← alter "inbound_events" (set_sources as_text) c
  c ← alter "inbound_events" (alter_default "source" none) c
  c ← alter "inbound_events" (drop_constraint "inbound_events_external_id_key") c
  alter "inbound_events"
      (create_unique_constraint "uq_inbound_events_source_external_id"
        ("source" ∷ "external_id" ∷ []))
      c

unfoldable pub drop_source_identity : Catalog → Result Catalog
drop_source_identity c = do
  c ← alter "inbound_events" (drop_constraint "uq_inbound_events_source_external_id") c
  c ←
      alter "inbound_events"
        (create_unique_constraint "inbound_events_external_id_key" ("external_id" ∷ [])) c
  alter "inbound_events" (drop_column "source") c

-- 53d8b15e9a4c
unfoldable pub add_task_correlation : Catalog → Result Catalog
add_task_correlation c = alter "outreach_tasks" (add_column (needed "correlation_id" uuid)) c

unfoldable pub drop_task_correlation : Catalog → Result Catalog
drop_task_correlation c = alter "outreach_tasks" (drop_column "correlation_id") c
