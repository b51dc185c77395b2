-- ===== src/Migrations/CoreTables.antt =====
-- alembic/versions/be0bd9c687b8_create_core_tables.py: the six tables, and its upgrade and downgrade.
use ai_compliance_orquestrat.Errors.{Result, ◌>>=◌}
use ai_compliance_orquestrat.Json.{Fields}
use ai_compliance_orquestrat.Migrations.Statements.{
  Table, ColumnType, Catalog, Column, enum, timestamp, uuid, string, create_table, alter, json_type,
  boolean_type, integer, create_index, drop_index, primary_key, foreign_key, drop_table, unique,
  unique_name,
}
use ai_compliance_orquestrat.Prelude.{String, List, false, true, ◌∷◌, none, some, []}

-- a column that may not be null and has no default
abbrev pub needed : String → ColumnType → Column
needed name type_ = record { name = name; type_ = type_; nullable = false; server_default = none }

abbrev pub optional : String → ColumnType → Column
optional name type_ = record { name = name; type_ = type_; nullable = true; server_default = none }

abbrev pub stamped : String → Column
stamped name = record {
  name = name;
  type_ = timestamp;
  nullable = false;
  server_default = some "now()";
}

abbrev pub audit_events_table : List Fields → Table
audit_events_table rows = record {
  name = "audit_events";
  columns =
      needed "id" uuid
      ∷ needed "entity_type" (string 255)
      ∷ needed "entity_id" (string 255)
      ∷ needed "event_type" (string 255)
      ∷ needed "actor_type" (enum ("system" ∷ "api_client" ∷ "worker" ∷ "policy_engine" ∷ []))
      ∷ optional "actor_id" (string 255)
      ∷ needed "correlation_id" uuid
      ∷ needed "payload" json_type
      ∷ stamped "created_at"
      ∷ [];
  constraints = primary_key ("id" ∷ []) ∷ [];
  indexes = [];
  rows = rows;
}

abbrev pub customers_table : List Fields → Table
customers_table rows = record {
  name = "customers";
  columns =
      needed "id" uuid
      ∷ needed "external_id" (string 255)
      ∷ needed "full_name" (string 255)
      ∷ needed "timezone" (string 64)
      ∷ optional "phone_number" (string 64)
      ∷ optional "email" (string 255)
      ∷ needed "sms_consent" boolean_type
      ∷ needed "call_consent" boolean_type
      ∷ needed "email_consent" boolean_type
      ∷ needed "opted_out" boolean_type
      ∷ stamped "created_at"
      ∷ stamped "updated_at"
      ∷ [];
  constraints =
      primary_key ("id" ∷ [])
      ∷ unique (unique_name "customers" "external_id") ("external_id" ∷ [])
      ∷ [];
  indexes = [];
  rows = rows;
}

abbrev pub inbound_events_table : List Fields → Table
inbound_events_table rows = record {
  name = "inbound_events";
  columns =
      needed "id" uuid
      ∷ needed "external_id" (string 255)
      ∷ needed "event_type" (string 255)
      ∷ needed "customer_external_id" (string 255)
      ∷ needed "account_external_id" (string 255)
      ∷ needed "payload" json_type
      ∷ stamped "received_at"
      ∷ needed "idempotency_key" (string 255)
      ∷ needed "processing_status" (enum ("received" ∷ "processed" ∷ "failed" ∷ []))
      ∷ [];
  constraints =
      primary_key ("id" ∷ [])
      ∷ unique (unique_name "inbound_events" "external_id") ("external_id" ∷ [])
      ∷ unique (unique_name "inbound_events" "idempotency_key") ("idempotency_key" ∷ [])
      ∷ [];
  indexes = [];
  rows = rows;
}

abbrev pub accounts_table : List Fields → Table
accounts_table rows = record {
  name = "accounts";
  columns =
      needed "id" uuid
      ∷ needed "external_id" (string 255)
      ∷ needed "customer_id" uuid
      ∷ needed "status" (enum ("current" ∷ "delinquent" ∷ "resolved" ∷ "paused" ∷ []))
      ∷ needed "balance_cents" integer
      ∷ needed "days_past_due" integer
      ∷ stamped "created_at"
      ∷ stamped "updated_at"
      ∷ [];
  constraints =
      foreign_key "customer_id" "customers" "id"
      ∷ primary_key ("id" ∷ [])
      ∷ unique (unique_name "accounts" "external_id") ("external_id" ∷ [])
      ∷ [];
  indexes = [];
  rows = rows;
}

abbrev pub channel_type : ColumnType
channel_type = enum ("call" ∷ "sms" ∷ "email" ∷ [])

abbrev pub policy_decisions_table : List Fields → Table
policy_decisions_table rows = record {
  name = "policy_decisions";
  columns =
      needed "id" uuid
      ∷ needed "account_id" uuid
      ∷ needed "customer_id" uuid
      ∷ optional "inbound_event_id" uuid
      ∷ needed "decision" (enum ("allow" ∷ "block" ∷ "defer" ∷ []))
      ∷ optional "channel" channel_type
      ∷ needed "reasons" json_type
      ∷ stamped "evaluated_at"
      ∷ [];
  constraints =
      foreign_key "account_id" "accounts" "id"
      ∷ foreign_key "customer_id" "customers" "id"
      ∷ foreign_key "inbound_event_id" "inbound_events" "id"
      ∷ primary_key ("id" ∷ [])
      ∷ [];
  indexes = [];
  rows = rows;
}

abbrev pub outreach_tasks_table : List Fields → Table
outreach_tasks_table rows = record {
  name = "outreach_tasks";
  columns =
      needed "id" uuid
      ∷ needed "account_id" uuid
      ∷ needed "customer_id" uuid
      ∷ needed "channel" channel_type
      ∷ needed "status"
          (enum ("scheduled" ∷ "blocked" ∷ "dispatching" ∷ "sent" ∷ "failed" ∷ "cancelled" ∷ []))
      ∷ needed "scheduled_at" timestamp
      ∷ needed "attempt_count" integer
      ∷ needed "max_attempts" integer
      ∷ needed "idempotency_key" (string 255)
      ∷ optional "policy_decision_id" uuid
      ∷ optional "last_error" (string 1000)
      ∷ stamped "created_at"
      ∷ stamped "updated_at"
      ∷ [];
  constraints =
      foreign_key "account_id" "accounts" "id"
      ∷ foreign_key "customer_id" "customers" "id"
      ∷ foreign_key "policy_decision_id" "policy_decisions" "id"
      ∷ primary_key ("id" ∷ [])
      ∷ unique (unique_name "outreach_tasks" "idempotency_key") ("idempotency_key" ∷ [])
      ∷ [];
  indexes = [];
  rows = rows;
}

unfoldable pub create_core_tables : Catalog → Result Catalog
create_core_tables c = do
  c ← create_table (audit_events_table []) c
  c ← alter "audit_events" (create_index "ix_audit_events_correlation_id" ("correlation_id" ∷ [])) c
  c ←
      alter "audit_events"
        (create_index "ix_audit_events_entity_type_entity_id" ("entity_type" ∷ "entity_id" ∷ [])) c
  c ← create_table (customers_table []) c
  c ← create_table (inbound_events_table []) c
  c ← create_table (accounts_table []) c
  c ← create_table (policy_decisions_table []) c
  c ← create_table (outreach_tasks_table []) c
  c ←
      alter "outreach_tasks"
        (create_index "ix_outreach_tasks_customer_id_created_at"
          ("customer_id" ∷ "created_at" ∷ []))
        c
  alter "outreach_tasks"
      (create_index "ix_outreach_tasks_status_scheduled_at" ("status" ∷ "scheduled_at" ∷ [])) c

unfoldable pub drop_core_tables : Catalog → Result Catalog
drop_core_tables c = do
  c ← alter "outreach_tasks" (drop_index "ix_outreach_tasks_status_scheduled_at") c
  c ← alter "outreach_tasks" (drop_index "ix_outreach_tasks_customer_id_created_at") c
  c ← drop_table "outreach_tasks" c
  c ← drop_table "policy_decisions" c
  c ← drop_table "accounts" c
  c ← drop_table "inbound_events" c
  c ← drop_table "customers" c
  c ← alter "audit_events" (drop_index "ix_audit_events_entity_type_entity_id") c
  c ← alter "audit_events" (drop_index "ix_audit_events_correlation_id") c
  drop_table "audit_events" c
