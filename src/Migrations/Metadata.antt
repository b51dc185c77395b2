-- ===== src/Migrations/Metadata.antt =====
-- src/orchestrator/models.py: the tables that its classes declare, `Base.metadata`. Defaults that
-- SQLAlchemy fills in when it inserts or updates a row are not part of a table.
use ai_compliance_orquestrat.Migrations.Statements.{
  Table, ColumnType, Catalog, Column, Constraint, Index, enum, timestamp, uuid, string, json_type,
  boolean_type, integer, primary_key, foreign_key, unique, unique_name,
}
use ai_compliance_orquestrat.Models.{
  account_status_value, channel_value, task_status_value, outcome_value, call, sms, email,
  AccountStatus, OutreachTaskStatus, PolicyDecisionOutcome,
}
use ai_compliance_orquestrat.Prelude.{String, List, false, true, ◌∷◌, none, some, [], map}

-- `mapped_column(…, nullable=False)`
abbrev mapped : String → ColumnType → Column
mapped name type_ = record { name = name; type_ = type_; nullable = false; server_default = none }

-- `Mapped[… | None]`
abbrev mapped_optional : String → ColumnType → Column
mapped_optional name type_ = record {
  name = name;
  type_ = type_;
  nullable = true;
  server_default = none;
}

-- `server_default=func.now()`
abbrev mapped_now : String → Column
mapped_now name = record {
  name = name;
  type_ = timestamp;
  nullable = false;
  server_default = some "now()";
}

-- the stored values of an enumeration, without a constraint
abbrev pub enum_column {ℓ} : {A : Type ℓ} → (A → String) → List A → ColumnType
enum_column value items = enum (map value items)

abbrev outreach_channels : ColumnType
outreach_channels = enum_column channel_value (call ∷ sms ∷ email ∷ [])

-- a table as its class declares it, without rows
abbrev declared : String → List Column → List Constraint → List Index → Table
declared name columns constraints indexes = record {
  name = name;
  columns = mapped "id" uuid ∷ columns;
  constraints = primary_key ("id" ∷ []) ∷ constraints;
  indexes = indexes;
  rows = [];
}

-- `unique=True`
abbrev unique_column : String → String → Constraint
unique_column table column = unique (unique_name table column) (column ∷ [])

abbrev pub customer_metadata : Table
customer_metadata =
    declared "customers"
      (mapped "external_id" (string 255)
        ∷ mapped "full_name" (string 255)
        ∷ mapped "timezone" (string 64)
        ∷ mapped_optional "phone_number" (string 64)
        ∷ mapped_optional "email" (string 255)
        ∷ mapped "sms_consent" boolean_type
        ∷ mapped "call_consent" boolean_type
        ∷ mapped "email_consent" boolean_type
        ∷ mapped "opted_out" boolean_type
        ∷ mapped_now "created_at"
        ∷ mapped_now "updated_at"
        ∷ [])
      (unique_column "customers" "external_id" ∷ []) []

abbrev pub account_metadata : Table
account_metadata =
    declared "accounts"
      (mapped "external_id" (string 255)
        ∷ mapped "customer_id" uuid
        ∷ mapped "status" (
            enum_column account_status_value (
              AccountStatus.current ∷ AccountStatus.delinquent ∷ AccountStatus.resolved
              ∷ AccountStatus.paused ∷ []))
        ∷ mapped "balance_cents" integer
        ∷ mapped "days_past_due" integer
        ∷ mapped_now "created_at"
        ∷ mapped_now "updated_at"
        ∷ [])
      (unique_column "accounts" "external_id" ∷ foreign_key "customer_id" "customers" "id" ∷ []) []

abbrev pub inbound_event_metadata : Table
inbound_event_metadata =
    declared "inbound_events"
      (mapped "source" (string 255)
        ∷ mapped "external_id" (string 255)
        ∷ mapped "event_type" (string 255)
        ∷ mapped "customer_external_id" (string 255)
        ∷ mapped "account_external_id" (string 255)
        ∷ mapped "payload" json_type
        ∷ mapped_now "received_at"
        ∷ mapped "idempotency_key" (string 255)
        ∷ mapped "processing_status" (enum ("received" ∷ "processed" ∷ "failed" ∷ []))
        ∷ [])
      (unique "uq_inbound_events_source_external_id" ("source" ∷ "external_id" ∷ [])
        ∷ unique_column "inbound_events" "idempotency_key"
        ∷ [])
      []

abbrev pub policy_decision_metadata : Table
policy_decision_metadata =
    declared "policy_decisions"
      (mapped "account_id" uuid
        ∷ mapped "customer_id" uuid
        ∷ mapped_optional "inbound_event_id" uuid
        ∷ mapped "decision" (
            enum_column outcome_value (
              PolicyDecisionOutcome.allow ∷ PolicyDecisionOutcome.block
              ∷ PolicyDecisionOutcome.defer ∷ []))
        ∷ mapped_optional "channel" outreach_channels
        ∷ mapped "reasons" json_type
        ∷ mapped_now "evaluated_at"
        ∷ [])
      (foreign_key "account_id" "accounts" "id"
        ∷ foreign_key "customer_id" "customers" "id"
        ∷ foreign_key "inbound_event_id" "inbound_events" "id"
        ∷ [])
      []

abbrev pub outreach_task_metadata : Table
outreach_task_metadata =
    declared "outreach_tasks"
      (mapped "account_id" uuid
        ∷ mapped "customer_id" uuid
        ∷ mapped "channel" outreach_channels
        ∷ mapped "correlation_id" uuid
        ∷ mapped "status" (
            enum_column task_status_value (
              OutreachTaskStatus.scheduled ∷ OutreachTaskStatus.blocked
              ∷ OutreachTaskStatus.dispatching ∷ OutreachTaskStatus.sent ∷ OutreachTaskStatus.failed
              ∷ OutreachTaskStatus.cancelled ∷ []))
        ∷ mapped "scheduled_at" timestamp
        ∷ mapped "attempt_count" integer
        ∷ mapped "max_attempts" integer
        ∷ mapped "idempotency_key" (string 255)
        ∷ mapped_optional "policy_decision_id" uuid
        ∷ mapped_optional "last_error" (string 1000)
        ∷ mapped_now "created_at"
        ∷ mapped_now "updated_at"
        ∷ [])
      (foreign_key "account_id" "accounts" "id"
        ∷ foreign_key "customer_id" "customers" "id"
        ∷ unique_column "outreach_tasks" "idempotency_key"
        ∷ foreign_key "policy_decision_id" "policy_decisions" "id"
        ∷ [])
      (record {
        name = "ix_outreach_tasks_status_scheduled_at";
        columns = "status" ∷ "scheduled_at" ∷ [];
      }
        ∷ record {
          name = "ix_outreach_tasks_customer_id_created_at";
          columns = "customer_id" ∷ "created_at" ∷ [];
        }
        ∷ [])

abbrev pub audit_event_metadata : Table
audit_event_metadata =
    declared "audit_events"
      (mapped "entity_type" (string 255)
        ∷ mapped "entity_id" (string 255)
        ∷ mapped "event_type" (string 255)
        ∷ mapped "actor_type" (enum ("system" ∷ "api_client" ∷ "worker" ∷ "policy_engine" ∷ []))
        ∷ mapped_optional "actor_id" (string 255)
        ∷ mapped "correlation_id" uuid
        ∷ mapped "payload" json_type
        ∷ mapped_now "created_at"
        ∷ [])
      []
      (record { name = "ix_audit_events_correlation_id"; columns = "correlation_id" ∷ [] }
        ∷ record {
          name = "ix_audit_events_entity_type_entity_id";
          columns = "entity_type" ∷ "entity_id" ∷ [];
        }
        ∷ [])

-- `Base.metadata`
abbrev pub metadata : Catalog
metadata =
    customer_metadata ∷ account_metadata ∷ inbound_event_metadata ∷ policy_decision_metadata
    ∷ outreach_task_metadata ∷ audit_event_metadata ∷ []
