-- ===== src/Models.antt =====
-- src/orchestrator/models.py: the enumerations, the tables' rows, and the database as its tables.
-- A UUID is its canonical text, so `str(id)` is the id. The columns that the database fills in and
-- no code reads (`updated_at`, `received_at`, `evaluated_at`, and `created_at` of customers and
-- accounts) are left out.
mod Status
pub use Status.*
use ai_compliance_orquestrat.Prelude.{ℕ, String, Bool, Option, List}
use ai_compliance_orquestrat.Json.{Fields}
use ai_compliance_orquestrat.DateTime.{DateTime}

pub record Customer : Type 0 where
  pub id : String
  pub external_id : String
  pub full_name : String
  pub timezone : String
  pub phone_number : Option String
  pub email : Option String
  pub sms_consent : Bool
  pub call_consent : Bool
  pub email_consent : Bool
  pub opted_out : Bool

pub record Account : Type 0 where
  pub id : String
  pub external_id : String
  pub customer_id : String
  pub status : AccountStatus
  pub balance_cents : ℕ
  pub days_past_due : ℕ

pub record InboundEvent : Type 0 where
  pub id : String
  pub source : String
  pub external_id : String
  pub event_type : String
  pub customer_external_id : String
  pub account_external_id : String
  pub payload : Fields
  pub idempotency_key : String
  pub processing_status : InboundEventStatus

pub record PolicyDecision : Type 0 where
  pub id : String
  pub account_id : String
  pub customer_id : String
  pub inbound_event_id : Option String
  pub decision : PolicyDecisionOutcome
  pub channel : Option OutreachChannel
  pub reasons : List String

pub record OutreachTask : Type 0 where
  pub id : String
  pub account_id : String
  pub customer_id : String
  pub channel : OutreachChannel
  pub correlation_id : String
  pub status : OutreachTaskStatus
  pub scheduled_at : DateTime
  pub attempt_count : ℕ
  pub max_attempts : ℕ
  pub idempotency_key : String
  pub policy_decision_id : Option String
  pub last_error : Option String
  pub created_at : DateTime

pub record AuditEvent : Type 0 where
  pub id : String
  pub entity_type : String
  pub entity_id : String
  pub event_type : String
  pub actor_type : AuditActorType
  pub actor_id : Option String
  pub correlation_id : String
  pub payload : Fields
  pub created_at : DateTime

-- The tables, each in the order in which its rows were inserted.
pub record Database : Type 0 where
  pub customers : List Customer
  pub accounts : List Account
  pub inbound_events : List InboundEvent
  pub policy_decisions : List PolicyDecision
  pub outreach_tasks : List OutreachTask
  pub audit_events : List AuditEvent
