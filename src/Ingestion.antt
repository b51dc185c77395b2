-- ===== src/Ingestion.antt =====
-- src/orchestrator/domain/event_ingestion.py and inbound_events.py: one source event with its
-- snapshots, in one transaction, once.
use ai_compliance_orquestrat.Tables.{update_inbound_event}
use ai_compliance_orquestrat.Planner.{plan_outreach_for_event, default_frequency_cap}
use ai_compliance_orquestrat.AuditLog.{append_audit_event}
use ai_compliance_orquestrat.Errors.{integrity_error}
use ai_compliance_orquestrat.Ingestion.Replay.{
  EventIngestionResult, result_from_existing_event, result_from_planner,
}
use ai_compliance_orquestrat.Models.{
  InboundEvent, Customer, AuditActorType, Account, AuditEvent, api_client, system, received,
  processed,
}
use ai_compliance_orquestrat.Json.{Fields, field, text, object, end}
use ai_compliance_orquestrat.Prelude.{String, Option, concat, some, none, if◌then◌else◌}
use ai_compliance_orquestrat.World.{World}
pub mod Snapshots
pub mod Replay
pub mod Kept
pub mod Once
pub mod Counted
pub mod Repeats
use ai_compliance_orquestrat.Session.{Action, ◌>>◌, raise, ◌>>=◌, rollback, reading, commit, pure}
use ai_compliance_orquestrat.Ingestion.Snapshots.{
  Submission, Race, upsert_customer, find_existing_event, upsert_account, customer_payload,
  account_payload, attempt, flush_inbound_event,
}

module _ ⦃w : World⦄ where
  -- `inbound_event_idempotency_key`; the separator is the character 0x1f
  unfoldable pub inbound_event_idempotency_key : String → String → String
  inbound_event_idempotency_key source external_id =
      concat "inbound_event:" (w.sha256_hexdigest (concat source (concat "\u{1f}" external_id)))

  unfoldable pub new_inbound_event : Submission → String → Customer → Account → InboundEvent
  new_inbound_event e id customer account = record {
    id = id;
    source = e.source;
    external_id = e.external_id;
    event_type = e.event_type;
    customer_external_id = customer.external_id;
    account_external_id = account.external_id;
    payload = field "source" (text e.source) (
        field "external_id" (text e.external_id) (
          field "event_type" (text e.event_type) (
            field "customer" (object (customer_payload e.customer)) (
              field "account" (object (account_payload e.account)) (
                field "occurred_at" (text (w.isoformat e.occurred_at))
                  (field "metadata" (object e.metadata) end))))));
    idempotency_key = inbound_event_idempotency_key e.source e.external_id;
    processing_status = received;
  }

  audit_payload : Submission → Fields
  audit_payload e = field "source" (text e.source) (
      field "event_type" (text e.event_type) (
        field "external_id" (text e.external_id) (
          field "idempotency_key" (text (inbound_event_idempotency_key e.source e.external_id))
            end)))

  -- the audit row of one stage of the event's acceptance
  pub audit_stage : Submission → InboundEvent → String → String → AuditActorType → Action AuditEvent
  unfolding audit_payload
  audit_stage e event correlation_id stage actor = append_audit_event (record {
    entity_type = "inbound_event";
    entity_id = event.id;
    event_type = stage;
    actor_type = actor;
    actor_id = none;
    correlation_id = correlation_id;
    payload = audit_payload e;
  })

  -- what follows the insert: the audit rows, the planner, the status and the commit
  unfoldable pub accept_event : Submission → InboundEvent → String → Action EventIngestionResult
  unfolding audit_stage
  accept_event e event correlation_id = do
    audit_stage e event correlation_id "event_received" api_client
    audit_stage e event correlation_id "event_accepted" system
    result ←
        plan_outreach_for_event event.id correlation_id (some e.occurred_at) default_frequency_cap
    update_inbound_event event.id (λ r. record r { processing_status = processed })
    commit
    pure (result_from_planner event.id result)

  pub answer_or_raise : Option InboundEvent → Action EventIngestionResult
  answer_or_raise none = raise integrity_error
  answer_or_raise (some event) = result_from_existing_event event

  -- `except IntegrityError`
  unfoldable pub recover : Submission → Action EventIngestionResult
  unfolding answer_or_raise
  recover e = do
    rollback
    existing ← find_existing_event e.source e.external_id
    answer_or_raise existing

  unfoldable pub ingest_new_event : Race → Submission → String → Action EventIngestionResult
  unfolding new_inbound_event
  ingest_new_event race e correlation_id = do
    customer ← upsert_customer e.customer
    account ← upsert_account e.account customer
    id ← reading w.uuid4
    let event = new_inbound_event e id customer account
    flushed ← attempt (flush_inbound_event race event)
    if flushed then accept_event e event correlation_id else recover e

  pub ingest_found : Race → Submission → String → Option InboundEvent → Action EventIngestionResult
  ingest_found race e correlation_id none = ingest_new_event race e correlation_id
  ingest_found race e correlation_id (some event) = result_from_existing_event event

  unfoldable pub ingest_event_snapshot : Race → Submission → String → Action EventIngestionResult
  unfolding ingest_found
  ingest_event_snapshot race e correlation_id = do
    existing ← find_existing_event e.source e.external_id
    ingest_found race e correlation_id existing
