-- ===== src/Api.antt =====
-- src/orchestrator/api: the handlers of the HTTP routes. Each runs in a session of its own
-- (src/orchestrator/db.py, `get_session`), whose end drops what was not committed; an HTTPException
-- is an error with its status.
pub mod Readers
pub mod Requests
pub mod Responses
pub mod Kept
use ai_compliance_orquestrat.Worker.{others}
use ai_compliance_orquestrat.Ingestion.{ingest_event_snapshot}
use ai_compliance_orquestrat.Json.{Fields}
use ai_compliance_orquestrat.Operational.{
  TaskFilters, DeliveryStatus, unless_given, find_account_by_external_id, get_outreach_task,
  allows_manual_delivery, cancel_scheduled_account_outreach, record_manual_delivery_result,
  created_before, apply_task_filters,
}
use ai_compliance_orquestrat.Ingestion.Snapshots.{Race, Submission}
use ai_compliance_orquestrat.Prelude.{
  Option, String, Bool, ℕ, List, some, if◌then◌else◌, none, ◌==◌, not, eqb, order_by, leb, text_leb,
  filter, ◌&&◌, ltb, take,
}
use ai_compliance_orquestrat.Models.{
  OutreachTaskStatus, OutreachTask, Database, AuditEvent, same_status, cancelled,
}
use ai_compliance_orquestrat.Errors.{
  Result, err, event_ingestion_validation_error, task_state_conflict_error, raise_if,
  http_exception, ok, or_raise,
}
use ai_compliance_orquestrat.Ingestion.Replay.{EventIngestionResult}
use ai_compliance_orquestrat.World.{World}
use ai_compliance_orquestrat.Session.{
  Action, ◌>>◌, reading, lift, close, rollback, raise, ◌>>=◌, gets, pure,
}

-- api/correlation.py: `correlation_id_from_header`
unfoldable pub correlation_id_from_header : ⦃w : World⦄ → Option String → Action String
correlation_id_from_header ⦃w⦄ none = reading w.uuid4
correlation_id_from_header ⦃w⦄ (some value) = elim (w.parse_uuid value) [
  | none ↦ reading w.uuid4
  | some id ↦ pure id
]

-- api/events.py: `InboundEventResponse`
pub record InboundEventResponse : Type 0 where
  pub result : EventIngestionResult
  pub status : String
  pub correlation_id : String

-- `except EventIngestionValidationError`: a rollback, and HTTP 422; other errors pass
unfoldable pub validation_to_http : Result EventIngestionResult → Action EventIngestionResult
validation_to_http (err (event_ingestion_validation_error message)) = do
  rollback
  raise (http_exception 422 message)
validation_to_http (err e) = raise e
validation_to_http (ok r) = pure r

-- `except TaskStateConflictError`: HTTP 409
unfoldable pub conflict_to_http : Result OutreachTask → Action OutreachTask
conflict_to_http (err (task_state_conflict_error message)) =
    raise (http_exception 409 "Task status changed before manual delivery result was recorded")
conflict_to_http (err e) = raise e
conflict_to_http (ok t) = pure t

-- `try: m … except …`
unfoldable pub handling {ℓ} : {A : Type ℓ} → Action A → (Result A → Action A) → Action A
handling m handler s = let (r, s') = m s in handler r s'

-- the two tests of `record_delivery_result` on the task's status
unfoldable pub check_deliverable : OutreachTaskStatus → Action (Unit {0})
check_deliverable status = do
  lift (
      raise_if (same_status status cancelled)
        (http_exception 409 "Cancelled tasks cannot be manually marked delivered"))
  lift (
      raise_if (not (allows_manual_delivery status))
        (http_exception 409 "Task status does not allow manual delivery result"))

-- api/audit.py: the rows of one correlation id, or all
unfoldable pub has_correlation : Option String → AuditEvent → Bool
has_correlation id a = unless_given id (λ c. a.correlation_id == c)

module _ ⦃w : World⦄ where
  -- api/events.py: `ingest_event`
  unfoldable pub ingest_event : Race → Submission → String → Action InboundEventResponse
  ingest_event race body correlation_id = close (do
    result ← handling (ingest_event_snapshot race body correlation_id) validation_to_http
    pure (record { result = result; status = "accepted"; correlation_id = correlation_id }))

  -- api/accounts.py: `cancel_account_outreach`, with the reason that the request's model accepted
  unfoldable pub cancel_account_outreach : String → String → String → Action ℕ
  cancel_account_outreach account_external_id reason correlation_id = close (do
    found ← find_account_by_external_id account_external_id
    account ← lift (or_raise found (http_exception 404 "Account not found"))
    cancel_scheduled_account_outreach account reason correlation_id)

  -- api/tasks.py: `get_task`
  unfoldable pub get_task : String → Action OutreachTask
  get_task task_id = close (do
    found ← get_outreach_task task_id
    lift (or_raise found (http_exception 404 "Task not found")))

  -- api/tasks.py: `record_delivery_result`; `meanwhile` is what other sessions commit between the
  -- read of the task and its update
  unfoldable pub record_delivery_result :
      (Database → Database) → String → DeliveryStatus → Option String → Fields → Action OutreachTask
  record_delivery_result meanwhile task_id status provider_message_id details = close (do
    found ← get_outreach_task task_id
    task ← lift (or_raise found (http_exception 404 "Task not found"))
    check_deliverable task.status
    others meanwhile
    handling (record_manual_delivery_result task status provider_message_id details)
        conflict_to_http)

  -- api/tasks.py: `list_tasks`, with its bounds on the limit
  unfoldable pub list_tasks : TaskFilters → ℕ → Action (List OutreachTask)
  list_tasks filters limit = close (do
    lift (raise_if (not (leb 1 limit && leb limit 100)) (http_exception 422 "limit"))
    gets (λ d.
        take limit
          (order_by created_before (filter (apply_task_filters filters d) d.outreach_tasks))))

  -- `ORDER BY created_at, id`
  audit_before : AuditEvent → AuditEvent → Bool
  audit_before a b =
      if eqb (w.instant a.created_at) (w.instant b.created_at)
      then text_leb a.id b.id
      else ltb (w.instant a.created_at) (w.instant b.created_at)

  -- api/audit.py: `list_audit_events`
  unfoldable pub list_audit_events : Option String → Action (List AuditEvent)
  unfolding audit_before
  list_audit_events correlation_id =
      close
        (gets (λ d. order_by audit_before (filter (has_correlation correlation_id) d.audit_events)))
