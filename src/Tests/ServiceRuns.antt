-- ===== src/Tests/ServiceRuns.antt =====
-- The whole service on concrete inputs.
use ai_compliance_orquestrat.Evolution.Unique.{IsUnique}
use ai_compliance_orquestrat.Tests.Sample.{sample, name, tables-IsUnique}
use ai_compliance_orquestrat.AuditLog.{append_audit_event}
use ai_compliance_orquestrat.Evolution.{TaskKeeps}
use ai_compliance_orquestrat.System.Guarantees.{
  account_owner_stable, final_status_stays, opted_out_durable, task_lifecycle, audit_append_only,
  uniqueness_kept,
}
use ai_compliance_orquestrat.Ingestion.Replay.{existing_result}
use ai_compliance_orquestrat.Planner.Kept.{plan_outreach_for_event-Extends}
use ai_compliance_orquestrat.Ingestion.Once.{
  idempotency_key_ambiguous, ingest_event_snapshot-Atomic, duplicate_unchanged,
}
use ai_compliance_orquestrat.System.{perform_all}
use ai_compliance_orquestrat.Worker.Bounds.{dispatch_due_tasks-le}
use ai_compliance_orquestrat.Planner.{plan_outreach_for_event}
use ai_compliance_orquestrat.Session.{◌>>=◌, reading, modify, gets, lift, pure, commit}
use ai_compliance_orquestrat.Tests.Sample.{
  submission, task_of, tables, nine, session, pass, requests, server, known_event,
  requests-IsFairWork,
}
use ai_compliance_orquestrat.Tables.{
  add_customer, update_tasks_count, update_tasks, add_audit_event,
}
use ai_compliance_orquestrat.Worker.Record.{
  is_dispatching, default_adapters, record_success, finish_update,
}
use ai_compliance_orquestrat.Worker.{
  dispatch_due_tasks, due_tasks, is_due, dispatch_tasks, dispatch_task, is_claimable,
  dispatch_claimed, refresh, others, send, claim_task, record_delivery, skip_task, dispatch_found,
}
use ai_compliance_orquestrat.Session.Rules.{Extends}
use ai_compliance_orquestrat.Errors.{Error, event_ingestion_validation_error, ok, err}
use ai_compliance_orquestrat.Ingestion.Snapshots.{
  Submission, find_existing_event, upsert_customer, upsert_account,
}
use ai_compliance_orquestrat.Ingestion.{
  ingest_event_snapshot, inbound_event_idempotency_key, ingest_new_event,
}
use ai_compliance_orquestrat.Prelude.{
  List, ◌≤◌, find, none, count, ◌≡◌, ◌==◌, some, refl, true, [], ◌++◌, inl, order_by, filter,
}
use ai_compliance_orquestrat.Models.{
  Customer, Account, OutreachTask, AuditEvent, sent, scheduled, PolicyDecision,
}

opted_out_durable_example :
    (d : Customer) × (find
        (λ x. x.id == "c1")
        (perform_all requests (server scheduled)).database.customers
      ≡ some d)
    × (d.external_id ≡ "cust-1")
    × (d.opted_out ≡ true)
unfolding find
opted_out_durable_example =
    opted_out_durable requests (server scheduled) requests-IsFairWork "c1" refl refl

owner_kept :
    (b : Account) × (find
        (λ x. x.id == "a1")
        (perform_all requests (server scheduled)).database.accounts
      ≡ some b)
    × (b.external_id ≡ "acct-1")
    × (b.customer_id ≡ "c1")
unfolding find
owner_kept = account_owner_stable requests (server scheduled) requests-IsFairWork "a1" refl

audit_append_only_example :
    ((rows : List AuditEvent) × ((perform_all requests (server scheduled)).database.audit_events
        ≡ [] ++ rows))
    × ((rows : List PolicyDecision) × ((perform_all requests
            (server scheduled)).database.policy_decisions
          ≡ [] ++ rows))
audit_append_only_example = audit_append_only requests (server scheduled) requests-IsFairWork

uniqueness_kept_example : IsUnique (perform_all requests (server scheduled)).database
uniqueness_kept_example =
    uniqueness_kept requests (server scheduled) requests-IsFairWork (tables-IsUnique scheduled)

task_lifecycle_example :
    (u : OutreachTask) × (find
        (λ x. x.id == "t1")
        (perform_all requests (server scheduled)).database.outreach_tasks
      ≡ some u)
    × TaskKeeps (task_of scheduled) u
unfolding find
task_lifecycle_example = task_lifecycle requests (server scheduled) requests-IsFairWork "t1" refl

final_status_stays_example :
    (u : OutreachTask) × (find
        (λ x. x.id == "t1")
        (perform_all requests (server sent)).database.outreach_tasks
      ≡ some u)
    × (u.status ≡ sent)
unfolding find
final_status_stays_example =
    final_status_stays requests (server sent) requests-IsFairWork "t1" refl (inl refl)

known_event_answers :
    ingest_event_snapshot none (submission "ev-1" "payment_failed") "corr" (session scheduled)
    ≡ (ok (existing_result known_event (tables scheduled)), session scheduled)
unfolding find
known_event_answers =
    duplicate_unchanged none (submission "ev-1" "payment_failed") "corr" (session scheduled) refl

-- A customer's snapshot that names the account of another customer: it is stored, then the
-- ingestion fails.
abbrev misdirected : Submission
misdirected = record (submission "ev-2" "payment_failed") {
  customer = record (submission "ev-2" "payment_failed").customer { external_id = "cust-2" };
}

abbrev wrong_owner : Error
wrong_owner =
    event_ingestion_validation_error "Account external_id already belongs to another customer"

misdirected_fails :
    (ingest_event_snapshot none misdirected "corr" (session scheduled)).0 ≡ err wrong_owner
unfolding ingest_event_snapshot ◌>>=◌ find_existing_event find ingest_new_event upsert_customer
    reading add_customer modify upsert_account gets lift pure name
misdirected_fails = refl

ingest_event_snapshot-Atomic_example :
    (ingest_event_snapshot none misdirected "corr" (session scheduled)).1.committed
    ≡ tables scheduled
ingest_event_snapshot-Atomic_example =
    ingest_event_snapshot-Atomic misdirected "corr" (session scheduled) wrong_owner
      misdirected_fails

plan_outreach_for_event-Extends_example :
    Extends (plan_outreach_for_event "e1" "corr" (some nine) 3)
plan_outreach_for_event-Extends_example = plan_outreach_for_event-Extends "e1" "corr" (some nine) 3

dispatched_one : (dispatch_due_tasks pass (session scheduled)).0 ≡ ok 1
unfolding dispatch_due_tasks ◌>>=◌ due_tasks is_due dispatch_tasks dispatch_task find count
    update_tasks_count update_tasks modify is_claimable dispatch_claimed refresh append_audit_event
    reading add_audit_event commit others send default_adapters record_success finish_update
    is_dispatching claim_task record_delivery pure gets lift skip_task dispatch_found order_by
    filter
dispatched_one = refl

dispatch_due_tasks-le_example : 1 ≤ 5
dispatch_due_tasks-le_example = dispatch_due_tasks-le pass (session scheduled) 1 dispatched_one

idempotency_key_ambiguous_example :
    inbound_event_idempotency_key "crm" "eu\u{1f}ev-1"
    ≡ inbound_event_idempotency_key "crm\u{1f}eu" "ev-1"
idempotency_key_ambiguous_example = idempotency_key_ambiguous "crm" "eu" "ev-1"
