-- ===== src/Tests/RepeatRuns.antt =====
-- A repeated submission on the sample rows.
use ai_compliance_orquestrat.Policy.{is_aware}
use ai_compliance_orquestrat.Planner.{
  plan_outreach_for_event, aware_now, handle_cancellation_event, plan_kind,
}
use ai_compliance_orquestrat.AuditLog.{append_audit_event}
use ai_compliance_orquestrat.Tables.{
  update_customer, add_inbound_event, update_account, update_inbound_event, update_tasks,
  add_audit_event,
}
use ai_compliance_orquestrat.Ingestion.Counted.Unused.{AreUnused}
use ai_compliance_orquestrat.Planner.Effects.{
  is_decision_of, processed_marker, cancel_scheduled_tasks, is_cancellable,
  load_customer_and_account, append_processed_marker, is_marker, has_processed_marker,
}
use ai_compliance_orquestrat.Ingestion.Repeats.{repeat_answers_same}
use ai_compliance_orquestrat.Models.{scheduled}
use ai_compliance_orquestrat.Json.{end}
use ai_compliance_orquestrat.Ingestion.{
  ingest_event_snapshot, inbound_event_idempotency_key, ingest_new_event, accept_event,
}
use ai_compliance_orquestrat.Session.{Session, modify, ◌>>=◌, reading, commit}
use ai_compliance_orquestrat.Ingestion.Replay.{
  EventIngestionResult, is_cancellation_by, result_from_planner,
}
use ai_compliance_orquestrat.Errors.{Result, ok}
use ai_compliance_orquestrat.Ingestion.Snapshots.{
  Submission, find_existing_event, upsert_customer, attempt, violates_unique, upsert_account,
  flush_inbound_event,
}
use Prim.Native.String as Strings
use text.Mathlib.TextLemmas.{length-append}
use ai_compliance_orquestrat.Prelude.{
  ℕ, ◌≡◌, ◌+◌, suc, zero, ap, refl, arith, none, some, count, find, filter,
}
use ai_compliance_orquestrat.Ingestion.Counted.{UuidsDiffer}
use ai_compliance_orquestrat.Tests.Sample.{name, sample, submission, session}

count-name : (n : ℕ) → Strings.count (name n) ≡ n + 2
unfolding name
count-name zero = refl
count-name (suc n) =
    rw (length-append (name n) "'", count-name n)
      (let one : Strings.count "'" ≡ 1 = refl in omega arith)

names-UuidsDiffer : UuidsDiffer sample
names-UuidsDiffer j k same =
    let lengths : Strings.count (name j) ≡ Strings.count (name k) = ap Strings.count same in
    let first = count-name j in let second = count-name k in omega arith

abbrev first : Submission
first = submission "ev-2" "payment_received"

abbrev again : Submission
again = record first { event_type = "payment_failed"; metadata = end }

abbrev ran : Result EventIngestionResult × Session
ran = ingest_event_snapshot none first "corr-2" (session scheduled)

abbrev answer : EventIngestionResult
answer = record {
  event_id = "id";
  created_tasks = 0;
  blocked_tasks = 0;
  deferred_tasks = 0;
  cancelled_tasks = 1;
  policy_decisions = 0;
}

abbrev later : Session
later = record { db = ran.1.committed; committed = ran.1.committed; tick = 40 }

session-AreUnused : AreUnused (session scheduled)
unfolding count is_decision_of is_cancellation_by
session-AreUnused k le = (refl, refl, refl, refl)

ran_answers : ran.0 ≡ ok answer
unfolding ingest_event_snapshot ◌>>=◌ find_existing_event find ingest_new_event upsert_customer
    update_customer modify upsert_account update_account reading attempt flush_inbound_event
    violates_unique inbound_event_idempotency_key add_inbound_event accept_event append_audit_event
    add_audit_event plan_outreach_for_event aware_now is_aware name load_customer_and_account
    plan_kind handle_cancellation_event has_processed_marker processed_marker is_marker
    cancel_scheduled_tasks update_tasks filter is_cancellable append_processed_marker
    update_inbound_event commit result_from_planner
ran_answers = refl

repeat_answers_same_example :
    ingest_event_snapshot (some (λ d. d)) again "corr-9" later ≡ (ok answer, later)
repeat_answers_same_example =
    repeat_answers_same names-UuidsDiffer none first "corr-2" (session scheduled) answer
      session-AreUnused refl ran_answers (some (λ d. d)) again "corr-9" later refl refl refl
