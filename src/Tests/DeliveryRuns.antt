-- ===== src/Tests/DeliveryRuns.antt =====
-- Deliveries and events that are handled twice, on concrete rows.
use ai_compliance_orquestrat.Text.{code_points}
use ai_compliance_orquestrat.DateTime.{DateTime, plus, hour, day}
use ai_compliance_orquestrat.Operational.Expected.{IsManualEntry}
use ai_compliance_orquestrat.Operational.Recorded.{manual_result_recorded, manual_result_conflicts}
use ai_compliance_orquestrat.Worker.Recorded.{
  delivery_recorded, failure_recorded, long_failure_lost, late_result_dropped, IsSuccessEntry,
  IsFailureEntry,
}
use ai_compliance_orquestrat.AuditLog.TaskChange.{IsTaskChange}
use ai_compliance_orquestrat.Planner.Effects.{
  audit, cancel_scheduled_tasks, is_cancellable, audit_cancelled, append_processed_marker,
}
use ai_compliance_orquestrat.Tests.Sample.{account}
use ai_compliance_orquestrat.Tables.{update_customer, add_audit_event, update_tasks}
use ai_compliance_orquestrat.Planner.Once.{plan_kind_once}
use ai_compliance_orquestrat.Planner.PolicyEvent.{no_effects}
use ai_compliance_orquestrat.Planner.Effects.{has_processed_marker, processed_marker, is_marker}
use ai_compliance_orquestrat.Session.{Session, ◌>>=◌, lift, gets, modify, reading, pure}
use ai_compliance_orquestrat.Planner.{plan_kind, handle_opt_out, opt_out_received}
use ai_compliance_orquestrat.AuditLog.{append_audit_event}
use ai_compliance_orquestrat.Operational.{record_manual_delivery_result, marked_failed}
use ai_compliance_orquestrat.Worker.Record.{DeliveryResult, record_success, record_failure}
use ai_compliance_orquestrat.Tests.Sample.{
  sample, session, tables, task_of, known_event, opted_out_customer, nine,
}
use ai_compliance_orquestrat.Models.{
  dispatching, sent, scheduled, InboundEvent, OutreachTaskStatus, OutreachTask,
}
use ai_compliance_orquestrat.Json.{end, get, field, text}
use ai_compliance_orquestrat.Errors.{ok, Result, err, data_error, task_state_conflict_error}
use ai_compliance_orquestrat.Prelude.{
  ◌≡◌, [], ◌∷◌, none, count, find, filter, refl, String, ℕ, ◌==◌, ◌*◌, some, suc, ◌<◌, arith, ◌≤◌,
  ◌+◌, true, concat, zero, false, inl, inr,
}

abbrev receipt : DeliveryResult
receipt = record { provider_message_id = "sms-1"; details = end }

-- the row of the sample tables
one_row : (status : OutreachTaskStatus) → count (λ t. t.id == "t1") (task_of status ∷ []) ≤ 1
unfolding count
one_row status = omega arith

abbrev delivered_run : Result (Unit {0}) × Session
delivered_run = record_success "worker-1" (task_of dispatching) receipt (session dispatching)

delivery_recorded_example :
    (delivered_run.0 ≡ ok tt)
    × IsTaskChange "t1"
        (record (task_of dispatching) { status = sent; last_error = none })
        (IsSuccessEntry "worker-1" (task_of dispatching) receipt)
        (session dispatching)
        delivered_run.1
unfolding find
delivery_recorded_example =
    delivery_recorded "worker-1" (task_of dispatching) (session dispatching) (one_row dispatching)
      refl receipt refl

abbrev in_an_hour : DateTime
in_an_hour = record { wall = 10 * hour + 365 * day; fold = false; tzinfo = some "UTC" }

hour_later : plus nine hour ≡ some in_an_hour
unfolding plus
hour_later = refl

abbrev failed_run : String → OutreachTaskStatus → Result (Unit {0}) × Session
failed_run error status =
    record_failure nine hour "worker-1" (task_of dispatching) error (session status)

-- an attempt is left: the task is scheduled again
failure_recorded_example :
    ((failed_run "timeout" dispatching).0 ≡ ok tt)
    × IsTaskChange "t1"
        (record (task_of dispatching) {
          status = scheduled;
          scheduled_at = in_an_hour;
          last_error = some "timeout";
        })
        (IsFailureEntry "worker-1" (task_of dispatching) "timeout" true)
        (session dispatching)
        (failed_run "timeout" dispatching).1
unfolding find code_points
failure_recorded_example =
    failure_recorded "worker-1" (task_of dispatching) (session dispatching) (one_row dispatching)
      refl nine hour "timeout" refl hour_later (omega arith)

-- a text of 1024 characters
unfoldable doubled : ℕ → String
doubled zero = "x"
doubled (suc n) = concat (doubled n) (doubled n)

long_text : 1000 < code_points (doubled 10)
unfolding code_points doubled
long_text = omega arith

long_failure_lost_example :
    failed_run (doubled 10) dispatching ≡ (err data_error, session dispatching)
unfolding find
long_failure_lost_example =
    long_failure_lost "worker-1" (task_of dispatching) (session dispatching) (one_row dispatching)
      refl nine hour (doubled 10) refl hour_later long_text

late_results_dropped_run :
    (record_success "worker-1" (task_of dispatching) receipt (session sent) ≡ (ok tt, session sent))
    × (failed_run "timeout" sent ≡ (ok tt, session sent))
unfolding find
late_results_dropped_run =
    late_result_dropped "worker-1" (task_of dispatching) (session sent) (one_row sent) refl nine
      hour "timeout" receipt (λ e. ground arith) hour_later

abbrev manual_run : OutreachTaskStatus → Result OutreachTask × Session
manual_run stored =
    record_manual_delivery_result (task_of scheduled) marked_failed none
      (field "error" (text "no answer") end) (session stored)

abbrev unanswered : OutreachTask
unanswered = record (task_of scheduled) {
  status = OutreachTaskStatus.failed;
  last_error = some "no answer";
}

manual_result_recorded_example :
    ((manual_run scheduled).0 ≡ ok unanswered)
    × IsTaskChange "t1" unanswered
        (IsManualEntry
          (task_of scheduled)
          marked_failed
          none
          (field "error" (text "no answer") end))
        (session scheduled)
        (manual_run scheduled).1
unfolding find get code_points
manual_result_recorded_example =
    manual_result_recorded (task_of scheduled) marked_failed none
      (field "error" (text "no answer") end) (session scheduled) (one_row scheduled) refl refl
      (inl refl) (omega arith)

-- the task was sent after it was read
manual_result_conflicts_example :
    (why : String) × ((manual_run sent).0 ≡ err (task_state_conflict_error why))
    × ((manual_run sent).1.committed ≡ tables sent)
unfolding find
manual_result_conflicts_example =
    manual_result_conflicts (task_of scheduled) marked_failed none
      (field "error" (text "no answer") end) (session sent) (one_row sent) refl
      (inr (λ e. ground arith))

abbrev opt_out : InboundEvent
opt_out = record known_event { event_type = "opt_out_received" }

-- One task is open, and is cancelled.
opt_out_handled :
    (plan_kind opt_out opted_out_customer account "corr" opt_out_received nine 3
      (session scheduled)).0
    ≡ ok (record (no_effects opt_out) { cancelled_tasks = 1 })
unfolding plan_kind handle_opt_out has_processed_marker processed_marker ◌>>=◌ lift gets find
    is_marker update_customer modify audit append_audit_event reading add_audit_event
    cancel_scheduled_tasks filter is_cancellable update_tasks audit_cancelled
    append_processed_marker pure
opt_out_handled = refl

abbrev after_opt_out : Session
after_opt_out =
    (plan_kind opt_out opted_out_customer account "corr" opt_out_received nine 3
      (session scheduled)).1

plan_kind_once_example :
    plan_kind opt_out opted_out_customer account "corr-2" opt_out_received nine 5 after_opt_out
    ≡ (ok (no_effects opt_out), after_opt_out)
plan_kind_once_example =
    plan_kind_once opt_out opted_out_customer opted_out_customer account account "corr" "corr-2"
      opt_out_received nine nine 3 5 (session scheduled)
      (record (no_effects opt_out) { cancelled_tasks = 1 }) tt opt_out_handled
