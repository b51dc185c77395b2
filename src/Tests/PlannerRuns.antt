-- ===== src/Tests/PlannerRuns.antt =====
-- A policy event on concrete rows.
use ai_compliance_orquestrat.Planner.Cancelled.{IsCancelled, cancel_scheduled_tasks_lem}
use ai_compliance_orquestrat.Policy.{
  evaluate_policy, is_aware, decide_unblocked, block_reasons, quiet_hours_defer_until, next_opening,
  unblocked_result, defer_reasons,
}
use ai_compliance_orquestrat.Schedule.{proposals_for_event}
use ai_compliance_orquestrat.Schedule.{proposals_for_event}
use ai_compliance_orquestrat.Tables.{add_outreach_task, add_policy_decision, add_audit_event}
use ai_compliance_orquestrat.AuditLog.{append_audit_event}
use ai_compliance_orquestrat.Planner.Effects.{
  audit, recent_attempt_count, counts_since, is_recent_attempt_status, is_decision_of,
  cancel_scheduled_tasks,
}
use ai_compliance_orquestrat.Planner.Rounds.{IsPolicyResult, recent_attempts, plan_policy_event_lem}
use ai_compliance_orquestrat.Errors.{Result, ok}
use ai_compliance_orquestrat.Prelude.{◌*◌, false, ◌+◌, ◌≡◌, some, refl, find, count, ℕ, filter}
use ai_compliance_orquestrat.Planner.Makes.{Added}
use ai_compliance_orquestrat.Planner.PolicyEvent.{
  PlannerResult, plan_policy_event, no_effects, plan_new_policy_event, plan_counted, plan_proposals,
  plan_proposal, record_decision, schedule_task, create_task, follow_decision,
}
use ai_compliance_orquestrat.DateTime.{DateTime, minus, hour, day, plus}
use ai_compliance_orquestrat.Models.{Customer, sent, scheduled}
use ai_compliance_orquestrat.Tests.Sample.{
  sample, opted_out_customer, nine, known_event, sample_laws, account, tables, session, name,
}
use ai_compliance_orquestrat.Session.{◌>>=◌, Session, reading, modify, gets, lift, pure}

abbrev consenting : Customer
consenting = record opted_out_customer { opted_out = false }

abbrev yesterday : DateTime
yesterday = record { wall = 9 * hour + 364 * day; fold = false; tzinfo = some "UTC" }

one_day_before : minus nine day ≡ some yesterday
unfolding minus
one_day_before = refl

-- an email at once and a text a quarter later
abbrev two_tasks : PlannerResult
two_tasks = record (no_effects known_event) { created_tasks = 2; policy_decisions = 2 }

abbrev run : Session → Result PlannerResult × Session
run = plan_policy_event known_event consenting account "corr" nine 3

both_planned : (run (session sent)).0 ≡ ok two_tasks
unfolding plan_policy_event plan_new_policy_event plan_counted plan_proposals plan_proposal
    record_decision schedule_task create_task follow_decision audit append_audit_event reading
    add_outreach_task add_policy_decision add_audit_event modify ◌>>=◌ gets lift pure find count
    recent_attempt_count counts_since is_recent_attempt_status proposals_for_event plus minus
    evaluate_policy is_aware decide_unblocked block_reasons quiet_hours_defer_until next_opening
    unblocked_result defer_reasons is_decision_of name
both_planned = refl

plan_policy_event_lem_example :
    Added
      (IsPolicyResult sample_laws known_event consenting account "corr" 3 (
        recent_attempts sample_laws known_event consenting account "corr" 3 nine one_day_before
          (tables sent)))
      (tables sent)
      (run (session sent)).1.db
      two_tasks
plan_policy_event_lem_example =
    plan_policy_event_lem sample_laws known_event consenting account "corr" 3 nine one_day_before
      (session sent) two_tasks both_planned

abbrev cancelled_run : Result ℕ × Session
cancelled_run = cancel_scheduled_tasks known_event "corr" consenting account (session scheduled)

cancel_scheduled_tasks_lem_example :
    (cancelled_run.0 ≡ ok 1)
    × IsCancelled known_event "corr" account consenting (session scheduled) cancelled_run.1
unfolding filter
cancel_scheduled_tasks_lem_example =
    cancel_scheduled_tasks_lem known_event "corr" account consenting (session scheduled)
