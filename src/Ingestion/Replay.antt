-- ===== src/Ingestion/Replay.antt =====
-- src/orchestrator/domain/event_ingestion.py: the result of an event, from the planner and from
-- the rows that an earlier submission left.
use ai_compliance_orquestrat.Planner.Effects.{is_decision_of}
use ai_compliance_orquestrat.Json.{Json, text, get}
use ai_compliance_orquestrat.Planner.PolicyEvent.{PlannerResult}
use ai_compliance_orquestrat.Models.{
  OutreachTask, InboundEvent, PolicyDecision, PolicyDecisionOutcome, AuditEvent, Database, block,
  same_outcome, defer,
}
use ai_compliance_orquestrat.Prelude.{
  none, String, Option, ℕ, List, Bool, ◌∷◌, count, ◌&&◌, some, ◌==◌, ◌+◌, [], false,
}
use ai_compliance_orquestrat.Session.{Action, gets}

pub record EventIngestionResult : Type 0 where
  pub event_id : String
  pub created_tasks : ℕ
  pub blocked_tasks : ℕ
  pub deferred_tasks : ℕ
  pub cancelled_tasks : ℕ
  pub policy_decisions : ℕ

unfoldable pub result_from_planner : String → PlannerResult → EventIngestionResult
result_from_planner event_id r = record {
  event_id = event_id;
  created_tasks = r.created_tasks;
  blocked_tasks = r.blocked_attempts;
  deferred_tasks = r.deferred_attempts;
  cancelled_tasks = r.cancelled_tasks;
  policy_decisions = r.policy_decisions;
}

unfoldable pub has_outcome : String → PolicyDecisionOutcome → PolicyDecision → Bool
unfolding is_decision_of
has_outcome event_id outcome d = is_decision_of event_id d && same_outcome d.decision outcome

-- `OutreachTask.policy_decision_id == PolicyDecision.id`
unfoldable pub joins : OutreachTask → PolicyDecision → Bool
joins t d = elim t.policy_decision_id [ none ↦ false | some id ↦ id == d.id ]

-- the pairs of a task and a decision of the event that the join yields
unfoldable pub count_created : String → List OutreachTask → List PolicyDecision → ℕ
unfolding joins is_decision_of
count_created event_id [] decisions = 0
count_created event_id (t ∷ rest) decisions =
    count (λ d. joins t d && is_decision_of event_id d) decisions
    + count_created event_id rest decisions

-- `payload["inbound_event_id"].as_string() == str(event.id)`
unfoldable pub names_event : Option Json → String → Bool
names_event (some (text id)) event_id = id == event_id
names_event _ event_id = false

unfoldable pub is_cancellation_by : String → AuditEvent → Bool
unfolding names_event
is_cancellation_by event_id a =
    a.entity_type == "outreach_task"
    && (a.event_type == "outreach_cancelled"
        && names_event (get "inbound_event_id" a.payload) event_id)

unfoldable pub existing_result : InboundEvent → Database → EventIngestionResult
existing_result event d = record {
  event_id = event.id;
  created_tasks = count_created event.id d.outreach_tasks d.policy_decisions;
  blocked_tasks = count (has_outcome event.id block) d.policy_decisions;
  deferred_tasks = count (has_outcome event.id defer) d.policy_decisions;
  cancelled_tasks = count (is_cancellation_by event.id) d.audit_events;
  policy_decisions = count (is_decision_of event.id) d.policy_decisions;
}

unfoldable pub result_from_existing_event : InboundEvent → Action EventIngestionResult
result_from_existing_event event = gets (existing_result event)
