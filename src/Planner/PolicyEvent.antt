-- ===== src/Planner/PolicyEvent.antt =====
-- src/orchestrator/orchestration/planner.py: `_plan_policy_event`, the evaluation of every proposed
-- channel, with its decision row, its audit rows and its task.
use ai_compliance_orquestrat.Errors.{raise_if, integrity_error}
use ai_compliance_orquestrat.Tables.{add_policy_decision, add_outreach_task}
use ai_compliance_orquestrat.Planner.Effects.{audit, recent_attempt_count, is_decision_of}
use ai_compliance_orquestrat.DateTime.{DateTime}
use ai_compliance_orquestrat.Schedule.{ProposedOutreach, proposals_for_event}
use ai_compliance_orquestrat.Json.{Fields, field, text, Json, array, null, texts, end}
use ai_compliance_orquestrat.World.{World}
use ai_compliance_orquestrat.Policy.{PolicyResult, PolicyInput, evaluate_policy}
use ai_compliance_orquestrat.Models.{
  InboundEvent, Customer, Account, OutreachChannel, PolicyDecision, PolicyDecisionOutcome,
  channel_value, block, outcome_value, defer, allow, scheduled, OutreachTask,
}
use ai_compliance_orquestrat.Prelude.{
  String, ℕ, List, Bool, concat, Option, false, ◌∷◌, some, ◌==◌, none, find, if◌then◌else◌, ◌+◌, [],
  ◌||◌, is_some,
}
use ai_compliance_orquestrat.Session.{Action, ◌>>=◌, ◌>>◌, pure, reading, gets, lift}

pub record PlannerResult : Type 0 where
  pub inbound_event_id : String
  pub created_tasks : ℕ
  pub cancelled_tasks : ℕ
  pub policy_decisions : ℕ
  pub blocked_attempts : ℕ
  pub deferred_attempts : ℕ

-- `PlannerResult(inbound_event_id=…)`, the defaults
abbrev pub no_effects : InboundEvent → PlannerResult
no_effects event = record {
  inbound_event_id = event.id;
  created_tasks = 0;
  cancelled_tasks = 0;
  policy_decisions = 0;
  blocked_attempts = 0;
  deferred_attempts = 0;
}

-- the local variables of the loop over the proposals
pub record Tally : Type 0 where
  pub recent_count : ℕ
  pub created_tasks : ℕ
  pub policy_decisions : ℕ
  pub blocked_attempts : ℕ
  pub deferred_attempts : ℕ

abbrev pub start : ℕ → Tally
start recent = record {
  recent_count = recent;
  created_tasks = 0;
  policy_decisions = 0;
  blocked_attempts = 0;
  deferred_attempts = 0;
}

-- `reason in reasons`
unfoldable pub contains : String → List String → Bool
contains reason [] = false
contains reason (r ∷ rs) = r == reason || contains reason rs

abbrev pub policy_input : Customer → Account → ℕ → ProposedOutreach → ℕ → PolicyInput
policy_input customer account cap proposal recent = record {
  channel = proposal.channel;
  scheduled_at = proposal.scheduled_at;
  customer_timezone = customer.timezone;
  sms_consent = customer.sms_consent;
  call_consent = customer.call_consent;
  email_consent = customer.email_consent;
  opted_out = customer.opted_out;
  account_status = account.status;
  recent_outbound_attempt_count = recent;
  frequency_cap = cap;
}

-- the `idempotency_key` of a task
abbrev pub task_key : InboundEvent → OutreachChannel → String
task_key event channel =
    concat "outreach_task:" (concat event.id (concat ":" (channel_value channel)))

abbrev pub channel_and_reasons : PolicyResult → Fields
channel_and_reasons r =
    field "channel" (text (channel_value r.channel)) (field "reasons" (array (texts r.reasons)) end)

module _ ⦃w : World⦄ where
  abbrev pub optional_time : Option DateTime → Json
  optional_time none = null
  optional_time (some d) = text (w.isoformat d)

module _ ⦃w : World⦄ (event : InboundEvent) (customer : Customer) (account : Account)
    (correlation_id : String) where
  unfoldable pub record_decision : PolicyResult → Action PolicyDecision
  record_decision r = do
    id ← reading w.uuid4
    let row : PolicyDecision = record {
      id = id;
      account_id = account.id;
      customer_id = customer.id;
      inbound_event_id = some event.id;
      decision = r.decision;
      channel = some r.channel;
      reasons = r.reasons;
    }
    add_policy_decision row
    pure row

  -- The `idempotency_key` column is unique: the flush fails if the key is taken.
  unfoldable pub insert_task :
      OutreachChannel → DateTime → PolicyDecision → Option OutreachTask → Action (Unit {0})
  insert_task channel scheduled_at decision taken = do
    lift (raise_if (is_some taken) integrity_error)
    id ← reading w.uuid4
    created_at ← reading w.db_now
    add_outreach_task (record {
      id = id;
      account_id = account.id;
      customer_id = customer.id;
      channel = channel;
      correlation_id = correlation_id;
      status = scheduled;
      scheduled_at = scheduled_at;
      attempt_count = 0;
      max_attempts = 3;
      idempotency_key = task_key event channel;
      policy_decision_id = some decision.id;
      last_error = none;
      created_at = created_at;
    })

  unfoldable pub schedule_task : OutreachChannel → DateTime → PolicyDecision → Action (Unit {0})
  unfolding insert_task
  schedule_task channel scheduled_at decision = do
    taken ← gets (λ d. find (λ t. t.idempotency_key == task_key event channel) d.outreach_tasks)
    insert_task channel scheduled_at decision taken

  -- the end of the loop's body: the task and its audit row
  unfoldable pub create_task : PolicyResult → PolicyDecision → DateTime → Tally → Action Tally
  create_task r decision scheduled_at tally = do
    schedule_task r.channel scheduled_at decision
    audit event correlation_id "outreach_task_scheduled" "account" account.id (
        field "channel" (text (channel_value r.channel))
          (field "scheduled_at" (text (w.isoformat scheduled_at)) end))
    pure (record tally {
      created_tasks = tally.created_tasks + 1;
      recent_count = tally.recent_count + 1;
    })

  -- a deferral becomes a task if it has a time and no full cap
  unfoldable pub follow_deferral :
      PolicyResult → PolicyDecision → Option DateTime → Tally → Action Tally
  follow_deferral r decision none tally = pure tally
  follow_deferral r decision (some until) tally =
      if contains "frequency_cap_exceeded" r.reasons
      then pure tally
      else create_task r decision until tally

  unfoldable pub follow_decision :
      PolicyDecisionOutcome → PolicyResult → PolicyDecision → DateTime → Tally → Action Tally
  unfolding follow_deferral
  follow_decision block r decision proposed tally = do
    audit event correlation_id "outreach_blocked" "account" account.id (channel_and_reasons r)
    pure (record tally { blocked_attempts = tally.blocked_attempts + 1 })
  follow_decision defer r decision proposed tally = do
    audit event correlation_id "outreach_deferred" "account" account.id (
        field "channel" (text (channel_value r.channel)) (
          field "reasons" (array (texts r.reasons))
            (field "defer_until" (optional_time r.defer_until) end)))
    follow_deferral r decision r.defer_until
        (record tally { deferred_attempts = tally.deferred_attempts + 1 })
  follow_decision allow r decision proposed tally = create_task r decision proposed tally

  -- the body of the loop
  unfoldable pub plan_proposal : ℕ → ProposedOutreach → Tally → Action Tally
  unfolding follow_decision
  plan_proposal cap proposal tally = do
    r ← lift (evaluate_policy (policy_input customer account cap proposal tally.recent_count))
    decision ← record_decision r
    audit event correlation_id "policy_decision_recorded" "policy_decision" decision.id
        (field "decision" (text (outcome_value r.decision)) (channel_and_reasons r))
    follow_decision r.decision r decision proposal.scheduled_at
        (record tally { policy_decisions = tally.policy_decisions + 1 })

  unfoldable pub plan_proposals : ℕ → List ProposedOutreach → Tally → Action Tally
  plan_proposals cap [] tally = pure tally
  plan_proposals cap (proposal ∷ rest) tally = do
    tally' ← plan_proposal cap proposal tally
    plan_proposals cap rest tally'

  -- the loop over the proposals and the result, from the count of recent attempts
  unfoldable pub plan_counted : DateTime → ℕ → ℕ → Action PlannerResult
  plan_counted now cap recent = do
    proposals ← lift (proposals_for_event event.event_type now customer.timezone)
    tally ← plan_proposals cap proposals (start recent)
    pure (record {
      inbound_event_id = event.id;
      created_tasks = tally.created_tasks;
      cancelled_tasks = 0;
      policy_decisions = tally.policy_decisions;
      blocked_attempts = tally.blocked_attempts;
      deferred_attempts = tally.deferred_attempts;
    })

  unfoldable pub plan_new_policy_event : DateTime → ℕ → Action PlannerResult
  unfolding plan_counted
  plan_new_policy_event now cap = do
    recent ← recent_attempt_count customer now
    plan_counted now cap recent

  unfoldable pub plan_policy_event : DateTime → ℕ → Action PlannerResult
  unfolding plan_new_policy_event
  plan_policy_event now cap = do
    existing ← gets (λ d. find (is_decision_of event.id) d.policy_decisions)
    if is_some existing then pure (no_effects event) else plan_new_policy_event now cap
