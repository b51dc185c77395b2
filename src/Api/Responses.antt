-- ===== src/Api/Responses.antt =====
-- src/orchestrator/api: the response models of tasks.py and accounts.py, and `task_response`.
-- `updated_at` is left out, as the column is.
use mathlib.Core.Option
use ai_compliance_orquestrat.Models.{
  OutreachTask, Account, Customer, PolicyDecision, Database, OutreachChannel, OutreachTaskStatus,
  outcome_value, channel_value,
}
use ai_compliance_orquestrat.DateTime.{DateTime}
use ai_compliance_orquestrat.Session.{Action, ◌>>=◌, gets, lift, pure}
use ai_compliance_orquestrat.Errors.{or_raise, runtime_error}
use ai_compliance_orquestrat.Prelude.{ℕ, String, List, Option, find, ◌==◌, none, some}

pub record PolicyDecisionContextResponse : Type 0 where
  pub id : String
  pub decision : String
  pub channel : Option String
  pub reasons : List String

pub record OutreachTaskResponse : Type 0 where
  pub id : String
  pub account_external_id : String
  pub customer_external_id : String
  pub channel : OutreachChannel
  pub status : OutreachTaskStatus
  pub correlation_id : String
  pub scheduled_at : DateTime
  pub attempt_count : ℕ
  pub max_attempts : ℕ
  pub last_error : Option String
  pub created_at : DateTime
  pub policy_decision : Option PolicyDecisionContextResponse

pub record CancelOutreachResponse : Type 0 where
  pub account_external_id : String
  pub cancelled_tasks : ℕ

unfoldable pub decision_context : PolicyDecision → PolicyDecisionContextResponse
decision_context d = record {
  id = d.id;
  decision = outcome_value d.decision;
  channel = Option.map channel_value d.channel;
  reasons = d.reasons;
}

unfoldable pub task_response :
    OutreachTask → Account → Customer → Option PolicyDecision → OutreachTaskResponse
unfolding decision_context
task_response task account customer policy_decision = record {
  id = task.id;
  account_external_id = account.external_id;
  customer_external_id = customer.external_id;
  channel = task.channel;
  status = task.status;
  correlation_id = task.correlation_id;
  scheduled_at = task.scheduled_at;
  attempt_count = task.attempt_count;
  max_attempts = task.max_attempts;
  last_error = task.last_error;
  created_at = task.created_at;
  policy_decision = Option.map decision_context policy_decision;
}

-- the `selectinload` of a task's decision
unfoldable pub decision_of : Option String → Database → Option PolicyDecision
decision_of none d = none
decision_of (some id) d = find (λ p. p.id == id) d.policy_decisions

-- `task_response(task)` with the related rows that were loaded with the task
unfoldable pub respond_with : OutreachTask → Action OutreachTaskResponse
unfolding task_response decision_of
respond_with task = do
  account ← gets (λ d. find (λ a. a.id == task.account_id) d.accounts)
  account ← lift (or_raise account (runtime_error "NoneType has no external_id"))
  customer ← gets (λ d. find (λ c. c.id == task.customer_id) d.customers)
  customer ← lift (or_raise customer (runtime_error "NoneType has no external_id"))
  policy_decision ← gets (decision_of task.policy_decision_id)
  pure (task_response task account customer policy_decision)
