-- ===== src/Operational.antt =====
-- src/orchestrator/domain/operational_outreach.py: what an operator may do to a task, and the
-- filters of the task list.
pub mod Kept
pub mod Expected
pub mod Recorded
use ai_compliance_orquestrat.Planner.Effects.{cancel_task}
use ai_compliance_orquestrat.Tables.{update_tasks_count, refuse_long_error}
use ai_compliance_orquestrat.Errors.{raise_if, task_state_conflict_error, or_raise, runtime_error}
use ai_compliance_orquestrat.AuditLog.{AuditEntry, append_audit_event}
use ai_compliance_orquestrat.World.{World}
use ai_compliance_orquestrat.Json.{Fields, Json, text, get, field, optional_text, object, end}
use ai_compliance_orquestrat.Prelude.{
  String, Option, Bool, none, true, find, some, ◌==◌, if◌then◌else◌, ℕ, List, is_some, false, ◌&&◌,
  eqb, not, text_leb, ◌∷◌, order_by, ltb, ◌+◌, filter, [],
}
use ai_compliance_orquestrat.Models.{
  OutreachTaskStatus, OutreachTask, Database, sent, Account, OutreachChannel, api_client,
  AuditEvent, same_status, scheduled, channel_value, same_channel, dispatching, task_status_value,
}
use ai_compliance_orquestrat.Session.{
  Action, gets, ◌>>◌, rollback, lift, raise, commit, ◌>>=◌, pure,
}

-- `DeliveryStatus`, the two literals "sent" and "failed"
pub data DeliveryStatus : Type 0 where
  marked_sent marked_failed : DeliveryStatus

-- `OutreachTaskStatus(status)`
abbrev pub new_status : DeliveryStatus → OutreachTaskStatus
new_status marked_sent = sent
new_status marked_failed = OutreachTaskStatus.failed

-- `ALLOWED_MANUAL_DELIVERY_SOURCE_STATUSES`
unfoldable pub allows_manual_delivery : OutreachTaskStatus → Bool
allows_manual_delivery scheduled = true
allows_manual_delivery dispatching = true
allows_manual_delivery OutreachTaskStatus.failed = true
allows_manual_delivery _ = false

unfoldable pub get_outreach_task : String → Action (Option OutreachTask)
get_outreach_task id = gets (λ d. find (λ t. t.id == id) d.outreach_tasks)

unfoldable pub find_account_by_external_id : String → Action (Option Account)
find_account_by_external_id external_id =
    gets (λ d. find (λ a. a.external_id == external_id) d.accounts)

-- the error of a failed delivery: a text under `error`, or a default
unfoldable pub error_text : Option Json → String
error_text (some (text e)) = e
error_text _ = "manual delivery result failed"

unfoldable pub manual_error : DeliveryStatus → Fields → Option String
unfolding error_text
manual_error marked_sent details = none
manual_error marked_failed details = some (error_text (get "error" details))

unfoldable pub is_unchanged : OutreachTask → OutreachTask → Bool
is_unchanged task t = t.id == task.id && same_status t.status task.status

unfoldable pub mark_manually : DeliveryStatus → Fields → OutreachTask → OutreachTask
unfolding manual_error
mark_manually status details t = record t {
  status = new_status status;
  last_error = manual_error status details;
}

unfoldable pub is_scheduled_for : Account → OutreachTask → Bool
is_scheduled_for account t = t.account_id == account.id && same_status t.status scheduled

unfoldable pub is_scheduled_task : String → OutreachTask → Bool
is_scheduled_task id t = t.id == id && same_status t.status scheduled

module _ ⦃w : World⦄ where
  unfoldable pub manual_entry : OutreachTask → DeliveryStatus → Option String → Fields → AuditEntry
  manual_entry task status provider_message_id details = record {
    entity_type = "outreach_task";
    entity_id = task.id;
    event_type = "delivery_result_recorded";
    actor_type = api_client;
    actor_id = some "operational-api";
    correlation_id = task.correlation_id;
    payload = field "provider_message_id" (optional_text provider_message_id) (
        field "details" (object details) (
          field "previous_status" (text (task_status_value task.status))
            (field "new_status" (text (task_status_value (new_status status))) end)));
  }

  unfoldable pub conflict_after_rollback : Action OutreachTask
  conflict_after_rollback = do
    rollback
    raise (task_state_conflict_error "Task status changed before delivery result update")

  unfoldable pub finish_manual : OutreachTask → AuditEntry → Action OutreachTask
  finish_manual task entry = do
    append_audit_event entry
    commit
    updated ← get_outreach_task task.id
    lift (or_raise updated (runtime_error "task disappeared after manual delivery result"))

  -- `task` is the row as the request read it; the row may have changed since.
  unfoldable pub record_manual_delivery_result :
      OutreachTask → DeliveryStatus → Option String → Fields → Action OutreachTask
  unfolding manual_entry conflict_after_rollback finish_manual
  record_manual_delivery_result task status provider_message_id details = do
    lift (
        raise_if (not (allows_manual_delivery task.status))
          (task_state_conflict_error "Task status does not allow manual delivery result"))
    refuse_long_error (is_unchanged task) (manual_error status details)
    rowcount ← update_tasks_count (is_unchanged task) (mark_manually status details)
    if eqb rowcount 1
        then finish_manual task (manual_entry task status provider_message_id details)
        else conflict_after_rollback

  -- `ORDER BY created_at, id`
  pub created_before : OutreachTask → OutreachTask → Bool
  created_before t u =
      if eqb (w.instant t.created_at) (w.instant u.created_at)
      then text_leb t.id u.id
      else ltb (w.instant t.created_at) (w.instant u.created_at)

  module _ (account : Account) (reason : String) (correlation_id : String) where
    audit_manual_cancellation : OutreachTask → Action AuditEvent
    audit_manual_cancellation t = append_audit_event (record {
      entity_type = "outreach_task";
      entity_id = t.id;
      event_type = "outreach_cancelled";
      actor_type = api_client;
      actor_id = some "operational-api";
      correlation_id = correlation_id;
      payload = field "reason" (text reason) (
          field "account_external_id" (text account.external_id) (
            field "channel" (text (channel_value t.channel))
              (field "cancelled_by" (text "operational_api") end)));
    })

    -- the body of the loop: 1 if the task was still scheduled
    unfoldable pub cancel_one : OutreachTask → Action ℕ
    unfolding audit_manual_cancellation
    cancel_one t = do
      rowcount ← update_tasks_count (is_scheduled_task t.id) cancel_task
      if eqb rowcount 1 then (do audit_manual_cancellation t; pure 1) else pure 0

    unfoldable pub cancel_each : List OutreachTask → ℕ → Action ℕ
    cancel_each [] cancelled_count = pure cancelled_count
    cancel_each (t ∷ rest) cancelled_count = do
      n ← cancel_one t
      cancel_each rest (cancelled_count + n)

    unfoldable pub cancel_scheduled_account_outreach : Action ℕ
    unfolding created_before
    cancel_scheduled_account_outreach = do
      tasks ←
          gets (λ d. order_by created_before (filter (is_scheduled_for account) d.outreach_tasks))
      cancelled_count ← cancel_each tasks 0
      commit
      pure cancelled_count

-- The query parameters of the task list.
pub record TaskFilters : Type 0 where
  pub status : Option OutreachTaskStatus
  pub customer_external_id : Option String
  pub account_external_id : Option String
  pub channel : Option OutreachChannel

-- a parameter that is absent does not restrict
abbrev pub unless_given {ℓ} : {A : Type ℓ} → Option A → (A → Bool) → Bool
unless_given none p = true
unless_given (some a) p = p a

-- `OutreachTask.customer.has(external_id=…)` and the same for the account
unfoldable pub belongs_to_customer : Database → OutreachTask → String → Bool
belongs_to_customer d t external_id =
    is_some (find (λ c. c.id == t.customer_id && c.external_id == external_id) d.customers)

unfoldable pub belongs_to_account : Database → OutreachTask → String → Bool
belongs_to_account d t external_id =
    is_some (find (λ a. a.id == t.account_id && a.external_id == external_id) d.accounts)

unfoldable pub apply_task_filters : TaskFilters → Database → OutreachTask → Bool
unfolding belongs_to_customer belongs_to_account
apply_task_filters f d t =
    unless_given f.status (same_status t.status)
    && (unless_given f.channel (same_channel t.channel)
        && (unless_given f.customer_external_id (belongs_to_customer d t)
            && unless_given f.account_external_id (belongs_to_account d t)))
