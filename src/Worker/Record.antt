-- ===== src/Worker/Record.antt =====
-- src/orchestrator/channels and workers/dispatch.py: the providers' answers, and
-- `_record_success` and `_record_failure`, which write only to a task that is still dispatching.
use ai_compliance_orquestrat.Errors.{Result, err, overflow_error, ok}
use ai_compliance_orquestrat.Tables.{update_tasks_count, refuse_long_error}
use ai_compliance_orquestrat.AuditLog.{AuditEntry, append_audit_event}
use ai_compliance_orquestrat.DateTime.{DateTime, plus}
use ai_compliance_orquestrat.Json.{Fields, Json, field, null, text, boolean, object, end}
use ai_compliance_orquestrat.World.{World}
use ai_compliance_orquestrat.Models.{
  OutreachTask, OutreachChannel, sent, channel_value, sms, scheduled, worker, same_status,
  OutreachTaskStatus, dispatching, email, call,
}
use ai_compliance_orquestrat.Prelude.{
  String, concat, Option, Bool, ℕ, some, ◌==◌, none, ◌&&◌, if◌then◌else◌, eqb, ltb, true, is_some,
}
use ai_compliance_orquestrat.Session.{Action, ◌>>=◌, lift, ◌>>◌, commit, rollback}

pub record DeliveryResult : Type 0 where
  pub provider_message_id : String
  pub details : Fields

-- What a call of a provider comes to: its result, or the text of the exception.
pub data Delivery : Type 0 where
  delivered : DeliveryResult → Delivery
  failure : String → Delivery

abbrev pub Adapter : Type 0
Adapter = OutreachTask → Delivery

-- `MockCallAdapter`, `MockSmsAdapter` and `MockEmailAdapter`
unfoldable pub mock_adapter : OutreachChannel → Adapter
mock_adapter channel t = delivered (record {
  provider_message_id = concat "mock_" (concat (channel_value channel) (concat ":" t.id));
  details = field "channel" (text (channel_value channel)) (field "mock" (boolean true) end);
})

unfoldable pub default_adapters : OutreachChannel → Option Adapter
unfolding mock_adapter
default_adapters sms = some (mock_adapter sms)
default_adapters email = some (mock_adapter email)
default_adapters call = some (mock_adapter call)

unfoldable pub is_dispatching : String → OutreachTask → Bool
is_dispatching id t = t.id == id && same_status t.status dispatching

unfoldable pub mark_sent : OutreachTask → OutreachTask
mark_sent t = record t { status = sent; last_error = none }

-- the values of the update: `retry_scheduled_at or task.scheduled_at`
unfoldable pub mark_failure : OutreachTask → Option DateTime → String → OutreachTask → OutreachTask
mark_failure task (some retry_at) error t = record t {
  status = scheduled;
  scheduled_at = retry_at;
  last_error = some error;
}
mark_failure task none error t = record t {
  status = OutreachTaskStatus.failed;
  scheduled_at = task.scheduled_at;
  last_error = some error;
}

module _ ⦃w : World⦄ where
  -- One row was written: the audit row and the commit. Otherwise nothing is kept.
  unfoldable pub finish_update : ℕ → AuditEntry → Action (Unit {0})
  finish_update rowcount entry =
      if eqb rowcount 1 then (do append_audit_event entry; commit) else rollback

  unfoldable pub success_entry : String → OutreachTask → DeliveryResult → AuditEntry
  success_entry worker_id task result = record {
    entity_type = "outreach_task";
    entity_id = task.id;
    event_type = "dispatch_succeeded";
    actor_type = worker;
    actor_id = some worker_id;
    correlation_id = task.correlation_id;
    payload =
        field "provider_message_id" (text result.provider_message_id)
          (field "details" (object result.details) end);
  }

  unfoldable pub record_success : String → OutreachTask → DeliveryResult → Action (Unit {0})
  unfolding finish_update success_entry
  record_success worker_id task result = do
    rowcount ← update_tasks_count (is_dispatching task.id) mark_sent
    finish_update rowcount (success_entry worker_id task result)

  -- `now + retry_delay if will_retry else None`
  unfoldable pub retry_time : DateTime → ℕ → OutreachTask → Result (Option DateTime)
  retry_time now retry_delay task =
      if ltb task.attempt_count task.max_attempts
      then elim (plus now retry_delay) [ none ↦ err overflow_error | some d ↦ ok (some d) ]
      else ok none

  unfoldable pub retry_text : Option DateTime → Json
  retry_text none = null
  retry_text (some d) = text (w.isoformat d)

  unfoldable pub failure_entry : String → OutreachTask → String → Option DateTime → AuditEntry
  unfolding retry_text
  failure_entry worker_id task error retry_at = record {
    entity_type = "outreach_task";
    entity_id = task.id;
    event_type = "dispatch_failed";
    actor_type = worker;
    actor_id = some worker_id;
    correlation_id = task.correlation_id;
    payload = field "error" (text error) (
        field "will_retry" (boolean (is_some retry_at)) (
          field "retry_scheduled_at" (retry_text retry_at) (
            field "final_status" (text (if is_some retry_at then "scheduled" else "failed")) end)));
  }

  unfoldable pub record_failure : DateTime → ℕ → String → OutreachTask → String → Action (Unit {0})
  unfolding finish_update failure_entry
  record_failure now retry_delay worker_id task error = do
    retry_at ← lift (retry_time now retry_delay task)
    refuse_long_error (is_dispatching task.id) (some error)
    rowcount ← update_tasks_count (is_dispatching task.id) (mark_failure task retry_at error)
    finish_update rowcount (failure_entry worker_id task error retry_at)
