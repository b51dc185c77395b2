-- ===== src/Planner/Effects.antt =====
-- src/orchestrator/orchestration/planner.py: the audit wrapper, the markers of processed events,
-- the cancellation of scheduled tasks, and the queries.
use ai_compliance_orquestrat.Tables.{update_tasks}
use ai_compliance_orquestrat.AuditLog.{append_audit_event}
use ai_compliance_orquestrat.DateTime.{DateTime, minus, day}
use ai_compliance_orquestrat.Json.{Fields, put, text, field, end}
use ai_compliance_orquestrat.Errors.{
  Result, ok, err, or_raise, key_error, value_error, overflow_error, raise_if,
}
use ai_compliance_orquestrat.World.{World}
use ai_compliance_orquestrat.Models.{
  InboundEvent, OutreachTaskStatus, Account, OutreachTask, Customer, cancelled, AuditEvent, system,
  scheduled, same_status, dispatching, sent, channel_value, PolicyDecision,
}
use ai_compliance_orquestrat.Prelude.{
  none, some, String, Bool, ℕ, List, if◌then◌else◌, true, ◌==◌, false, ◌&&◌, ◌∷◌, leb, find, some,
  filter, is_some, concat, length, [], count, not,
}
use ai_compliance_orquestrat.Session.{Action, ◌>>=◌, pure, lift, gets, ◌>>◌}

-- `_PROCESSED_MARKERS[event_type]`
unfoldable pub processed_marker : String → Result String
processed_marker event_type =
    if event_type == "payment_received"
    then ok "planner_payment_received_processed"
    else if event_type == "opt_out_received"
    then ok "planner_opt_out_processed"
    else if event_type == "hardship_requested"
    then ok "planner_hardship_processed"
    else if event_type == "account_paused"
    then ok "planner_account_paused_processed"
    else err key_error

-- `{**payload, "inbound_event_id": …, "inbound_event_type": …}`
unfoldable pub with_event : InboundEvent → Fields → Fields
with_event event payload =
    put "inbound_event_type" (text event.event_type)
      (put "inbound_event_id" (text event.id) payload)

-- statuses that count as an attempt, `_RECENT_ATTEMPT_STATUSES`
unfoldable pub is_recent_attempt_status : OutreachTaskStatus → Bool
is_recent_attempt_status scheduled = true
is_recent_attempt_status dispatching = true
is_recent_attempt_status sent = true
is_recent_attempt_status OutreachTaskStatus.failed = true
is_recent_attempt_status _ = false

-- the rows of `_cancel_scheduled_tasks`
unfoldable pub is_cancellable : Account → Customer → OutreachTask → Bool
is_cancellable account customer t =
    t.account_id == account.id && (t.customer_id == customer.id && same_status t.status scheduled)

unfoldable pub cancel_task : OutreachTask → OutreachTask
cancel_task t = record t { status = cancelled }

-- `PolicyDecision.inbound_event_id == event.id`
unfoldable pub is_decision_of : String → PolicyDecision → Bool
is_decision_of event_id d = elim d.inbound_event_id [ none ↦ false | some id ↦ id == event_id ]

-- a marker row of one event
unfoldable pub is_marker : String → InboundEvent → AuditEvent → Bool
is_marker marker event a =
    a.entity_type == "inbound_event" && (a.entity_id == event.id && a.event_type == marker)

module _ ⦃w : World⦄ where
  -- the tasks of the customer that count against the cap at a time `since`
  unfoldable pub counts_since : ℕ → Customer → OutreachTask → Bool
  unfolding is_recent_attempt_status
  counts_since since customer t =
      t.customer_id == customer.id
      && (is_recent_attempt_status t.status && leb since (w.instant t.created_at))

  unfoldable pub recent_attempt_count : Customer → DateTime → Action ℕ
  recent_attempt_count customer now = do
    since ← lift (or_raise (minus now day) overflow_error)
    gets (λ d. count (counts_since (w.instant since) customer) d.outreach_tasks)

  unfoldable pub load_customer_and_account : InboundEvent → Action (Customer × Account)
  load_customer_and_account event = do
    found_customer ← gets (λ d. find (λ c. c.external_id == event.customer_external_id) d.customers)
    customer ← lift (
        or_raise found_customer (
          value_error (concat "Customer not found for inbound event: " event.customer_external_id)))
    found_account ← gets (λ d. find (λ a. a.external_id == event.account_external_id) d.accounts)
    account ← lift (
        or_raise found_account
          (value_error (concat "Account not found for inbound event: " event.account_external_id)))
    lift (
        raise_if (not (account.customer_id == customer.id))
          (value_error "Inbound event customer/account do not match"))
    pure (customer, account)

  module _ (event : InboundEvent) where
    unfoldable pub has_processed_marker : Action Bool
    has_processed_marker = do
      marker ← lift (processed_marker event.event_type)
      found ← gets (λ d. find (is_marker marker event) d.audit_events)
      pure (is_some found)

    module _ (correlation_id : String) where
      unfoldable pub append_processed_marker : Action AuditEvent
      append_processed_marker = do
        marker ← lift (processed_marker event.event_type)
        append_audit_event (record {
          entity_type = "inbound_event";
          entity_id = event.id;
          event_type = marker;
          actor_type = system;
          actor_id = some "outreach-planner";
          correlation_id = correlation_id;
          payload =
              field "marker" (text marker) (field "inbound_event_type" (text event.event_type) end);
        })

      -- `_audit`
      unfoldable pub audit : String → String → String → Fields → Action AuditEvent
      audit event_type entity_type entity_id payload = append_audit_event (record {
        entity_type = entity_type;
        entity_id = entity_id;
        event_type = event_type;
        actor_type = system;
        actor_id = some "outreach-planner";
        correlation_id = correlation_id;
        payload = with_event event payload;
      })

      unfoldable pub audit_cancelled : Account → List OutreachTask → Action (Unit {0})
      unfolding audit
      audit_cancelled account [] = pure tt
      audit_cancelled account (t ∷ rest) = do
        audit "outreach_cancelled" "outreach_task" t.id (
            field "channel" (text (channel_value t.channel))
              (field "account_external_id" (text account.external_id) end))
        audit_cancelled account rest

      -- The selected objects are the session's own rows: to set their status is to change exactly
      -- the rows that were selected.
      unfoldable pub cancel_scheduled_tasks : Customer → Account → Action ℕ
      unfolding audit_cancelled
      cancel_scheduled_tasks customer account = do
        tasks ← gets (λ d. filter (is_cancellable account customer) d.outreach_tasks)
        update_tasks (is_cancellable account customer) cancel_task
        audit_cancelled account tasks
        pure (length tasks)
