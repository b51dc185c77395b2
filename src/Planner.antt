-- ===== src/Planner.antt =====
-- src/orchestrator/orchestration/planner.py: `plan_outreach_for_event`, one branch for each type
-- of event.
use ai_compliance_orquestrat.Policy.{is_aware}
use ai_compliance_orquestrat.Json.{field, text, end}
use ai_compliance_orquestrat.Errors.{raise_if, value_error, or_raise}
use ai_compliance_orquestrat.Tables.{update_customer, update_account}
use ai_compliance_orquestrat.Planner.Effects.{
  cancel_scheduled_tasks, has_processed_marker, audit, append_processed_marker,
  load_customer_and_account,
}
use ai_compliance_orquestrat.Planner.PolicyEvent.{PlannerResult, plan_policy_event, no_effects}
use ai_compliance_orquestrat.DateTime.{DateTime}
use ai_compliance_orquestrat.Models.{InboundEvent, Customer, Account, AccountStatus}
use ai_compliance_orquestrat.World.{World}
use ai_compliance_orquestrat.Prelude.{
  String, ℕ, if◌then◌else◌, Option, ◌==◌, ◌||◌, some, true, find, not, concat, none,
}
pub mod Effects
pub mod PolicyEvent
pub mod Kept
pub mod Makes
pub mod Planned
pub mod Steps
pub mod Rounds
pub mod Cancelled
pub mod Marked
pub mod Once
use ai_compliance_orquestrat.Session.{Action, reading, ◌>>=◌, ◌>>◌, lift, raise, gets, pure}

-- The event types that the planner tells apart.
pub data EventKind : Type 0 where
  policy_event payment_received opt_out_received hardship_requested account_paused unsupported :
      EventKind

-- the tests on `inbound_event.event_type`, in their order
unfoldable pub event_kind : String → EventKind
event_kind event_type =
    if event_type == "account_delinquent" || event_type == "payment_failed"
    then policy_event
    else if event_type == "payment_received"
    then payment_received
    else if event_type == "opt_out_received"
    then opt_out_received
    else if event_type == "hardship_requested"
    then hardship_requested
    else if event_type == "account_paused"
    then account_paused
    else unsupported

module _ ⦃w : World⦄ where
  -- `_aware_now`
  unfoldable pub aware_now : Option DateTime → Action DateTime
  aware_now none = reading w.utc_now
  aware_now (some now) = do
    lift (raise_if (not (is_aware now)) (value_error "now must be timezone-aware"))
    pure now

  module _ (event : InboundEvent) (customer : Customer) (account : Account)
      (correlation_id : String) where
    -- the cancellation and the marker that end each of the four branches
    unfoldable pub cancel_and_mark : Action PlannerResult
    cancel_and_mark = do
      cancelled_tasks ← cancel_scheduled_tasks event correlation_id customer account
      append_processed_marker event correlation_id
      pure (record (no_effects event) { cancelled_tasks = cancelled_tasks })

    -- `_has_processed_marker` guards each branch
    unfoldable pub once : Action PlannerResult → Action PlannerResult
    once work = do done ← has_processed_marker event; if done then pure (no_effects event) else work

    -- `_handle_cancellation_event`
    unfoldable pub handle_cancellation_event : Action PlannerResult
    unfolding once cancel_and_mark
    handle_cancellation_event = once cancel_and_mark

    unfoldable pub handle_opt_out : Action PlannerResult
    unfolding once cancel_and_mark
    handle_opt_out = once (do
      update_customer customer.id (λ c. record c { opted_out = true })
      audit event correlation_id "customer_opted_out" "customer" customer.id
          (field "customer_external_id" (text customer.external_id) end)
      cancel_and_mark)

    unfoldable pub handle_hardship : Action PlannerResult
    unfolding once cancel_and_mark
    handle_hardship = once (do
      audit event correlation_id "hardship_escalation_required" "account" account.id
          (field "account_external_id" (text account.external_id) end)
      cancel_and_mark)

    unfoldable pub handle_account_paused : Action PlannerResult
    unfolding once cancel_and_mark
    handle_account_paused = once (do
      update_account account.id (λ a. record a { status = AccountStatus.paused })
      audit event correlation_id "account_paused" "account" account.id
          (field "account_external_id" (text account.external_id) end)
      cancel_and_mark)

    unfoldable pub plan_kind : EventKind → DateTime → ℕ → Action PlannerResult
    plan_kind policy_event now cap = plan_policy_event event customer account correlation_id now cap
    plan_kind payment_received now cap = handle_cancellation_event
    plan_kind opt_out_received now cap = handle_opt_out
    plan_kind hardship_requested now cap = handle_hardship
    plan_kind account_paused now cap = handle_account_paused
    plan_kind unsupported now cap =
        raise (value_error (concat "Unsupported inbound event type: " event.event_type))

  unfoldable pub plan_outreach_for_event :
      String → String → Option DateTime → ℕ → Action PlannerResult
  unfolding event_kind
  plan_outreach_for_event inbound_event_id correlation_id given cap = do
    now ← aware_now given
    found ← gets (λ d. find (λ e. e.id == inbound_event_id) d.inbound_events)
    event ←
        lift (or_raise found (value_error (concat "Inbound event not found: " inbound_event_id)))
    (customer, account) ← load_customer_and_account event
    plan_kind event customer account correlation_id (event_kind event.event_type) now cap

-- `frequency_cap: int = 3`
abbrev pub default_frequency_cap : ℕ
default_frequency_cap = 3
