-- ===== src/Planner/Once.antt =====
-- An event that was handled: a second handling does nothing.
use ai_compliance_orquestrat.World.{World}
use ai_compliance_orquestrat.DateTime.{DateTime}
use ai_compliance_orquestrat.Models.{InboundEvent, Customer, Account}
use ai_compliance_orquestrat.Errors.{ok}
use ai_compliance_orquestrat.Session.{Session}
use ai_compliance_orquestrat.Planner.{
  EventKind, plan_kind, payment_received, opt_out_received, hardship_requested, account_paused,
  policy_event, unsupported, handle_cancellation_event, handle_opt_out, handle_hardship,
  handle_account_paused,
}
use ai_compliance_orquestrat.Planner.PolicyEvent.{PlannerResult, no_effects}
use ai_compliance_orquestrat.Prelude.{ℕ, String, ◌≡◌}
use ai_compliance_orquestrat.Planner.Marked.{
  IsMarked, Marks, Marks-after, cancel_and_mark-Marks, once-Marks, once-idle,
}

-- The kinds of event that leave a marker.
abbrev pub LeavesMarker : EventKind → Type 0
LeavesMarker policy_event = ⊥
LeavesMarker unsupported = ⊥
LeavesMarker _ = Unit

module _ ⦃w : World⦄ (event : InboundEvent) where
  module _ (customer : Customer) (account : Account) (correlation_id : String) where
    plan_kind-Marks :
        (kind : EventKind) (now : DateTime) (cap : ℕ)
        → LeavesMarker kind
        → Marks event (plan_kind event customer account correlation_id kind now cap)
    unfolding plan_kind handle_cancellation_event handle_opt_out handle_hardship
        handle_account_paused
    plan_kind-Marks policy_event now cap h = absurd h
    plan_kind-Marks payment_received now cap h =
        once-Marks event customer account correlation_id _
          (cancel_and_mark-Marks event customer account correlation_id)
    plan_kind-Marks opt_out_received now cap h =
        once-Marks event customer account correlation_id _ (
          Marks-after event _ _ λ _.
            Marks-after event _ _
              λ _. (cancel_and_mark-Marks event customer account correlation_id))
    plan_kind-Marks hardship_requested now cap h =
        once-Marks event customer account correlation_id _
          (Marks-after event _ _ λ _. (cancel_and_mark-Marks event customer account correlation_id))
    plan_kind-Marks account_paused now cap h = once-Marks event customer account correlation_id _ (
        Marks-after event _ _ λ _.
          Marks-after event _ _ λ _. (cancel_and_mark-Marks event customer account correlation_id))
    plan_kind-Marks unsupported now cap h = absurd h

    plan_kind-idle :
        (kind : EventKind) (now : DateTime) (cap : ℕ) (s : Session)
        → LeavesMarker kind
        → IsMarked event s
        → plan_kind event customer account correlation_id kind now cap s
          ≡ (ok (no_effects event), s)
    unfolding plan_kind handle_cancellation_event handle_opt_out handle_hardship
        handle_account_paused
    plan_kind-idle policy_event now cap s h m = absurd h
    plan_kind-idle payment_received now cap s h m =
        once-idle event customer account correlation_id _ s m
    plan_kind-idle opt_out_received now cap s h m =
        once-idle event customer account correlation_id _ s m
    plan_kind-idle hardship_requested now cap s h m =
        once-idle event customer account correlation_id _ s m
    plan_kind-idle account_paused now cap s h m =
        once-idle event customer account correlation_id _ s m
    plan_kind-idle unsupported now cap s h m = absurd h

  -- A payment, an opt-out, a hardship request or a pause that was handled is not handled again: if
  -- the first handling returns, a second one, with whatever rows, time and cap, answers that it had
  -- no effects and changes nothing.
  pub plan_kind_once :
      (customer customer' : Customer) (account account' : Account) (cid cid' : String)
      (kind : EventKind) (now now' : DateTime) (cap cap' : ℕ) (s : Session) (result : PlannerResult)
      → LeavesMarker kind
      → (plan_kind event customer account cid kind now cap s).0 ≡ ok result
      → let after = (plan_kind event customer account cid kind now cap s).1 in
        plan_kind event customer' account' cid' kind now' cap' after
        ≡ (ok (no_effects event), after)
  plan_kind_once customer customer' account account' cid cid' kind now now' cap cap' s result h e =
      plan_kind-idle customer' account' cid' kind now' cap' _ h
        ((plan_kind-Marks customer account cid kind now cap h).at s result e)
