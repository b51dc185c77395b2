-- ===== src/Planner/Kept.antt =====
-- The planner works inside the caller's transaction: the tables evolve and nothing is committed.
use ai_compliance_orquestrat.Evolution.Unique.{count-none_of, has_key}
use ai_compliance_orquestrat.Session.{◌>>=◌, lift, gets, reading, modify, Session}
use ai_compliance_orquestrat.Tables.{
  update_tasks, update_customer, update_account, add_outreach_task,
}
use ai_compliance_orquestrat.Schedule.{ProposedOutreach}
use ai_compliance_orquestrat.Policy.{PolicyResult}
use ai_compliance_orquestrat.Planner.{
  handle_cancellation_event, handle_opt_out, handle_hardship, handle_account_paused, plan_kind,
  aware_now, plan_outreach_for_event, EventKind, policy_event, payment_received, opt_out_received,
  hardship_requested, account_paused, unsupported,
}
use ai_compliance_orquestrat.Planner.PolicyEvent.{
  record_decision, schedule_task, create_task, follow_deferral, follow_decision, plan_proposal,
  plan_proposals, plan_policy_event, Tally, insert_task, task_key,
}
use ai_compliance_orquestrat.Evolution.{TaskKeeps, Evolves-refl}
use ai_compliance_orquestrat.Tables.Rules.{
  update_tasks-Extends, update_customer-Extends, update_account-Extends, insert_rules,
  add_outreach_task-Evolves,
}
use ai_compliance_orquestrat.Json.{Fields}
use ai_compliance_orquestrat.AuditLog.{append_audit_event-Extends}
use ai_compliance_orquestrat.DateTime.{DateTime}
use ai_compliance_orquestrat.Prelude.{
  String, ◌≡◌, true, arith, List, ℕ, Option, ◌∷◌, refl, some, [], none, find, ◌==◌,
}
use ai_compliance_orquestrat.Session.Rules.{
  Extends, extends_rules, Extends-pure, Extends-raise, Extends-reading, Extends-bind, ExtendsAt,
}
use ai_compliance_orquestrat.Models.{
  InboundEvent, Account, Customer, OutreachTask, OutreachChannel, PolicyDecisionOutcome,
  PolicyDecision, AccountStatus, block, defer, allow,
}
use ai_compliance_orquestrat.World.{World}
use ai_compliance_orquestrat.Planner.Effects.{
  cancel_task, is_cancellable, recent_attempt_count, load_customer_and_account,
  has_processed_marker, append_processed_marker, audit, audit_cancelled, cancel_scheduled_tasks,
}

cancel_task-TaskKeeps :
    (account : Account) (customer : Customer) (t : OutreachTask)
    → is_cancellable account customer t ≡ true
    → TaskKeeps t (cancel_task t)
unfolding cancel_task is_cancellable
cancel_task-TaskKeeps account customer t h = ground arith

cancel_rows-Extends :
    (account : Account) (customer : Customer)
    → Extends (update_tasks (is_cancellable account customer) cancel_task)
cancel_rows-Extends account customer =
    update_tasks-Extends (is_cancellable account customer) cancel_task
      (cancel_task-TaskKeeps account customer)

opt_out-Extends :
    (customer : Customer)
    → Extends (update_customer customer.id (λ c. record c { opted_out = true }))
opt_out-Extends customer =
    update_customer-Extends customer.id (λ c. record c { opted_out = true })
      (λ c. record { id = refl; external_id = refl; opted_out = λ _. refl })

pause-Extends :
    (account : Account)
    → Extends (update_account account.id (λ a. record a { status = AccountStatus.paused }))
pause-Extends account =
    update_account-Extends account.id (λ a. record a { status = AccountStatus.paused })
      (λ a. record { id = refl; external_id = refl; customer_id = refl })

module _ ⦃w : World⦄ where
  recent_attempt_count-Extends :
      (customer : Customer) (now : DateTime) → Extends (recent_attempt_count customer now)
  unfolding recent_attempt_count
  recent_attempt_count-Extends customer now = search extends_rules depth 9

  load-Extends : (event : InboundEvent) → Extends (load_customer_and_account event)
  unfolding load_customer_and_account
  load-Extends event = search extends_rules depth 9

  module _ (event : InboundEvent) where
    has_processed_marker-Extends : Extends (has_processed_marker event)
    unfolding has_processed_marker
    has_processed_marker-Extends = search extends_rules depth 9

    module _ (correlation_id : String) where
      append_processed_marker-Extends : Extends (append_processed_marker event correlation_id)
      unfolding append_processed_marker
      append_processed_marker-Extends = search (extends_rules, append_audit_event-Extends) depth 9

      audit-Extends :
          (event_type entity_type entity_id : String) (payload : Fields)
          → Extends (audit event correlation_id event_type entity_type entity_id payload)
      unfolding audit
      audit-Extends event_type entity_type entity_id payload = append_audit_event-Extends _

      audit_cancelled-Extends :
          (account : Account) (tasks : List OutreachTask)
          → Extends (audit_cancelled event correlation_id account tasks)
      unfolding audit_cancelled
      audit_cancelled-Extends account [] = Extends-pure tt
      audit_cancelled-Extends account (t ∷ rest) =
          Extends-bind _ _ (append_audit_event-Extends _)
            (λ _. audit_cancelled-Extends account rest)

      cancel_scheduled_tasks-Extends :
          (customer : Customer) (account : Account)
          → Extends (cancel_scheduled_tasks event correlation_id customer account)
      unfolding cancel_scheduled_tasks
      cancel_scheduled_tasks-Extends customer account =
          search (extends_rules, audit_cancelled-Extends, cancel_rows-Extends) depth 9

module _ ⦃w : World⦄ (event : InboundEvent) (customer : Customer) (account : Account)
    (correlation_id : String) where
  record_decision-Extends :
      (r : PolicyResult) → Extends (record_decision event customer account correlation_id r)
  unfolding record_decision
  record_decision-Extends r = search insert_rules depth 9

  -- The key of a new task is not taken.
  schedule_task_taken :
      (channel : OutreachChannel) (at : DateTime) (decision : PolicyDecision)
      (taken : Option OutreachTask) (s : Session)
      → find (λ t. t.idempotency_key == task_key event channel) s.db.outreach_tasks ≡ taken
      → ExtendsAt (insert_task event customer account correlation_id channel at decision taken) s
  unfolding insert_task ◌>>=◌ lift reading add_outreach_task modify
  schedule_task_taken channel at decision none s e = (
    add_outreach_task-Evolves _ s.db (
        count-none_of (has_key (task_key event channel)) (has_key (task_key event channel))
          s.db.outreach_tasks (λ x h. h) e),
    refl,
  )
  schedule_task_taken channel at decision (some t) s e = (Evolves-refl s.db, refl)

  schedule_task-Extends :
      (channel : OutreachChannel) (at : DateTime) (decision : PolicyDecision)
      → Extends (schedule_task event customer account correlation_id channel at decision)
  unfolding schedule_task ◌>>=◌ gets
  schedule_task-Extends channel at decision = record {
    at = λ s. schedule_task_taken channel at decision _ s refl;
  }

  create_task-Extends :
      (r : PolicyResult) (decision : PolicyDecision) (at : DateTime) (tally : Tally)
      → Extends (create_task event customer account correlation_id r decision at tally)
  unfolding create_task
  create_task-Extends r decision at tally =
      search (extends_rules, schedule_task-Extends, audit-Extends) depth 9

  follow_deferral-Extends :
      (r : PolicyResult) (decision : PolicyDecision) (until : Option DateTime) (tally : Tally)
      → Extends (follow_deferral event customer account correlation_id r decision until tally)
  unfolding follow_deferral
  follow_deferral-Extends r decision none tally = Extends-pure tally
  follow_deferral-Extends r decision (some until) tally =
      search (extends_rules, create_task-Extends)

  follow_decision-Extends :
      (outcome : PolicyDecisionOutcome) (r : PolicyResult) (decision : PolicyDecision)
      (at : DateTime) (tally : Tally)
      → Extends (follow_decision event customer account correlation_id outcome r decision at tally)
  unfolding follow_decision
  follow_decision-Extends block r decision at tally = search (extends_rules, audit-Extends)
  follow_decision-Extends defer r decision at tally =
      search (extends_rules, audit-Extends, follow_deferral-Extends)
  follow_decision-Extends allow r decision at tally = create_task-Extends r decision at tally

  plan_proposal-Extends :
      (cap : ℕ) (proposal : ProposedOutreach) (tally : Tally)
      → Extends (plan_proposal event customer account correlation_id cap proposal tally)
  unfolding plan_proposal
  plan_proposal-Extends cap proposal tally =
      search (extends_rules, record_decision-Extends, audit-Extends, follow_decision-Extends) depth
        9

  plan_proposals-Extends :
      (cap : ℕ) (proposals : List ProposedOutreach) (tally : Tally)
      → Extends (plan_proposals event customer account correlation_id cap proposals tally)
  unfolding plan_proposals
  plan_proposals-Extends cap [] tally = Extends-pure tally
  plan_proposals-Extends cap (p ∷ rest) tally =
      Extends-bind _ _ (plan_proposal-Extends cap p tally) (λ t. plan_proposals-Extends cap rest t)

  pub plan_policy_event-Extends :
      (now : DateTime) (cap : ℕ)
      → Extends (plan_policy_event event customer account correlation_id now cap)
  unfolding plan_policy_event
  plan_policy_event-Extends now cap =
      search (extends_rules, recent_attempt_count-Extends, plan_proposals-Extends) depth 12

  ruleset handler_rules = (
    extends_rules, has_processed_marker-Extends, append_processed_marker-Extends, audit-Extends,
    cancel_scheduled_tasks-Extends,
  )

  handle_cancellation_event-Extends :
      Extends (handle_cancellation_event event customer account correlation_id)
  unfolding handle_cancellation_event
  handle_cancellation_event-Extends = search handler_rules depth 12

  handle_opt_out-Extends : Extends (handle_opt_out event customer account correlation_id)
  unfolding handle_opt_out
  handle_opt_out-Extends = search (handler_rules, opt_out-Extends) depth 12

  handle_hardship-Extends : Extends (handle_hardship event customer account correlation_id)
  unfolding handle_hardship
  handle_hardship-Extends = search handler_rules depth 12

  handle_account_paused-Extends :
      Extends (handle_account_paused event customer account correlation_id)
  unfolding handle_account_paused
  handle_account_paused-Extends = search (handler_rules, pause-Extends) depth 12

  pub plan_kind-Extends :
      (kind : EventKind) (now : DateTime) (cap : ℕ)
      → Extends (plan_kind event customer account correlation_id kind now cap)
  unfolding plan_kind
  plan_kind-Extends policy_event now cap = plan_policy_event-Extends now cap
  plan_kind-Extends payment_received now cap = handle_cancellation_event-Extends
  plan_kind-Extends opt_out_received now cap = handle_opt_out-Extends
  plan_kind-Extends hardship_requested now cap = handle_hardship-Extends
  plan_kind-Extends account_paused now cap = handle_account_paused-Extends
  plan_kind-Extends unsupported now cap = Extends-raise _

module _ ⦃w : World⦄ where
  aware_now-Extends : (given : Option DateTime) → Extends (aware_now given)
  unfolding aware_now
  aware_now-Extends none = Extends-reading w.utc_now
  aware_now-Extends (some now) = search extends_rules depth 9

  -- Whatever the event and however it ends, the planner keeps the rules of every table, and makes
  -- nothing durable: the caller owns the transaction.
  pub plan_outreach_for_event-Extends :
      (inbound_event_id correlation_id : String) (now : Option DateTime) (cap : ℕ)
      → Extends (plan_outreach_for_event inbound_event_id correlation_id now cap)
  unfolding plan_outreach_for_event
  plan_outreach_for_event-Extends inbound_event_id correlation_id now cap =
      search (extends_rules, aware_now-Extends, load-Extends, plan_kind-Extends) depth 12
