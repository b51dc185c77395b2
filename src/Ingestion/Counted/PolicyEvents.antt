-- ===== src/Ingestion/Counted/PolicyEvents.antt =====
-- `_plan_policy_event`: what the replay counts after it.
use ai_compliance_orquestrat.World.{World}
use ai_compliance_orquestrat.DateTime.{DateTime}
use ai_compliance_orquestrat.Ingestion.Counted.{Counts, UuidsDiffer}
use ai_compliance_orquestrat.Ingestion.Counted.Decided.{with_decision}
use ai_compliance_orquestrat.Models.{
  Account, Customer, InboundEvent, PolicyDecision, PolicyDecisionOutcome, allow, block, defer,
}
use ai_compliance_orquestrat.Planner.Effects.{recent_attempt_count}
use ai_compliance_orquestrat.Planner.PolicyEvent.{
  PlannerResult, Tally, contains, create_task, follow_decision, follow_deferral, plan_counted,
  plan_new_policy_event, plan_policy_event, plan_proposal, plan_proposals, start, no_effects,
}
use ai_compliance_orquestrat.Policy.{PolicyResult}
use ai_compliance_orquestrat.Schedule.{ProposedOutreach}
use ai_compliance_orquestrat.Session.{pure}
use ai_compliance_orquestrat.Session.Triples.{
  Anything, Triple, Triple-bind, Triple-if, Triple-gets_any, Triple-lift_any,
}
use ai_compliance_orquestrat.Prelude.{
  List, Option, String, ℕ, ◌+◌, [], ◌∷◌, none, refl, some, is_some,
}
use ai_compliance_orquestrat.Ingestion.Counted.TaskRows.{
  Loop, audit-Loop, audit-other, record_decision-Loop, schedule_task-Counts,
}

module _ ⦃w : World⦄ (source external_id : String) (event : InboundEvent)
    (correlation_id : String) where
  -- what the planner returns at the end of its loop
  abbrev of_tally : Tally → PlannerResult
  of_tally t = record {
    inbound_event_id = event.id;
    created_tasks = t.created_tasks;
    cancelled_tasks = 0;
    policy_decisions = t.policy_decisions;
    blocked_attempts = t.blocked_attempts;
    deferred_attempts = t.deferred_attempts;
  }

  module _ (differ : UuidsDiffer w) (customer : Customer) (account : Account) where
    create_task-Counts :
        (x : PolicyResult) (d : PolicyDecision) (at : DateTime) (tally : Tally)
        → Triple
            (Loop source external_id event correlation_id (of_tally tally) d)
            (create_task event customer account correlation_id x d at tally)
            (λ t. Counts source external_id event.id (of_tally t))
            Anything
    unfolding create_task pure
    create_task-Counts x d at tally =
        Triple-bind _ _ _
          (schedule_task-Counts source external_id event correlation_id differ customer account
            (of_tally tally) d x.channel at)
          λ _.
            Triple-bind _ _ _ (audit-other source external_id event correlation_id _ _ _ _ _ refl)
              λ _. record { at = λ s h. h }

    -- what the body of the loop has counted before it follows the decision
    abbrev decided : PolicyDecisionOutcome → Tally → PlannerResult
    decided o tally = with_decision o (of_tally tally)

    follow_deferral-Counts :
        (x : PolicyResult) (d : PolicyDecision) (until : Option DateTime) (tally : Tally)
        → Triple
            (Loop source external_id event correlation_id (of_tally tally) d)
            (follow_deferral event customer account correlation_id x d until tally)
            (λ t. Counts source external_id event.id (of_tally t))
            Anything
    unfolding follow_deferral pure
    follow_deferral-Counts x d none tally = record { at = λ s h. h.0 }
    follow_deferral-Counts x d (some until) tally =
        Triple-if _ _ (contains "frequency_cap_exceeded" x.reasons) _ _ (record { at = λ s h. h.0 })
          (create_task-Counts x d until tally)

    follow_decision-Counts :
        (o : PolicyDecisionOutcome) (x : PolicyResult) (d : PolicyDecision) (at : DateTime)
        (tally : Tally)
        → Triple
            (Loop source external_id event correlation_id (decided o tally) d)
            (follow_decision event customer account correlation_id o x d at
              (record tally { policy_decisions = tally.policy_decisions + 1 }))
            (λ t. Counts source external_id event.id (of_tally t))
            Anything
    unfolding follow_decision pure
    follow_decision-Counts block x d at tally =
        Triple-bind _ _ _ (audit-Loop source external_id event correlation_id _ d _ _ _ _ refl)
          λ _. record { at = λ s h. h.0 }
    follow_decision-Counts defer x d at tally =
        Triple-bind _ _ _ (audit-Loop source external_id event correlation_id _ d _ _ _ _ refl) λ _.
          follow_deferral-Counts x d x.defer_until (record tally {
            policy_decisions = tally.policy_decisions + 1;
            deferred_attempts = tally.deferred_attempts + 1;
          })
    follow_decision-Counts allow x d at tally =
        create_task-Counts x d at (record tally { policy_decisions = tally.policy_decisions + 1 })

    plan_proposal-Counts :
        (cap : ℕ) (proposal : ProposedOutreach) (tally : Tally)
        → Triple
            (Counts source external_id event.id (of_tally tally))
            (plan_proposal event customer account correlation_id cap proposal tally)
            (λ t. Counts source external_id event.id (of_tally t))
            Anything
    unfolding plan_proposal
    plan_proposal-Counts cap proposal tally =
        Triple-bind _ _ _ (Triple-lift_any _ _ (λ s h. tt) _) λ x.
          Triple-bind _ _ _
            (record_decision-Loop source external_id event correlation_id differ customer account
              (of_tally tally) x)
            λ d.
              Triple-bind _ _ _
                (audit-Loop source external_id event correlation_id _ d _ _ _ _ refl)
                λ _. follow_decision-Counts x.decision x d proposal.scheduled_at tally

    plan_proposals-Counts :
        (cap : ℕ) (proposals : List ProposedOutreach) (tally : Tally)
        → Triple
            (Counts source external_id event.id (of_tally tally))
            (plan_proposals event customer account correlation_id cap proposals tally)
            (λ t. Counts source external_id event.id (of_tally t))
            Anything
    unfolding plan_proposals pure
    plan_proposals-Counts cap [] tally = record { at = λ s h. h }
    plan_proposals-Counts cap (proposal ∷ rest) tally =
        Triple-bind _ _ _ (plan_proposal-Counts cap proposal tally)
          (λ t. plan_proposals-Counts cap rest t)

    plan_counted-Counts :
        (now : DateTime) (cap recent : ℕ)
        → Triple
            (Counts source external_id event.id (no_effects event))
            (plan_counted event customer account correlation_id now cap recent)
            (λ r. Counts source external_id event.id r)
            Anything
    unfolding plan_counted
    plan_counted-Counts now cap recent =
        Triple-bind _ _ _ (Triple-lift_any _ _ (λ s h. tt) _) λ proposals.
          Triple-bind _ _ _ (plan_proposals-Counts cap proposals (start recent))
            λ t. Triple-return (of_tally t)
      where
        Triple-return :
            (r : PlannerResult)
            → Triple
                (Counts source external_id event.id r)
                (pure r)
                (λ x. Counts source external_id event.id x)
                Anything
        Triple-return r = unfold pure in record { at = λ s h. h }

    plan_new_policy_event-Counts :
        (now : DateTime) (cap : ℕ)
        → Triple
            (Counts source external_id event.id (no_effects event))
            (plan_new_policy_event event customer account correlation_id now cap)
            (λ r. Counts source external_id event.id r)
            Anything
    unfolding plan_new_policy_event recent_attempt_count
    plan_new_policy_event-Counts now cap =
        Triple-bind _ _ _
          (Triple-bind _ _ _ (Triple-lift_any _ _ (λ s h. tt) _) (λ _. Triple-gets_any _ _ _))
          (λ recent. plan_counted-Counts now cap recent)

    -- A policy event that returns has left in the tables what its result counts.
    pub plan_policy_event-Counts :
        (now : DateTime) (cap : ℕ)
        → Triple
            (Counts source external_id event.id (no_effects event))
            (plan_policy_event event customer account correlation_id now cap)
            (λ r. Counts source external_id event.id r)
            Anything
    unfolding plan_policy_event
    plan_policy_event-Counts now cap = Triple-bind _ _ _ (Triple-gets_any _ _ _) λ existing.
        Triple-if _ _ (is_some existing) _ _ (unfold pure in record { at = λ s h. h })
          (plan_new_policy_event-Counts now cap)
