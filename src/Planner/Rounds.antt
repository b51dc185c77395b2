-- ===== src/Planner/Rounds.antt =====
-- `_plan_policy_event` as a whole: the rounds of its loop, and what they add.
use ai_compliance_orquestrat.Errors.{ok}
use ai_compliance_orquestrat.Planner.Effects.{recent_attempt_count, counts_since, is_decision_of}
use ai_compliance_orquestrat.DateTime.{DateTime, minus, day}
use mathlib.Core.List.{append-nil}
use ai_compliance_orquestrat.Session.{◌>>=◌, lift, gets, Session, pure}
use ai_compliance_orquestrat.Planner.Steps.{
  record_decision-Makes, Round, follow_block-Round, follow_allow-Round, follow_defer-Round,
}
use ai_compliance_orquestrat.Policy.Branches.{
  Branch, evaluate_policy-Branch, blocks, allows, defers,
}
use ai_compliance_orquestrat.Planner.Planned.{
  IsPlanned, IsPlanned-none, IsPlanned-append, quiet_none-InLocalHours, room_below,
  quiet_some-InLocalHours, deferral_has_room, IsCompliant,
}
use ai_compliance_orquestrat.Planner.Makes.{
  Makes, Makes-lift, Makes-pure, Makes-after, audit-Quiet, Makes-bind, Makes-weaken, Added,
}
use ai_compliance_orquestrat.Policy.{PolicyResult, blocked_result, unblocked_result}
use ai_compliance_orquestrat.Planner.PolicyEvent.{
  plan_proposal, plan_proposals, Tally, policy_input, follow_decision, plan_counted, PlannerResult,
  start, plan_policy_event, plan_new_policy_event, contains, no_effects,
}
use ai_compliance_orquestrat.Schedule.{ProposedOutreach}
use ai_compliance_orquestrat.Prelude.{
  String, ℕ, List, ◌≡◌, ◌∷◌, ◌+◌, [], ap, ◌∙◌, length, arith, count, subst, some, ◌⊎◌, ◌≤◌, sym,
  All, refl, false, is_some, find, inl, Bool, if◌then◌else◌, true,
}
use ai_compliance_orquestrat.Models.{
  InboundEvent, Customer, Account, PolicyDecision, block, allow, OutreachTask, same_outcome,
  Database, defer, PolicyDecisionOutcome,
}
use ai_compliance_orquestrat.World.{World, TimeLaws}

module _ ⦃w : World⦄ (laws : TimeLaws w) (event : InboundEvent) (customer : Customer)
    (account : Account) (correlation_id : String) (cap : ℕ) where
  Round-by_outcome :
      (proposal : ProposedOutreach) (before : Tally) (r : PolicyResult) (d : PolicyDecision)
      {o : PolicyDecisionOutcome}
      → r.decision ≡ o
      → Round event customer account correlation_id cap before d (
          follow_decision event customer account correlation_id o r d proposal.scheduled_at
            (record before { policy_decisions = before.policy_decisions + 1 }))
      → Round event customer account correlation_id cap before d (
          follow_decision event customer account correlation_id r.decision r d proposal.scheduled_at
            (record before { policy_decisions = before.policy_decisions + 1 }))
  Round-by_outcome proposal before r d outcome =
      subst
        (λ o. Round event customer account correlation_id cap before d (
          follow_decision event customer account correlation_id o r d proposal.scheduled_at
            (record before { policy_decisions = before.policy_decisions + 1 })))
        (sym outcome)

  -- the rest of a round, by the engine's answer
  Round-after :
      (proposal : ProposedOutreach) (before : Tally) (r : PolicyResult) (d : PolicyDecision)
      → d.decision ≡ r.decision
      → Branch (policy_input customer account cap proposal before.recent_count) r
      → Round event customer account correlation_id cap before d (
          follow_decision event customer account correlation_id r.decision r d proposal.scheduled_at
            (record before { policy_decisions = before.policy_decisions + 1 }))
  unfolding blocked_result unblocked_result
  Round-after proposal before r d e (blocks f is) =
      let outcome : r.decision ≡ block = ap (λ x. x.decision) is in
      Round-by_outcome proposal before r d outcome (
        follow_block-Round event customer account correlation_id cap before d r
          proposal.scheduled_at (e ∙ outcome))
  Round-after proposal before r d e (allows m q room is) =
      let outcome : r.decision ≡ allow = ap (λ x. x.decision) is in
      let p = policy_input customer account cap proposal before.recent_count in
      Round-by_outcome proposal before r d outcome (
        follow_allow-Round event customer account correlation_id cap before d r proposal
          (e ∙ outcome) (ap (λ x. x.channel) is) m (quiet_none-InLocalHours p q)
          (room_below p room))
  Round-after proposal before r d e (defers m until q outcome same reasons at_until is_all) =
      let p = policy_input customer account cap proposal before.recent_count in
      Round-by_outcome proposal before r d outcome (
        follow_defer-Round event customer account correlation_id cap before d r proposal
          (e ∙ outcome) same m
          (λ at is. quiet_some-InLocalHours p laws (q ∙ ap ok (sym at_until ∙ is)))
          (λ fits. room_below p (
            deferral_has_room p until
              (subst (λ l. contains "frequency_cap_exceeded" l ≡ false) reasons fits))))

  plan_proposal-Makes :
      (proposal : ProposedOutreach) (before : Tally)
      → Makes
          (IsPlanned customer account cap before)
          (plan_proposal event customer account correlation_id cap proposal before)
  unfolding plan_proposal
  plan_proposal-Makes proposal before = Makes-lift _ _ _ λ r answered.
      record_decision-Makes event customer account correlation_id _ r _ λ d e.
        Makes-after _ _ _ (audit-Quiet _ _ _ _ _ _) λ _. Round-after proposal before r d e (
          evaluate_policy-Branch (policy_input customer account cap proposal before.recent_count)
            answered)

  -- However many channels an event proposes: every decision is counted by its outcome, every task
  -- is compliant and counted, and the tasks of the event stay within the cap.
  pub plan_proposals-Makes :
      (proposals : List ProposedOutreach) (before : Tally)
      → Makes
          (IsPlanned customer account cap before)
          (plan_proposals event customer account correlation_id cap proposals before)
  unfolding plan_proposals
  plan_proposals-Makes [] before = Makes-pure _ before (IsPlanned-none customer account cap before)
  plan_proposals-Makes (proposal ∷ rest) before =
      Makes-bind (IsPlanned customer account cap before) _ _ _ (plan_proposal-Makes proposal before)
        λ mid ds ts first.
          Makes-weaken _ _ _
            (λ ds' ts' after more. IsPlanned-append customer account cap ds ds' ts ts' first more)
            (plan_proposals-Makes rest mid)

  -- what the result of a policy event tells, when `recent` attempts were counted before
  pub record IsPolicyResult (recent : ℕ) (ds : List PolicyDecision) (ts : List OutreachTask)
      (r : PlannerResult) : Type 0 where
    pub decisions : r.policy_decisions ≡ length ds
    pub blocked : r.blocked_attempts ≡ count (λ d. same_outcome d.decision block) ds
    pub deferred : r.deferred_attempts ≡ count (λ d. same_outcome d.decision defer) ds
    pub created : r.created_tasks ≡ length ts
    pub cancelled_none : r.cancelled_tasks ≡ 0
    pub capped : (ts ≡ []) ⊎ (recent + length ts ≤ cap)
    pub compliant : All (IsCompliant customer account) ts

  plan_counted-Makes :
      (now : DateTime) (recent : ℕ)
      → Makes
          (IsPolicyResult recent)
          (plan_counted event customer account correlation_id now cap recent)
  unfolding plan_counted
  plan_counted-Makes now recent = Makes-lift _ _ _ λ proposals _.
      Makes-bind (IsPlanned customer account cap (start recent)) _ _ _
        (plan_proposals-Makes proposals (start recent))
        λ tally ds ts h. Makes-pure _ _ (
          rw (append-nil ds, append-nil ts)
            (record {
              decisions = ground arith;
              blocked = ground arith;
              deferred = ground arith;
              created = ground arith;
              cancelled_none = refl;
              capped = subst (λ n. (ts ≡ []) ⊎ (n ≤ cap)) h.recent h.capped;
              compliant = h.compliant;
            }))

  module _ (now : DateTime) {since : DateTime} (a_day_before : minus now day ≡ some since) where
    -- the attempts of the last 24 hours
    abbrev pub recent_attempts : Database → ℕ
    recent_attempts d = count (counts_since (w.instant since) customer) d.outreach_tasks

    recent_attempt_count_lem :
        (s : Session) → recent_attempt_count customer now s ≡ (ok (recent_attempts s.db), s)
    unfolding recent_attempt_count ◌>>=◌ lift gets
    recent_attempt_count_lem s = rw a_day_before

    plan_new_policy_event_lem :
        (s : Session)
        → plan_new_policy_event event customer account correlation_id now cap s
          ≡ plan_counted event customer account correlation_id now cap (recent_attempts s.db) s
    unfolding plan_new_policy_event ◌>>=◌
    plan_new_policy_event_lem s = rw (recent_attempt_count_lem s)

    plan_branch-Added :
        (known : Bool) (s : Session) (r : PlannerResult)
        → ((if known
              then pure (no_effects event)
              else plan_new_policy_event event customer account correlation_id now cap)
            s).0
          ≡ ok r
        → Added
            (IsPolicyResult (recent_attempts s.db))
            s.db
            ((if known
                then pure (no_effects event)
                else plan_new_policy_event event customer account correlation_id now cap)
              s).1.db
            r
    unfolding count
    plan_branch-Added true s r h =
        (Makes-pure (IsPolicyResult (recent_attempts s.db)) (no_effects event) (record {
          decisions = refl;
          blocked = refl;
          deferred = refl;
          created = refl;
          cancelled_none = refl;
          capped = inl refl;
          compliant = tt;
        })).at
          s r h
    plan_branch-Added false s r h =
        subst (λ x. x.0 ≡ ok r → Added (IsPolicyResult (recent_attempts s.db)) s.db x.1.db r)
          (sym (plan_new_policy_event_lem s))
          ((plan_counted-Makes now (recent_attempts s.db)).at s r) h

    pub plan_policy_event_lem :
        (s : Session) (r : PlannerResult)
        → (plan_policy_event event customer account correlation_id now cap s).0 ≡ ok r
        → Added
            (IsPolicyResult (recent_attempts s.db))
            s.db
            (plan_policy_event event customer account correlation_id now cap s).1.db
            r
    unfolding plan_policy_event ◌>>=◌
    plan_policy_event_lem s r h =
        plan_branch-Added (is_some (find (is_decision_of event.id) s.db.policy_decisions)) s r h
