-- ===== src/Planner/Steps.antt =====
-- The loop of a policy event: every proposal adds its decision, and only compliant tasks.
use mathlib.Core.List.{append-nil, append_assoc}
use ai_compliance_orquestrat.Session.{◌>>=◌}
use ai_compliance_orquestrat.Policy.{PolicyResult}
use ai_compliance_orquestrat.Planner.Planned.{InLocalHours, IsCompliant, IsPlanned}
use ai_compliance_orquestrat.Planner.Makes.{
  Makes, Makes-after, Quiet-gets, Makes-lift, Quiet-reading, audit-Quiet, Makes-bind, Makes-pure,
}
use ai_compliance_orquestrat.Policy.Blocks.{MayContact, has_consent}
use ai_compliance_orquestrat.Session.{reading, modify, pure, Action}
use ai_compliance_orquestrat.Schedule.{ProposedOutreach}
use ai_compliance_orquestrat.Tables.{add_outreach_task, add_policy_decision}
use ai_compliance_orquestrat.DateTime.{DateTime}
use ai_compliance_orquestrat.Planner.PolicyEvent.{
  record_decision, schedule_task, policy_input, Tally, create_task, follow_decision,
  follow_deferral, contains,
}
use ai_compliance_orquestrat.Prelude.{
  String, ℕ, ◌≡◌, List, [], ◌∷◌, subst, ◌∙◌, true, sym, refl, count, ◌+◌, Option, some,
  if◌then◌else◌, ◌++◌, ◌<◌, arith, inr, inl, false, Bool-cases, none,
}
use ai_compliance_orquestrat.Models.{
  InboundEvent, Customer, Account, OutreachChannel, OutreachTask, PolicyDecision, scheduled, call,
  sms, email, PolicyDecisionOutcome, defer, same_outcome, block, allow,
}
use ai_compliance_orquestrat.World.{World}

-- A decision counts for its own outcome.
count_decision :
    (o q : PolicyDecisionOutcome) (d : PolicyDecision)
    → d.decision ≡ o
    → count (λ x. same_outcome x.decision q) (d ∷ []) ≡ (if same_outcome o q then 1 else 0)
unfolding count
count_decision o q d e = rw e

module _ ⦃w : World⦄ (event : InboundEvent) (customer : Customer) (account : Account)
    (correlation_id : String) where
  pub record_decision-Makes {ℓ} :
      {A : Type ℓ} (R : List PolicyDecision → List OutreachTask → A → Type 0) (r : PolicyResult)
      (f : PolicyDecision → Action A)
      → ((d : PolicyDecision) → d.decision ≡ r.decision → Makes (λ ds ts a. R (d ∷ ds) ts a) (f d))
      → Makes R (record_decision event customer account correlation_id r >>= f)
  unfolding record_decision ◌>>=◌ reading add_policy_decision modify pure
  record_decision-Makes R r f k = record {
    at = λ s a h.
        let (ds, ts, decisions, tasks, q) = (k _ refl).at _ a h in
        (_ ∷ ds, ts, decisions ∙ append_assoc _ _ ds, tasks, q);
  }

  -- the row that `schedule_task` inserts
  record IsFresh (channel : OutreachChannel) (at : DateTime) (t : OutreachTask) : Type 0 where
    pub customer_id : t.customer_id ≡ customer.id
    pub account_id : t.account_id ≡ account.id
    pub status : t.status ≡ scheduled
    pub attempts : t.attempt_count ≡ 0
    pub channel_kept : t.channel ≡ channel
    pub at_kept : t.scheduled_at ≡ at

  schedule_task-Makes :
      (channel : OutreachChannel) (at : DateTime) (d : PolicyDecision)
      → Makes
          (λ ds ts _. (ds ≡ []) × ((t : OutreachTask) × (ts ≡ t ∷ []) × IsFresh channel at t))
          (schedule_task event customer account correlation_id channel at d)
  unfolding schedule_task add_outreach_task modify
  schedule_task-Makes channel at d = Makes-after _ _ _ (Quiet-gets _) λ taken.
      Makes-lift _ _ _ λ _ _. Makes-after _ _ _ (Quiet-reading _) λ id.
        Makes-after _ _ _ (Quiet-reading _) λ created_at. record {
          at = λ s a h. (
            [],
            _ ∷ [],
            sym (append-nil _),
            refl,
            (
              refl,
              (
                _,
                refl,
                record {
                  customer_id = refl;
                  account_id = refl;
                  status = refl;
                  attempts = refl;
                  channel_kept = refl;
                  at_kept = refl;
                },
              ),
            ),
          );
        }

  has_consent_same :
      (c : OutreachChannel) (m n m' n' : ℕ) (p p' : ProposedOutreach)
      → has_consent c (policy_input customer account m p n)
        ≡ has_consent c (policy_input customer account m' p' n')
  has_consent_same call m n m' n' p p' = refl
  has_consent_same sms m n m' n' p p' = refl
  has_consent_same email m n m' n' p p' = refl

  fresh-IsCompliant :
      (limit recent : ℕ) (proposal : ProposedOutreach) (at : DateTime) (t : OutreachTask)
      → MayContact (policy_input customer account limit proposal recent)
      → InLocalHours proposal.channel at customer.timezone
      → IsFresh proposal.channel at t
      → IsCompliant customer account t
  fresh-IsCompliant limit recent proposal at t m hours fresh = record {
    customer_id = fresh.customer_id;
    account_id = fresh.account_id;
    status = fresh.status;
    attempts = fresh.attempts;
    contact = record {
      not_opted_out = m.not_opted_out;
      consented =
          has_consent_same t.channel _ _ limit recent _ proposal
          ∙ subst (λ c. has_consent c (policy_input customer account limit proposal recent) ≡ true)
              (sym fresh.channel_kept) m.consented;
      not_paused = m.not_paused;
      not_resolved = m.not_resolved;
    };
    in_hours =
        subst (λ c. InLocalHours c t.scheduled_at customer.timezone) (sym fresh.channel_kept)
          (subst (λ d. InLocalHours proposal.channel d customer.timezone) (sym fresh.at_kept)
            hours);
  }

  module _ (cap : ℕ) (before : Tally) (d : PolicyDecision) where
    -- what the rest of a round may add after the decision `d`
    abbrev pub Round : Action Tally → Type 0
    Round m = Makes (λ ds ts a. IsPlanned customer account cap before (d ∷ ds) ts a) m

    create_task-Round :
        (r : PolicyResult) (proposal : ProposedOutreach) (at : DateTime) (mid : Tally)
        → r.channel ≡ proposal.channel
        → MayContact (policy_input customer account cap proposal before.recent_count)
        → InLocalHours proposal.channel at customer.timezone
        → ((t : OutreachTask)
            → IsCompliant customer account t
            → IsPlanned customer account cap before (d ∷ []) (t ∷ []) (record mid {
              created_tasks = mid.created_tasks + 1;
              recent_count = mid.recent_count + 1;
            }))
        → Round (create_task event customer account correlation_id r d at mid)
    unfolding create_task
    create_task-Round r proposal at mid same contact hours k =
        Makes-bind _ _ _ _ (schedule_task-Makes r.channel at d) λ _ ds ts q.
          Makes-after _ _ _ (audit-Quiet _ _ _ _ _ _)
            λ _. Makes-pure _ _ (fits ds ts q.0 q.1.0 q.1.1 q.1.2)
      where
        fits :
            (ds : List PolicyDecision) (ts : List OutreachTask)
            → ds ≡ []
            → (t : OutreachTask) → ts ≡ t ∷ []
            → IsFresh r.channel at t
            → IsPlanned customer account cap before (d ∷ (ds ++ [])) (ts ++ []) (record mid {
              created_tasks = mid.created_tasks + 1;
              recent_count = mid.recent_count + 1;
            })
        fits ds ts e t e' fresh =
            rw (e, e')
              (k t (
                fresh-IsCompliant cap before.recent_count proposal at t contact hours
                  (subst (λ c. IsFresh c at t) same fresh)))

    pub follow_block-Round :
        (r : PolicyResult) (at : DateTime)
        → d.decision ≡ block
        → Round (
            follow_decision event customer account correlation_id block r d at
              (record before { policy_decisions = before.policy_decisions + 1 }))
    unfolding follow_decision
    follow_block-Round r at e = Makes-after _ _ _ (audit-Quiet _ _ _ _ _ _) λ _.
        Makes-pure _ _ (record {
          decisions = omega arith;
          blocked = rw (count_decision block block d e) (omega arith);
          deferred = rw (count_decision block defer d e) (omega arith);
          created = omega arith;
          recent = omega arith;
          capped = inl refl;
          compliant = tt;
        })

    pub follow_allow-Round :
        (r : PolicyResult) (proposal : ProposedOutreach)
        → d.decision ≡ allow
        → r.channel ≡ proposal.channel
        → MayContact (policy_input customer account cap proposal before.recent_count)
        → InLocalHours proposal.channel proposal.scheduled_at customer.timezone
        → before.recent_count < cap
        → Round (
            follow_decision event customer account correlation_id allow r d proposal.scheduled_at
              (record before { policy_decisions = before.policy_decisions + 1 }))
    unfolding follow_decision
    follow_allow-Round r proposal e same contact hours room =
        create_task-Round r proposal proposal.scheduled_at _ same contact hours λ t fine. record {
          decisions = omega arith;
          blocked = rw (count_decision allow block d e) (omega arith);
          deferred = rw (count_decision allow defer d e) (omega arith);
          created = omega arith;
          recent = omega arith;
          capped = inr (omega arith);
          compliant = (fine, tt);
        }

    deferred_only :
        d.decision ≡ defer
        → IsPlanned customer account cap before (d ∷ []) [] (record before {
          policy_decisions = before.policy_decisions + 1;
          deferred_attempts = before.deferred_attempts + 1;
        })
    deferred_only e = record {
      decisions = omega arith;
      blocked = rw (count_decision defer block d e) (omega arith);
      deferred = rw (count_decision defer defer d e) (omega arith);
      created = omega arith;
      recent = omega arith;
      capped = inl refl;
      compliant = tt;
    }

    follow_deferral-Round :
        (r : PolicyResult) (proposal : ProposedOutreach) (until : Option DateTime)
        → d.decision ≡ defer
        → r.channel ≡ proposal.channel
        → MayContact (policy_input customer account cap proposal before.recent_count)
        → ((at : DateTime) → until ≡ some at → InLocalHours proposal.channel at customer.timezone)
        → (contains "frequency_cap_exceeded" r.reasons ≡ false → before.recent_count < cap)
        → Round (
            follow_deferral event customer account correlation_id r d until (record before {
              policy_decisions = before.policy_decisions + 1;
              deferred_attempts = before.deferred_attempts + 1;
            }))
    unfolding follow_deferral
    follow_deferral-Round r proposal none e same contact hours room =
        Makes-pure _ _ (deferred_only e)
    follow_deferral-Round r proposal (some at) e same contact hours room =
        elim (Bool-cases (contains "frequency_cap_exceeded" r.reasons)) [
          | inl full ↦ rw full (Makes-pure _ _ (deferred_only e))
          | inr fits ↦ rw fits (
              create_task-Round r proposal at _ same contact (hours at refl) λ t fine.
                let below = room fits in
                record {
                  decisions = omega arith;
                  blocked = rw (count_decision defer block d e) (omega arith);
                  deferred = rw (count_decision defer defer d e) (omega arith);
                  created = omega arith;
                  recent = omega arith;
                  capped = inr (omega arith);
                  compliant = (fine, tt);
                })
        ]

    pub follow_defer-Round :
        (r : PolicyResult) (proposal : ProposedOutreach)
        → d.decision ≡ defer
        → r.channel ≡ proposal.channel
        → MayContact (policy_input customer account cap proposal before.recent_count)
        → ((at : DateTime)
            → r.defer_until ≡ some at
            → InLocalHours proposal.channel at customer.timezone)
        → (contains "frequency_cap_exceeded" r.reasons ≡ false → before.recent_count < cap)
        → Round (
            follow_decision event customer account correlation_id defer r d proposal.scheduled_at
              (record before { policy_decisions = before.policy_decisions + 1 }))
    unfolding follow_decision
    follow_defer-Round r proposal e same contact hours room =
        Makes-after _ _ _ (audit-Quiet _ _ _ _ _ _)
          λ _. follow_deferral-Round r proposal r.defer_until e same contact hours room
