-- ===== src/Ingestion/Counted/Decided.antt =====
-- A decision of the event and its task: what the replay counts after them.
use ai_compliance_orquestrat.Tables.OneRow.{count-none_below}
use ai_compliance_orquestrat.World.{World}
use ai_compliance_orquestrat.Evolution.Unique.{count_hit, count_miss}
use ai_compliance_orquestrat.Ingestion.Replay.{has_outcome, joins}
use ai_compliance_orquestrat.Models.{
  OutreachTask, PolicyDecision, block, defer, PolicyDecisionOutcome, same_outcome,
}
use ai_compliance_orquestrat.Planner.Effects.{is_decision_of}
use ai_compliance_orquestrat.Planner.PolicyEvent.{PlannerResult}
use ai_compliance_orquestrat.Session.{Session}
use ai_compliance_orquestrat.Prelude.{
  Bool, String, ℕ, ◌≡◌, ◌≤◌, ◌+◌, ◌++◌, ◌==◌, ◌∷◌, [], arith, count, count-append, some, false,
  true, ◌&&◌, refl, Bool-cases, inl, inr, if◌then◌else◌, eq_iff, sym, ◌∙◌,
}
use ai_compliance_orquestrat.Ingestion.Counted.{
  Counts, UuidsDiffer, count_created-append, count_created-new_decision, has_decision_id,
  names_decision,
}

-- A decision of the event, as the loop has stored it: it is the only one of its id, and no later
-- id is its own.
pub record IsOwn ⦃w : World⦄ (event_id : String) (d : PolicyDecision) (s : Session) : Type 0 where
  pub once : count (λ x. d.id == x.id && is_decision_of event_id x) s.db.policy_decisions ≡ 1
  pub old : (k : ℕ) → s.tick ≤ k → (d.id == w.uuid4 k) ≡ false

-- what a decision adds to the result
abbrev pub with_decision : PolicyDecisionOutcome → PlannerResult → PlannerResult
with_decision o r = record r {
  policy_decisions = r.policy_decisions + 1;
  blocked_attempts = if same_outcome o block then r.blocked_attempts + 1 else r.blocked_attempts;
  deferred_attempts = if same_outcome o defer then r.deferred_attempts + 1 else r.deferred_attempts;
}

own-is_decision_of :
    (event_id : String) (d : PolicyDecision)
    → d.inbound_event_id ≡ some event_id
    → is_decision_of event_id d ≡ true
unfolding is_decision_of
own-is_decision_of event_id d own = rw own ((eq_iff event_id event_id).1 refl)

count-has_outcome :
    (event_id : String) (o : PolicyDecisionOutcome) (d : PolicyDecision)
    → is_decision_of event_id d ≡ true
    → count (has_outcome event_id o) (d ∷ []) ≡ (if same_outcome d.decision o then 1 else 0)
unfolding count has_outcome
count-has_outcome event_id o d own = rw own refl

uuid_differs :
    ⦃w : World⦄
    → UuidsDiffer w
    → (j k : ℕ) (id : String) → id ≡ w.uuid4 j
    → j + 1 ≤ k
    → (id == w.uuid4 k) ≡ false
uuid_differs ⦃w⦄ differ j k id e le = elim (Bool-cases (id == w.uuid4 k)) [
  | inl same ↦
      let equal : j ≡ k = differ j k (sym e ∙ (eq_iff id (w.uuid4 k)).0 same) in
      absurd (omega arith)
  | inr apart ↦ apart
]

module _ ⦃w : World⦄ (differ : UuidsDiffer w) (source external_id event_id : String)
    (r : PlannerResult) where
  -- A new decision of the event, with the next id of uuid4.
  pub add_decision-Counts :
      (s : Session) (d : PolicyDecision)
      → d.id ≡ w.uuid4 s.tick
      → d.inbound_event_id ≡ some event_id
      → Counts source external_id event_id r s
      → let after : Session = record s {
        db = record s.db { policy_decisions = s.db.policy_decisions ++ d ∷ [] };
        tick = s.tick + 1;
      } in
        Counts source external_id event_id (with_decision d.decision r) after
        × IsOwn event_id d after
  add_decision-Counts s d new own h =
      let ds = s.db.policy_decisions in
      let mine = own-is_decision_of event_id d own in
      let here = h.fresh s.tick (omega arith) in
      let unused : count (has_decision_id d.id) ds ≡ 0 = rw new here.decisions in
      let unnamed : count (names_decision d.id) s.db.outreach_tasks ≡ 0 = rw new here.tasks in
      let pair : PolicyDecision → Bool = λ x. d.id == x.id && is_decision_of event_id x in
      let later = uuid_differs differ s.tick in
      (
        record {
          created =
              count_created-new_decision event_id s.db.outreach_tasks ds d unnamed ∙ h.created;
          blocked = counted block r.blocked_attempts h.blocked;
          deferred = counted defer r.deferred_attempts h.deferred;
          cancelled = h.cancelled;
          decisions = omega (
            arith,
            h.decisions,
            count-append (is_decision_of event_id) ds (d ∷ []),
            count_hit (is_decision_of event_id) d mine,
          );
          stored = h.stored;
          fresh = λ k le.
              let x = h.fresh k (omega arith) in
              record {
                decisions = omega (
                  arith,
                  x.decisions,
                  count-append (has_decision_id (w.uuid4 k)) ds (d ∷ []),
                  count_miss (has_decision_id (w.uuid4 k)) d (later k d.id new le),
                );
                tasks = x.tasks;
              };
        },
        record {
          once = omega (
            arith,
            count-append pair ds (d ∷ []),
            count_hit pair d (rw ((eq_iff d.id d.id).1 refl) mine),
            count-none_below (has_decision_id d.id) pair
                (λ x e. ground (arith, eq_iff d.id x.id, eq_iff x.id d.id)) ds unused,
          );
          old = λ k le. later k d.id new le;
        },
      )
    where
      counted :
          (o : PolicyDecisionOutcome) (n : ℕ)
          → count (has_outcome event_id o) s.db.policy_decisions ≡ n
          → count (has_outcome event_id o) (s.db.policy_decisions ++ d ∷ [])
            ≡ (if same_outcome d.decision o then n + 1 else n)
      counted o n e = ground (
        arith,
        e,
        count-append (has_outcome event_id o) s.db.policy_decisions (d ∷ []),
        count-has_outcome event_id o d (own-is_decision_of event_id d own),
      )

  -- A new task of such a decision.
  pub add_task-Counts :
      (s : Session) (d : PolicyDecision) (t : OutreachTask)
      → t.policy_decision_id ≡ some d.id
      → IsOwn event_id d s
      → Counts source external_id event_id r s
      → Counts source external_id event_id
          (record r { created_tasks = r.created_tasks + 1 })
          (record s {
            db = record s.db { outreach_tasks = s.db.outreach_tasks ++ t ∷ [] };
            tick = s.tick + 1 + 1;
          })
  unfolding joins
  add_task-Counts s d t names own h =
      let pair : PolicyDecision → Bool = λ x. joins t x && is_decision_of event_id x in
      record {
        created = omega (
          arith,
          h.created,
          own.once,
          same_pairs,
          count_created-append event_id s.db.outreach_tasks t s.db.policy_decisions,
        );
        blocked = h.blocked;
        deferred = h.deferred;
        cancelled = h.cancelled;
        decisions = h.decisions;
        stored = h.stored;
        fresh = λ k le.
            let x = h.fresh k (omega arith) in
            record {
              decisions = x.decisions;
              tasks = omega (
                arith,
                x.tasks,
                count-append (names_decision (w.uuid4 k)) s.db.outreach_tasks (t ∷ []),
                count_miss (names_decision (w.uuid4 k)) t (rw names (own.old k (omega arith))),
              );
            };
      }
    where
      same_pairs :
          count (λ x. joins t x && is_decision_of event_id x) s.db.policy_decisions
          ≡ count (λ x. d.id == x.id && is_decision_of event_id x) s.db.policy_decisions
      same_pairs = rw names refl
