-- ===== src/Ingestion/Counted.antt =====
-- The rows that the replay of an event counts, while the planner works on the event: each step of
-- the planner adds to them what it adds to its result.
pub mod TaskRows
pub mod Flushed
pub mod PolicyEvents
pub mod Decided
pub mod Handled
pub mod Accepted
pub mod Unused
use ai_compliance_orquestrat.Tables.OneRow.{count-none_below}
use ai_compliance_orquestrat.World.{World}
use ai_compliance_orquestrat.AuditLog.{
  AuditEntry, append_audit_event, append_audit_event_lem, audit_row,
}
use ai_compliance_orquestrat.Evolution.Unique.{is_event, count_hit, count_miss}
use ai_compliance_orquestrat.Ingestion.Replay.{
  count_created, has_outcome, is_cancellation_by, joins,
}
use ai_compliance_orquestrat.Models.{
  AuditEvent, Database, InboundEvent, OutreachTask, PolicyDecision, block, defer,
  PolicyDecisionOutcome, same_outcome,
}
use ai_compliance_orquestrat.Planner.Effects.{is_decision_of}
use ai_compliance_orquestrat.Planner.PolicyEvent.{PlannerResult}
use ai_compliance_orquestrat.Session.{Session, Action}
use ai_compliance_orquestrat.Session.Triples.{Triple}
use ai_compliance_orquestrat.Prelude.{
  Bool, List, Option, String, ℕ, ◌≡◌, ◌≤◌, ◌+◌, ◌++◌, ◌==◌, ◌∷◌, [], arith, count, count-append,
  find, none, some, false, true, ◌&&◌, refl, Bool-cases, inl, inr, subst, if◌then◌else◌, eq_iff,
  sym, ◌∙◌,
}

-- `t.policy_decision_id == id`
abbrev pub names_decision : String → OutreachTask → Bool
names_decision id t = elim t.policy_decision_id [ none ↦ false | some own ↦ own == id ]

abbrev pub has_decision_id : String → PolicyDecision → Bool
has_decision_id id d = d.id == id

-- No two readings of uuid4 agree.
abbrev pub UuidsDiffer : World → Type 0
UuidsDiffer w = (j k : ℕ) → w.uuid4 j ≡ w.uuid4 k → j ≡ k

-- No decision has, and no task names, an id that uuid4 still has to give.
pub record IsFreshAt ⦃w : World⦄ (s : Session) (k : ℕ) : Type 0 where
  pub decisions : count (has_decision_id (w.uuid4 k)) s.db.policy_decisions ≡ 0
  pub tasks : count (names_decision (w.uuid4 k)) s.db.outreach_tasks ≡ 0

-- The tables hold for the event what the result counts; the event is the stored one of its
-- identity; and ids are fresh.
pub record Counts ⦃w : World⦄ (source external_id event_id : String) (r : PlannerResult)
    (s : Session) : Type 0 where
  pub created : count_created event_id s.db.outreach_tasks s.db.policy_decisions ≡ r.created_tasks
  pub blocked : count (has_outcome event_id block) s.db.policy_decisions ≡ r.blocked_attempts
  pub deferred : count (has_outcome event_id defer) s.db.policy_decisions ≡ r.deferred_attempts
  pub cancelled : count (is_cancellation_by event_id) s.db.audit_events ≡ r.cancelled_tasks
  pub decisions : count (is_decision_of event_id) s.db.policy_decisions ≡ r.policy_decisions
  pub stored :
      (x : InboundEvent) × (find (is_event source external_id) s.db.inbound_events ≡ some x)
      × (x.id ≡ event_id)
  pub fresh : (k : ℕ) → s.tick ≤ k → IsFreshAt s k

pub count_created-append :
    (id : String) (ts : List OutreachTask) (t : OutreachTask) (ds : List PolicyDecision)
    → count_created id (ts ++ t ∷ []) ds
      ≡ count_created id ts ds + count (λ d. joins t d && is_decision_of id d) ds
unfolding count_created
count_created-append id [] t ds = omega arith
count_created-append id (x ∷ xs) t ds = omega (arith, count_created-append id xs t ds)

-- A decision that no task names adds no pair.
pub count_created-new_decision :
    (id : String) (ts : List OutreachTask) (ds : List PolicyDecision) (d : PolicyDecision)
    → count (names_decision d.id) ts ≡ 0
    → count_created id ts (ds ++ d ∷ []) ≡ count_created id ts ds
unfolding count_created count joins
count_created-new_decision id [] ds d h = refl
count_created-new_decision id (t ∷ ts) ds d h = elim (Bool-cases (names_decision d.id t)) [
  | inl e ↦ absurd (ground arith)
  | inr e ↦
      let q : PolicyDecision → Bool = λ x. joins t x && is_decision_of id x in
      let apart : q d ≡ false = rw e refl in
      omega (
        arith,
        count-append q ds (d ∷ []),
        count_miss q d apart,
        count_created-new_decision id ts ds d (rw e at h),
      )
]

-- Without decisions of the event there is no pair.
pub count_created-none :
    (id : String) (ts : List OutreachTask) (ds : List PolicyDecision)
    → count (is_decision_of id) ds ≡ 0
    → count_created id ts ds ≡ 0
unfolding count_created
count_created-none id [] ds h = refl
count_created-none id (t ∷ ts) ds h = omega (
  arith,
  count_created-none id ts ds h,
  count-none_below (is_decision_of id) (λ d. joins t d && is_decision_of id d) (λ d e. ground arith)
      ds h,
)

module _ ⦃w : World⦄ (source external_id event_id : String) (r : PlannerResult) where
  -- An audit row counts if it is a cancellation.
  append-Counts :
      (e : AuditEntry) (s : Session) (n : ℕ)
      → count (is_cancellation_by event_id) (audit_row e s.tick ∷ []) ≡ n
      → Counts source external_id event_id r s
      → Counts source external_id event_id
          (record r { cancelled_tasks = r.cancelled_tasks + n })
          (append_audit_event e s).1
  append-Counts e s n one h = rw (append_audit_event_lem e s) (record {
    created = h.created;
    blocked = h.blocked;
    deferred = h.deferred;
    cancelled = omega (
      arith,
      h.cancelled,
      one,
      count-append (is_cancellation_by event_id) s.db.audit_events (audit_row e s.tick ∷ []),
    );
    decisions = h.decisions;
    stored = h.stored;
    fresh = λ k le.
        let x = h.fresh k (omega arith) in record { decisions = x.decisions; tasks = x.tasks };
  })

  pub append-cancelled :
      (e : AuditEntry) (s : Session)
      → is_cancellation_by event_id (audit_row e s.tick) ≡ true
      → Counts source external_id event_id r s
      → Counts source external_id event_id
          (record r { cancelled_tasks = r.cancelled_tasks + 1 })
          (append_audit_event e s).1
  append-cancelled e s own h = append-Counts e s 1 (count_hit (is_cancellation_by event_id) _ own) h

  pub append-other :
      (e : AuditEntry) (s : Session)
      → is_cancellation_by event_id (audit_row e s.tick) ≡ false
      → Counts source external_id event_id r s
      → Counts source external_id event_id r (append_audit_event e s).1
  append-other e s other h =
      subst
        (λ n.
          Counts source external_id event_id (record r { cancelled_tasks = n })
            (append_audit_event e s).1)
        (omega arith) (append-Counts e s 0 (count_miss (is_cancellation_by event_id) _ other) h)
