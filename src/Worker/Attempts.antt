-- ===== src/Worker/Attempts.antt =====
-- The attempts of a task and their limit: what a claim, a delivery and a failure do to them.
use ai_compliance_orquestrat.AuditLog.{AuditEntry, append_audit_event, append_audit_event_lem}
pub mod Pass
use ai_compliance_orquestrat.World.{World}
use ai_compliance_orquestrat.DateTime.{DateTime}
use ai_compliance_orquestrat.Errors.{Result, ok, err, or_raise, runtime_error}
use ai_compliance_orquestrat.Evolution.Unique.{count-update_rows_kept}
use ai_compliance_orquestrat.Models.{Database, OutreachTask, scheduled, dispatching, same_status}
use ai_compliance_orquestrat.Session.{
  Session, Action, commit, rollback, modify, ◌>>=◌, gets, pure, lift,
}
use ai_compliance_orquestrat.Session.Triples.{
  Triple, Triple-bind, Triple-if, Triple-lift, Triple-pure, Triple-weaken, Triple-gets,
}
use ai_compliance_orquestrat.Tables.{update_rows, update_tasks_count, update_tasks}
use ai_compliance_orquestrat.Tables.OneRow.{IsOnly, find-IsOnly, IsOnly-All, IsOnly-passes}
use ai_compliance_orquestrat.Worker.{
  Dispatch, claim_task, is_claimable, is_due, others, record_delivery, refresh, dispatch_claimed,
  dispatch_found, dispatch_tasks, dispatch_due_tasks, send, dispatch_task,
}
use ai_compliance_orquestrat.Worker.Delivers.{has_id}
use ai_compliance_orquestrat.Worker.Record.{
  is_dispatching, mark_failure, mark_sent, retry_time, finish_update, record_success,
  record_failure, DeliveryResult, Delivery, failure, delivered,
}
use ai_compliance_orquestrat.Prelude.{
  All, Bool, List, Option, String, ℕ, ◌≡◌, ◌≤◌, ◌<◌, ◌==◌, [], ◌∷◌, arith, count, false, find, inl,
  inr, none, refl, some, true, Bool-cases, eq_iff, if◌then◌else◌, ltb, subst, sym, All-imp, ap, ◌+◌,
}

-- Attempts stay within the limit, and a task that is scheduled has one left.
pub record IsWithin (t : OutreachTask) : Type 0 where
  pub limit : t.attempt_count ≤ t.max_attempts
  pub left : t.status ≡ scheduled → t.attempt_count < t.max_attempts

-- Every task is within its limit, and no two share an id.
pub record IsSound (rows : List OutreachTask) : Type 0 where
  pub within : All IsWithin rows
  pub ids : (id : String) → count (has_id id) rows ≤ 1

-- The row of a claim, as long as it is dispatching, still has the counts of the claimed task.
abbrev pub HasClaim : OutreachTask → List OutreachTask → Type 0
HasClaim t rows =
    All
      (λ u.
        is_dispatching t.id u ≡ true
        → (u.attempt_count ≡ t.attempt_count) × (u.max_attempts ≡ t.max_attempts))
      rows

-- An update that keeps ids, and what holds of the rows it writes.
pub update_rows-IsSound :
    (p : OutreachTask → Bool) (f : OutreachTask → OutreachTask)
    → ((t : OutreachTask) → (f t).id ≡ t.id)
    → (rows : List OutreachTask) → All (λ t. p t ≡ true → IsWithin t → IsWithin (f t)) rows
    → IsSound rows
    → IsSound (update_rows p f rows)
update_rows-IsSound p f same rows step h = record {
  within = kept rows step h.within;
  ids = λ id.
      subst (λ n. n ≤ 1)
        (sym (count-update_rows_kept (has_id id) p f (λ t _. ap (λ v. v == id) (same t)) rows))
        (h.ids id);
}
  where
    kept :
        (rows : List OutreachTask)
        → All (λ t. p t ≡ true → IsWithin t → IsWithin (f t)) rows
        → All IsWithin rows
        → All IsWithin (update_rows p f rows)
    kept [] step h = tt
    kept (t ∷ ts) step h = (
      elim (Bool-cases (p t)) [ inl e ↦ rw e (step.0 e h.0) | inr e ↦ rw e h.0 ],
      kept ts step.1 h.1,
    )

-- The only row of its id is its own claim.
pub IsOnly-HasClaim :
    (id : String) (t : OutreachTask) (rows : List OutreachTask)
    → IsOnly (has_id id) t rows
    → HasClaim t rows
unfolding is_dispatching
IsOnly-HasClaim id t rows only =
    let own = (eq_iff t.id id).0 (IsOnly-passes (has_id id) rows only) in
    All-imp _ _
      (λ u same e.
        let here : u ≡ t = same (ground (arith, eq_iff u.id t.id, eq_iff u.id id, own)) in
        (ap (λ v. v.attempt_count) here, ap (λ v. v.max_attempts) here))
      rows (IsOnly-All (has_id id) rows t only)

module _ ⦃w : World⦄ (p : Dispatch) where
  pub claim-IsWithin :
      (id : String) (t : OutreachTask)
      → is_claimable p id t ≡ true
      → IsWithin t
      → IsWithin (claim_task t)
  unfolding claim_task is_claimable is_due
  claim-IsWithin id t e h = ground (arith, h.limit, h.left)

  pub mark_sent-IsWithin : (t : OutreachTask) → IsWithin t → IsWithin (mark_sent t)
  unfolding mark_sent
  mark_sent-IsWithin t h = ground (arith, h.limit)

  pub mark_failure-IsWithin :
      (task : OutreachTask) (at : Option DateTime) (error : String) (t : OutreachTask)
      → retry_time p.now p.retry_delay task ≡ ok at
      → (t.attempt_count ≡ task.attempt_count) × (t.max_attempts ≡ task.max_attempts)
      → IsWithin t
      → IsWithin (mark_failure task at error t)
  unfolding mark_failure retry_time
  mark_failure-IsWithin task none error t e same h = ground (arith, h.limit)
  mark_failure-IsWithin task (some d) error t e same h = ground (arith, h.limit, e, same.0, same.1)
