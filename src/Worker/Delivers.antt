-- ===== src/Worker/Delivers.antt =====
-- `dispatch_due_tasks` when the providers deliver and nobody else writes: what the pass does to
-- each due task.
use ai_compliance_orquestrat.World.{World}
use ai_compliance_orquestrat.Errors.{ok, Result}
use ai_compliance_orquestrat.AuditLog.{audit_row, append_audit_event}
use ai_compliance_orquestrat.Session.{
  Session, ◌>>=◌, ◌>>◌, gets, lift, modify, pure, commit, reading,
}
use ai_compliance_orquestrat.Tables.{update_rows, update_tasks_count, update_tasks, add_audit_event}
use ai_compliance_orquestrat.Tables.OneRow.{
  IsOnly, IsOnly-find, IsOnly-update, count-only, update_rows-only, IsOnly-passes,
  update_rows-twice,
}
use ai_compliance_orquestrat.Models.{OutreachTask, Database, sent}
use ai_compliance_orquestrat.Worker.{
  Dispatch, claim_task, dispatch_claimed, dispatch_found, dispatch_task, is_claimable, is_due,
  others, record_delivery, refresh, send, started_entry,
}
use ai_compliance_orquestrat.Worker.Record.{
  DeliveryResult, delivered, is_dispatching, mark_sent, record_success,
}
use ai_compliance_orquestrat.Worker.Outcomes.{record_success_lem}
use ai_compliance_orquestrat.Prelude.{
  Bool, String, List, true, ◌≡◌, ◌==◌, ◌∙◌, ◌+◌, ◌++◌, ◌∷◌, [], refl, arith, ap, ℕ, subst, eq_iff,
  sym, none,
}

-- by the primary key
abbrev pub has_id : String → OutreachTask → Bool
has_id id t = t.id == id

-- a task after one more attempt that delivered
abbrev pub deliver_task : OutreachTask → OutreachTask
deliver_task t = record t { status = sent; attempt_count = t.attempt_count + 1; last_error = none }

-- The pass went through, and all of it is durable.
pub record HasSent (n : ℕ) (rows : List OutreachTask) (r : Result ℕ × Session) : Type 0 where
  pub returns : r.0 ≡ ok n
  pub tasks : r.1.db.outreach_tasks ≡ rows
  pub durable : r.1.committed ≡ r.1.db

module _ ⦃w : World⦄ (p : Dispatch) (id : String) where
  claimable_has_id : (t : OutreachTask) → is_claimable p id t ≡ true → has_id id t ≡ true
  unfolding is_claimable
  claimable_has_id t h = ground arith

  is_claimable-due :
      (t : OutreachTask) → has_id id t ≡ true → is_due p.now t ≡ true → is_claimable p id t ≡ true
  unfolding is_claimable
  is_claimable-due t h k = ground arith

  -- the session after the claim
  abbrev claimed : Session → Session
  claimed s = record s {
    db = record s.db {
      outreach_tasks = update_rows (is_claimable p id) claim_task s.db.outreach_tasks;
    };
  }

  dispatch_task-claimed :
      (s : Session) (t : OutreachTask)
      → IsOnly (has_id id) t s.db.outreach_tasks
      → is_due p.now t ≡ true
      → dispatch_task p id s ≡ dispatch_claimed p id (claimed s)
  unfolding dispatch_task dispatch_found ◌>>=◌ gets update_tasks_count update_tasks modify pure
  dispatch_task-claimed s t only due =
      rw
        (
          IsOnly-find (has_id id) s.db.outreach_tasks only,
          count-only (has_id id) (is_claimable p id) claimable_has_id s.db.outreach_tasks only
              (is_claimable-due t (IsOnly-passes (has_id id) s.db.outreach_tasks only) due),
        )
        refl

  -- the task is still the only one of its id after the claim, as the claimed one
  claimed-IsOnly :
      (rows : List OutreachTask) (t : OutreachTask)
      → IsOnly (has_id id) t rows
      → is_due p.now t ≡ true
      → IsOnly (has_id id) (claim_task t) (update_rows (is_claimable p id) claim_task rows)
  unfolding claim_task
  claimed-IsOnly rows t only due =
      subst (λ v. IsOnly (has_id id) v (update_rows (is_claimable p id) claim_task rows))
        (rw (is_claimable-due t (IsOnly-passes (has_id id) rows only) due) refl)
        (IsOnly-update (has_id id) (is_claimable p id) claim_task (λ x. refl) rows t only)

  -- the session after the audit row and the commit
  abbrev started : Session → OutreachTask → Session
  started s t =
      let after : Database = record s.db {
        audit_events = s.db.audit_events ++ audit_row (started_entry p t) s.tick ∷ [];
      } in
      record { db = after; committed = after; tick = s.tick + 1 + 1 }

  dispatch_claimed-started :
      (s : Session) (t : OutreachTask) (r : DeliveryResult)
      → IsOnly (has_id id) t s.db.outreach_tasks
      → ((d : Database) → p.meanwhile t d ≡ d)
      → send p.adapters t ≡ delivered r
      → dispatch_claimed p id s ≡ (record_success p.worker_id t r >> pure 1) (started s t)
  unfolding dispatch_claimed refresh ◌>>=◌ gets lift append_audit_event reading add_audit_event
      modify commit others record_delivery
  dispatch_claimed-started s t r only quiet sent_ =
      rw (IsOnly-find (has_id id) s.db.outreach_tasks only, quiet (started s t).db, sent_) refl

  is_dispatching-has_id :
      (t x : OutreachTask) → has_id id t ≡ true → is_dispatching t.id x ≡ true → has_id id x ≡ true
  unfolding is_dispatching
  is_dispatching-has_id t x own h = ground (arith, eq_iff t.id id, eq_iff x.id t.id)

  record_success-sent :
      (s : Session) (t : OutreachTask) (r : DeliveryResult)
      → IsOnly (has_id id) t s.db.outreach_tasks
      → is_dispatching t.id t ≡ true
      → HasSent 1
          (update_rows (has_id id) mark_sent s.db.outreach_tasks)
          ((record_success p.worker_id t r >> pure 1) s)
  unfolding ◌>>=◌ pure
  record_success-sent s t r only open_ =
      let rows = s.db.outreach_tasks in
      let below =
        λ (x : OutreachTask). is_dispatching-has_id t x (IsOnly-passes (has_id id) rows only) in
      let one = count-only (has_id id) (is_dispatching t.id) below rows only open_ in
      let written =
        update_rows-only (has_id id) (is_dispatching t.id) mark_sent below rows only open_ in
      record {
        returns = rw (record_success_lem t s p.worker_id r) refl;
        tasks = rw (record_success_lem t s p.worker_id r, one) written;
        durable = rw (record_success_lem t s p.worker_id r, one) refl;
      }

  claimed-is_dispatching :
      (t : OutreachTask) → is_dispatching (claim_task t).id (claim_task t) ≡ true
  unfolding claim_task is_dispatching
  claimed-is_dispatching t = ground (arith, eq_iff t.id t.id)

  -- A due task is sent, and all of it is durable.
  pub dispatch_task-sent :
      (s : Session) (t : OutreachTask) (r : DeliveryResult)
      → IsOnly (has_id id) t s.db.outreach_tasks
      → is_due p.now t ≡ true
      → ((d : Database) → p.meanwhile (claim_task t) d ≡ d)
      → send p.adapters (claim_task t) ≡ delivered r
      → HasSent 1 (update_rows (has_id id) deliver_task s.db.outreach_tasks) (dispatch_task p id s)
  unfolding claim_task mark_sent
  dispatch_task-sent s t r only due quiet sent_ =
      let rows = s.db.outreach_tasks in
      let now_only = claimed-IsOnly rows t only due in
      let way =
        dispatch_task-claimed s t only due
        ∙ dispatch_claimed-started (claimed s) (claim_task t) r now_only quiet sent_ in
      let done =
        record_success-sent (started (claimed s) (claim_task t)) (claim_task t) r now_only
          (claimed-is_dispatching t) in
      let written =
        ap (update_rows (has_id id) mark_sent) (
          update_rows-only (has_id id) (is_claimable p id) claim_task claimable_has_id rows only
            (is_claimable-due t (IsOnly-passes (has_id id) rows only) due))
        ∙ update_rows-twice (has_id id) claim_task mark_sent (λ x. refl) rows in
      let sent_rows : HasSent 1 (update_rows (has_id id) mark_sent (claimed s).db.outreach_tasks)
          (dispatch_task p id s) =
        subst (HasSent 1 (update_rows (has_id id) mark_sent (claimed s).db.outreach_tasks))
          (sym way) done in
      record {
        returns = sent_rows.returns;
        tasks = sent_rows.tasks ∙ written;
        durable = sent_rows.durable;
      }
