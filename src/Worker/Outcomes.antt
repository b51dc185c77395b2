-- ===== src/Worker/Outcomes.antt =====
-- What becomes of a task after a delivery.
use ai_compliance_orquestrat.Tables.Rules.{refuse_long_error-unmatched, refuse_long_error-fits}
use ai_compliance_orquestrat.Errors.{ok}
use ai_compliance_orquestrat.Worker.Record.{
  finish_update, retry_time, record_failure, is_dispatching, mark_failure, failure_entry,
  DeliveryResult, record_success, mark_sent, success_entry,
}
use ai_compliance_orquestrat.Tables.{
  update_tasks_count, update_rows, update_tasks, add_audit_event, refuse_long_error,
  fits_last_error,
}
use ai_compliance_orquestrat.DateTime.{DateTime, plus}
use ai_compliance_orquestrat.AuditLog.{AuditEntry, audit_row, append_audit_event}
use ai_compliance_orquestrat.Prelude.{
  Bool, ℕ, String, ◌++◌, Option, if◌then◌else◌, ◌≡◌, ◌∷◌, count, ltb, some, [], none, arith, ◌∙◌,
  ◌+◌, eqb, true, false, refl,
}
use ai_compliance_orquestrat.Models.{OutreachTask, Database}
use ai_compliance_orquestrat.World.{World}
use ai_compliance_orquestrat.Session.{
  Action, Session, ◌>>=◌, modify, rollback, reading, commit, ◌>>◌,
}

module _ ⦃w : World⦄ (p : OutreachTask → Bool) (f : OutreachTask → OutreachTask)
    (entry : AuditEntry) (s : Session) where
  -- the tables after one row was written, with its audit row
  abbrev written : Database
  written = record s.db {
    outreach_tasks = update_rows p f s.db.outreach_tasks;
    audit_events = s.db.audit_events ++ audit_row entry s.tick ∷ [];
  }

  update_then_finish : Action (Unit {0})
  update_then_finish = do rowcount ← update_tasks_count p f; finish_update rowcount entry

  -- One row was written: it and the audit row are durable.
  finish_update-one :
      count p s.db.outreach_tasks ≡ 1
      → update_then_finish s
        ≡ (ok tt, record { db = written; committed = written; tick = s.tick + 1 + 1 })
  unfolding update_then_finish update_tasks_count update_tasks modify finish_update ◌>>=◌
      append_audit_event reading add_audit_event commit
  finish_update-one one = rw one

  -- No row was written: the transaction is dropped.
  finish_update-zero :
      count p s.db.outreach_tasks ≡ 0
      → update_then_finish s ≡ (ok tt, record s { db = s.committed })
  unfolding update_then_finish update_tasks_count update_tasks modify finish_update ◌>>=◌ rollback
  finish_update-zero zero_rows = rw zero_rows

module _ ⦃w : World⦄ (task : OutreachTask) (s : Session) (now : DateTime) (retry_delay : ℕ)
    (worker_id error : String) where
  -- the retry time, while attempts are left
  abbrev pub retry_at : DateTime → Option DateTime
  retry_at later = if ltb task.attempt_count task.max_attempts then some later else none

  pub retry_time_lem :
      {later : DateTime}
      → plus now retry_delay ≡ some later
      → retry_time now retry_delay task ≡ ok (retry_at later)
  unfolding retry_time
  retry_time_lem e = ground arith

  record_failure-retry :
      (at : Option DateTime)
      → retry_time now retry_delay task ≡ ok at
      → refuse_long_error (is_dispatching task.id) (some error) s ≡ (ok tt, s)
      → record_failure now retry_delay worker_id task error s
        ≡ update_then_finish
            (is_dispatching task.id)
            (mark_failure task at error)
            (failure_entry worker_id task error at)
            s
            s
  unfolding record_failure update_then_finish ◌>>=◌
  record_failure-retry at e fits = rw (e, fits) refl

  -- A failed delivery of a task that is still dispatching, with a text that fits its column, is
  -- durable at once, with one audit row: while attempts are left the task is scheduled again after the delay, else it has failed for
  -- good. No other row of any table changes.
  pub record_failure_lem :
      {later : DateTime}
      → plus now retry_delay ≡ some later
      → fits_last_error (some error) ≡ true
      → count (is_dispatching task.id) s.db.outreach_tasks ≡ 1
      → let after : Database = record s.db {
        outreach_tasks =
            update_rows
              (is_dispatching task.id)
              (mark_failure task (retry_at later) error)
              s.db.outreach_tasks;
        audit_events =
            s.db.audit_events
            ++ audit_row (failure_entry worker_id task error (retry_at later)) s.tick ∷ [];
      } in
        record_failure now retry_delay worker_id task error s
        ≡ (ok tt, record { db = after; committed = after; tick = s.tick + 1 + 1 })
  record_failure_lem {later} delayed fits one =
      record_failure-retry (retry_at later) (retry_time_lem delayed)
        (refuse_long_error-fits (is_dispatching task.id) (some error) s fits)
      ∙ finish_update-one (is_dispatching task.id) (mark_failure task (retry_at later) error)
          (failure_entry worker_id task error (retry_at later)) s one

  -- A failure that comes after another result of the task was recorded is dropped: the tables go
  -- back to what is durable, and no audit row claims it.
  pub record_failure_superseded :
      {later : DateTime}
      → plus now retry_delay ≡ some later
      → count (is_dispatching task.id) s.db.outreach_tasks ≡ 0
      → record_failure now retry_delay worker_id task error s
        ≡ (ok tt, record s { db = s.committed })
  record_failure_superseded {later} delayed zero_rows =
      record_failure-retry (retry_at later) (retry_time_lem delayed)
        (refuse_long_error-unmatched (is_dispatching task.id) (some error) s zero_rows)
      ∙ finish_update-zero (is_dispatching task.id) (mark_failure task (retry_at later) error)
          (failure_entry worker_id task error (retry_at later)) s zero_rows

-- The end of an update, by whether it wrote one row.
finish_if :
    ⦃w : World⦄ (b : Bool) (entry : AuditEntry) (s : Session)
    → let after : Database = record s.db {
      audit_events = s.db.audit_events ++ audit_row entry s.tick ∷ [];
    } in
      (if b then (do append_audit_event entry; commit) else rollback) s ≡ (
        ok tt,
        if b
            then record { db = after; committed = after; tick = s.tick + 1 + 1 }
            else record s { db = s.committed },
      )
unfolding ◌>>=◌ append_audit_event reading add_audit_event commit rollback modify
finish_if true entry s = refl
finish_if false entry s = refl

module _ ⦃w : World⦄ (task : OutreachTask) (s : Session) (worker_id : String)
    (result : DeliveryResult) where
  -- A delivery of a task that is still dispatching is durable at once, as sent and without an
  -- error, with one audit row; no other row of any table changes. If the task is no longer
  -- dispatching, the result is dropped: the tables go back to what is durable.
  pub record_success_lem :
      let after : Database = record s.db {
        outreach_tasks = update_rows (is_dispatching task.id) mark_sent s.db.outreach_tasks;
        audit_events =
            s.db.audit_events ++ audit_row (success_entry worker_id task result) s.tick ∷ [];
      } in
      record_success worker_id task result s ≡ (
        ok tt,
        if eqb (count (is_dispatching task.id) s.db.outreach_tasks) 1
            then record { db = after; committed = after; tick = s.tick + 1 + 1 }
            else record s { db = s.committed },
      )
  unfolding record_success update_tasks_count update_tasks modify finish_update ◌>>=◌
  record_success_lem =
      finish_if (eqb (count (is_dispatching task.id) s.db.outreach_tasks) 1)
        (success_entry worker_id task result)
        (record s {
          db = record s.db {
            outreach_tasks = update_rows (is_dispatching task.id) mark_sent s.db.outreach_tasks;
          };
        })
