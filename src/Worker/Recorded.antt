-- ===== src/Worker/Recorded.antt =====
-- What the record of a delivery leaves of a task, by its id: sent, to be retried or failed, or lost.
use ai_compliance_orquestrat.AuditLog.{audit_row}
use ai_compliance_orquestrat.Tables.Rules.{refuse_long_error-long}
use ai_compliance_orquestrat.Tables.{fits_last_error}
use ai_compliance_orquestrat.Text.{code_points, has_length}
use ai_compliance_orquestrat.Errors.{ok, err, data_error}
use ai_compliance_orquestrat.Tables.OneRow.{
  IsOnly, count-only, find-IsOnly, IsOnly-passes, count-none_only,
}
use ai_compliance_orquestrat.Json.{get, text, object, boolean}
use ai_compliance_orquestrat.Session.{Session, ◌>>=◌}
use ai_compliance_orquestrat.Worker.Record.{
  is_dispatching, mark_failure, DeliveryResult, record_success, record_failure, failure_entry,
  success_entry, mark_sent,
}
use ai_compliance_orquestrat.DateTime.{DateTime, plus}
use ai_compliance_orquestrat.Prelude.{
  String, Bool, if◌then◌else◌, ◌≡◌, ◌==◌, ◌≢◌, ltb, true, ℕ, count, some, arith, false, ◌≤◌, none,
  find, ◌<◌, refl, subst,
}
use ai_compliance_orquestrat.World.{World}
use ai_compliance_orquestrat.AuditLog.TaskChange.{
  IsTaskChange, IsTaskEntry, settled-IsTaskChange, settled,
}
use ai_compliance_orquestrat.Worker.Outcomes.{
  record_success_lem, record_failure_lem, record_failure_superseded, retry_time_lem,
}
use ai_compliance_orquestrat.Models.{
  OutreachTask, OutreachTaskStatus, AuditEvent, worker, sent, scheduled, dispatching,
}

module _ (worker_id : String) (task : OutreachTask) where
  -- the audit row of a delivery
  abbrev pub IsSuccessEntry : DeliveryResult → AuditEvent → Type 0
  IsSuccessEntry result a =
      IsTaskEntry task.id task.correlation_id "dispatch_succeeded" worker worker_id a
      × (get "provider_message_id" a.payload ≡ some (text result.provider_message_id))
      × (get "details" a.payload ≡ some (object result.details))

  -- the audit row of a failure, with whether a retry follows and the final status
  abbrev pub IsFailureEntry : String → Bool → AuditEvent → Type 0
  IsFailureEntry error retries a =
      IsTaskEntry task.id task.correlation_id "dispatch_failed" worker worker_id a
      × (get "error" a.payload ≡ some (text error))
      × (get "will_retry" a.payload ≡ some (boolean retries))
      × (get "final_status" a.payload ≡ some (text (if retries then "scheduled" else "failed")))

-- A task after a failure that is recorded at a time: back in the queue while attempts are left.
abbrev pub failed_row : OutreachTask → DateTime → String → OutreachTask → OutreachTask
failed_row task later error row =
    if ltb task.attempt_count task.max_attempts
    then record row { status = scheduled; scheduled_at = later; last_error = some error }
    else record row {
      status = OutreachTaskStatus.failed;
      scheduled_at = task.scheduled_at;
      last_error = some error;
    }

module _ (task : OutreachTask) where
  dispatching_has_id :
      (t : OutreachTask) → is_dispatching task.id t ≡ true → (t.id == task.id) ≡ true
  unfolding is_dispatching
  dispatching_has_id t h = ground arith

  row_dispatching :
      (row : OutreachTask)
      → (row.id == task.id) ≡ true
      → row.status ≡ dispatching
      → is_dispatching task.id row ≡ true
  unfolding is_dispatching
  row_dispatching row h e = ground arith

  row_not_dispatching :
      (row : OutreachTask) → row.status ≢ dispatching → is_dispatching task.id row ≡ false
  unfolding is_dispatching
  row_not_dispatching row e = ground arith

  mark_failure-by :
      (retries : Bool) (later : DateTime) (error : String) (row : OutreachTask)
      → mark_failure task (if retries then some later else none) error row ≡ (
          if retries
          then record row { status = scheduled; scheduled_at = later; last_error = some error }
          else record row {
            status = OutreachTaskStatus.failed;
            scheduled_at = task.scheduled_at;
            last_error = some error;
          })
  unfolding mark_failure
  mark_failure-by true later error row = refl
  mark_failure-by false later error row = refl

  failure_entry-by :
      ⦃w : World⦄ (worker_id : String) (retries : Bool) (later : DateTime) (error : String) (n : ℕ)
      → IsFailureEntry worker_id task error retries
          (audit_row (failure_entry worker_id task error (if retries then some later else none)) n)
  unfolding failure_entry get
  failure_entry-by worker_id true later error n = (by_refl, refl, refl, refl)
    where
      by_refl :
          IsTaskEntry task.id task.correlation_id "dispatch_failed" worker worker_id
            (audit_row (failure_entry worker_id task error (some later)) n)
      by_refl = record {
        type = refl;
        entity = refl;
        event = refl;
        actor = refl;
        by = refl;
        correlation = refl;
      }
  failure_entry-by worker_id false later error n = (by_refl, refl, refl, refl)
    where
      by_refl :
          IsTaskEntry task.id task.correlation_id "dispatch_failed" worker worker_id
            (audit_row (failure_entry worker_id task error none) n)
      by_refl = record {
        type = refl;
        entity = refl;
        event = refl;
        actor = refl;
        by = refl;
        correlation = refl;
      }

-- the bound of the column
fits : (error : String) → code_points error ≤ 1000 → fits_last_error (some error) ≡ true
unfolding fits_last_error has_length
fits error short = ground arith

too_long : (error : String) → 1000 < code_points error → fits_last_error (some error) ≡ false
unfolding fits_last_error has_length
too_long error long = ground arith

module _ ⦃w : World⦄ (worker_id : String) (task : OutreachTask) (s : Session) {row : OutreachTask}
    (one : count (λ t. t.id == task.id) s.db.outreach_tasks ≤ 1)
    (stored : find (λ t. t.id == task.id) s.db.outreach_tasks ≡ some row) where
  only : IsOnly (λ t. t.id == task.id) row s.db.outreach_tasks
  only = find-IsOnly (λ t. t.id == task.id) s.db.outreach_tasks stored one

  picked : row.status ≡ dispatching → is_dispatching task.id row ≡ true
  picked = row_dispatching task row (IsOnly-passes (λ t. t.id == task.id) s.db.outreach_tasks only)

  none_dispatching :
      row.status ≢ dispatching → count (is_dispatching task.id) s.db.outreach_tasks ≡ 0
  none_dispatching closed =
      count-none_only (λ t. t.id == task.id) (is_dispatching task.id) (dispatching_has_id task)
        s.db.outreach_tasks row only (row_not_dispatching task row closed)

  one_dispatching :
      row.status ≡ dispatching → count (is_dispatching task.id) s.db.outreach_tasks ≡ 1
  one_dispatching open_ =
      count-only (λ t. t.id == task.id) (is_dispatching task.id) (dispatching_has_id task)
        s.db.outreach_tasks only (picked open_)

  -- If ids are unique and the stored task is still dispatching, a delivery leaves it durably sent,
  -- without an error, with one audit row that names the provider's message and its details; every
  -- other row of every table is as it was.
  pub delivery_recorded :
      (result : DeliveryResult)
      → row.status ≡ dispatching
      → ((record_success worker_id task result s).0 ≡ ok tt)
        × IsTaskChange task.id
            (record row { status = sent; last_error = none })
            (IsSuccessEntry worker_id task result)
            s
            (record_success worker_id task result s).1
  unfolding success_entry mark_sent get
  delivery_recorded result open_ =
      rw (record_success_lem task s worker_id result, one_dispatching open_)
        (
          refl,
          settled-IsTaskChange (is_dispatching task.id) mark_sent
              (success_entry worker_id task result) s task.id row only (dispatching_has_id task)
              (picked open_)
              (
                record {
                  type = refl;
                  entity = refl;
                  event = refl;
                  actor = refl;
                  by = refl;
                  correlation = refl;
                },
                refl,
                refl,
              ),
        )

  -- If ids are unique and the stored task is still dispatching, a failure whose text has at most 1000
  -- characters leaves it durably scheduled for the end of the delay while attempts are left, and
  -- else failed, with the text as its error and one audit row that says which; every other row of
  -- every table is as it was. The end of the delay is a time that exists.
  pub failure_recorded :
      (now : DateTime) (retry_delay : ℕ) (error : String) {later : DateTime}
      → row.status ≡ dispatching
      → plus now retry_delay ≡ some later
      → code_points error ≤ 1000
      → ((record_failure now retry_delay worker_id task error s).0 ≡ ok tt)
        × IsTaskChange task.id
            (failed_row task later error row)
            (IsFailureEntry worker_id task error (ltb task.attempt_count task.max_attempts))
            s
            (record_failure now retry_delay worker_id task error s).1
  failure_recorded now retry_delay error {later} open_ delayed short =
      let retries = ltb task.attempt_count task.max_attempts in
      let at = if retries then some later else none in
      let entry = failure_entry worker_id task error at in
      rw
        (record_failure_lem task s now retry_delay worker_id error delayed (fits error short)
          (one_dispatching open_))
        (
          refl,
          subst
              (λ v.
                IsTaskChange task.id v (IsFailureEntry worker_id task error retries) s
                  (settled (is_dispatching task.id) (mark_failure task at error) entry s))
              (mark_failure-by task retries later error row)
              (settled-IsTaskChange (is_dispatching task.id) (mark_failure task at error) entry s
                task.id row only (dispatching_has_id task) (picked open_)
                (failure_entry-by task worker_id retries later error s.tick)),
        )

  pub long_failure_lost :
      (now : DateTime) (retry_delay : ℕ) (error : String) {later : DateTime}
      → row.status ≡ dispatching
      → plus now retry_delay ≡ some later
      → 1000 < code_points error
      → record_failure now retry_delay worker_id task error s ≡ (err data_error, s)
  unfolding record_failure ◌>>=◌
  long_failure_lost now retry_delay error open_ delayed long =
      rw
        (
          retry_time_lem task s now retry_delay worker_id error delayed,
          refuse_long_error-long (is_dispatching task.id) (some error) s (one_dispatching open_)
              (too_long error long),
        )
        refl

  -- If ids are unique and the stored task is no longer dispatching, a delivery and a failure of any
  -- length are dropped alike: the transaction is rolled back, and no audit row is written.
  pub late_result_dropped :
      (now : DateTime) (retry_delay : ℕ) (error : String) (result : DeliveryResult)
      {later : DateTime}
      → row.status ≢ dispatching
      → plus now retry_delay ≡ some later
      → (record_success worker_id task result s ≡ (ok tt, record s { db = s.committed }))
        × (record_failure now retry_delay worker_id task error s
            ≡ (ok tt, record s { db = s.committed }))
  late_result_dropped now retry_delay error result closed delayed = (
    rw (record_success_lem task s worker_id result, none_dispatching closed) refl,
    record_failure_superseded task s now retry_delay worker_id error delayed
        (none_dispatching closed),
  )
