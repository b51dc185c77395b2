-- ===== src/Operational/Recorded.antt =====
-- What a manual delivery result leaves of a task, by its id.
use ai_compliance_orquestrat.Operational.Expected.{
  IsStorable, IsManualEntry, recorded_row, mark_manually-row, fits, manual_entry-says,
  unchanged_has_id, row_unchanged, row_changed,
}
use ai_compliance_orquestrat.Tables.Rules.{refuse_long_error-fits, refuse_long_error-unmatched}
use ai_compliance_orquestrat.AuditLog.{append_audit_event}
use ai_compliance_orquestrat.Errors.{ok, err, task_state_conflict_error, or_raise, runtime_error}
use ai_compliance_orquestrat.Tables.OneRow.{
  IsOnly, IsOnly-passes, count-only, count-none_only, find-IsOnly, IsOnly-find, IsOnly-update,
}
use ai_compliance_orquestrat.Session.{
  Session, ◌>>=◌, lift, modify, gets, pure, rollback, reading, raise, commit,
}
use ai_compliance_orquestrat.Json.{Fields}
use ai_compliance_orquestrat.Tables.{
  update_rows, update_tasks_count, update_tasks, add_audit_event, refuse_long_error,
}
use ai_compliance_orquestrat.Operational.{
  DeliveryStatus, mark_manually, manual_entry, is_unchanged, manual_error, allows_manual_delivery,
  record_manual_delivery_result, finish_manual, conflict_after_rollback, get_outreach_task,
}
use ai_compliance_orquestrat.Prelude.{
  Option, String, ◌≡◌, ◌==◌, ◌≢◌, some, true, false, ◌≤◌, refl, arith, count, find, ◌⊎◌,
  if◌then◌else◌, List, ◌∙◌, inl, ap, inr, Bool-cases, subst,
}
use ai_compliance_orquestrat.World.{World}
use ai_compliance_orquestrat.AuditLog.TaskChange.{IsTaskChange, settled-IsTaskChange, settled}
use ai_compliance_orquestrat.Models.{
  OutreachTask, OutreachTaskStatus, sent, cancelled, scheduled, dispatching,
}

module _ ⦃w : World⦄ (task : OutreachTask) (status : DeliveryStatus) (message : Option String)
    (details : Fields) (s : Session) {row : OutreachTask}
    (one : count (λ t. t.id == task.id) s.db.outreach_tasks ≤ 1)
    (stored : find (λ t. t.id == task.id) s.db.outreach_tasks ≡ some row) where
  only : IsOnly (λ t. t.id == task.id) row s.db.outreach_tasks
  only = find-IsOnly (λ t. t.id == task.id) s.db.outreach_tasks stored one

  picked : row.status ≡ task.status → is_unchanged task row ≡ true
  picked = row_unchanged task row (IsOnly-passes (λ t. t.id == task.id) s.db.outreach_tasks only)

  one_unchanged : row.status ≡ task.status → count (is_unchanged task) s.db.outreach_tasks ≡ 1
  one_unchanged same =
      count-only (λ t. t.id == task.id) (is_unchanged task) (unchanged_has_id task)
        s.db.outreach_tasks only (picked same)

  none_unchanged : row.status ≢ task.status → count (is_unchanged task) s.db.outreach_tasks ≡ 0
  none_unchanged changed =
      count-none_only (λ t. t.id == task.id) (is_unchanged task) (unchanged_has_id task)
        s.db.outreach_tasks row only (row_changed task row changed)

  allowed :
      (task.status ≡ scheduled)
        ⊎ (task.status ≡ dispatching)
        ⊎ (task.status ≡ OutreachTaskStatus.failed)
      → allows_manual_delivery task.status ≡ true
  unfolding allows_manual_delivery
  allowed h = ground arith

  -- the row as it is stored afterwards
  stored_row :
      find
        (λ t. t.id == task.id)
        (update_rows (is_unchanged task) (mark_manually status details) s.db.outreach_tasks)
      ≡ some (if is_unchanged task row then mark_manually status details row else row)
  stored_row =
      IsOnly-find (λ t. t.id == task.id) _
        (IsOnly-update (λ t. t.id == task.id) (is_unchanged task) (mark_manually status details)
          (unfold mark_manually in λ t. refl) s.db.outreach_tasks row only)

  abbrev rows : List OutreachTask
  rows = update_rows (is_unchanged task) (mark_manually status details) s.db.outreach_tasks

  -- what is left to do after the guards
  recorded_lem :
      allows_manual_delivery task.status ≡ true
      → refuse_long_error (is_unchanged task) (manual_error status details) s ≡ (ok tt, s)
      → count (is_unchanged task) s.db.outreach_tasks ≡ 1
      → record_manual_delivery_result task status message details s ≡ (
        or_raise
            (find (λ t. t.id == task.id) rows)
            (runtime_error "task disappeared after manual delivery result"),
        settled
            (is_unchanged task)
            (mark_manually status details)
            (manual_entry task status message details)
            s,
      )
  unfolding record_manual_delivery_result ◌>>=◌ lift update_tasks_count update_tasks modify gets
      pure finish_manual append_audit_event reading add_audit_event commit get_outreach_task
  recorded_lem may fits_ one_ = rw (may, fits_, one_) refl

  -- If ids are unique, the stored task has the status that was read, which is scheduled, dispatching
  -- or failed, and a failed result's error has at most 1000 characters, then a manual result leaves
  -- the task durably sent without an error, or failed with the stated error, as the result says; it
  -- returns that row and writes one audit row with both statuses, and every other row of every
  -- table is as it was.
  pub manual_result_recorded :
      row.status ≡ task.status
      → ((task.status ≡ scheduled)
          ⊎ (task.status ≡ dispatching)
          ⊎ (task.status ≡ OutreachTaskStatus.failed))
      → IsStorable status details
      → ((record_manual_delivery_result task status message details s).0
          ≡ ok (recorded_row status details row))
        × IsTaskChange task.id
            (recorded_row status details row)
            (IsManualEntry task status message details)
            s
            (record_manual_delivery_result task status message details s).1
  manual_result_recorded same open_ storable =
      let entry = manual_entry task status message details in
      let changed =
        settled-IsTaskChange (is_unchanged task) (mark_manually status details) entry s task.id row
          only (unchanged_has_id task) (picked same)
          (manual_entry-says task status message details s.tick) in
      let there : find (λ t. t.id == task.id) rows ≡ some (recorded_row status details row) =
        stored_row ∙ rw (picked same) (ap some (mark_manually-row status details row)) in
      rw
        (
          recorded_lem (allowed open_)
              (refuse_long_error-fits (is_unchanged task) (manual_error status details) s
                (fits status details storable))
              (one_unchanged same),
          there,
        )
        (
          refl,
          subst
              (λ v.
                IsTaskChange task.id v (IsManualEntry task status message details) s
                  (settled (is_unchanged task) (mark_manually status details) entry s))
              (mark_manually-row status details row) changed,
        )

  not_allowed :
      (task.status ≡ sent) ⊎ (task.status ≡ cancelled) → allows_manual_delivery task.status ≡ false
  unfolding allows_manual_delivery
  not_allowed h = ground arith

  refused_lem :
      allows_manual_delivery task.status ≡ false
      → record_manual_delivery_result task status message details s
        ≡ (err (task_state_conflict_error "Task status does not allow manual delivery result"), s)
  unfolding record_manual_delivery_result ◌>>=◌ lift
  refused_lem may = rw may refl

  refused :
      allows_manual_delivery task.status ≡ false
      → (why : String) × ((record_manual_delivery_result task status message details s).0
          ≡ err (task_state_conflict_error why))
        × ((record_manual_delivery_result task status message details s).1.committed ≡ s.committed)
  refused may = (
    "Task status does not allow manual delivery result",
    rw (refused_lem may) refl,
    rw (refused_lem may) refl,
  )

  changed_lem :
      allows_manual_delivery task.status ≡ true
      → count (is_unchanged task) s.db.outreach_tasks ≡ 0
      → record_manual_delivery_result task status message details s ≡ (
        err (task_state_conflict_error "Task status changed before delivery result update"),
        record s { db = s.committed },
      )
  unfolding record_manual_delivery_result ◌>>=◌ lift update_tasks_count update_tasks modify gets
      pure conflict_after_rollback rollback raise
  changed_lem may none_matched =
      rw
        (
          may,
          refuse_long_error-unmatched (is_unchanged task) (manual_error status details) s
              none_matched,
          none_matched,
        )
        refl

  -- If ids are unique, and the task was read as sent or cancelled, or the stored one has another
  -- status than was read, a manual result of any kind is a conflict, and what is durable is as it
  -- was.
  pub manual_result_conflicts :
      (((task.status ≡ sent) ⊎ (task.status ≡ cancelled)) ⊎ (row.status ≢ task.status))
      → (why : String) × ((record_manual_delivery_result task status message details s).0
          ≡ err (task_state_conflict_error why))
        × ((record_manual_delivery_result task status message details s).1.committed ≡ s.committed)
  manual_result_conflicts (inl closed) = refused (not_allowed closed)
  manual_result_conflicts (inr changed) = elim (Bool-cases (allows_manual_delivery task.status)) [
    | inl may ↦
        let way = changed_lem may (none_unchanged changed) in
        ("Task status changed before delivery result update", rw way refl, rw way refl)
    | inr may ↦ refused may
  ]
