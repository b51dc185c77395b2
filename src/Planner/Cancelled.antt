-- ===== src/Planner/Cancelled.antt =====
-- `_cancel_scheduled_tasks`, exactly.
use ai_compliance_orquestrat.Json.{put, get, text}
use ai_compliance_orquestrat.AuditLog.{append_audit_event}
use ai_compliance_orquestrat.Errors.{ok}
use ai_compliance_orquestrat.Tables.{update_rows, update_tasks, add_audit_event}
use ai_compliance_orquestrat.Models.{
  Account, InboundEvent, Customer, OutreachTask, AuditEvent, cancelled, same_status, scheduled,
}
use ai_compliance_orquestrat.World.{World}
use ai_compliance_orquestrat.Prelude.{
  count, String, List, if◌then◌else◌, ◌≡◌, ℕ, false, ◌∷◌, arith, [], ◌++◌, refl, length, sym,
  filter, ◌∙◌, ap, subst, map, Bool, All, ◌==◌, ◌&&◌, some,
}
use ai_compliance_orquestrat.Planner.Effects.{
  with_event, is_cancellable, cancel_task, audit_cancelled, audit, cancel_scheduled_tasks,
}
use mathlib.Core.List.{append-nil, append_assoc}
use ai_compliance_orquestrat.Session.{◌>>=◌, Session, gets, reading, modify, pure, Action, ◌>>◌}

cancelled_no_more :
    (account : Account) (customer : Customer) (t : OutreachTask)
    → is_cancellable account customer
        (if is_cancellable account customer t then cancel_task t else t)
      ≡ false
unfolding is_cancellable cancel_task
cancelled_no_more account customer t = ground arith

count-update_rows :
    (account : Account) (customer : Customer) (ts : List OutreachTask)
    → count
        (is_cancellable account customer)
        (update_rows (is_cancellable account customer) cancel_task ts)
      ≡ 0
unfolding count
count-update_rows account customer [] = refl
count-update_rows account customer (t ∷ ts) =
    rw (cancelled_no_more account customer t) (count-update_rows account customer ts)

then_pure :
    (m : Action (Unit {0})) (n : ℕ) (s : Session)
    → (m s).0 ≡ ok tt
    → (do m; pure n) s ≡ (ok n, (m s).1)
unfolding ◌>>=◌ pure
then_pure m n s h = rw h

module _ ⦃w : World⦄ (event : InboundEvent) (correlation_id : String) (account : Account) where
  -- The audit rows name the tasks, in order, as cancelled by the event.
  pub record IsLog (tasks : List OutreachTask) (rows : List AuditEvent) : Type 0 where
    pub named : map (λ a. a.entity_id) rows ≡ map (λ t. t.id) tasks
    pub kinds :
        All
          (λ a.
            (a.entity_type ≡ "outreach_task")
            × (a.event_type ≡ "outreach_cancelled")
            × (a.correlation_id ≡ correlation_id)
            × (get "inbound_event_id" a.payload ≡ some (text event.id)))
          rows

  -- one audit row for each task, and nothing else
  record IsAudited (tasks : List OutreachTask) (s : Session) : Type 0 where
    pub returns : (audit_cancelled event correlation_id account tasks s).0 ≡ ok tt
    pub tasks_kept :
        (audit_cancelled event correlation_id account tasks s).1.db.outreach_tasks
        ≡ s.db.outreach_tasks
    pub audited :
        (rows : List AuditEvent) × ((audit_cancelled event correlation_id account tasks
            s).1.db.audit_events
          ≡ s.db.audit_events ++ rows)
        × IsLog tasks rows

  audit_cancelled-IsAudited : (tasks : List OutreachTask) (s : Session) → IsAudited tasks s
  unfolding audit_cancelled audit append_audit_event reading add_audit_event modify ◌>>=◌ pure get
      with_event put
  audit_cancelled-IsAudited [] s = record {
    returns = refl;
    tasks_kept = refl;
    audited = ([], sym (append-nil _), record { named = refl; kinds = tt });
  }
  audit_cancelled-IsAudited (t ∷ rest) s =
      let later = audit_cancelled-IsAudited rest _ in
      let (rows, grown, log) = later.audited in
      record {
        returns = later.returns;
        tasks_kept = later.tasks_kept;
        audited = (
          _ ∷ rows,
          grown ∙ append_assoc _ _ rows,
          record {
            named = ap (λ ids. t.id ∷ ids) log.named;
            kinds = ((refl, refl, refl, refl), log.kinds);
          },
        );
      }

  module _ (customer : Customer) (s : Session) where
    -- scheduled, of the account and of the customer
    abbrev pub is_open : OutreachTask → Bool
    is_open t =
        t.account_id == account.id
        && (t.customer_id == customer.id && same_status t.status scheduled)

    -- the open tasks before the cancellation
    abbrev pub open_tasks : List OutreachTask
    open_tasks = filter is_open s.db.outreach_tasks

    -- What a cancellation does: every open task is cancelled and no other row of the table changes;
    -- none is open any more, and the audit log has a row for each at its end.
    pub record IsCancelled (after : Session) : Type 0 where
      pub tasks :
          after.db.outreach_tasks
          ≡ map (λ t. if is_open t then record t { status = cancelled } else t) s.db.outreach_tasks
      pub none_left : count is_open after.db.outreach_tasks ≡ 0
      pub audited :
          (rows : List AuditEvent) × (after.db.audit_events ≡ s.db.audit_events ++ rows)
          × IsLog open_tasks rows

    -- the tables right after the update of the rows
    abbrev updated : Session
    updated = record s {
      db = record s.db {
        outreach_tasks =
            update_rows (is_cancellable account customer) cancel_task s.db.outreach_tasks;
      };
    }

    -- A cancellation always returns the number of the account's and the customer's tasks that were
    -- scheduled; it has set exactly these to cancelled, none of them is left, and the audit table got
    -- one row for each at its end, in their order, that names the task, the event and the correlation
    -- id.
    pub cancel_scheduled_tasks_lem :
        ((cancel_scheduled_tasks event correlation_id customer account s).0
          ≡ ok (length open_tasks))
        × IsCancelled (cancel_scheduled_tasks event correlation_id customer account s).1
    unfolding cancel_scheduled_tasks ◌>>=◌ gets update_tasks modify pure is_cancellable cancel_task
    cancel_scheduled_tasks_lem =
        let is = audit_cancelled-IsAudited open_tasks updated in
        let none_left =
          ap (count is_open) is.tasks_kept
          ∙ count-update_rows account customer s.db.outreach_tasks in
        subst (λ x. (x.0 ≡ ok (length open_tasks)) × IsCancelled x.1)
          (sym (
            then_pure (audit_cancelled event correlation_id account open_tasks) (length open_tasks)
              updated is.returns))
          (refl, record { tasks = is.tasks_kept; none_left = none_left; audited = is.audited })
