-- ===== src/Worker/Kept.antt =====
-- The worker keeps the rules of every table in what is durable, whatever the providers answer and
-- whatever other sessions commit meanwhile within those rules.
use ai_compliance_orquestrat.AuditLog.{AuditEntry, append_audit_event-Extends}
use ai_compliance_orquestrat.Tables.Rules.{update_tasks_count-Extends, refuse_long_error-Extends}
use ai_compliance_orquestrat.Evolution.{Evolves, TaskKeeps, Evolves-refl}
use ai_compliance_orquestrat.Tables.{update_tasks_count}
use ai_compliance_orquestrat.DateTime.{DateTime}
use ai_compliance_orquestrat.Session.Rules.{
  Extends, Advances-commit, Advances-rollback, Advances, Advances-Extends, Advances-bind,
  extends_rules, Extends-pure, Advances-if, Extends-lift, Extends-gets,
}
use ai_compliance_orquestrat.Models.{OutreachTask, Database}
use ai_compliance_orquestrat.Prelude.{
  String, Option, ◌≡◌, ℕ, true, arith, some, List, none, eqb, ◌∷◌, ◌+◌, [],
}
use ai_compliance_orquestrat.World.{World}
use ai_compliance_orquestrat.Worker.Record.{
  mark_sent, mark_failure, is_dispatching, finish_update, record_success, record_failure,
  DeliveryResult, Delivery, failure, retry_time, delivered,
}
use ai_compliance_orquestrat.Worker.{
  claim_task, others, is_claimable, Dispatch, is_due, record_delivery, refresh, dispatch_claimed,
  dispatch_found, dispatch_tasks, dispatch_due_tasks, dispatch_task, send, due_tasks,
}

claim-TaskKeeps :
    ⦃w : World⦄ (p : Dispatch) (id : String) (t : OutreachTask)
    → is_claimable p id t ≡ true
    → TaskKeeps t (claim_task t)
unfolding claim_task is_claimable is_due
claim-TaskKeeps p id t h = ground arith

mark_sent-TaskKeeps :
    (id : String) (t : OutreachTask) → is_dispatching id t ≡ true → TaskKeeps t (mark_sent t)
unfolding mark_sent is_dispatching
mark_sent-TaskKeeps id t h = ground arith

mark_failure-TaskKeeps :
    (task : OutreachTask) (at : Option DateTime) (error : String) (t : OutreachTask)
    → is_dispatching task.id t ≡ true
    → TaskKeeps t (mark_failure task at error t)
unfolding mark_failure is_dispatching
mark_failure-TaskKeeps task none error t h = ground arith
mark_failure-TaskKeeps task (some d) error t h = ground arith

claim_rows-Extends :
    ⦃w : World⦄ (p : Dispatch) (id : String)
    → Extends (update_tasks_count (is_claimable p id) claim_task)
claim_rows-Extends p id =
    update_tasks_count-Extends (is_claimable p id) claim_task (claim-TaskKeeps p id)

sent_rows-Extends : (id : String) → Extends (update_tasks_count (is_dispatching id) mark_sent)
sent_rows-Extends id =
    update_tasks_count-Extends (is_dispatching id) mark_sent (mark_sent-TaskKeeps id)

failure_rows-Extends :
    (task : OutreachTask) (at : Option DateTime) (error : String)
    → Extends (update_tasks_count (is_dispatching task.id) (mark_failure task at error))
failure_rows-Extends task at error =
    update_tasks_count-Extends (is_dispatching task.id) (mark_failure task at error)
      (mark_failure-TaskKeeps task at error)

-- Other sessions that keep the rules may commit in between.
pub others-Advances :
    (f : Database → Database) → ((d : Database) → Evolves d (f d)) → Advances (others f)
unfolding others
others-Advances f fair = record { at = λ s h. (fair s.committed, Evolves-refl (f s.committed)) }

module _ ⦃w : World⦄ where
  ruleset worker_rules = (
    Advances-commit, Advances-rollback, Advances-Extends, Advances-bind, Advances-if, extends_rules,
    append_audit_event-Extends, sent_rows-Extends, failure_rows-Extends,
  )

  finish_update-Advances :
      (rowcount : ℕ) (entry : AuditEntry) → Advances (finish_update rowcount entry)
  unfolding finish_update
  finish_update-Advances rowcount entry = search worker_rules depth 9

  record_success-Advances :
      (worker_id : String) (task : OutreachTask) (result : DeliveryResult)
      → Advances (record_success worker_id task result)
  unfolding record_success
  record_success-Advances worker_id task result =
      Advances-bind _ _ (Advances-Extends _ (sent_rows-Extends task.id))
        (λ n. finish_update-Advances n _)

  record_failure-Advances :
      (now : DateTime) (retry_delay : ℕ) (worker_id : String) (task : OutreachTask) (error : String)
      → Advances (record_failure now retry_delay worker_id task error)
  unfolding record_failure
  record_failure-Advances now retry_delay worker_id task error =
      Advances-bind _ _ (Advances-Extends _ (Extends-lift (retry_time now retry_delay task))) (λ at.
        Advances-bind _ _
          (Advances-Extends _ (refuse_long_error-Extends (is_dispatching task.id) (some error)))
          (λ _.
            Advances-bind _ _ (Advances-Extends _ (failure_rows-Extends task at error))
              (λ n. finish_update-Advances n _)))

module _ ⦃w : World⦄ (p : Dispatch)
    (fair : (t : OutreachTask) (d : Database) → Evolves d (p.meanwhile t d)) where
  record_delivery-Advances :
      (t : OutreachTask) (delivery : Delivery) → Advances (record_delivery p t delivery)
  unfolding record_delivery
  record_delivery-Advances t (failure error) = record_failure-Advances _ _ _ t error
  record_delivery-Advances t (delivered result) = record_success-Advances _ t result

  refresh-Extends : (id : String) → Extends (refresh p id)
  unfolding refresh
  refresh-Extends id = search extends_rules

  dispatch_claimed-Advances : (id : String) → Advances (dispatch_claimed p id)
  unfolding dispatch_claimed
  dispatch_claimed-Advances id = Advances-bind _ _ (Advances-Extends _ (refresh-Extends id)) λ t.
      Advances-bind _ _ (Advances-Extends _ (append_audit_event-Extends _)) λ _.
        Advances-bind _ _ Advances-commit λ _.
          Advances-bind _ _ (others-Advances (p.meanwhile t) (fair t)) λ _.
            Advances-bind _ _ (record_delivery-Advances t (send p.adapters t))
              λ _. Advances-Extends _ (Extends-pure 1)

  dispatch_found-Advances :
      (id : String) (found : Option OutreachTask) → Advances (dispatch_found p id found)
  unfolding dispatch_found
  dispatch_found-Advances id none = Advances-Extends _ (Extends-pure 0)
  dispatch_found-Advances id (some t) =
      Advances-bind _ _ (Advances-Extends _ (claim_rows-Extends p id)) λ n.
        Advances-if (eqb n 1) _ _ (dispatch_claimed-Advances id)
          (Advances-bind _ _ Advances-rollback (λ _. Advances-Extends _ (Extends-pure 0)))

  dispatch_tasks-Advances :
      (ids : List String) (attempted : ℕ) → Advances (dispatch_tasks p ids attempted)
  unfolding dispatch_tasks dispatch_task
  dispatch_tasks-Advances [] attempted = Advances-Extends _ (Extends-pure attempted)
  dispatch_tasks-Advances (id ∷ rest) attempted =
      Advances-bind _ _
        (Advances-bind _ _ (Advances-Extends _ (Extends-gets _)) (dispatch_found-Advances id))
        (λ n. dispatch_tasks-Advances rest (attempted + n))

  pub dispatch_due_tasks-Advances : Advances (dispatch_due_tasks p)
  unfolding dispatch_due_tasks
  dispatch_due_tasks-Advances =
      Advances-bind _ _ (Advances-Extends _ (Extends-gets (due_tasks p.now p.limit)))
        (λ ids. dispatch_tasks-Advances ids 0)
