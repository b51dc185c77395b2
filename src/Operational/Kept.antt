-- ===== src/Operational/Kept.antt =====
-- The operator's calls keep the rules of every table in what is durable.
use ai_compliance_orquestrat.Evolution.{TaskKeeps, Evolves-refl}
use ai_compliance_orquestrat.AuditLog.{AuditEntry, append_audit_event-Extends}
use ai_compliance_orquestrat.Tables.Rules.{update_tasks_count-Extends, refuse_long_error-Extends}
use ai_compliance_orquestrat.Errors.{Error, raise_if}
use ai_compliance_orquestrat.Tables.{update_tasks_count}
use ai_compliance_orquestrat.Json.{Fields}
use ai_compliance_orquestrat.Session.Rules.{
  Extends, Advances, Advances-bind, Extends-bind, Advances-Extends, Advances-rollback, Extends-if,
  Extends-raise, Advances-if, Extends-pure, Extends-gets, Advances-commit, extends_rules,
}
use ai_compliance_orquestrat.Planner.Effects.{cancel_task}
use ai_compliance_orquestrat.World.{World}
use ai_compliance_orquestrat.Prelude.{
  String, Bool, ◌≡◌, Option, true, List, ℕ, arith, eqb, not, ◌∷◌, ◌+◌, [], false, refl,
}
use ai_compliance_orquestrat.Models.{OutreachTask, Account}
use ai_compliance_orquestrat.Operational.{
  mark_manually, is_scheduled_task, is_unchanged, DeliveryStatus, finish_manual,
  conflict_after_rollback, record_manual_delivery_result, allows_manual_delivery, get_outreach_task,
  cancel_one, cancel_each, cancel_scheduled_account_outreach, marked_sent, marked_failed,
  manual_error,
}
use ai_compliance_orquestrat.Session.{Action, ◌>>=◌, lift, ◌>>◌}

mark_manually-TaskKeeps :
    (task : OutreachTask) (status : DeliveryStatus) (details : Fields) (t : OutreachTask)
    → allows_manual_delivery task.status ≡ true
    → is_unchanged task t ≡ true
    → TaskKeeps t (mark_manually status details t)
unfolding mark_manually is_unchanged allows_manual_delivery
mark_manually-TaskKeeps task marked_sent details t h k = ground arith
mark_manually-TaskKeeps task marked_failed details t h k = ground arith

manual_rows-Extends :
    (task : OutreachTask) (status : DeliveryStatus) (details : Fields)
    → allows_manual_delivery task.status ≡ true
    → Extends (update_tasks_count (is_unchanged task) (mark_manually status details))
manual_rows-Extends task status details h =
    update_tasks_count-Extends (is_unchanged task) (mark_manually status details)
      (λ t. mark_manually-TaskKeeps task status details t h)

cancelled-TaskKeeps :
    (id : String) (t : OutreachTask) → is_scheduled_task id t ≡ true → TaskKeeps t (cancel_task t)
unfolding is_scheduled_task cancel_task
cancelled-TaskKeeps id t h = ground arith

cancelled_rows-Extends :
    (id : String) → Extends (update_tasks_count (is_scheduled_task id) cancel_task)
cancelled_rows-Extends id =
    update_tasks_count-Extends (is_scheduled_task id) cancel_task (cancelled-TaskKeeps id)

-- Behind a raise the rest may use that its test failed.
Advances-guard {ℓ} :
    {A : Type ℓ} (b : Bool) (e : Error) (rest : Action A)
    → (b ≡ true → Advances rest)
    → Advances (lift (raise_if (not b) e) >> rest)
unfolding ◌>>=◌
Advances-guard true e rest k = record { at = λ s h. (k refl).at s h }
Advances-guard false e rest k = record { at = λ s h. (Evolves-refl s.committed, h) }

module _ ⦃w : World⦄ where
  finish_manual-Advances :
      (task : OutreachTask) (entry : AuditEntry) → Advances (finish_manual task entry)
  unfolding finish_manual get_outreach_task
  finish_manual-Advances task entry =
      Advances-bind _ _ (Advances-Extends _ (append_audit_event-Extends entry))
        λ _. Advances-bind _ _ Advances-commit λ _. Advances-Extends _ (search extends_rules)

  conflict-Advances : Advances conflict_after_rollback
  unfolding conflict_after_rollback
  conflict-Advances =
      Advances-bind _ _ Advances-rollback (λ _. Advances-Extends _ (Extends-raise _))

  pub record_manual_delivery_result-Advances :
      (task : OutreachTask) (status : DeliveryStatus) (message : Option String) (details : Fields)
      → Advances (record_manual_delivery_result task status message details)
  unfolding record_manual_delivery_result
  record_manual_delivery_result-Advances task status message details =
      Advances-guard (allows_manual_delivery task.status) _ _ λ allowed.
        Advances-bind _ _
          (Advances-Extends _
            (refuse_long_error-Extends (is_unchanged task) (manual_error status details)))
          λ _.
            Advances-bind _ _ (Advances-Extends _ (manual_rows-Extends task status details allowed))
              λ n. Advances-if (eqb n 1) _ _ (finish_manual-Advances task _) conflict-Advances

  module _ (account : Account) (reason correlation_id : String) where
    cancel_one-Extends : (t : OutreachTask) → Extends (cancel_one account reason correlation_id t)
    unfolding cancel_one
    cancel_one-Extends t = Extends-bind _ _ (cancelled_rows-Extends t.id) λ n.
        Extends-if (eqb n 1) _ _
          (Extends-bind _ _ (append_audit_event-Extends _) (λ _. Extends-pure 1)) (Extends-pure 0)

    cancel_each-Extends :
        (tasks : List OutreachTask) (n : ℕ)
        → Extends (cancel_each account reason correlation_id tasks n)
    unfolding cancel_each
    cancel_each-Extends [] n = Extends-pure n
    cancel_each-Extends (t ∷ rest) n =
        Extends-bind _ _ (cancel_one-Extends t) (λ k. cancel_each-Extends rest (n + k))

    pub cancel_scheduled_account_outreach-Advances :
        Advances (cancel_scheduled_account_outreach account reason correlation_id)
    unfolding cancel_scheduled_account_outreach
    cancel_scheduled_account_outreach-Advances =
        Advances-bind _ _ (Advances-Extends _ (Extends-gets _)) λ tasks.
          Advances-bind _ _ (Advances-Extends _ (cancel_each-Extends tasks 0))
            λ n. Advances-bind _ _ Advances-commit (λ _. Advances-Extends _ (Extends-pure n))
