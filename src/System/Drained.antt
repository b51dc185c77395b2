-- ===== src/System/Drained.antt =====
-- Repeated passes of src/orchestrator/workers/dispatch.py send all that is due.
use ai_compliance_orquestrat.World.{World}
use ai_compliance_orquestrat.Evolution.Unique.{count-update_rows_kept}
use ai_compliance_orquestrat.Session.{close}
use ai_compliance_orquestrat.Models.{Database, OutreachTask}
use ai_compliance_orquestrat.System.{
  Server, Work, dispatch, in_session, perform, perform_all, responding,
}
use ai_compliance_orquestrat.Tables.{update_rows}
use ai_compliance_orquestrat.Tables.OneRow.{update_rows-none}
use ai_compliance_orquestrat.Worker.{Dispatch, claims_before, due_tasks, is_due, send}
use ai_compliance_orquestrat.Worker.Delivers.{deliver_task, has_id}
use ai_compliance_orquestrat.Worker.Drains.{due_left, update_rows-sent_by}
use ai_compliance_orquestrat.Worker.Picked.{ids-AreApart, picked_once, IsReady-tasks, sent_by}
use ai_compliance_orquestrat.Worker.Record.{DeliveryResult, delivered}
use ai_compliance_orquestrat.Worker.Sends.{due_tasks_sent}
use ai_compliance_orquestrat.Prelude.{
  List, String, ℕ, ◌≡◌, ◌≤◌, ◌*◌, ◌∙◌, [], ◌∷◌, arith, count, filter, map, order_by, refl, suc, sym,
  take, zero, ap, subst, is_some, find, ◌==◌,
}

-- the same work again and again
abbrev pub repeated : ℕ → Work → List Work
repeated zero x = []
repeated (suc n) x = x ∷ repeated n x

module _ ⦃w : World⦄ (p : Dispatch)
    (quiet : (t : OutreachTask) (d : Database) → p.meanwhile t d ≡ d)
    (delivers : (t : OutreachTask) → (r : DeliveryResult) × (send p.adapters t ≡ delivered r)) where
  perform-sent :
      (s : Server)
      → ((id : String) → count (has_id id) s.database.outreach_tasks ≤ 1)
      → (perform (dispatch p) s).database.outreach_tasks
        ≡ map (sent_by (due_tasks p.now p.limit s.database)) s.database.outreach_tasks
  unfolding perform in_session responding close
  perform-sent s once =
      let sent_ =
        due_tasks_sent p quiet delivers
          (record { db = s.database; committed = s.database; tick = s.tick }) once refl in
      ap (λ d. d.outreach_tasks) sent_.durable ∙ sent_.tasks

  ids_stay :
      (ids : List String) (rows : List OutreachTask) (id : String)
      → count (has_id id) (map (sent_by ids) rows) ≡ count (has_id id) rows
  ids_stay ids rows id =
      count-update_rows_kept (has_id id) (λ t. is_some (find (λ k. t.id == k) ids)) deliver_task
        (λ t _. refl) rows

  -- If the ids are unique, every provider delivers and no other session writes, then so many
  -- passes that their limits add up to the number of due tasks send all of them: each task that
  -- was due at the passes' time is sent, with exactly one more attempt and without an error, and
  -- no other task changes.
  pub due_tasks_drained :
      (n : ℕ) (s : Server)
      → ((id : String) → count (has_id id) s.database.outreach_tasks ≤ 1)
      → count (is_due p.now) s.database.outreach_tasks ≤ n * p.limit
      → (perform_all (repeated n (dispatch p)) s).database.outreach_tasks
        ≡ update_rows (is_due p.now) deliver_task s.database.outreach_tasks
  unfolding perform_all due_tasks
  due_tasks_drained zero s once enough = sym (
      update_rows-none (is_due p.now) (is_due p.now) deliver_task s.database.outreach_tasks
        (omega arith))
  due_tasks_drained (suc n) s once enough =
      let rows = s.database.outreach_tasks in
      let picked = take p.limit (order_by claims_before (filter (is_due p.now) rows)) in
      let ids = due_tasks p.now p.limit s.database in
      let after = perform-sent s once in
      due_tasks_drained n (perform (dispatch p) s)
        (λ id.
          subst (λ l. count (has_id id) l ≤ 1) (sym after)
            (subst (λ m. m ≤ 1) (sym (ids_stay ids rows id)) (once id)))
        (subst (λ l. count (is_due p.now) l ≤ n * p.limit) (sym after)
          (due_left p rows once n enough))
      ∙ (ap (update_rows (is_due p.now) deliver_task) after
          ∙ update_rows-sent_by p picked rows (ids-AreApart picked (picked_once p rows once))
              (IsReady-tasks p rows once))
