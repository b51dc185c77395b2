-- ===== src/Worker/Sends.antt =====
-- A pass of `dispatch_due_tasks` sends every task that it picks, when the providers deliver and
-- nobody else writes.
use ai_compliance_orquestrat.Errors.{ok}
use ai_compliance_orquestrat.World.{World}
use ai_compliance_orquestrat.Session.{Session, ◌>>=◌, gets, pure}
use ai_compliance_orquestrat.Models.{OutreachTask, Database}
use ai_compliance_orquestrat.Worker.{
  Dispatch, claims_before, dispatch_due_tasks, dispatch_task, dispatch_tasks, due_tasks, is_due,
  send, claim_task,
}
use ai_compliance_orquestrat.Worker.Delivers.{HasSent, dispatch_task-sent, has_id}
use ai_compliance_orquestrat.Worker.Record.{DeliveryResult, delivered}
use ai_compliance_orquestrat.Prelude.{
  String, List, ℕ, All, All-map, ◌≡◌, ◌≤◌, ◌∙◌, ◌+◌, ◌∷◌, [], count, filter, length, length-map,
  map, order_by, take, arith, ap, sym, subst,
}
use ai_compliance_orquestrat.Worker.Picked.{
  AreApart, IsReady, ids-AreApart, others_differ, find_ids-none, sent_by, sent_by-cons,
  sent_by_no_ids, IsReady-after, IsReady-tasks, picked_once,
}

module _ ⦃w : World⦄ (p : Dispatch)
    (quiet : (t : OutreachTask) (d : Database) → p.meanwhile t d ≡ d)
    (delivers : (t : OutreachTask) → (r : DeliveryResult) × (send p.adapters t ≡ delivered r)) where
  dispatch_tasks-sent :
      (us : List OutreachTask) (s : Session) (attempted : ℕ)
      → AreApart us
      → All (IsReady p s.db.outreach_tasks) us
      → s.committed ≡ s.db
      → HasSent
          (attempted + length us)
          (map (sent_by (map (λ u. u.id) us)) s.db.outreach_tasks)
          (dispatch_tasks p (map (λ u. u.id) us) attempted s)
  unfolding dispatch_tasks ◌>>=◌ pure
  dispatch_tasks-sent [] s attempted apart ready durable = record {
    returns = ap ok (omega arith);
    tasks = sent_by_no_ids s.db.outreach_tasks;
    durable = durable;
  }
  dispatch_tasks-sent (u ∷ us) s attempted apart ready durable =
      let rows = s.db.outreach_tasks in
      let (r, sent_) = delivers (claim_task u) in
      let first =
        dispatch_task-sent p u.id s u r ready.0.1 ready.0.0 (quiet (claim_task u)) sent_ in
      let rest =
        dispatch_tasks-sent us (dispatch_task p u.id s).1 (attempted + 1) apart.1
          (subst (λ l. All (IsReady p l) us) (sym first.tasks)
            (All-map _ _ _ (λ v h differs. IsReady-after p u v rows h differs) us ready.1
              (others_differ u.id us apart.0)))
          first.durable in
      let ids = map (λ v. v.id) us in
      let whole : HasSent (attempted + 1 + length us)
          (map (sent_by ids) (dispatch_task p u.id s).1.db.outreach_tasks)
          (dispatch_tasks p (u.id ∷ ids) attempted s) =
        rw first.returns rest in
      record {
        returns = whole.returns ∙ ap ok (omega arith);
        tasks =
            whole.tasks
            ∙ (ap (map (sent_by ids)) first.tasks
                ∙ sent_by-cons u ids rows (find_ids-none u.id us apart.0));
        durable = whole.durable;
      }

  -- If the ids are unique, every provider delivers and no other session writes, a pass sends
  -- every task that it picks: it returns their number, each of them is sent with one more attempt
  -- and without an error, no other task changes, and all of it is durable.
  pub due_tasks_sent :
      (s : Session)
      → ((id : String) → count (has_id id) s.db.outreach_tasks ≤ 1)
      → s.committed ≡ s.db
      → let ids = due_tasks p.now p.limit s.db in
        HasSent (length ids) (map (sent_by ids) s.db.outreach_tasks) (dispatch_due_tasks p s)
  unfolding dispatch_due_tasks due_tasks gets ◌>>=◌
  due_tasks_sent s once durable =
      let rows = s.db.outreach_tasks in
      let picked = take p.limit (order_by claims_before (filter (is_due p.now) rows)) in
      let count_picked : 0 + length picked ≡ length (map (λ u. u.id) picked) =
        omega (arith, length-map (λ (u : OutreachTask). u.id) picked) in
      subst
        (λ n.
          HasSent n (map (sent_by (map (λ u. u.id) picked)) rows)
            (dispatch_tasks p (map (λ u. u.id) picked) 0 s))
        count_picked
        (dispatch_tasks-sent picked s 0 (ids-AreApart picked (picked_once p rows once))
          (IsReady-tasks p rows once) durable)
