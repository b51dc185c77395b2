-- ===== src/Worker/Bounds.antt =====
-- How much a pass attempts, and what becomes of a task after a delivery.
use ai_compliance_orquestrat.Errors.{ok, ok_inj}
use ai_compliance_orquestrat.Session.Rules.{
  Yields, Yields-bind, Yields-pure, Yields-if, Yields-bind_with,
}
use ai_compliance_orquestrat.Models.{Database, OutreachTask}
use ai_compliance_orquestrat.Prelude.{
  String, List, Option, ℕ, length, ◌≤◌, ◌+◌, arith, some, ◌∷◌, [], eqb, none, length-map,
  length-take-le, ◌≡◌, order_by, subst, filter,
}
use ai_compliance_orquestrat.Worker.{
  Dispatch, dispatch_claimed, dispatch_found, dispatch_task, dispatch_tasks, due_tasks,
  dispatch_due_tasks, claims_before, is_due,
}
use ai_compliance_orquestrat.World.{World}
use ai_compliance_orquestrat.Session.{Session, ◌>>=◌}

module _ ⦃w : World⦄ (p : Dispatch) where
  dispatch_claimed-one : (id : String) → Yields (λ n. n ≤ 1) (dispatch_claimed p id)
  unfolding dispatch_claimed
  dispatch_claimed-one id = Yields-bind _ _ _ λ t. Yields-bind _ _ _ λ _.
      Yields-bind _ _ _
        λ _. Yields-bind _ _ _ λ _. Yields-bind _ _ _ λ _. Yields-pure _ 1 (omega arith)

  dispatch_found-one :
      (id : String) (found : Option OutreachTask) → Yields (λ n. n ≤ 1) (dispatch_found p id found)
  unfolding dispatch_found
  dispatch_found-one id none = Yields-pure _ 0 (omega arith)
  dispatch_found-one id (some t) = Yields-bind _ _ _ λ n.
      Yields-if _ (eqb n 1) _ _ (dispatch_claimed-one id)
        (Yields-bind _ _ _ λ _. Yields-pure _ 0 (omega arith))

  dispatch_task-one : (id : String) → Yields (λ n. n ≤ 1) (dispatch_task p id)
  unfolding dispatch_task
  dispatch_task-one id = Yields-bind _ _ _ (dispatch_found-one id)

  dispatch_tasks-le :
      (ids : List String) (attempted bound : ℕ)
      → attempted + length ids ≤ bound
      → Yields (λ n. n ≤ bound) (dispatch_tasks p ids attempted)
  unfolding dispatch_tasks
  dispatch_tasks-le [] attempted bound h = Yields-pure _ attempted (omega arith)
  dispatch_tasks-le (id ∷ rest) attempted bound h =
      Yields-bind_with _ (λ n. n ≤ 1) _ _ (dispatch_task-one id)
        λ n one. dispatch_tasks-le rest (attempted + n) bound (omega arith)

  length-due_tasks : (d : Database) → length (due_tasks p.now p.limit d) ≤ p.limit
  unfolding due_tasks
  length-due_tasks d =
      rw length-map
        (length-take-le p.limit (order_by claims_before (filter (is_due p.now) d.outreach_tasks)))

  -- A pass attempts at most `limit` tasks, whatever the tables hold.
  pub dispatch_due_tasks-le :
      (s : Session) (attempted : ℕ)
      → (dispatch_due_tasks p s).0 ≡ ok attempted
      → attempted ≤ p.limit
  unfolding dispatch_due_tasks ◌>>=◌
  dispatch_due_tasks-le =
      (Yields-bind_with (λ n. n ≤ p.limit) (λ ids. length ids ≤ p.limit) _ _
        (record {
          at = λ s ids e. subst (λ l. length l ≤ p.limit) (ok_inj e) (length-due_tasks s.db);
        })
        λ ids short. dispatch_tasks-le ids 0 p.limit (omega arith)).at
