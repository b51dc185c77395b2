-- ===== src/Worker/Drains.antt =====
-- How much a pass of `dispatch_due_tasks` leaves to the next one, when all that it picks is sent.
use ai_compliance_orquestrat.World.{World}
use ai_compliance_orquestrat.Models.{OutreachTask}
use ai_compliance_orquestrat.Tables.{update_rows}
use ai_compliance_orquestrat.Tables.OneRow.{count-update_rows_drop, update_rows-drop}
use ai_compliance_orquestrat.Worker.{Dispatch, is_due, claims_before}
use ai_compliance_orquestrat.Worker.Delivers.{deliver_task, has_id}
use ai_compliance_orquestrat.Worker.Picked.{
  AreApart, IsReady, sent_by, sent_by-cons, sent_by_no_ids, find_ids-none, IsReady-after,
  others_differ, ids-AreApart, picked_once, IsReady-tasks,
}
use ai_compliance_orquestrat.Prelude.{
  All, All-map, List, ◌≡◌, ◌+◌, ◌∙◌, [], ◌∷◌, arith, count, length, map, refl, false, String, ◌≤◌,
  take, order_by, filter, ℕ, suc, ◌*◌, length-order_by, length-filter, length-take-cases, inl, inr,
}

module _ ⦃w : World⦄ (p : Dispatch) where
  sent_not_due : (t : OutreachTask) → is_due p.now (deliver_task t) ≡ false
  unfolding is_due
  sent_not_due t = refl

  readies_after :
      (u : OutreachTask) (us rows : List OutreachTask)
      → AreApart (u ∷ us)
      → All (IsReady p rows) us
      → All (IsReady p (update_rows (has_id u.id) deliver_task rows)) us
  readies_after u us rows apart ready =
      All-map _ _ _ (λ v h differs. IsReady-after p u v rows h differs) us ready
        (others_differ u.id us apart.0)

  -- Each task that is sent is due no more.
  pub count-sent_by :
      (us rows : List OutreachTask)
      → AreApart us
      → All (IsReady p rows) us
      → count (is_due p.now) (map (sent_by (map (λ u. u.id) us)) rows) + length us
        ≡ count (is_due p.now) rows
  count-sent_by [] rows apart ready = rw (← sent_by_no_ids rows) (omega arith)
  count-sent_by (u ∷ us) rows apart ready =
      let ids = map (λ (v : OutreachTask). v.id) us in
      let after = update_rows (has_id u.id) deliver_task rows in
      let rest = count-sent_by us after apart.1 (readies_after u us rows apart ready.1) in
      let one =
        count-update_rows_drop (has_id u.id) (is_due p.now) deliver_task rows u ready.0.1 ready.0.0
          (sent_not_due u) in
      rw (← sent_by-cons u ids rows (find_ids-none u.id us apart.0)) (omega (arith, rest, one))

  -- To send all that is due after a pass is to send all that was due before it.
  pub update_rows-sent_by :
      (us rows : List OutreachTask)
      → AreApart us
      → All (IsReady p rows) us
      → update_rows (is_due p.now) deliver_task (map (sent_by (map (λ u. u.id) us)) rows)
        ≡ update_rows (is_due p.now) deliver_task rows
  update_rows-sent_by [] rows apart ready = rw (← sent_by_no_ids rows) refl
  update_rows-sent_by (u ∷ us) rows apart ready =
      let ids = map (λ (v : OutreachTask). v.id) us in
      let after = update_rows (has_id u.id) deliver_task rows in
      rw (← sent_by-cons u ids rows (find_ids-none u.id us apart.0)) (
        update_rows-sent_by us after apart.1 (readies_after u us rows apart ready.1)
        ∙ update_rows-drop (has_id u.id) (is_due p.now) deliver_task rows u ready.0.1 ready.0.0
            (sent_not_due u))

  -- A pass leaves what exceeds its limit.
  pub due_left :
      (rows : List OutreachTask)
      → ((id : String) → count (has_id id) rows ≤ 1)
      → let picked = take p.limit (order_by claims_before (filter (is_due p.now) rows)) in
        let after = map (sent_by (map (λ u. u.id) picked)) rows in
        (n : ℕ)
        → count (is_due p.now) rows ≤ suc n * p.limit
        → count (is_due p.now) after ≤ n * p.limit
  due_left rows once n h =
      let found = order_by claims_before (filter (is_due p.now) rows) in
      let picked = take p.limit found in
      let left =
        count-sent_by picked rows (ids-AreApart picked (picked_once p rows once))
          (IsReady-tasks p rows once) in
      let all_found = length-order_by claims_before (filter (is_due p.now) rows) in
      let all_due = length-filter (is_due p.now) rows in
      elim (length-take-cases p.limit found) [
        | inl e ↦ omega (arith, left, all_found, all_due, e)
        | inr e ↦ omega (arith, left, all_found, all_due, e)
      ]
