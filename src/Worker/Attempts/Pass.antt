-- ===== src/Worker/Attempts/Pass.antt =====
-- The attempts of every task stay within its limit, over a whole pass of `dispatch_due_tasks`.
use ai_compliance_orquestrat.AuditLog.{AuditEntry, append_audit_event, append_audit_event_lem}
use ai_compliance_orquestrat.World.{World}
use ai_compliance_orquestrat.DateTime.{DateTime}
use ai_compliance_orquestrat.Errors.{or_raise, runtime_error, ok}
use ai_compliance_orquestrat.Models.{Database, OutreachTask}
use ai_compliance_orquestrat.Session.{Session, commit, rollback, modify, ◌>>=◌, gets, pure, lift}
use ai_compliance_orquestrat.Session.Triples.{
  Triple, Triple-bind, Triple-if, Triple-lift, Triple-pure, Triple-weaken, Triple-gets,
  Triple-always, Triple-gets_any, Triple-lift_any,
}
use ai_compliance_orquestrat.Tables.{update_tasks_count, update_tasks, refuse_long_error}
use ai_compliance_orquestrat.Tables.OneRow.{find-IsOnly}
use ai_compliance_orquestrat.Worker.{
  Dispatch, claim_task, is_claimable, others, record_delivery, refresh, dispatch_claimed,
  dispatch_found, dispatch_tasks, dispatch_due_tasks, send, dispatch_task,
}
use ai_compliance_orquestrat.Worker.Delivers.{has_id}
use ai_compliance_orquestrat.Worker.Record.{
  is_dispatching, mark_failure, mark_sent, retry_time, finish_update, record_success,
  record_failure, DeliveryResult, Delivery, failure, delivered,
}
use ai_compliance_orquestrat.Prelude.{
  All, Bool, List, Option, String, ℕ, ◌≡◌, ◌==◌, [], ◌∷◌, find, none, refl, some, true, All-imp,
  ◌+◌,
}
use ai_compliance_orquestrat.Worker.Attempts.{
  IsSound, IsWithin, HasClaim, update_rows-IsSound, mark_sent-IsWithin, mark_failure-IsWithin,
  IsOnly-HasClaim, claim-IsWithin,
}

-- What the transaction sees and what is durable are sound.
abbrev BothSound : Session → Type 0
BothSound s = IsSound s.db.outreach_tasks × IsSound s.committed.outreach_tasks

-- They are, and the durable row of a claim is as it was claimed.
abbrev Claimed : OutreachTask → Session → Type 0
Claimed t s = BothSound s × HasClaim t s.db.outreach_tasks

commit-Claimed :
    (t : OutreachTask)
    → Triple
        (Claimed t)
        commit
        (λ _ s. BothSound s × HasClaim t s.committed.outreach_tasks)
        BothSound
unfolding commit
commit-Claimed t = record { at = λ s h. ((h.0.0, h.0.0), h.1) }

commit-BothSound : Triple BothSound commit (λ _. BothSound) BothSound
unfolding commit
commit-BothSound = record { at = λ s h. (h.0, h.0) }

rollback-BothSound : Triple BothSound rollback (λ _. BothSound) BothSound
unfolding rollback
rollback-BothSound = record { at = λ s h. (h.1, h.1) }

-- An update of tasks, in a session that satisfies `P`, by a rule that `P` gives.
update_tasks-BothSound :
    {P : Session → Type 0} (p : OutreachTask → Bool) (f : OutreachTask → OutreachTask)
    → ((t : OutreachTask) → (f t).id ≡ t.id)
    → ((s : Session) → P s → BothSound s)
    → ((s : Session)
        → P s
        → All (λ t. p t ≡ true → IsWithin t → IsWithin (f t)) s.db.outreach_tasks)
    → Triple P (update_tasks_count p f) (λ _. BothSound) BothSound
unfolding update_tasks_count update_tasks modify ◌>>=◌ gets pure
update_tasks-BothSound p f same sound step = record {
  at = λ s h.
      (update_rows-IsSound p f same s.db.outreach_tasks (step s h) (sound s h).0, (sound s h).1);
}

module _ ⦃w : World⦄ where
  append-BothSound :
      (e : AuditEntry) → Triple BothSound (append_audit_event e) (λ _. BothSound) BothSound
  append-BothSound e = record { at = λ s h. rw (append_audit_event_lem e s) h }

  append-Claimed :
      (t : OutreachTask) (e : AuditEntry)
      → Triple (Claimed t) (append_audit_event e) (λ _. Claimed t) BothSound
  append-Claimed t e = record { at = λ s h. rw (append_audit_event_lem e s) h }

  finish_update-BothSound :
      (rowcount : ℕ) (entry : AuditEntry)
      → Triple BothSound (finish_update rowcount entry) (λ _. BothSound) BothSound
  unfolding finish_update
  finish_update-BothSound rowcount entry =
      Triple-if _ _ _ _ _ (Triple-bind _ _ _ (append-BothSound entry) (λ _. commit-BothSound))
        rollback-BothSound

module _ ⦃w : World⦄ (p : Dispatch) where
  record_success-BothSound :
      (t : OutreachTask) (r : DeliveryResult)
      → Triple BothSound (record_success p.worker_id t r) (λ _. BothSound) BothSound
  unfolding record_success mark_sent
  record_success-BothSound t r =
      Triple-bind _ _ _
        (update_tasks-BothSound (is_dispatching t.id) mark_sent (λ _. refl) (λ _ h. h)
          (λ s h. All-imp IsWithin _ (λ u _ _ k. mark_sent-IsWithin p u k) _ h.0.within))
        (λ n. finish_update-BothSound n _)

  mark_failure-id :
      (task : OutreachTask) (at : Option DateTime) (error : String) (t : OutreachTask)
      → (mark_failure task at error t).id ≡ t.id
  unfolding mark_failure
  mark_failure-id task none error t = refl
  mark_failure-id task (some d) error t = refl

  record_failure-BothSound :
      (t : OutreachTask) (error : String)
      → Triple
          (Claimed t)
          (record_failure p.now p.retry_delay p.worker_id t error)
          (λ _. BothSound)
          BothSound
  unfolding record_failure
  record_failure-BothSound t error =
      Triple-bind _ _ _ (Triple-lift _ _ (λ s h. h.0) (retry_time p.now p.retry_delay t)) (λ at.
        Triple-bind _ _ _ (fits_checked t at error) λ _.
          Triple-bind _ _ _
            (update_tasks-BothSound (is_dispatching t.id) (mark_failure t at error)
              (mark_failure-id t at error) (λ s h. h.0.0)
              (λ s h.
                All-imp _ _ (λ u same e k. mark_failure-IsWithin p t at error u h.1 (same e) k) _
                  h.0.1))
            (λ n. finish_update-BothSound n _))
    where
      fits_checked :
          (t : OutreachTask) (at : Option DateTime) (error : String)
          → Triple
              (λ s. Claimed t s × (retry_time p.now p.retry_delay t ≡ ok at))
              (refuse_long_error (is_dispatching t.id) (some error))
              (λ _ s. Claimed t s × (retry_time p.now p.retry_delay t ≡ ok at))
              BothSound
      fits_checked t at error =
          unfold refuse_long_error in
          Triple-bind _ _ _ (Triple-gets_any _ _ _) λ rows. Triple-lift_any _ _ (λ s h. h.0.0) _

-- What other sessions commit while a task is claimed keeps the tables sound, and does not touch the
-- counts of the claimed task as long as it is dispatching.
abbrev pub KeepsClaims : Dispatch → Type 0
KeepsClaims p =
    (t : OutreachTask) (d : Database)
    → IsSound d.outreach_tasks
    → HasClaim t d.outreach_tasks
    → IsSound (p.meanwhile t d).outreach_tasks × HasClaim t (p.meanwhile t d).outreach_tasks

module _ ⦃w : World⦄ (p : Dispatch) (keeps : KeepsClaims p) where
  others-Claimed :
      (t : OutreachTask)
      → Triple
          (λ s. BothSound s × HasClaim t s.committed.outreach_tasks)
          (others (p.meanwhile t))
          (λ _. Claimed t)
          BothSound
  unfolding others
  others-Claimed t = record {
    at = λ s h. let k = keeps t s.committed h.0.1 h.1 in ((k.0, k.0), k.1);
  }

  record_delivery-BothSound :
      (t : OutreachTask) (delivery : Delivery)
      → Triple (Claimed t) (record_delivery p t delivery) (λ _. BothSound) BothSound
  unfolding record_delivery
  record_delivery-BothSound t (failure error) = record_failure-BothSound p t error
  record_delivery-BothSound t (delivered r) =
      Triple-weaken _ _ _ (λ s h. h.0) (λ _ s h. h) (record_success-BothSound p t r)

  refresh-Claimed : (id : String) → Triple BothSound (refresh p id) Claimed BothSound
  unfolding refresh lift
  refresh-Claimed id =
      Triple-bind _ _ _
        (Triple-gets BothSound BothSound (λ d. find (λ t. t.id == id) d.outreach_tasks)) claim_found
    where
      claim_found :
          (row : Option OutreachTask)
          → Triple
              (λ s. BothSound s × (find (λ t. t.id == id) s.db.outreach_tasks ≡ row))
              (lift (or_raise row (runtime_error "Could not refresh instance")))
              Claimed
              BothSound
      claim_found none = record { at = λ s h. h.0 }
      claim_found (some t) = record {
        at = λ s h.
            let rows = s.db.outreach_tasks in
            (h.0, IsOnly-HasClaim id t rows (find-IsOnly (has_id id) rows h.1 (h.0.0.ids id)));
      }

  dispatch_claimed-BothSound :
      (id : String) → Triple BothSound (dispatch_claimed p id) (λ _. BothSound) BothSound
  unfolding dispatch_claimed
  dispatch_claimed-BothSound id = Triple-bind _ _ _ (refresh-Claimed id) λ t.
      Triple-bind _ _ _ (append-Claimed t _) λ _. Triple-bind _ _ _ (commit-Claimed t) λ _.
        Triple-bind _ _ _ (others-Claimed t) λ _.
          Triple-bind _ _ _ (record_delivery-BothSound t (send p.adapters t))
            (λ _. Triple-pure _ _ 1)

  dispatch_found-BothSound :
      (id : String) (found : Option OutreachTask)
      → Triple BothSound (dispatch_found p id found) (λ _. BothSound) BothSound
  unfolding dispatch_found claim_task
  dispatch_found-BothSound id none = Triple-pure _ _ 0
  dispatch_found-BothSound id (some t) =
      Triple-bind _ _ _
        (update_tasks-BothSound (is_claimable p id) claim_task (λ _. refl) (λ _ h. h)
          (λ s h. All-imp IsWithin _ (λ u k e _. claim-IsWithin p id u e k) _ h.0.within))
        (λ n.
          Triple-if _ _ _ _ _ (dispatch_claimed-BothSound id)
            (Triple-bind _ _ _ rollback-BothSound (λ _. Triple-pure _ _ 0)))

  dispatch_tasks-BothSound :
      (ids : List String) (attempted : ℕ)
      → Triple BothSound (dispatch_tasks p ids attempted) (λ _. BothSound) BothSound
  unfolding dispatch_tasks dispatch_task
  dispatch_tasks-BothSound [] attempted = Triple-pure _ _ attempted
  dispatch_tasks-BothSound (id ∷ rest) attempted =
      Triple-bind _ _ _
        (Triple-bind _ _ _ (Triple-gets _ _ _)
          (λ row. Triple-weaken _ _ _ (λ s h. h.0) (λ _ s h. h) (dispatch_found-BothSound id row)))
        (λ n. dispatch_tasks-BothSound rest (attempted + n))

  dispatch_due_tasks-BothSound : Triple BothSound (dispatch_due_tasks p) (λ _. BothSound) BothSound
  unfolding dispatch_due_tasks
  dispatch_due_tasks-BothSound =
      Triple-bind _ _ _ (Triple-gets _ _ _)
        (λ ids. Triple-weaken _ _ _ (λ s h. h.0) (λ _ s h. h) (dispatch_tasks-BothSound ids 0))

  -- If every task is within its attempt limit, with one attempt left while it is scheduled, and
  -- ids are unique, then so it is after a pass, however it ends: whatever the providers answer,
  -- and whatever other sessions commit, if they keep this and leave the counts of a claimed task
  -- alone.
  pub attempts_within :
      (s : Session)
      → IsSound s.db.outreach_tasks
      → IsSound s.committed.outreach_tasks
      → IsSound (dispatch_due_tasks p s).1.committed.outreach_tasks
  attempts_within s seen durable =
      (Triple-always _ dispatch_due_tasks-BothSound s (seen, durable)).1
