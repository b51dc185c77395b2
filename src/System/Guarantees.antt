-- ===== src/System/Guarantees.antt =====
-- Invariants of the durable tables over sequences of requests and worker passes.
use ai_compliance_orquestrat.Evolution.Unique.{IsUnique}
use ai_compliance_orquestrat.Worker.Kept.{dispatch_due_tasks-Advances}
use ai_compliance_orquestrat.Api.Kept.{
  ingest_event-Advances, cancel_account_outreach-Advances, record_delivery_result-Advances,
}
use ai_compliance_orquestrat.Models.{
  AuditEvent, Customer, Account, OutreachTask, PolicyDecision, sent, cancelled, OutreachTaskStatus,
}
use ai_compliance_orquestrat.Evolution.{
  Evolves, Evolves-refl, Evolves-trans, TaskKeeps, CustomerKeeps, AccountKeeps, may_become,
}
use ai_compliance_orquestrat.Session.Rules.{Advances, Advances-close}
use ai_compliance_orquestrat.Prelude.{
  List, All, String, ◌∷◌, ◌≡◌, find, ◌++◌, [], ◌==◌, some, Grows-append_only, true, find-Grows, ap,
  ◌⊎◌, arith,
}
use ai_compliance_orquestrat.Session.{Action}
use ai_compliance_orquestrat.World.{World}
use ai_compliance_orquestrat.System.{
  Server, in_session, perform, perform_all, Work, IsFairWork, ingest, cancel, deliver, dispatch,
  responding,
}

in_session-Evolves {ℓ} :
    {A : Type ℓ} (m : Action A) (s : Server)
    → Advances m
    → Evolves s.database (in_session m s).database
unfolding in_session responding
in_session-Evolves m s k =
    (k.at (record { db = s.database; committed = s.database; tick = s.tick })
      (Evolves-refl s.database)).0

module _ ⦃w : World⦄ where
  pub perform-Evolves :
      (x : Work) (s : Server) → IsFairWork x → Evolves s.database (perform x s).database
  unfolding perform
  perform-Evolves (ingest race body correlation_id) s fair =
      in_session-Evolves _ s (ingest_event-Advances race fair body correlation_id)
  perform-Evolves (cancel account_external_id reason correlation_id) s fair =
      in_session-Evolves _ s
        (cancel_account_outreach-Advances account_external_id reason correlation_id)
  perform-Evolves (deliver meanwhile task_id status message details) s fair =
      in_session-Evolves _ s
        (record_delivery_result-Advances meanwhile fair task_id status message details)
  perform-Evolves (dispatch p) s fair =
      in_session-Evolves _ s (Advances-close _ (dispatch_due_tasks-Advances p fair))

  perform_all-Evolves :
      (work : List Work) (s : Server)
      → All IsFairWork work
      → Evolves s.database (perform_all work s).database
  unfolding perform_all
  perform_all-Evolves [] s fair = Evolves-refl s.database
  perform_all-Evolves (x ∷ rest) s fair =
      Evolves-trans (perform-Evolves x s fair.0) (perform_all-Evolves rest (perform x s) fair.1)

module _ ⦃w : World⦄ (work : List Work) (s : Server) (fair : All IsFairWork work) where
  -- A customer who has opted out is still there and still opted out after any requests and worker
  -- passes, whatever snapshots they bring.
  pub opted_out_durable :
      (id : String) {c : Customer}
      → find (λ x. x.id == id) s.database.customers ≡ some c
      → c.opted_out ≡ true
      → (d : Customer) × (find (λ x. x.id == id) (perform_all work s).database.customers ≡ some d)
        × (d.external_id ≡ c.external_id)
        × (d.opted_out ≡ true)
  opted_out_durable id found out =
      let (d, again, kept) =
        find-Grows CustomerKeeps (λ x. x.id == id) (λ x y k. ap (λ v. v == id) k.id)
          s.database.customers (perform_all work s).database.customers
          (perform_all-Evolves work s fair).customers found in
      (d, again, kept.external_id, kept.opted_out out)

  -- After any requests and worker passes a stored account is still stored, with its external id
  -- and its customer.
  pub account_owner_stable :
      (id : String) {a : Account}
      → find (λ x. x.id == id) s.database.accounts ≡ some a
      → (b : Account) × (find (λ x. x.id == id) (perform_all work s).database.accounts ≡ some b)
        × (b.external_id ≡ a.external_id)
        × (b.customer_id ≡ a.customer_id)
  account_owner_stable id found =
      let (b, again, kept) =
        find-Grows AccountKeeps (λ x. x.id == id) (λ x y k. ap (λ v. v == id) k.id)
          s.database.accounts (perform_all work s).database.accounts
          (perform_all-Evolves work s fair).accounts found in
      (b, again, kept.external_id, kept.customer_id)

  -- After any requests and worker passes the audit table and the decision table are the old ones
  -- with rows appended at the end.
  pub audit_append_only :
      ((rows : List AuditEvent) × ((perform_all work s).database.audit_events
          ≡ s.database.audit_events ++ rows))
      × ((rows : List PolicyDecision) × ((perform_all work s).database.policy_decisions
            ≡ s.database.policy_decisions ++ rows))
  audit_append_only =
      let kept = perform_all-Evolves work s fair in
      (Grows-append_only _ _ kept.audit_events, Grows-append_only _ _ kept.policy_decisions)

  -- After any requests and worker passes a stored task is still stored, keeps its channel, account,
  -- customer, keys and limit, has no fewer attempts, and its status is one that `may_become`
  -- allows.
  pub task_lifecycle :
      (id : String) {t : OutreachTask}
      → find (λ x. x.id == id) s.database.outreach_tasks ≡ some t
      → (u : OutreachTask) × (find (λ x. x.id == id) (perform_all work s).database.outreach_tasks
          ≡ some u)
        × TaskKeeps t u
  task_lifecycle id found =
      find-Grows TaskKeeps (λ x. x.id == id) (λ x y k. ap (λ v. v == id) k.id)
        s.database.outreach_tasks (perform_all work s).database.outreach_tasks
        (perform_all-Evolves work s fair).outreach_tasks found

  -- A stored task that was sent or cancelled is still stored with that status after any requests
  -- and worker passes.
  pub final_status_stays :
      (id : String) {t : OutreachTask}
      → find (λ x. x.id == id) s.database.outreach_tasks ≡ some t
      → (t.status ≡ sent) ⊎ (t.status ≡ cancelled)
      → (u : OutreachTask) × (find (λ x. x.id == id) (perform_all work s).database.outreach_tasks
          ≡ some u)
        × (u.status ≡ t.status)
  final_status_stays id {t} found final =
      let (u, again, kept) = task_lifecycle id found in
      (u, again, final_may_become t.status u.status final kept.status)
    where
      final_may_become :
          (a b : OutreachTaskStatus) → (a ≡ sent) ⊎ (a ≡ cancelled) → may_become a b ≡ true → b ≡ a
      final_may_become a b final h = ground arith

  -- After any requests and worker passes no two customers and no two accounts share an external
  -- id, no two events share their source and external id, and no two tasks share their key, if
  -- that was so before: an event is stored once, and has at most one task for each channel.
  pub uniqueness_kept : IsUnique s.database → IsUnique (perform_all work s).database
  uniqueness_kept = (perform_all-Evolves work s fair).unique
