-- ===== src/Http/Refined.antt =====
-- A request's effect on the service: units of work between readings of uuid4, and nothing else.
use ai_compliance_orquestrat.Settings.{Settings}
use ai_compliance_orquestrat.Http.Serves.{
  Serves, serves_rules, Serves-bind, Serves-pure, Serves-lift, Serves-reading, Serves-work,
  Serves-attempt,
}
use ai_compliance_orquestrat.Api.Readers.{Pydantic}
use ai_compliance_orquestrat.Evolution.{Evolves}
use ai_compliance_orquestrat.Ingestion.Kept.{IsFair}
use ai_compliance_orquestrat.Json.{Fields}
use ai_compliance_orquestrat.Ingestion.Snapshots.{Race, Submission}
use ai_compliance_orquestrat.Operational.{get_outreach_task, TaskFilters, DeliveryStatus}
use ai_compliance_orquestrat.Api.{
  get_task, list_tasks, list_audit_events, correlation_id_from_header, ingest_event,
  cancel_account_outreach, record_delivery_result,
}
use ai_compliance_orquestrat.Api.Responses.{respond_with}
use ai_compliance_orquestrat.Models.{Database, OutreachTask}
use ai_compliance_orquestrat.World.{World}
use ai_compliance_orquestrat.Http.{
  Request, Reply, route, respond_with_all, post_event, post_delivery_result, post_cancel_outreach,
  correlation_id_middleware, serve, get_one_task, get_tasks, get_audit, get_healthz,
}
use ai_compliance_orquestrat.System.Runs.{Runs}
use ai_compliance_orquestrat.System.{
  Server, Work, IsFairWork, perform, responding, cancel, ingest, deliver,
}
use ai_compliance_orquestrat.Session.{Action, pure, reading}
use ai_compliance_orquestrat.Prelude.{
  String, Option, refl, ℕ, ap, sym, List, some, ◌∷◌, none, [], subst,
}

module _ ⦃w : World⦄ {P : Work → Type 0} where
  pub respond_with-Serves : (t : OutreachTask) → Serves P (respond_with t)
  unfolding respond_with
  respond_with-Serves t = search serves_rules depth 12

  pub respond_with_all-Serves : (ts : List OutreachTask) → Serves P (respond_with_all ts)
  unfolding respond_with_all
  respond_with_all-Serves [] = search serves_rules
  respond_with_all-Serves (t ∷ rest) =
      Serves-bind _ _ (respond_with-Serves t)
        λ r. Serves-bind _ _ (respond_with_all-Serves rest) λ rs. Serves-pure _

  pub get_task-Serves : (id : String) → Serves P (get_task id)
  unfolding get_task get_outreach_task
  get_task-Serves id = search serves_rules

  pub list_tasks-Serves : (filters : TaskFilters) (limit : ℕ) → Serves P (list_tasks filters limit)
  unfolding list_tasks
  list_tasks-Serves filters limit = search serves_rules

  pub list_audit_events-Serves : (id : Option String) → Serves P (list_audit_events id)
  unfolding list_audit_events
  list_audit_events-Serves id = search serves_rules

  correlation_id_from_header-Serves :
      (header : Option String) → Serves P (correlation_id_from_header header)
  unfolding correlation_id_from_header
  correlation_id_from_header-Serves none = Serves-reading _
  correlation_id_from_header-Serves (some value) =
      elim (w.parse_uuid value)
        as (λ o. Serves P (elim o [ none ↦ reading w.uuid4 | some id ↦ pure id ])) [
          | none ↦ Serves-reading _
          | some id ↦ Serves-pure _
        ]

  pub middleware-Serves :
      (header : Option String) (next : String → Action Reply)
      → ((cid : String) → Serves P (next cid))
      → Serves P (correlation_id_middleware header next)
  unfolding correlation_id_middleware
  middleware-Serves header next k =
      Serves-bind _ _ (correlation_id_from_header-Serves header)
        λ cid. Serves-bind _ _ (Serves-attempt _ (k cid)) λ outcome. Serves-pure _

module _ ⦃w : World⦄ where
  ingest_event-Serves :
      (race : Race) (body : Submission) (cid : String)
      → IsFair race
      → Serves IsFairWork (ingest_event race body cid)
  unfolding ingest_event perform
  ingest_event-Serves race body cid fair = Serves-work (ingest race body cid) _ fair (λ s. refl)

  cancel_account_outreach-Serves :
      (account reason cid : String) → Serves IsFairWork (cancel_account_outreach account reason cid)
  unfolding cancel_account_outreach perform
  cancel_account_outreach-Serves account reason cid =
      Serves-work (cancel account reason cid) _ tt (λ s. refl)

  record_delivery_result-Serves :
      (meanwhile : Database → Database) (id : String) (status : DeliveryStatus)
      (message : Option String) (details : Fields)
      → ((d : Database) → Evolves d (meanwhile d))
      → Serves IsFairWork (record_delivery_result meanwhile id status message details)
  unfolding record_delivery_result perform
  record_delivery_result-Serves meanwhile id status message details fair =
      Serves-work (deliver meanwhile id status message details) _ fair (λ s. refl)

-- What other sessions do while a request runs keeps the rules of the tables.
abbrev pub IsFairRequest : Request → Type 0
IsFairRequest (post_event race body) = IsFair race
IsFairRequest (post_delivery_result meanwhile task_id body) =
    (d : Database) → Evolves d (meanwhile d)
IsFairRequest _ = Unit

module _ ⦃w : World⦄ ⦃p : Pydantic⦄ where
  route-Serves :
      (settings : Settings) (r : Request) (cid : String)
      → IsFairRequest r
      → Serves IsFairWork (route settings r cid)
  unfolding route
  route-Serves settings (post_event race body) cid fair =
      Serves-bind _ _ (Serves-lift _)
        λ request. Serves-bind _ _ (ingest_event-Serves race _ cid fair) λ response. Serves-pure _
  route-Serves settings (post_cancel_outreach account body) cid fair =
      Serves-bind _ _ (Serves-lift _) λ reason.
        Serves-bind _ _ (cancel_account_outreach-Serves account reason cid) λ n. Serves-pure _
  route-Serves settings (post_delivery_result meanwhile task_id body) cid fair =
      Serves-bind _ _ (Serves-lift _) λ id. Serves-bind _ _ (Serves-lift _) λ request.
        Serves-bind _ _ (record_delivery_result-Serves meanwhile id _ _ _ fair)
          λ task. Serves-bind _ _ (respond_with-Serves task) λ r. Serves-pure _
  route-Serves settings (get_one_task task_id) cid fair = Serves-bind _ _ (Serves-lift _) λ id.
      Serves-bind _ _ (get_task-Serves id)
        λ task. Serves-bind _ _ (respond_with-Serves task) λ r. Serves-pure _
  route-Serves settings (get_tasks filters limit) cid fair =
      Serves-bind _ _ (list_tasks-Serves filters limit)
        λ found. Serves-bind _ _ (respond_with_all-Serves found) λ r. Serves-pure _
  route-Serves settings (get_audit correlation) cid fair =
      Serves-bind _ _ (list_audit_events-Serves correlation) λ found. Serves-pure _
  route-Serves settings get_healthz cid fair = Serves-pure _

  -- Whatever the request, its header and its body, the service gets from its state before to its
  -- state after by units of work of `perform` and readings of uuid4 only, if what other sessions
  -- do meanwhile keeps the rules of the tables.
  pub serve-Runs :
      (settings : Settings) (header : Option String) (r : Request) (s : Server)
      → IsFairRequest r
      → Runs IsFairWork s (serve settings header r s).1
  unfolding serve responding
  serve-Runs settings header r s fair =
      let (t, e, h) =
        (middleware-Serves header (route settings r) (λ cid. route-Serves settings r cid fair)).to
          s in
      subst (Runs IsFairWork s) (ap (λ z. record { database = z.committed; tick = z.tick }) (sym e))
        h
