-- ===== src/Http.antt =====
-- src/orchestrator/main.py: the routes under `correlation_id_middleware`, from the header and the
-- decoded JSON body to the response. FastAPI reads a body by the request models first; it answers
-- an HTTPException as a response, and lets any other exception pass.
pub mod Serves
pub mod Refined
pub mod Reads
pub mod Refused
pub mod Header
pub mod Still
pub mod Performs
use ai_compliance_orquestrat.Settings.{Settings}
use ai_compliance_orquestrat.World.{World}
use ai_compliance_orquestrat.Json.{Fields}
use ai_compliance_orquestrat.Models.{Database, AuditEvent, OutreachTask}
use ai_compliance_orquestrat.Errors.{Result, ok, err, http_exception, or_raise}
use ai_compliance_orquestrat.Session.{Action, ◌>>=◌, lift, pure}
use ai_compliance_orquestrat.Ingestion.Snapshots.{Race}
use ai_compliance_orquestrat.Operational.{TaskFilters}
use ai_compliance_orquestrat.System.{Server, responding}
use ai_compliance_orquestrat.Api.{
  InboundEventResponse, ingest_event, cancel_account_outreach, record_delivery_result, get_task,
  list_tasks, list_audit_events, correlation_id_from_header,
}
use ai_compliance_orquestrat.Api.Readers.{Pydantic, invalid}
use ai_compliance_orquestrat.Api.Requests.{
  inbound_event_request, cancel_outreach_request, delivery_result_request, submission_of,
}
use ai_compliance_orquestrat.Api.Responses.{
  OutreachTaskResponse, CancelOutreachResponse, respond_with,
}
use ai_compliance_orquestrat.Prelude.{ℕ, String, List, Option, [], ◌∷◌}

-- A request by its route, with its path, its query and its body. A request that writes names what
-- other sessions do meanwhile.
pub data Request : Type 0 where
  post_event : Race → Fields → Request
  post_cancel_outreach : String → Fields → Request
  post_delivery_result : (Database → Database) → String → Fields → Request
  get_one_task : String → Request
  get_tasks : TaskFilters → ℕ → Request
  get_audit : Option String → Request
  get_healthz : Request

-- The body of a successful response.
pub data Reply : Type 0 where
  event_accepted : InboundEventResponse → Reply
  outreach_cancelled : CancelOutreachResponse → Reply
  one_task : OutreachTaskResponse → Reply
  tasks : List OutreachTaskResponse → Reply
  audit : List AuditEvent → Reply
  healthz : String → String → Reply

-- A response, with its X-Correlation-ID; an error is one that has an HTTP status.
pub record Response : Type 0 where
  pub correlation_id : String
  pub outcome : Result Reply

-- an HTTPException becomes a response
unfoldable pub answered : Result Reply → Result (Result Reply)
answered (ok reply) = ok (ok reply)
answered (err (http_exception status detail)) = ok (err (http_exception status detail))
answered (err e) = err e

unfoldable pub attempt : Action Reply → Action (Result Reply)
unfolding answered
attempt m s = let (r, s') = m s in (answered r, s')

unfoldable pub respond_with_all : List OutreachTask → Action (List OutreachTaskResponse)
respond_with_all [] = pure []
respond_with_all (t ∷ rest) = do
  response ← respond_with t
  responses ← respond_with_all rest
  pure (response ∷ responses)

-- `request.state.correlation_id` and the response's header
unfoldable pub correlation_id_middleware :
    ⦃w : World⦄ → Option String → (String → Action Reply) → Action Response
unfolding attempt
correlation_id_middleware header call_next = do
  correlation_id ← correlation_id_from_header header
  outcome ← attempt (call_next correlation_id)
  pure (record { correlation_id = correlation_id; outcome = outcome })

module _ ⦃w : World⦄ ⦃p : Pydantic⦄ where
  -- the route's handler, under `app.state.settings`
  unfoldable pub route : Settings → Request → String → Action Reply
  route settings (post_event race body) correlation_id = do
    request ← lift (inbound_event_request body)
    response ← ingest_event race (submission_of request) correlation_id
    pure (event_accepted response)
  route settings (post_cancel_outreach account_external_id body) correlation_id = do
    reason ← lift (cancel_outreach_request body)
    cancelled_tasks ← cancel_account_outreach account_external_id reason correlation_id
    pure (
        outreach_cancelled
          (record { account_external_id = account_external_id; cancelled_tasks = cancelled_tasks }))
  route settings (post_delivery_result meanwhile task_id body) correlation_id = do
    id ← lift (or_raise (p.as_uuid task_id) invalid)
    request ← lift (delivery_result_request body)
    task ←
        record_delivery_result meanwhile id request.status request.provider_message_id
          request.details
    response ← respond_with task
    pure (one_task response)
  route settings (get_one_task task_id) correlation_id = do
    id ← lift (or_raise (p.as_uuid task_id) invalid)
    task ← get_task id
    response ← respond_with task
    pure (one_task response)
  route settings (get_tasks filters limit) correlation_id = do
    found ← list_tasks filters limit
    responses ← respond_with_all found
    pure (tasks responses)
  route settings (get_audit correlation) correlation_id = do
    found ← list_audit_events correlation
    pure (audit found)
  route settings get_healthz correlation_id = pure (healthz settings.service_name "ok")

  -- `create_app`: one request, with its X-Correlation-ID if it has one
  unfoldable pub serve : Settings → Option String → Request → Server → Result Response × Server
  unfolding responding correlation_id_middleware route
  serve settings header request =
      responding (correlation_id_middleware header (route settings request))
