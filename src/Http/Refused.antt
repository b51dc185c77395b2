-- ===== src/Http/Refused.antt =====
-- A request whose body its model refuses.
use ai_compliance_orquestrat.Settings.{Settings}
use ai_compliance_orquestrat.Api.Responses.{respond_with}
use ai_compliance_orquestrat.Http.Serves.{fresh}
use ai_compliance_orquestrat.Session.{reading, Session, pure, Action, lift}
use ai_compliance_orquestrat.Api.{correlation_id_from_header, record_delivery_result}
use ai_compliance_orquestrat.Http.{
  Request, route, serve, post_event, correlation_id_middleware, post_cancel_outreach, attempt,
  post_delivery_result, answered, Reply, one_task, get_one_task, get_tasks, get_audit, get_healthz,
}
use ai_compliance_orquestrat.World.{World}
use ai_compliance_orquestrat.Errors.{Error, ok, err, or_raise}
use ai_compliance_orquestrat.Api.Readers.{Pydantic, invalid}
use ai_compliance_orquestrat.Api.Requests.{
  inbound_event_request, cancel_outreach_request, delivery_result_request,
}
use ai_compliance_orquestrat.Api.Requests.Refused.{
  Validates-err, inbound_event_request-Validates, cancel_outreach_request-Validates,
  delivery_result_request-Validates,
}
use ai_compliance_orquestrat.Session.{◌>>=◌}
use ai_compliance_orquestrat.System.{Server, responding}
use ai_compliance_orquestrat.Prelude.{String, Option, ◌≡◌, ◌+◌, some, none, refl}

module _ ⦃w : World⦄ ⦃p : Pydantic⦄ where
  -- Its body does not fit the model of the route.
  abbrev pub IsRefused : Request → Type 0
  IsRefused (post_event race body) = (e : Error) × (inbound_event_request body ≡ err e)
  IsRefused (post_cancel_outreach account body) =
      (e : Error) × (cancel_outreach_request body ≡ err e)
  IsRefused (post_delivery_result meanwhile task_id body) =
      (e : Error) × (delivery_result_request body ≡ err e)
  IsRefused _ = ⊥

  route_refused :
      (settings : Settings) (r : Request) (cid : String) (s : Session)
      → IsRefused r
      → route settings r cid s ≡ (err invalid, s)
  unfolding route ◌>>=◌
  route_refused settings (post_event race body) cid s h =
      rw (Validates-err (inbound_event_request-Validates body) h.1) refl
  route_refused settings (post_cancel_outreach account body) cid s h =
      rw (Validates-err (cancel_outreach_request-Validates body) h.1) refl
  route_refused settings (post_delivery_result meanwhile task_id body) cid s h =
      elim (p.as_uuid task_id)
        as (λ o. ((lift (or_raise o invalid) >>= λ id. after id) s) ≡ (err invalid, s)) [
          | none ↦ refl
          | some id ↦ rw (Validates-err (delivery_result_request-Validates body) h.1) refl
        ]
    where
      after : String → Action Reply
      after id = do
        request ← lift (delivery_result_request body)
        task ←
            record_delivery_result meanwhile id request.status request.provider_message_id
              request.details
        response ← respond_with task
        pure (one_task response)
  route_refused settings (get_one_task task_id) cid s h = absurd h
  route_refused settings (get_tasks filters limit) cid s h = absurd h
  route_refused settings (get_audit correlation) cid s h = absurd h
  route_refused settings get_healthz cid s h = absurd h

  -- the id is found or made, and nothing is written
  header_read :
      (header : Option String) (s : Session)
      → (id : String) × (t : Session) × (correlation_id_from_header header s ≡ (ok id, t))
        × (t.committed ≡ s.committed)
  unfolding correlation_id_from_header reading pure
  header_read none s = (w.uuid4 s.tick, record s { tick = s.tick + 1 }, refl, refl)
  header_read (some value) s = by_parse (w.parse_uuid value) refl
    where
      by_parse :
          (o : Option String)
          → w.parse_uuid value ≡ o
          → (id : String) × (t : Session) × (correlation_id_from_header (some value) s ≡ (ok id, t))
            × (t.committed ≡ s.committed)
      by_parse none h = (
        w.uuid4 s.tick,
        record s { tick = s.tick + 1 },
        rw (h, correlation_id_from_header) refl,
        refl,
      )
      by_parse (some id) h = (id, s, rw (h, correlation_id_from_header) refl, refl)

  -- A POST whose body its model refuses is answered with HTTP 422 and a correlation id, and leaves
  -- the tables as they are.
  pub serve_refused :
      (settings : Settings) (header : Option String) (r : Request) (s : Server)
      → IsRefused r
      → (id : String) × ((serve settings header r s).0
          ≡ ok (record { correlation_id = id; outcome = err invalid }))
        × ((serve settings header r s).1.database ≡ s.database)
  unfolding serve responding correlation_id_middleware ◌>>=◌ attempt answered pure
  serve_refused settings header r s h =
      let (id, t, e, k) = header_read header (fresh s) in
      (id, rw (e, route_refused settings r id t h) refl, rw (e, route_refused settings r id t h) k)
