-- ===== src/Http/Performs.antt =====
-- What a request does to the service, exactly: the one unit of work that it names, if its path and
-- its body are accepted.
use ai_compliance_orquestrat.Http.Still.{
  pure-IsStill, lift-IsStill, bind-IsStill, bind_still, respond_with-IsStill,
  respond_with_all-IsStill, get_task-IsStill, list_tasks-IsStill, list_audit_events-IsStill,
}
use ai_compliance_orquestrat.Json.{Fields}
use ai_compliance_orquestrat.Operational.{DeliveryStatus}
use ai_compliance_orquestrat.Ingestion.Snapshots.{Race, Submission}
use ai_compliance_orquestrat.Api.Requests.{
  inbound_event_request, submission_of, cancel_outreach_request, delivery_result_request,
}
use ai_compliance_orquestrat.Api.{
  ingest_event, cancel_account_outreach, record_delivery_result, correlation_id_from_header,
}
use ai_compliance_orquestrat.Models.{Database}
use ai_compliance_orquestrat.Prelude.{◌≡◌, ap, String, Option, refl, some, ◌+◌, none, sym}
use ai_compliance_orquestrat.World.{World}
use ai_compliance_orquestrat.Api.Readers.{Pydantic, invalid}
use ai_compliance_orquestrat.Http.Serves.{fresh}
use ai_compliance_orquestrat.System.{
  Server, Work, perform, responding, cancel, ingest, deliver, in_session,
}
use ai_compliance_orquestrat.Settings.{Settings}
use ai_compliance_orquestrat.Http.{
  Request, route, post_event, post_delivery_result, post_cancel_outreach, correlation_id_middleware,
  serve, get_one_task, get_tasks, get_audit, get_healthz, attempt, Response,
}
use ai_compliance_orquestrat.Session.{Action, ◌>>=◌, pure, lift, reading, close}
use ai_compliance_orquestrat.Errors.{Result, ok, err, Error, or_raise}

-- The unit of work that a request names, with the correlation id that it runs under: that of its
-- route, on what its path and its body are read as.
abbrev pub named_work : ⦃w : World⦄ → ⦃p : Pydantic⦄ → Request → String → Option Work
named_work (post_event race body) cid = elim (inbound_event_request body) [
  | err e ↦ none
  | ok request ↦ some (ingest race (submission_of request) cid)
]
named_work (post_cancel_outreach account_external_id body) cid =
    elim (cancel_outreach_request body) [
      | err e ↦ none
      | ok reason ↦ some (cancel account_external_id reason cid)
    ]
named_work ⦃w⦄ ⦃p⦄ (post_delivery_result meanwhile task_id body) cid = elim (p.as_uuid task_id) [
  | none ↦ none
  | some id ↦ elim (delivery_result_request body) [
    | err e ↦ none
    | ok r ↦ some (deliver meanwhile id r.status r.provider_message_id r.details)
  ]
]
named_work _ cid = none

abbrev pub perform_named : ⦃w : World⦄ → Option Work → Server → Server
perform_named none s = s
perform_named (some x) s = perform x s

-- The correlation id of a request: the header's if it is a UUID, else the next of uuid4.
abbrev pub fresh_id : ⦃w : World⦄ → Server → String × Server
fresh_id ⦃w⦄ s = (w.uuid4 s.tick, record s { tick = s.tick + 1 })

abbrev pub request_id : ⦃w : World⦄ → Option String → Server → String × Server
request_id none s = fresh_id s
request_id ⦃w⦄ (some value) s = elim (w.parse_uuid value) [ none ↦ fresh_id s | some id ↦ (id, s) ]

module _ ⦃w : World⦄ {A B : Type 0} (f : A → Action B) (s : Server) where
  -- A body is read first; what refuses it does nothing.
  lift_performs :
      (work : A → Option Work)
      → ((a : A) → (f a (fresh s)).1 ≡ fresh (perform_named (work a) s))
      → (r : Result A)
      → ((lift r >>= f) (fresh s)).1
        ≡ fresh (perform_named (elim r [ err e ↦ none | ok a ↦ work a ]) s)
  unfolding ◌>>=◌ lift
  lift_performs work k (err e) = refl
  lift_performs work k (ok a) = k a

  -- A path parameter is read in the same way.
  parse_performs :
      (work : A → Option Work)
      → ((a : A) → (f a (fresh s)).1 ≡ fresh (perform_named (work a) s))
      → (e : Error) (o : Option A)
      → ((lift (or_raise o e) >>= f) (fresh s)).1
        ≡ fresh (perform_named (elim o [ none ↦ none | some a ↦ work a ]) s)
  unfolding ◌>>=◌ lift
  parse_performs work k e none = refl
  parse_performs work k e (some a) = k a

-- A unit of work ends in a fresh session.
work_fresh {ℓ} :
    ⦃w : World⦄ {A : Type ℓ} (x : Work) (m : Action A) (s : Server)
    → perform x s ≡ in_session (close m) s
    → (close m (fresh s)).1 ≡ fresh (perform x s)
unfolding close in_session responding
work_fresh x m s same = ap fresh (sym same)

module _ ⦃w : World⦄ (s : Server) where
  ingest_event-fresh :
      (race : Race) (body : Submission) (cid : String)
      → (ingest_event race body cid (fresh s)).1 ≡ fresh (perform (ingest race body cid) s)
  unfolding ingest_event perform
  ingest_event-fresh race body cid = work_fresh (ingest race body cid) _ s refl

  cancel_account_outreach-fresh :
      (account reason cid : String)
      → (cancel_account_outreach account reason cid (fresh s)).1
        ≡ fresh (perform (cancel account reason cid) s)
  unfolding cancel_account_outreach perform
  cancel_account_outreach-fresh account reason cid = work_fresh (cancel account reason cid) _ s refl

  record_delivery_result-fresh :
      (meanwhile : Database → Database) (id : String) (status : DeliveryStatus)
      (message : Option String) (details : Fields)
      → (record_delivery_result meanwhile id status message details (fresh s)).1
        ≡ fresh (perform (deliver meanwhile id status message details) s)
  unfolding record_delivery_result perform
  record_delivery_result-fresh meanwhile id status message details =
      work_fresh (deliver meanwhile id status message details) _ s refl

module _ ⦃w : World⦄ ⦃p : Pydantic⦄ (settings : Settings) where
  route_performs :
      (r : Request) (cid : String) (s : Server)
      → (route settings r cid (fresh s)).1 ≡ fresh (perform_named (named_work r cid) s)
  unfolding route
  route_performs (post_event race body) cid s =
      lift_performs _ s (λ request. some (ingest race (submission_of request) cid))
        (λ request.
          bind_still _ (λ response. pure-IsStill _) _ s _
            (ingest_event-fresh s race (submission_of request) cid))
        (inbound_event_request body)
  route_performs (post_cancel_outreach account body) cid s =
      lift_performs _ s (λ reason. some (cancel account reason cid))
        (λ reason.
          bind_still _ (λ n. pure-IsStill _) _ s _
            (cancel_account_outreach-fresh s account reason cid))
        (cancel_outreach_request body)
  route_performs (post_delivery_result meanwhile task_id body) cid s =
      parse_performs _ s
        (λ id. elim (delivery_result_request body) [
          | err e ↦ none
          | ok r ↦ some (deliver meanwhile id r.status r.provider_message_id r.details)
        ])
        (λ id.
          lift_performs _ s
            (λ r. some (deliver meanwhile id r.status r.provider_message_id r.details))
            (λ r.
              bind_still _
                (λ task. bind-IsStill _ (λ response. pure-IsStill _) _ (respond_with-IsStill task))
                _ s _
                (record_delivery_result-fresh s meanwhile id r.status r.provider_message_id
                  r.details))
            (delivery_result_request body))
        invalid (p.as_uuid task_id)
  route_performs (get_one_task task_id) cid s =
      (bind-IsStill _
          (λ id.
            bind-IsStill _
              (λ task. bind-IsStill _ (λ response. pure-IsStill _) _ (respond_with-IsStill task)) _
              (get_task-IsStill id))
          _ (lift-IsStill _)).at
        s
  route_performs (get_tasks filters limit) cid s =
      (bind-IsStill _
          (λ found. bind-IsStill _ (λ rs. pure-IsStill _) _ (respond_with_all-IsStill found)) _
          (list_tasks-IsStill filters limit)).at
        s
  route_performs (get_audit correlation) cid s =
      (bind-IsStill _ (λ found. pure-IsStill _) _ (list_audit_events-IsStill correlation)).at s
  route_performs get_healthz cid s = (pure-IsStill _).at s

  -- the part of the middleware after the correlation id
  abbrev answer : Request → String → Action Response
  answer r cid = do
    outcome ← attempt (route settings r cid)
    pure (record { correlation_id = cid; outcome = outcome })

  answer_performs :
      (r : Request) (cid : String) (s : Server)
      → (answer r cid (fresh s)).1 ≡ fresh (perform_named (named_work r cid) s)
  answer_performs r cid s =
      bind_still _ (λ outcome. pure-IsStill _) (attempt (route settings r cid)) s _
        (unfold attempt in route_performs r cid s)

  middleware_performs :
      (header : Option String) (r : Request) (s : Server)
      → (correlation_id_middleware header (route settings r) (fresh s)).1
        ≡ fresh (perform_named (named_work r (request_id header s).0) (request_id header s).1)
  unfolding correlation_id_middleware correlation_id_from_header ◌>>=◌ reading pure
  middleware_performs none r s = answer_performs r _ (fresh_id s).1
  middleware_performs (some value) r s = by_parsed (w.parse_uuid value)
    where
      id_of : Option String → String × Server
      id_of o = elim o [ none ↦ fresh_id s | some id ↦ (id, s) ]

      by_parsed :
          (o : Option String)
          → ((elim o [ none ↦ reading w.uuid4 | some id ↦ pure id ] >>= answer r) (fresh s)).1
            ≡ fresh (perform_named (named_work r (id_of o).0) (id_of o).1)
      by_parsed none = answer_performs r _ (fresh_id s).1
      by_parsed (some id) = answer_performs r id s

  pub serve_performs :
      (header : Option String) (r : Request) (s : Server)
      → let (cid, t) = request_id header s in
        (serve settings header r s).1 ≡ perform_named (named_work r cid) t
  unfolding serve responding
  serve_performs header r s =
      ap (λ z. record { database = z.committed; tick = z.tick }) (middleware_performs header r s)
