-- ===== src/Tests/RequestRuns.antt =====
-- Requests with their bodies, the worker's loop and the demo, on concrete inputs.
use ai_compliance_orquestrat.Demo.Main.Effect.{IsRunOf, start, main-IsRunOf}
use ai_compliance_orquestrat.Demo.Main.{
  Surroundings, Arguments, base_url, default_arguments, target_url, main,
}
use ai_compliance_orquestrat.Http.Header.{serve_malformed_header}
use ai_compliance_orquestrat.World.{World}
use ai_compliance_orquestrat.Settings.{default_settings}
use ai_compliance_orquestrat.Demo.Payloads.{
  account_delinquent_event, opt_out_event, payment_received_event, iso,
}
use ai_compliance_orquestrat.Http.Refused.{serve_refused}
use ai_compliance_orquestrat.DateTime.{plus}
use ai_compliance_orquestrat.System.Loop.{run_loop, run_loop-IsLoopOf, IsLoopOf, passes_wanted}
use ai_compliance_orquestrat.Http.Reads.{serve-reads}
use ai_compliance_orquestrat.Http.Performs.{serve_performs, perform_named}
use ai_compliance_orquestrat.Policy.{is_aware}
use ai_compliance_orquestrat.Api.Requests.Payload.{request_of, payload_read}
use ai_compliance_orquestrat.Planner.PolicyEvent.{contains}
use ai_compliance_orquestrat.Demo.Accepted.{
  AreAccepted, demo_scenarios-AreAccepted, reset_database_lem,
}
use ai_compliance_orquestrat.Errors.{Result, ok, err}
use ai_compliance_orquestrat.Demo.{
  reset_database, demo_scenarios, reset_models, DemoScenario, demo_start_at, later,
}
use ai_compliance_orquestrat.Models.{OutreachTask, scheduled, Database, sent}
use ai_compliance_orquestrat.Http.{serve, get_one_task, post_event}
use ai_compliance_orquestrat.System.{Server, perform, ingest}
use ai_compliance_orquestrat.Api.Requests.Accepted.{
  IsValidEvent, inbound_event_request-IsValidEvent,
}
use ai_compliance_orquestrat.Ingestion.{new_inbound_event}
use ai_compliance_orquestrat.Text.{has_length, drop_trailing, is_empty}
use ai_compliance_orquestrat.Ingestion.Snapshots.{Submission}
use ai_compliance_orquestrat.Tests.Sample.{
  sample, server, submission, opted_out_customer, account, nine, tables,
}
use ai_compliance_orquestrat.Json.{Fields, Json, text, number, boolean, end, get}
use ai_compliance_orquestrat.Api.Readers.{Pydantic, PydanticLaws, pos, ℤ, required, invalid}
use ai_compliance_orquestrat.Api.Requests.{inbound_event_request, submission_of}
use ai_compliance_orquestrat.Prelude.{
  String, Option, some, none, refl, ◌≡◌, List, Bool, ◌∷◌, [], false, if◌then◌else◌, ◌==◌, ◌∙◌, ap,
}

abbrev int_of : Json → Option ℤ
int_of (number n) = some (pos n)
int_of _ = none

abbrev str_of : Json → Option String
str_of (text s) = some s
str_of _ = none

abbrev bool_of : Json → Option Bool
bool_of (boolean b) = some b
bool_of _ = none

-- Readers that take a value of the type alone; every text is nine o'clock.
instance abbrev readers : Pydantic
readers = record {
  as_str = str_of;
  as_bool = bool_of;
  as_int = int_of;
  as_datetime = λ v. some nine;
  as_uuid = λ t. some t;
}

readers_laws : PydanticLaws readers
readers_laws = record {
  as_str_text = λ s. refl;
  as_bool_boolean = λ b. refl;
  as_int_number = λ n. refl;
}

abbrev event : Submission
event = submission "ev-2" "payment_failed"

event-IsValidEvent : IsValidEvent (request_of event)
unfolding has_length contains is_aware
event-IsValidEvent = record {
  source = refl;
  external_id = refl;
  known_type = refl;
  customer = record {
    external_id = refl;
    full_name = refl;
    timezone = refl;
    zone = refl;
    phone_number = tt;
    email = tt;
  };
  account = refl;
  aware = refl;
}

abbrev body : Fields
body = (new_inbound_event event "e2" opted_out_customer account).payload

body_reads : inbound_event_request body ≡ ok (request_of event)
body_reads = payload_read readers_laws event "e2" opted_out_customer account event-IsValidEvent refl

payload_read_example :
    inbound_event_request (new_inbound_event event "e2" opted_out_customer account).payload
    ≡ ok (request_of event)
payload_read_example =
    payload_read readers_laws event "e2" opted_out_customer account event-IsValidEvent refl

inbound_event_request-IsValidEvent_example : IsValidEvent (request_of event)
inbound_event_request-IsValidEvent_example =
    inbound_event_request-IsValidEvent body (request_of event) body_reads

abbrev before : Server
before = server scheduled

serve_performs_example :
    (serve default_settings none (post_event none body) before).1
    ≡ perform
        (ingest none (submission_of (request_of event)) (sample.uuid4 0))
        (record before { tick = 1 })
serve_performs_example =
    serve_performs default_settings none (post_event none body) before
    ∙ ap
        (λ r.
          perform_named
            (elim r [
              | err e ↦ none
              | ok request ↦ some (ingest none (submission_of request) (sample.uuid4 0))
            ])
            (record before { tick = 1 }))
        body_reads

serve-reads_example :
    (serve default_settings none (get_one_task "t1") before).1.database ≡ tables scheduled
serve-reads_example = serve-reads default_settings none (get_one_task "t1") before tt

empty_refused : inbound_event_request end ≡ err invalid
unfolding inbound_event_request required get
empty_refused = refl

serve_refused_example :
    (id : String) × ((serve default_settings (some "trace") (post_event none end) before).0
      ≡ ok (record { correlation_id = id; outcome = err invalid }))
    × ((serve default_settings (some "trace") (post_event none end) before).1.database
        ≡ tables scheduled)
serve_refused_example =
    serve_refused default_settings (some "trace") (post_event none end) before
      (invalid, empty_refused)

abbrev undisturbed : List (OutreachTask → Database → Database)
undisturbed = (λ t d. d) ∷ (λ t d. d) ∷ []

run_loop-IsLoopOf_example :
    IsLoopOf (passes_wanted false undisturbed) before (run_loop false undisturbed before)
run_loop-IsLoopOf_example = run_loop-IsLoopOf false undisturbed before

reset_empties :
    reset_database reset_models (tables scheduled)
    ≡ ok (record {
      customers = [];
      accounts = [];
      inbound_events = [];
      policy_decisions = [];
      outreach_tasks = [];
      audit_events = [];
    })
reset_empties = reset_database_lem (tables scheduled)

abbrev scenarios_of : Result (List DemoScenario) → List DemoScenario
scenarios_of (ok s) = s
scenarios_of (err e) = []

demo_runs : demo_scenarios nine ≡ ok (scenarios_of (demo_scenarios nine))
unfolding demo_scenarios demo_start_at later plus account_delinquent_event opt_out_event
    payment_received_event iso
demo_runs = refl

demo_scenarios-AreAccepted_example : AreAccepted (scenarios_of (demo_scenarios nine))
unfolding is_aware
demo_scenarios-AreAccepted_example =
    demo_scenarios-AreAccepted readers_laws refl (λ d at h. (nine, refl, refl)) nine
      (scenarios_of (demo_scenarios nine)) demo_runs

-- two databases, and a service on the first one
abbrev surroundings : Surroundings
surroundings = record {
  databases = λ url. if url == "db" then tables scheduled else tables sent;
  service_at = λ url. if url == "http://localhost:8000" then some "db" else none;
  tick = 0;
}

-- the base URL with a slash, and a database of its own
abbrev arguments : Arguments
arguments = record default_arguments {
  api_url = "http://localhost:8000/";
  database_url = some "db";
}

service_listens : surroundings.service_at (base_url arguments) ≡ some "db"
unfolding base_url drop_trailing is_empty
service_listens = refl

main-IsRunOf_example :
    IsRunOf
      (surroundings.service_at (base_url arguments))
      (start false (target_url default_settings none arguments) surroundings)
      (main default_settings default_settings none nine nine arguments surroundings).1
main-IsRunOf_example =
    main-IsRunOf default_settings default_settings none nine nine arguments surroundings

-- the sample world, where no text is a UUID
abbrev no_uuids : World
no_uuids = record sample { parse_uuid = λ t. none }

serve_malformed_header_example :
    serve ⦃w = no_uuids⦄ default_settings (some "trace") (post_event none body) before
    ≡ serve ⦃w = no_uuids⦄ default_settings none (post_event none body) before
serve_malformed_header_example =
    serve_malformed_header ⦃w = no_uuids⦄ default_settings "trace" (post_event none body) before
      refl
