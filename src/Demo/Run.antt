-- ===== src/Demo/Run.antt =====
-- scripts/seed_demo.py: `run_scenarios` against the service. Printing is left out; what the script
-- prints is what it read.
pub mod Moves
use ai_compliance_orquestrat.DateTime.{DateTime}
use ai_compliance_orquestrat.World.{World}
use ai_compliance_orquestrat.Settings.{Settings}
use ai_compliance_orquestrat.Json.{Fields, get, object, text}
use ai_compliance_orquestrat.Errors.{Result, Error, ok, err, runtime_error}
use ai_compliance_orquestrat.System.{Server, IsFairWork}
use ai_compliance_orquestrat.System.Runs.{Runs, stays, Runs-trans}
use ai_compliance_orquestrat.Http.{
  Request, Reply, Response, serve, post_event, get_tasks, get_audit, get_healthz, event_accepted,
}
use ai_compliance_orquestrat.Http.Refined.{serve-Runs, IsFairRequest}
use ai_compliance_orquestrat.Api.{InboundEventResponse}
use ai_compliance_orquestrat.Api.Readers.{Pydantic}
use ai_compliance_orquestrat.Operational.{TaskFilters}
use ai_compliance_orquestrat.Demo.{DemoScenario, demo_scenarios}
use ai_compliance_orquestrat.Planner.PolicyEvent.{contains}
use ai_compliance_orquestrat.Prelude.{
  ℕ, String, List, Option, some, none, [], ◌∷◌, if◌then◌else◌, map, Bool,
}

-- `selected_scenarios`, where the set is a list
unfoldable pub selected_scenarios : List DemoScenario → Option (List String) → List String
selected_scenarios scenarios none = map (λ s. s.name) scenarios
selected_scenarios scenarios (some values) =
    if contains "all" values then map (λ s. s.name) scenarios else values

-- `DemoApiClient._request`: the body of a success; a status of 400 or more, or a failure of the
-- service, is a RuntimeError
unfoldable pub response_body : Result Response → Result Reply
response_body (err e) = err (runtime_error "failed with 500")
response_body (ok response) = elim response.outcome [
  | err e ↦ err (runtime_error "failed")
  | ok reply ↦ ok reply
]

-- the response to an event that was accepted
unfoldable pub accepted_of : Reply → Option InboundEventResponse
accepted_of (event_accepted response) = some response
accepted_of _ = none

-- `event["account"]["external_id"]`
unfoldable pub account_of_event : Fields → Option String
account_of_event event = elim (get "account" event) [
  | some (object account) ↦ elim (get "external_id" account) [ some (text s) ↦ some s | _ ↦ none ]
  | _ ↦ none
]

-- The client's calls pass a state of the service on, or end with an error.
abbrev pub Client {ℓ} : Type ℓ → Type ℓ
Client A = Server → Result A × Server

module _ {ℓ κ} {A : Type ℓ} {B : Type κ} where
  abbrev pub forward : Result A → (A → Client B) → Client B
  forward (ok a) f s = f a s
  forward (err e) f s = (err e, s)

  infixl 5 ◌>>=◌ ◌>>◌
  unfoldable pub ◌>>=◌ : Client A → (A → Client B) → Client B
  ◌>>=◌ m f s = let (r, t) = m s in forward r f t

  abbrev pub ◌>>◌ : Client A → Client B → Client B
  m >> k = m >>= λ _. k

unfoldable pub done {ℓ} : {A : Type ℓ} → A → Client A
done a s = (ok a, s)

unfoldable pub from_result {ℓ} : {A : Type ℓ} → Result A → Client A
from_result r s = (r, s)

abbrev pub by_account : Option String → TaskFilters
by_account account = record {
  status = none;
  customer_external_id = none;
  account_external_id = account;
  channel = none;
}

module _ ⦃w : World⦄ ⦃p : Pydantic⦄ (settings : Settings) where
  -- one request; the script sends no X-Correlation-ID
  unfoldable pub request_json : Request → Client Reply
  unfolding response_body
  request_json request s = let (r, t) = serve settings none request s in (response_body r, t)

  -- the loop over the events, with the last response
  unfoldable pub post_events :
      List Fields → Option InboundEventResponse → Client (Option InboundEventResponse)
  unfolding request_json done ◌>>=◌ accepted_of
  post_events [] last_response = done last_response
  post_events (event ∷ rest) last_response = do
    reply ← request_json (post_event none event)
    post_events rest (accepted_of reply)

  -- the tasks and the audit rows that the script prints
  unfoldable pub follow_up : List Fields → Option InboundEventResponse → Client (Unit {0})
  unfolding request_json done ◌>>=◌ account_of_event
  follow_up events none = done tt
  follow_up events (some last_response) = do
    request_json (get_tasks (by_account (last_account events)) 20)
    request_json (get_audit (some last_response.correlation_id))
    done tt
    where
      last_account : List Fields → Option String
      last_account [] = none
      last_account (event ∷ []) = account_of_event event
      last_account (_ ∷ rest) = last_account rest

  unfoldable pub run_scenario : DemoScenario → Client (Unit {0})
  unfolding post_events follow_up ◌>>=◌
  run_scenario scenario = do
    last_response ← post_events scenario.events none
    follow_up scenario.events last_response

  unfoldable pub run_each : List String → List DemoScenario → Client (Unit {0})
  unfolding run_scenario done ◌>>=◌
  run_each scenario_names [] = done tt
  run_each scenario_names (scenario ∷ rest) = do
    if contains scenario.name scenario_names then run_scenario scenario else done tt
    run_each scenario_names rest

  -- `run_scenarios`, at the time `now`
  unfoldable pub run_scenarios : DateTime → List String → Client (Unit {0})
  unfolding run_each request_json ◌>>=◌ from_result
  run_scenarios now scenario_names = do
    request_json get_healthz
    scenarios ← from_result (demo_scenarios now)
    run_each scenario_names scenarios
