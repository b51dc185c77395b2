-- ===== src/Demo/Run/Moves.antt =====
-- How the run of the demo moves the service.
use ai_compliance_orquestrat.Planner.PolicyEvent.{contains}
use ai_compliance_orquestrat.Api.{InboundEventResponse}
use ai_compliance_orquestrat.Http.Refined.{IsFairRequest, serve-Runs}
use ai_compliance_orquestrat.DateTime.{DateTime}
use ai_compliance_orquestrat.Demo.{DemoScenario}
use ai_compliance_orquestrat.Json.{Fields}
use ai_compliance_orquestrat.Http.{Request, get_healthz, post_event, get_tasks, get_audit}
use ai_compliance_orquestrat.Api.Readers.{Pydantic}
use ai_compliance_orquestrat.World.{World}
use ai_compliance_orquestrat.Settings.{Settings}
use ai_compliance_orquestrat.System.Runs.{Runs, stays, Runs-trans}
use ai_compliance_orquestrat.System.{Server, IsFairWork}
use ai_compliance_orquestrat.Demo.Run.{
  Client, forward, ◌>>=◌, done, from_result, request_json, post_events, follow_up, run_scenario,
  run_each, run_scenarios, accepted_of,
}
use ai_compliance_orquestrat.Errors.{Result, ok, err}
use ai_compliance_orquestrat.Prelude.{
  String, List, Bool, Option, if◌then◌else◌, ◌∷◌, none, some, true, [], false,
}

-- The service is moved by units of work alone.
record Moves {ℓ} ⦃w : World⦄ {A : Type ℓ} (m : Client A) : Type 0 where
  by : (s : Server) → Runs IsFairWork s (m s).1

module _ ⦃w : World⦄ where
  Moves-done {ℓ} : {A : Type ℓ} (a : A) → Moves (done a)
  unfolding done
  Moves-done a = record { by = λ s. stays }

  Moves-from_result {ℓ} : {A : Type ℓ} (r : Result A) → Moves (from_result r)
  unfolding from_result
  Moves-from_result r = record { by = λ s. stays }

  forward-Runs {ℓ κ} :
      {A : Type ℓ} {B : Type κ} (f : A → Client B)
      → ((a : A) → Moves (f a))
      → (r : Result A) (t : Server) → Runs IsFairWork t (forward r f t).1
  forward-Runs f kf (ok a) t = (kf a).by t
  forward-Runs f kf (err e) t = stays

  Moves-bind {ℓ κ} :
      {A : Type ℓ} {B : Type κ} (m : Client A) (f : A → Client B)
      → Moves m
      → ((a : A) → Moves (f a))
      → Moves (m >>= f)
  unfolding ◌>>=◌
  Moves-bind m f km kf = record {
    by = λ s. Runs-trans (km.by s) (forward-Runs f kf (m s).0 (m s).1);
  }

module _ ⦃w : World⦄ ⦃p : Pydantic⦄ (settings : Settings) where
  request_json-Moves : (r : Request) → IsFairRequest r → Moves (request_json settings r)
  unfolding request_json
  request_json-Moves r fair = record { by = λ s. serve-Runs settings none r s fair }

  post_events-Moves :
      (events : List Fields) (last : Option InboundEventResponse)
      → Moves (post_events settings events last)
  unfolding post_events
  post_events-Moves [] last = Moves-done last
  post_events-Moves (event ∷ rest) last =
      Moves-bind _ _ (request_json-Moves (post_event none event) tt)
        λ reply. post_events-Moves rest (accepted_of reply)

  follow_up-Moves :
      (events : List Fields) (last : Option InboundEventResponse)
      → Moves (follow_up settings events last)
  unfolding follow_up
  follow_up-Moves events none = Moves-done tt
  follow_up-Moves events (some last) =
      Moves-bind _ _ (request_json-Moves (get_tasks _ 20) tt)
        λ tasks. Moves-bind _ _ (request_json-Moves (get_audit _) tt) λ audit. Moves-done tt

  run_if-Moves :
      (b : Bool) (scenario : DemoScenario)
      → Moves (if b then run_scenario settings scenario else done tt)
  unfolding run_scenario
  run_if-Moves true scenario =
      Moves-bind _ _ (post_events-Moves scenario.events none)
        λ last. follow_up-Moves scenario.events last
  run_if-Moves false scenario = Moves-done tt

  run_each-Moves :
      (names : List String) (scenarios : List DemoScenario)
      → Moves (run_each settings names scenarios)
  unfolding run_each
  run_each-Moves names [] = Moves-done tt
  run_each-Moves names (scenario ∷ rest) =
      Moves-bind _ _ (run_if-Moves (contains scenario.name names) scenario)
        λ _. run_each-Moves names rest

  run_scenarios-Moves :
      (now : DateTime) (names : List String) → Moves (run_scenarios settings now names)
  unfolding run_scenarios
  run_scenarios-Moves now names =
      Moves-bind _ _ (request_json-Moves get_healthz tt)
        λ health. Moves-bind _ _ (Moves-from_result _) λ scenarios. run_each-Moves names scenarios

  -- Whatever scenarios are selected and however the run ends, the demo moves the service by units of
  -- work of `perform` and readings of uuid4 only.
  pub run_scenarios-Runs :
      (now : DateTime) (names : List String) (s : Server)
      → Runs IsFairWork s (run_scenarios settings now names s).1
  run_scenarios-Runs now names = (run_scenarios-Moves now names).by
