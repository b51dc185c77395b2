-- ===== src/System.antt =====
-- The whole service: the requests of src/orchestrator/api/events.py, accounts.py and tasks.py that
-- change state, and the passes of src/orchestrator/workers/dispatch.py, one after another, each in
-- a session of its own over the durable tables.
use ai_compliance_orquestrat.Errors.{Result}
use ai_compliance_orquestrat.Worker.{dispatch_due_tasks, Dispatch}
use ai_compliance_orquestrat.Json.{Fields}
use ai_compliance_orquestrat.Operational.{DeliveryStatus}
use ai_compliance_orquestrat.Evolution.{Evolves}
use ai_compliance_orquestrat.Api.{ingest_event, cancel_account_outreach, record_delivery_result}
use ai_compliance_orquestrat.Prelude.{ℕ, List, String, ◌∷◌, Option, []}
use ai_compliance_orquestrat.Ingestion.Kept.{IsFair}
use ai_compliance_orquestrat.World.{World}
use ai_compliance_orquestrat.Models.{Database, OutreachTask}
use ai_compliance_orquestrat.Ingestion.Snapshots.{Race, Submission}
pub mod Guarantees
pub mod Runs
pub mod Drained
pub mod Loop
use ai_compliance_orquestrat.Session.{Action, close}

-- One unit of work, with what the environment chooses: the request, and what other sessions
-- commit while it runs.
pub data Work : Type 0 where
  ingest : Race → Submission → String → Work
  cancel : String → String → String → Work
  deliver : (Database → Database) → String → DeliveryStatus → Option String → Fields → Work
  dispatch : Dispatch → Work

pub record Server : Type 0 where
  pub database : Database
  pub tick : ℕ

-- `async with async_session() as session`, for one unit of work, with what it returns or raises
unfoldable pub responding {ℓ} : {A : Type ℓ} → Action A → Server → Result A × Server
responding m s =
    let (r, s') = m (record { db = s.database; committed = s.database; tick = s.tick }) in
    (r, record { database = s'.committed; tick = s'.tick })

unfoldable pub in_session {ℓ} : {A : Type ℓ} → Action A → Server → Server
in_session m s = (responding m s).1

module _ ⦃w : World⦄ where
  unfoldable pub perform : Work → Server → Server
  unfolding in_session responding
  perform (ingest race body correlation_id) = in_session (ingest_event race body correlation_id)
  perform (cancel account_external_id reason correlation_id) =
      in_session (cancel_account_outreach account_external_id reason correlation_id)
  perform (deliver meanwhile task_id status message details) =
      in_session (record_delivery_result meanwhile task_id status message details)
  perform (dispatch p) = in_session (close (dispatch_due_tasks p))

  unfoldable pub perform_all : List Work → Server → Server
  perform_all [] s = s
  perform_all (x ∷ rest) s = perform_all rest (perform x s)

-- Other sessions keep the rules of the tables: they run the same program.
abbrev pub IsFairWork : Work → Type 0
IsFairWork (ingest race body correlation_id) = IsFair race
IsFairWork (cancel account_external_id reason correlation_id) = Unit
IsFairWork (deliver meanwhile task_id status message details) =
    (d : Database) → Evolves d (meanwhile d)
IsFairWork (dispatch p) = (t : OutreachTask) (d : Database) → Evolves d (p.meanwhile t d)
