-- ===== src/Api/Kept.antt =====
-- Every request keeps the rules of every table in what is durable.
use ai_compliance_orquestrat.Worker.Kept.{others-Advances}
use ai_compliance_orquestrat.Operational.Kept.{
  cancel_scheduled_account_outreach-Advances, record_manual_delivery_result-Advances,
}
use ai_compliance_orquestrat.Json.{Fields}
use ai_compliance_orquestrat.Ingestion.Kept.{IsFair, ingest_event_snapshot-Advances}
use ai_compliance_orquestrat.Evolution.{Evolves-trans, Evolves}
use ai_compliance_orquestrat.Ingestion.Snapshots.{Race, Submission}
use ai_compliance_orquestrat.Ingestion.Replay.{EventIngestionResult}
use ai_compliance_orquestrat.Session.Rules.{
  Advances, Extends, extends_rules, Advances-close, Advances-bind, Advances-rollback,
  Advances-Extends, Extends-raise, Extends-pure, Extends-lift,
}
use ai_compliance_orquestrat.Prelude.{String, Option}
use ai_compliance_orquestrat.Models.{OutreachTaskStatus, OutreachTask, Database}
use ai_compliance_orquestrat.Errors.{
  Result, err, event_ingestion_validation_error, task_state_conflict_error, ok,
}
use ai_compliance_orquestrat.World.{World}
use ai_compliance_orquestrat.Operational.{
  find_account_by_external_id, get_outreach_task, DeliveryStatus,
}
use ai_compliance_orquestrat.Api.{
  handling, validation_to_http, conflict_to_http, check_deliverable, ingest_event,
  cancel_account_outreach, record_delivery_result,
}
use ai_compliance_orquestrat.Session.{Action}

handling-Advances {ℓ} :
    {A : Type ℓ} (m : Action A) (handler : Result A → Action A)
    → Advances m
    → ((r : Result A) → Advances (handler r))
    → Advances (handling m handler)
unfolding handling
handling-Advances m handler km kh = record {
  at = λ s h.
      let first = km.at s h in
      let rest = (kh (m s).0).at (m s).1 first.1 in (Evolves-trans first.0 rest.0, rest.1);
}

validation_to_http-Advances : (r : Result EventIngestionResult) → Advances (validation_to_http r)
unfolding validation_to_http
validation_to_http-Advances (err (event_ingestion_validation_error message)) =
    Advances-bind _ _ Advances-rollback (λ _. Advances-Extends _ (Extends-raise _))
validation_to_http-Advances (err e) = Advances-Extends _ (Extends-raise _)
validation_to_http-Advances (ok r) = Advances-Extends _ (Extends-pure r)

conflict_to_http-Advances : (r : Result OutreachTask) → Advances (conflict_to_http r)
unfolding conflict_to_http
conflict_to_http-Advances (err (task_state_conflict_error message)) =
    Advances-Extends _ (Extends-raise _)
conflict_to_http-Advances (err e) = Advances-Extends _ (Extends-raise _)
conflict_to_http-Advances (ok t) = Advances-Extends _ (Extends-pure t)

check_deliverable-Extends : (status : OutreachTaskStatus) → Extends (check_deliverable status)
unfolding check_deliverable
check_deliverable-Extends status = search extends_rules

find_account-Extends : (external_id : String) → Extends (find_account_by_external_id external_id)
unfolding find_account_by_external_id
find_account-Extends external_id = search extends_rules

get_outreach_task-Extends : (id : String) → Extends (get_outreach_task id)
unfolding get_outreach_task
get_outreach_task-Extends id = search extends_rules

module _ ⦃w : World⦄ where
  pub ingest_event-Advances :
      (race : Race)
      → IsFair race
      → (body : Submission) (correlation_id : String)
      → Advances (ingest_event race body correlation_id)
  unfolding ingest_event
  ingest_event-Advances race fair body correlation_id = Advances-close _ (
      Advances-bind _ _
        (handling-Advances _ _ (ingest_event_snapshot-Advances race fair body correlation_id)
          validation_to_http-Advances)
        (λ r. Advances-Extends _ (Extends-pure _)))

  pub cancel_account_outreach-Advances :
      (account_external_id reason correlation_id : String)
      → Advances (cancel_account_outreach account_external_id reason correlation_id)
  unfolding cancel_account_outreach
  cancel_account_outreach-Advances account_external_id reason correlation_id = Advances-close _ (
      Advances-bind _ _ (Advances-Extends _ (find_account-Extends account_external_id)) λ found.
        Advances-bind _ _ (Advances-Extends _ (Extends-lift _))
          λ account. cancel_scheduled_account_outreach-Advances account reason correlation_id)

  pub record_delivery_result-Advances :
      (meanwhile : Database → Database)
      → ((d : Database) → Evolves d (meanwhile d))
      → (task_id : String) (status : DeliveryStatus) (message : Option String) (details : Fields)
      → Advances (record_delivery_result meanwhile task_id status message details)
  unfolding record_delivery_result
  record_delivery_result-Advances meanwhile fair task_id status message details = Advances-close _ (
      Advances-bind _ _ (Advances-Extends _ (get_outreach_task-Extends task_id)) λ found.
        Advances-bind _ _ (Advances-Extends _ (Extends-lift _)) λ task.
          Advances-bind _ _ (Advances-Extends _ (check_deliverable-Extends task.status)) λ _.
            Advances-bind _ _ (others-Advances meanwhile fair) λ _.
              handling-Advances _ _
                (record_manual_delivery_result-Advances task status message details)
                conflict_to_http-Advances)
