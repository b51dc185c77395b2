-- ===== src/Ingestion/Once.antt =====
-- Repeated and failed submissions of src/orchestrator/domain/event_ingestion.py, and the key of
-- inbound_events.py.
use ai_compliance_orquestrat.Evolution.Unique.{is_event}
use ai_compliance_orquestrat.Planner.{default_frequency_cap}
use ai_compliance_orquestrat.Planner.Kept.{plan_outreach_for_event-Extends}
use ai_compliance_orquestrat.Errors.{Error, err, ok}
use ai_compliance_orquestrat.Ingestion.Kept.{
  audit_stage-Extends, find_existing_event-Extends, upsert_customer-Extends,
  answer_or_raise-Extends, insert_event-Extends, upsert_account-Extends, status_row-Extends,
  result_from_existing_event-Extends,
}
use ai_compliance_orquestrat.Ingestion.Replay.{
  result_from_existing_event, existing_result, result_from_planner,
}
use ai_compliance_orquestrat.Session.Rules.{
  Atomic, Atomic-bind, Atomic-Extends, Atomic-if, Extends-reading, Atomic-commit-pure,
}
use ai_compliance_orquestrat.Ingestion.Snapshots.{
  Race, Submission, find_existing_event, attempt, flush_inbound_event,
}
use ai_compliance_orquestrat.Models.{InboundEvent, api_client, system}
use ai_compliance_orquestrat.Ingestion.{
  inbound_event_idempotency_key, ingest_event_snapshot, accept_event, recover, ingest_found,
  ingest_new_event, new_inbound_event,
}
use ai_compliance_orquestrat.World.{World}
use ai_compliance_orquestrat.Prelude.{
  String, concat, ◌≡◌, Option, find, none, some, if◌then◌else◌, refl, ap,
}
use text.Mathlib.TextLemmas.{append_assoc}
use ai_compliance_orquestrat.Session.{◌>>=◌, Session, rollback}

module _ ⦃w : World⦄ (race : Race) (e : Submission) (correlation_id : String) where
  -- A submission of a known event answers from the rows of that event and changes nothing at all,
  -- whatever else the submission says.
  pub duplicate_unchanged :
      (s : Session) {event : InboundEvent}
      → find (is_event e.source e.external_id) s.db.inbound_events ≡ some event
      → ingest_event_snapshot race e correlation_id s ≡ (ok (existing_result event s.db), s)
  unfolding ingest_event_snapshot ingest_found find_existing_event result_from_existing_event ◌>>=◌
  duplicate_unchanged s h = rw h

  accept_event-Atomic : (event : InboundEvent) → Atomic (accept_event e event correlation_id)
  unfolding accept_event
  accept_event-Atomic event =
      Atomic-bind _ _
        (λ s. ((audit_stage-Extends e event correlation_id "event_received" api_client).at s).1)
        λ _.
          Atomic-bind _ _
            (λ s. ((audit_stage-Extends e event correlation_id "event_accepted" system).at s).1)
            λ _.
              Atomic-bind _ _
                (λ s.
                  ((plan_outreach_for_event-Extends event.id correlation_id (some e.occurred_at)
                      default_frequency_cap).at
                    s).1)
                λ r.
                  Atomic-bind _ _ (λ s. ((status_row-Extends event).at s).1)
                    λ _. Atomic-commit-pure (result_from_planner event.id r)

  recover-Atomic : Atomic (recover e)
  unfolding recover
  recover-Atomic = Atomic-bind _ _ (unfold rollback in λ s. refl) λ _.
      Atomic-bind _ _ (λ s. ((find_existing_event-Extends e.source e.external_id).at s).1)
        λ found. Atomic-Extends _ (answer_or_raise-Extends found)

module _ ⦃w : World⦄ (e : Submission) (correlation_id : String) where
  insert_and_accept-Atomic :
      (event : InboundEvent)
      → Atomic (do
        flushed ← attempt (flush_inbound_event none event)
        if flushed then accept_event e event correlation_id else recover e)
  insert_and_accept-Atomic event =
      Atomic-bind _ _ (unfold attempt in λ s. ((insert_event-Extends event).at s).1) λ flushed.
        Atomic-if flushed _ _ (accept_event-Atomic none e correlation_id event)
          (recover-Atomic none e correlation_id)

  ingest_found-Atomic :
      (found : Option InboundEvent) → Atomic (ingest_found none e correlation_id found)
  unfolding ingest_found ingest_new_event
  ingest_found-Atomic none =
      Atomic-bind _ _ (λ s. ((upsert_customer-Extends e.customer).at s).1)
        λ customer.
          Atomic-bind _ _ (λ s. ((upsert_account-Extends e.account customer).at s).1)
            λ account.
              Atomic-bind _ _ (λ s. ((Extends-reading w.uuid4).at s).1)
                λ id. insert_and_accept-Atomic (new_inbound_event e id customer account)
  ingest_found-Atomic (some event) = Atomic-Extends _ (result_from_existing_event-Extends event)

  -- Without a race, an ingestion that raises leaves nothing durable: not the snapshots, not the event, no audit
  -- row, no decision and no task.
  pub ingest_event_snapshot-Atomic :
      (s : Session) (x : Error)
      → (ingest_event_snapshot none e correlation_id s).0 ≡ err x
      → (ingest_event_snapshot none e correlation_id s).1.committed ≡ s.committed
  unfolding ingest_event_snapshot
  ingest_event_snapshot-Atomic =
      (Atomic-bind _ _ (λ s. ((find_existing_event-Extends e.source e.external_id).at s).1)
        ingest_found-Atomic).at

append-two :
    (a s b c : String)
    → concat a (concat s (concat b (concat s c))) ≡ concat (concat a (concat s b)) (concat s c)
append-two a s b c = rw (append_assoc, append_assoc)

-- The hashed text is ambiguous: with the separator inside an identity, two different identities
-- have one key, whatever the hash.
pub idempotency_key_ambiguous :
    ⦃w : World⦄ (a b c : String)
    → inbound_event_idempotency_key a (concat b (concat "\u{1f}" c))
      ≡ inbound_event_idempotency_key (concat a (concat "\u{1f}" b)) c
unfolding inbound_event_idempotency_key
idempotency_key_ambiguous ⦃w⦄ a b c =
    ap (λ t. concat "inbound_event:" (w.sha256_hexdigest t)) (append-two a "\u{1f}" b c)
