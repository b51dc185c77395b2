-- ===== src/Ingestion/Repeats.antt =====
-- A repeated submission gets the answer of the first one: what `ingest_event_snapshot` returned is
-- what `_result_from_existing_event` later counts.
use ai_compliance_orquestrat.World.{World}
use ai_compliance_orquestrat.Errors.{ok}
use ai_compliance_orquestrat.Evolution.Unique.{is_event}
use ai_compliance_orquestrat.Ingestion.{
  accept_event, answer_or_raise, ingest_event_snapshot, ingest_found, ingest_new_event,
  new_inbound_event, recover,
}
use ai_compliance_orquestrat.Ingestion.Counted.{UuidsDiffer}
use ai_compliance_orquestrat.Ingestion.Once.{duplicate_unchanged}
use ai_compliance_orquestrat.Ingestion.Replay.{
  EventIngestionResult, existing_result, result_from_existing_event,
}
use ai_compliance_orquestrat.Ingestion.Snapshots.{Race, Submission, find_existing_event}
use ai_compliance_orquestrat.Models.{InboundEvent}
use ai_compliance_orquestrat.Session.{Session, gets, rollback, raise}
use ai_compliance_orquestrat.Session.Triples.{
  Anything, Ends, Triple, Triple-bind, Triple-gets, Triple-weaken,
}
use ai_compliance_orquestrat.Prelude.{
  Bool, Option, String, ◌≡◌, ap, false, find, none, refl, some, subst, true, ◌∙◌, if◌then◌else◌,
}
use ai_compliance_orquestrat.Ingestion.Counted.Accepted.{Answers, accept_event-Answers}
use ai_compliance_orquestrat.Ingestion.Counted.Unused.{
  event_id-IsNew, AreUnused, upsert_customer-AreUnused, upsert_account-AreUnused,
}
use ai_compliance_orquestrat.Ingestion.Counted.Flushed.{Flushed, flush-Flushed}

module _ ⦃w : World⦄ (differ : UuidsDiffer w) (race : Race) (e : Submission) (cid : String) where
  abbrev Answered : EventIngestionResult → Session → Type 0
  Answered = Answers differ e.source e.external_id

  answer-Answered :
      (found : Option InboundEvent)
      → Triple
          (λ s.
            (s.committed ≡ s.db)
            × (find (is_event e.source e.external_id) s.db.inbound_events ≡ found))
          (answer_or_raise found)
          Answered
          Anything
  unfolding answer_or_raise result_from_existing_event gets raise
  answer-Answered none = record { at = λ s h. tt }
  answer-Answered (some event) = record { at = λ s h. ((event, h.1, refl), h.0) }

  rollback_settles : Triple Anything rollback (λ _ s. s.committed ≡ s.db) Anything
  unfolding rollback
  rollback_settles = record { at = λ s h. refl }

  recover-Answered : Triple Anything (recover e) Answered Anything
  unfolding recover find_existing_event
  recover-Answered =
      Triple-bind _ _ _ rollback_settles
        λ _. Triple-bind _ _ _ (Triple-gets _ _ _) (λ found. answer-Answered found)

  finish-Answered :
      (event : InboundEvent) (flushed : Bool)
      → Triple
          (Flushed e event.id flushed)
          (if flushed then accept_event e event cid else recover e)
          Answered
          Anything
  finish-Answered event true = accept_event-Answers differ e.source e.external_id e event cid
  finish-Answered event false = Triple-weaken _ _ _ (λ s h. tt) (λ _ s h. h) recover-Answered

  ingest_new_event-Answered : Triple AreUnused (ingest_new_event race e cid) Answered Anything
  unfolding ingest_new_event new_inbound_event
  ingest_new_event-Answered = Triple-bind _ _ _ (upsert_customer-AreUnused e.customer) λ customer.
      Triple-bind _ _ _ (upsert_account-AreUnused e.account customer) λ account.
        Triple-bind _ _ _ event_id-IsNew λ id.
          Triple-bind _ _ _
            (flush-Flushed e race (new_inbound_event e id customer account) refl refl)
            (λ flushed. finish-Answered (new_inbound_event e id customer account) flushed)

  ingest_found-Answered :
      (found : Option InboundEvent)
      → Triple
          (λ s.
            (AreUnused s × (s.committed ≡ s.db))
            × (find (is_event e.source e.external_id) s.db.inbound_events ≡ found))
          (ingest_found race e cid found)
          Answered
          Anything
  unfolding ingest_found answer_or_raise result_from_existing_event
  ingest_found-Answered none =
      Triple-weaken _ _ _ (λ s h. h.0.0) (λ _ s h. h) ingest_new_event-Answered
  ingest_found-Answered (some event) =
      Triple-weaken _ _ _ (λ s h. (h.0.1, h.1)) (λ _ s h. h) (answer-Answered (some event))

  ingest-Answered :
      Triple
        (λ s. AreUnused s × (s.committed ≡ s.db))
        (ingest_event_snapshot race e cid)
        Answered
        Anything
  unfolding ingest_event_snapshot find_existing_event
  ingest-Answered = Triple-bind _ _ _ (Triple-gets _ _ _) (λ found. ingest_found-Answered found)

  -- If an ingestion returns a result, whatever race it met, then a submission with the same source
  -- and external id, whatever else it says, in a later session that sees what the first one made
  -- durable, answers with the same result and changes nothing: the counts that the planner
  -- returned are those that the replay takes from the rows. The first ingestion starts with nothing
  -- uncommitted; uuid4 gives no id twice, and none that a row mentions already.
  pub repeat_answers_same :
      (s : Session) (result : EventIngestionResult)
      → AreUnused s
      → s.committed ≡ s.db
      → (ingest_event_snapshot race e cid s).0 ≡ ok result
      → (race' : Race) (again : Submission) (cid' : String) (t : Session) → again.source ≡ e.source
      → again.external_id ≡ e.external_id
      → t.db ≡ (ingest_event_snapshot race e cid s).1.committed
      → ingest_event_snapshot race' again cid' t ≡ (ok result, t)
  repeat_answers_same s result unused settled returned race' again cid' t from same sees =
      let after = (ingest_event_snapshot race e cid s).1 in
      let ((event, found, counted), durable) =
        subst (λ r. Ends Answered Anything r after) returned
          (ingest-Answered.at s (unused, settled)) in
      let view : t.db ≡ after.db = sees ∙ durable in
      let known : find (is_event again.source again.external_id) t.db.inbound_events ≡ some event =
        rw (from, same, view) found in
      duplicate_unchanged race' again cid' t known
      ∙ ap (λ x. (ok x, t)) (ap (existing_result event) view ∙ counted)
