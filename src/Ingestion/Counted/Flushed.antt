-- ===== src/Ingestion/Counted/Flushed.antt =====
-- The insert of the event: for an event with a new id nothing is counted yet.
use ai_compliance_orquestrat.Tables.OneRow.{count-none_below}
use ai_compliance_orquestrat.World.{World}
use ai_compliance_orquestrat.Evolution.Unique.{is_event}
use ai_compliance_orquestrat.Ingestion.Counted.{Counts, count_created-none}
use ai_compliance_orquestrat.Ingestion.Replay.{is_cancellation_by, has_outcome}
use ai_compliance_orquestrat.Ingestion.Snapshots.{
  Race, Submission, attempt, flush_inbound_event, lose_race, violates_unique,
}
use ai_compliance_orquestrat.Models.{
  Database, InboundEvent, PolicyDecisionOutcome, PolicyDecision, block, defer,
}
use ai_compliance_orquestrat.Planner.Effects.{is_decision_of}
use ai_compliance_orquestrat.Session.{Session, ◌>>=◌, gets, lift, modify}
use ai_compliance_orquestrat.Session.Triples.{Anything, Ends, Triple}
use ai_compliance_orquestrat.Tables.{add_inbound_event}
use ai_compliance_orquestrat.Prelude.{
  Bool, List, Option, String, ◌≡◌, [], ◌∷◌, arith, count, eq_iff, false, find, none, refl, some,
  subst, sym, true, ◌∙◌, ◌++◌, find-append_none,
}
use ai_compliance_orquestrat.Ingestion.Counted.Accepted.{nothing_yet}
use ai_compliance_orquestrat.Ingestion.Counted.Unused.{IsNew}

has_outcome-own :
    (id : String) (o : PolicyDecisionOutcome) (d : PolicyDecision)
    → has_outcome id o d ≡ true
    → is_decision_of id d ≡ true
unfolding has_outcome
has_outcome-own id o d h = ground (arith)

find-violates_none :
    (event : InboundEvent) (rows : List InboundEvent)
    → find (violates_unique event) rows ≡ none
    → find (is_event event.source event.external_id) rows ≡ none
unfolding find violates_unique
find-violates_none event [] h = refl
find-violates_none event (r ∷ rs) h = ground (arith, find-violates_none event rs)

abbrev IsUnusedFor : String → Database → Type 0
IsUnusedFor id d =
    (count (is_decision_of id) d.policy_decisions ≡ 0)
    × (count (is_cancellation_by id) d.audit_events ≡ 0)

module _ ⦃w : World⦄ (e : Submission) where
  -- The event was inserted: nothing is counted yet.
  flushed-Counts :
      (event : InboundEvent) (s : Session)
      → event.source ≡ e.source
      → event.external_id ≡ e.external_id
      → find (is_event e.source e.external_id) s.db.inbound_events ≡ none
      → IsNew event.id s
      → Counts e.source e.external_id event.id
          (nothing_yet event.id)
          (record s { db = record s.db { inbound_events = s.db.inbound_events ++ event ∷ [] } })
  unfolding find
  flushed-Counts event s from same absent new =
      let (j, given, unused) = new.1 in
      let own : IsUnusedFor event.id s.db =
        subst (λ i. IsUnusedFor i s.db) (sym given) (unused.2, unused.3) in
      let named : is_event e.source e.external_id event ≡ true =
        ground (
          arith,
          from,
          same,
          eq_iff event.source e.source,
          eq_iff event.external_id e.external_id,
        ) in
      record {
        created = count_created-none event.id s.db.outreach_tasks s.db.policy_decisions own.0;
        blocked = outcome_none block own.0;
        deferred = outcome_none defer own.0;
        cancelled = own.1;
        decisions = own.0;
        stored = (
          event,
          find-append_none (is_event e.source e.external_id) s.db.inbound_events (event ∷ []) absent
              ∙ rw named refl,
          refl,
        );
        fresh = λ k le. let x = new.0 k le in record { decisions = x.0; tasks = x.1 };
      }
    where
      outcome_none :
          (o : PolicyDecisionOutcome)
          → count (is_decision_of event.id) s.db.policy_decisions ≡ 0
          → count (has_outcome event.id o) s.db.policy_decisions ≡ 0
      outcome_none o none_of =
          count-none_below (is_decision_of event.id) (has_outcome event.id o)
            (has_outcome-own event.id o) s.db.policy_decisions none_of

  -- what the insert leaves
  abbrev pub Flushed : String → Bool → Session → Type 0
  Flushed id true s = Counts e.source e.external_id id (nothing_yet id) s
  Flushed id false s = Unit

  flush_alone :
      (event : InboundEvent)
      → event.source ≡ e.source
      → event.external_id ≡ e.external_id
      → Triple
          (IsNew event.id)
          (attempt (flush_inbound_event none event))
          (Flushed event.id)
          Anything
  unfolding attempt flush_inbound_event ◌>>=◌ gets lift add_inbound_event modify
  flush_alone event from same = record {
    at = λ s h. by_taken s h (find (violates_unique event) s.db.inbound_events) refl;
  }
    where
      by_taken :
          (s : Session)
          → IsNew event.id s
          → (taken : Option InboundEvent) → find (violates_unique event) s.db.inbound_events ≡ taken
          → Ends
              (Flushed event.id)
              Anything
              (attempt (flush_inbound_event none event) s).0
              (attempt (flush_inbound_event none event) s).1
      by_taken s h none k = rw k (
          flushed-Counts event s from same
            (subst (λ i. find (is_event e.source i) s.db.inbound_events ≡ none) same
              (subst (λ v. find (is_event v event.external_id) s.db.inbound_events ≡ none) from
                (find-violates_none event s.db.inbound_events k)))
            h)
      by_taken s h (some x) k = rw k tt

  pub flush-Flushed :
      (rivals : Race) (event : InboundEvent)
      → event.source ≡ e.source
      → event.external_id ≡ e.external_id
      → Triple
          (IsNew event.id)
          (attempt (flush_inbound_event rivals event))
          (Flushed event.id)
          Anything
  unfolding flush_inbound_event lose_race attempt
  flush-Flushed (some rival) event from same = record { at = λ s h. tt }
  flush-Flushed none event from same = flush_alone event from same
