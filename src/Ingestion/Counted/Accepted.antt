-- ===== src/Ingestion/Counted/Accepted.antt =====
-- `plan_outreach_for_event` and the acceptance of an event: what the replay counts after them.
use ai_compliance_orquestrat.World.{World}
use ai_compliance_orquestrat.DateTime.{DateTime}
use ai_compliance_orquestrat.Errors.{Error, ok, or_raise}
use ai_compliance_orquestrat.Evolution.Unique.{is_event}
use ai_compliance_orquestrat.Ingestion.{accept_event, audit_stage}
use ai_compliance_orquestrat.Ingestion.Counted.{Counts, UuidsDiffer}
use ai_compliance_orquestrat.Ingestion.Counted.Handled.{plan_kind-Counts}
use ai_compliance_orquestrat.Ingestion.Counted.TaskRows.{entry-other}
use ai_compliance_orquestrat.Ingestion.Replay.{
  EventIngestionResult, existing_result, result_from_planner,
}
use ai_compliance_orquestrat.Ingestion.Snapshots.{Submission}
use ai_compliance_orquestrat.Models.{InboundEvent}
use ai_compliance_orquestrat.Planner.{
  aware_now, plan_outreach_for_event, plan_kind, event_kind, default_frequency_cap,
}
use ai_compliance_orquestrat.Planner.Effects.{load_customer_and_account}
use ai_compliance_orquestrat.Planner.PolicyEvent.{PlannerResult, no_effects}
use ai_compliance_orquestrat.Session.{Session, Action, ◌>>=◌, ◌>>◌, commit, modify, pure, reading}
use ai_compliance_orquestrat.Session.Triples.{
  Anything, Ends, Triple, Triple-bind, Triple-gets, Triple-gets_any, Triple-lift, Triple-lift_any,
  Triple-pure,
}
use ai_compliance_orquestrat.Tables.{update_inbound_event, update_rows}
use ai_compliance_orquestrat.Prelude.{
  Bool, List, Option, String, ℕ, ◌≡◌, arith, eq_iff, find, none, refl, some, subst, find_holds,
  ◌==◌, ◌∙◌, if◌then◌else◌, Bool-cases, inl, inr, find-Grows, Grows-map,
}

-- what a planner has counted before it works
abbrev pub nothing_yet : String → PlannerResult
nothing_yet id = record {
  inbound_event_id = id;
  created_tasks = 0;
  cancelled_tasks = 0;
  policy_decisions = 0;
  blocked_attempts = 0;
  deferred_attempts = 0;
}

or_raise-some :
    {A : Type 0} (found : Option A) (e : Error) (a : A) → or_raise found e ≡ ok a → found ≡ some a
or_raise-some none e a h = absurd (cc)
or_raise-some (some b) e a h = cc

module _ ⦃w : World⦄ (differ : UuidsDiffer w) (source external_id : String) where
  abbrev pub At : String → PlannerResult → Session → Type 0
  At id r s = Counts source external_id id r s

  reading-At :
      {A : Type 0} (id : String) (r : PlannerResult) (f : ℕ → A)
      → Triple (At id r) (reading f) (λ _. At id r) Anything
  unfolding reading
  reading-At id r f = record {
    at = λ s h. record {
      created = h.created;
      blocked = h.blocked;
      deferred = h.deferred;
      cancelled = h.cancelled;
      decisions = h.decisions;
      stored = h.stored;
      fresh = λ k le.
          let x = h.fresh k (omega arith) in record { decisions = x.decisions; tasks = x.tasks };
    };
  }

  aware_now-At :
      (id : String) (r : PlannerResult) (given : Option DateTime)
      → Triple (At id r) (aware_now given) (λ _. At id r) Anything
  unfolding aware_now
  aware_now-At id r none = reading-At id r w.utc_now
  aware_now-At id r (some now) =
      Triple-bind _ _ _ (Triple-lift_any _ _ (λ s h. tt) _) (λ _. Triple-pure _ _ _)

  load-At :
      (id : String) (r : PlannerResult) (event : InboundEvent)
      → Triple (At id r) (load_customer_and_account event) (λ _. At id r) Anything
  unfolding load_customer_and_account
  load-At id r event = Triple-bind _ _ _ (Triple-gets_any _ _ _) λ found_customer.
      Triple-bind _ _ _ (Triple-lift_any _ _ (λ s h. tt) _) λ customer.
        Triple-bind _ _ _ (Triple-gets_any _ _ _) λ found_account.
          Triple-bind _ _ _ (Triple-lift_any _ _ (λ s h. tt) _)
            λ account. Triple-bind _ _ _ (Triple-lift_any _ _ (λ s h. tt) _) λ _. Triple-pure _ _ _

  -- the planner once it has the event
  abbrev planned : InboundEvent → String → DateTime → ℕ → Action PlannerResult
  planned event cid now cap = load_customer_and_account event >>= λ c.
      plan_kind event c.0 c.1 cid (event_kind event.event_type) now cap

  planned-At :
      (event : InboundEvent) (cid : String) (now : DateTime) (cap : ℕ)
      → Triple (At event.id (no_effects event)) (planned event cid now cap) (At event.id) Anything
  planned-At event cid now cap = Triple-bind _ _ _ (load-At event.id (no_effects event) event) λ c.
      plan_kind-Counts source external_id event c.0 c.1 cid differ (event_kind event.event_type) now
        cap

  plan_outreach_for_event-Counts :
      (id cid : String) (given : Option DateTime) (cap : ℕ)
      → Triple (At id (nothing_yet id)) (plan_outreach_for_event id cid given cap) (At id) Anything
  unfolding plan_outreach_for_event
  plan_outreach_for_event-Counts id cid given cap =
      Triple-bind _ _ _ (aware_now-At id _ given) λ now.
        Triple-bind _ _ _ (Triple-gets _ _ _) λ found.
          Triple-bind _ _ _ (Triple-lift _ _ (λ s h. tt) _) λ event. record {
            at = λ s h.
                let same : event.id ≡ id = (eq_iff event.id id).0 (
                  find_holds (λ e. e.id == id) s.db.inbound_events
                    (h.0.1 ∙ or_raise-some found _ event h.1)) in
                subst
                  (λ i.
                    At i (nothing_yet i) s
                    → Ends (At i) Anything (planned event cid now cap s).0
                        (planned event cid now cap s).1)
                  same ((planned-At event cid now cap).at s) h.0.0;
          }

  -- The answer is what the replay counts, of tables that are durable.
  abbrev pub Answers : EventIngestionResult → Session → Type 0
  Answers x s =
      ((event : InboundEvent) × (find (is_event source external_id) s.db.inbound_events
          ≡ some event)
        × (existing_result event s.db ≡ x))
      × (s.committed ≡ s.db)

  Counts-existing :
      (event : InboundEvent) (id : String) (r : PlannerResult) (s : Session)
      → event.id ≡ id
      → At id r s
      → existing_result event s.db ≡ result_from_planner id r
  unfolding existing_result result_from_planner
  Counts-existing event id r s same h =
      rw (same, h.created, h.blocked, h.deferred, h.cancelled, h.decisions) refl

  -- the id and the identity of an event
  abbrev SameEvent : InboundEvent → InboundEvent → Type 0
  SameEvent a b = (b.id ≡ a.id) × (is_event source external_id b ≡ is_event source external_id a)

  find-updated :
      (p : InboundEvent → Bool) (f : InboundEvent → InboundEvent)
      → ((e : InboundEvent) → is_event source external_id (f e) ≡ is_event source external_id e)
      → ((e : InboundEvent) → (f e).id ≡ e.id)
      → (rows : List InboundEvent) (x : InboundEvent)
      → find (is_event source external_id) rows ≡ some x
      → (y : InboundEvent) × (find (is_event source external_id) (update_rows p f rows) ≡ some y)
        × (y.id ≡ x.id)
  find-updated p f same kept rows x h =
      let (y, again, own) =
        find-Grows SameEvent (is_event source external_id) (λ a b k. k.1) rows
          (update_rows p f rows) (Grows-map SameEvent _ updated rows) h in
      (y, again, own.0)
    where
      updated : (e : InboundEvent) → SameEvent e (if p e then f e else e)
      updated e = elim (Bool-cases (p e)) [
        | inl k ↦ rw k (kept e, same e)
        | inr k ↦ rw k (refl, refl)
      ]

  status_row-At :
      (id key : String) (r : PlannerResult) (f : InboundEvent → InboundEvent)
      → ((e : InboundEvent) → is_event source external_id (f e) ≡ is_event source external_id e)
      → ((e : InboundEvent) → (f e).id ≡ e.id)
      → Triple (At id r) (update_inbound_event key f) (λ _. At id r) Anything
  unfolding update_inbound_event modify
  status_row-At id key r f same kept = record {
    at = λ s h.
        let (x, found, own) = h.stored in
        let (y, again, whose) =
          find-updated (λ e. e.id == key) f same kept s.db.inbound_events x found in
        record {
          created = h.created;
          blocked = h.blocked;
          deferred = h.deferred;
          cancelled = h.cancelled;
          decisions = h.decisions;
          stored = (y, again, whose ∙ own);
          fresh =
              λ k le. let z = h.fresh k le in record { decisions = z.decisions; tasks = z.tasks };
        };
  }

  commit-Answers :
      (id : String) (r : PlannerResult)
      → Triple (At id r) (commit >> pure (result_from_planner id r)) Answers Anything
  unfolding commit pure ◌>>=◌
  commit-Answers id r = record {
    at = λ s h. ((h.stored.0, h.stored.1, Counts-existing h.stored.0 id r s h.stored.2 h), refl);
  }

  pub accept_event-Answers :
      (e : Submission) (event : InboundEvent) (cid : String)
      → Triple (At event.id (nothing_yet event.id)) (accept_event e event cid) Answers Anything
  unfolding accept_event audit_stage
  accept_event-Answers e event cid =
      Triple-bind _ _ _ (entry-other source external_id event cid _ _ refl) λ _.
        Triple-bind _ _ _ (entry-other source external_id event cid _ _ refl) λ _.
          Triple-bind _ _ _
            (plan_outreach_for_event-Counts event.id cid (some e.occurred_at) default_frequency_cap)
            λ r.
              Triple-bind _ _ _ (status_row-At event.id event.id r _ (λ x. refl) (λ x. refl))
                λ _. commit-Answers event.id r
