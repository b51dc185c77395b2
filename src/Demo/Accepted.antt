-- ===== src/Demo/Accepted.antt =====
-- The API accepts the demo's events, and the database its reset.
use ai_compliance_orquestrat.Demo.Bodies.{
  IsAccepted, event_body-IsAccepted, customer_body-read, account_body-read,
}
use ai_compliance_orquestrat.Demo.Payloads.{
  Delinquency, iso, account_delinquent_event, opt_out_event, payment_received_event,
}
use ai_compliance_orquestrat.Demo.{
  reset_database, delete_rows, is_referred_to, is_present, without, reset_models, DemoScenario,
  demo_scenarios, demo_start_at, later, jane_doe, sam_taylor, maria_santos,
}
use ai_compliance_orquestrat.World.{World}
use ai_compliance_orquestrat.DateTime.{DateTime, hour, minute}
use ai_compliance_orquestrat.Policy.{is_aware}
use ai_compliance_orquestrat.Text.{has_length}
use ai_compliance_orquestrat.Json.{text}
use ai_compliance_orquestrat.Errors.{ok}
use ai_compliance_orquestrat.Errors.Ensures.{
  Ensures, returns, Ensures-bind, Ensures-after, Ensures_ok, Ensures-itself,
}
use ai_compliance_orquestrat.Models.{Database, AccountStatus}
use ai_compliance_orquestrat.Planner.PolicyEvent.{contains}
use ai_compliance_orquestrat.Api.Readers.{Pydantic, PydanticLaws}
use ai_compliance_orquestrat.Prelude.{String, List, All, ◌≡◌, true, refl, [], some, false, ◌*◌}

-- Whatever the tables hold, the models are deleted in an order that no foreign key refuses, and all
-- six tables are empty afterwards.
pub reset_database_lem :
    (d : Database)
    → reset_database reset_models d
      ≡ ok (record {
        customers = [];
        accounts = [];
        inbound_events = [];
        policy_decisions = [];
        outreach_tasks = [];
        audit_events = [];
      })
unfolding reset_database delete_rows is_referred_to is_present without
reset_database_lem d = refl

module _ ⦃w : World⦄ ⦃p : Pydantic⦄ where
  -- all events of all scenarios
  abbrev pub AreAccepted : List DemoScenario → Type 0
  AreAccepted scenarios = All (λ s. All IsAccepted s.events) scenarios

  module _ (laws : PydanticLaws p) (zone : w.zone_exists "America/New_York" ≡ true) where
    -- Texts of an event, each within the bounds of its field.
    abbrev IsFitting : Delinquency → Type 0
    IsFitting e =
        (has_length 1 255 e.external_id ≡ true)
        × (has_length 1 255 e.customer_external_id ≡ true)
        × (has_length 1 255 e.account_external_id ≡ true)
        × (has_length 1 255 e.full_name ≡ true)
        × (has_length 0 255 e.email ≡ true)
        × (has_length 0 64 e.phone_number ≡ true)

    module _
        (reads_back : (d : DateTime) (at : String)
          → iso d ≡ ok at
          → (t : DateTime) × (p.as_datetime (text at) ≡ some t) × (is_aware t ≡ true)) where
      account_delinquent_event-Ensures :
          (e : Delinquency) (d : DateTime)
          → IsFitting e
          → Ensures IsAccepted (account_delinquent_event e d)
      unfolding account_delinquent_event contains
      account_delinquent_event-Ensures e d (h1, h2, h3, h4, h5, h6) =
          Ensures-bind _ (λ at. iso d ≡ ok at) _ _ (Ensures-itself (iso d))
            λ at h.
              let (t, r, aware) = reads_back d at h in
              returns _ (
                event_body-IsAccepted laws zone _ _ _ _ at _ _ _ t h1 refl
                  (customer_body-read laws zone _ _ _ _ true h2 h4 h5 h6)
                  (account_body-read laws zone _ AccountStatus.delinquent _ _ h3) r aware)

      opt_out_event-Ensures :
          (id c a : String) (d : DateTime)
          → has_length 1 255 id ≡ true
          → has_length 1 255 c ≡ true
          → has_length 1 255 a ≡ true
          → Ensures IsAccepted (opt_out_event id c a d)
      unfolding opt_out_event contains has_length
      opt_out_event-Ensures id c a d h1 h2 h3 =
          Ensures-bind _ (λ at. iso d ≡ ok at) _ _ (Ensures-itself (iso d))
            λ at h.
              let (t, r, aware) = reads_back d at h in
              returns _ (
                event_body-IsAccepted laws zone _ _ _ _ at _ _ _ t h1 refl
                  (customer_body-read laws zone _ _ _ _ false h2 refl refl refl)
                  (account_body-read laws zone _ AccountStatus.delinquent _ _ h3) r aware)

      payment_received_event-Ensures :
          (id c a : String) (d : DateTime)
          → has_length 1 255 id ≡ true
          → has_length 1 255 c ≡ true
          → has_length 1 255 a ≡ true
          → Ensures IsAccepted (payment_received_event id c a d)
      unfolding payment_received_event contains has_length
      payment_received_event-Ensures id c a d h1 h2 h3 =
          Ensures-bind _ (λ at. iso d ≡ ok at) _ _ (Ensures-itself (iso d))
            λ at h.
              let (t, r, aware) = reads_back d at h in
              returns _ (
                event_body-IsAccepted laws zone _ _ _ _ at _ _ _ t h1 refl
                  (customer_body-read laws zone _ _ _ _ true h2 refl refl refl)
                  (account_body-read laws zone _ AccountStatus.resolved _ _ h3) r aware)

      demo_scenarios-Ensures : (now : DateTime) → Ensures AreAccepted (demo_scenarios now)
      unfolding demo_scenarios has_length
      demo_scenarios-Ensures now = Ensures-after _ (demo_start_at now) _ λ start_at.
          Ensures-after _ (later start_at hour) _ λ payment_start_at.
            Ensures-bind _ IsAccepted _ _
              (account_delinquent_event-Ensures jane_doe start_at
                (refl, refl, refl, refl, refl, refl))
              λ happy h1. Ensures-after _ (later start_at (10 * minute)) _ λ opt_out_at.
                Ensures-bind _ IsAccepted _ _
                  (opt_out_event-Ensures _ _ _ opt_out_at refl refl refl)
                  λ opt_out h2. Ensures-after _ (later start_at (20 * minute)) _ λ followup_at.
                    Ensures-bind _ IsAccepted _ _
                      (account_delinquent_event-Ensures sam_taylor followup_at
                        (refl, refl, refl, refl, refl, refl))
                      λ followup h3.
                        Ensures-bind _ IsAccepted _ _
                          (account_delinquent_event-Ensures maria_santos payment_start_at
                            (refl, refl, refl, refl, refl, refl))
                          λ before_payment h4.
                            Ensures-after _ (later payment_start_at (15 * minute)) _ λ payment_at.
                              Ensures-bind _ IsAccepted _ _
                                (payment_received_event-Ensures _ _ _ payment_at refl refl refl)
                                λ payment h5.
                                  returns _ ((h1, tt), ((h2, (h3, tt)), ((h4, (h5, tt)), tt)))

      -- Whenever the demo is run, the API accepts the body of each event of each scenario, if the
      -- zone America/New_York is known and the time that `_iso` writes reads back as an aware one.
      pub demo_scenarios-AreAccepted :
          (now : DateTime) (scenarios : List DemoScenario)
          → demo_scenarios now ≡ ok scenarios
          → AreAccepted scenarios
      demo_scenarios-AreAccepted now = Ensures_ok AreAccepted (demo_scenarios-Ensures now)
