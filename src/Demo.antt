-- ===== src/Demo.antt =====
-- scripts/seed_demo.py: the scenarios, the reset of the tables, and the run against the service.
pub mod Payloads
pub mod Bodies
pub mod Accepted
pub mod Run
pub mod Main
use ai_compliance_orquestrat.World.{World}
use ai_compliance_orquestrat.DateTime.{DateTime, plus, replace_time, hour, minute, day}
use ai_compliance_orquestrat.Json.{Fields, get, object, text}
use ai_compliance_orquestrat.Models.{Database}
use ai_compliance_orquestrat.Errors.{
  Result, ok, err, or_raise, overflow_error, runtime_error, raise_if, ◌>>=◌, ◌>>◌, integrity_error,
}
use ai_compliance_orquestrat.Demo.Payloads.{
  Delinquency, account_delinquent_event, opt_out_event, payment_received_event,
}
use ai_compliance_orquestrat.Prelude.{
  ℕ, String, List, Option, Bool, [], ◌∷◌, ◌*◌, ◌||◌, not, false, true,
}

pub record DemoScenario : Type 0 where
  pub name : String
  pub description : String
  pub events : List Fields

-- RESET_MODELS
pub data Model : Type 0 where
  audit_event outreach_task policy_decision inbound_event account customer : Model

abbrev pub reset_models : List Model
reset_models =
    audit_event ∷ outreach_task ∷ policy_decision ∷ inbound_event ∷ account ∷ customer ∷ []

unfoldable pub is_present {ℓ} : {A : Type ℓ} → List A → Bool
is_present [] = false
is_present (a ∷ rest) = true

-- rows whose foreign keys refer to rows of the model
unfoldable pub is_referred_to : Model → Database → Bool
unfolding is_present
is_referred_to audit_event d = false
is_referred_to outreach_task d = false
is_referred_to policy_decision d = is_present d.outreach_tasks
is_referred_to inbound_event d = is_present d.policy_decisions
is_referred_to account d = is_present d.outreach_tasks || is_present d.policy_decisions
is_referred_to customer d =
    is_present d.accounts || (is_present d.outreach_tasks || is_present d.policy_decisions)

unfoldable pub without : Model → Database → Database
without audit_event d = record d { audit_events = [] }
without outreach_task d = record d { outreach_tasks = [] }
without policy_decision d = record d { policy_decisions = [] }
without inbound_event d = record d { inbound_events = [] }
without account d = record d { accounts = [] }
without customer d = record d { customers = [] }

-- `DELETE FROM` a table. The database refuses it if rows refer to the deleted ones; here it is
-- refused if a table that refers to it has any rows, which is no less often.
unfoldable pub delete_rows : Model → Database → Result Database
unfolding is_referred_to without
delete_rows model d = do raise_if (is_referred_to model d) integrity_error; ok (without model d)

-- in one transaction
unfoldable pub reset_database : List Model → Database → Result Database
unfolding delete_rows
reset_database [] d = ok d
reset_database (model ∷ rest) d = do d' ← delete_rows model d; reset_database rest d'

abbrev pub jane_doe : Delinquency
jane_doe = record {
  external_id = "evt_demo_happy_path_delinquent";
  customer_external_id = "cust_demo_jane_doe";
  account_external_id = "acct_demo_jane_doe";
  full_name = "Jane Doe";
  email = "jane.doe@example.com";
  phone_number = "+14155550100";
  balance_cents = 12500;
  days_past_due = 14;
}

abbrev pub sam_taylor : Delinquency
sam_taylor = record {
  external_id = "evt_demo_opt_out_followup_delinquent";
  customer_external_id = "cust_demo_sam_taylor";
  account_external_id = "acct_demo_sam_taylor";
  full_name = "Sam Taylor";
  email = "sam.taylor@example.com";
  phone_number = "+12125550100";
  balance_cents = 5400;
  days_past_due = 7;
}

abbrev pub maria_santos : Delinquency
maria_santos = record {
  external_id = "evt_demo_payment_before_delinquent";
  customer_external_id = "cust_demo_maria_santos";
  account_external_id = "acct_demo_maria_santos";
  full_name = "Maria Santos";
  email = "maria.santos@example.com";
  phone_number = "+16465550100";
  balance_cents = 12500;
  days_past_due = 21;
}

-- `d + timedelta(...)`
unfoldable pub later : DateTime → ℕ → Result DateTime
later d delta = or_raise (plus d delta) overflow_error

-- `_demo_start_at`, at the time `now`
unfoldable pub demo_start_at : DateTime → Result DateTime
unfolding later
demo_start_at now = do tomorrow ← later now day; ok (replace_time tomorrow (15 * hour))

module _ ⦃w : World⦄ where
  unfoldable pub demo_scenarios : DateTime → Result (List DemoScenario)
  unfolding demo_start_at
  demo_scenarios now = do
    start_at ← demo_start_at now
    payment_start_at ← later start_at hour
    happy ← account_delinquent_event jane_doe start_at
    opt_out_at ← later start_at (10 * minute)
    opt_out ←
        opt_out_event "evt_demo_opt_out_received" "cust_demo_sam_taylor" "acct_demo_sam_taylor"
          opt_out_at
    followup_at ← later start_at (20 * minute)
    followup ← account_delinquent_event sam_taylor followup_at
    before_payment ← account_delinquent_event maria_santos payment_start_at
    payment_at ← later payment_start_at (15 * minute)
    payment ←
        payment_received_event "evt_demo_payment_received" "cust_demo_maria_santos"
          "acct_demo_maria_santos" payment_at
    ok (
        record {
          name = "happy_path_delinquent_account";
          description =
              "Delinquent account with all channel consents schedules email, SMS, and call outreach.";
          events = happy ∷ [];
        }
        ∷ record {
          name = "opt_out_blocks_future_outreach";
          description =
              "Opt-out event records durable opt-out state; a later delinquency event is blocked by policy.";
          events = opt_out ∷ followup ∷ [];
        }
        ∷ record {
          name = "payment_received_cancels_scheduled_outreach";
          description =
              "A delinquency event schedules outreach; a payment event for the same account cancels the pending work.";
          events = before_payment ∷ payment ∷ [];
        }
        ∷ [])
