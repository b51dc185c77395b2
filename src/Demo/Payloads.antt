-- ===== src/Demo/Payloads.antt =====
-- scripts/seed_demo.py: the bodies of the demo's events.
use ai_compliance_orquestrat.World.{World}
use ai_compliance_orquestrat.DateTime.{DateTime}
use ai_compliance_orquestrat.Json.{Fields, field, text, number, boolean, object, end}
use ai_compliance_orquestrat.Errors.{Result, ok, or_raise, overflow_error, ◌>>=◌}
use ai_compliance_orquestrat.Prelude.{ℕ, String, Bool, true, false}

-- the keyword arguments of `_account_delinquent_event`, but for the time
pub record Delinquency : Type 0 where
  pub external_id : String
  pub customer_external_id : String
  pub account_external_id : String
  pub full_name : String
  pub email : String
  pub phone_number : String
  pub balance_cents : ℕ
  pub days_past_due : ℕ

-- `_customer`, with one argument for its three consents, which its callers give together
unfoldable pub customer_body : (external_id full_name email phone_number : String) → Bool → Fields
customer_body external_id full_name email phone_number consent =
    field "external_id" (text external_id) (
      field "full_name" (text full_name) (
        field "timezone" (text "America/New_York") (
          field "phone_number" (text phone_number) (
            field "email" (text email) (
              field "sms_consent" (boolean consent) (
                field "call_consent" (boolean consent)
                  (field "email_consent" (boolean consent) end)))))))

unfoldable pub account_body :
    (external_id status : String) → (balance_cents days_past_due : ℕ) → Fields
account_body external_id status balance_cents days_past_due =
    field "external_id" (text external_id) (
      field "status" (text status) (
        field "balance_cents" (number balance_cents)
          (field "days_past_due" (number days_past_due) end)))

-- the dict that the three kinds of event share
unfoldable pub event_body :
    (external_id event_type : String)
    → (customer account : Fields) → (occurred_at : String) → (metadata : Fields) → Fields
event_body external_id event_type customer account occurred_at metadata =
    field "source" (text "demo_script") (
      field "external_id" (text external_id) (
        field "event_type" (text event_type) (
          field "customer" (object customer) (
            field "account" (object account)
              (field "occurred_at" (text occurred_at) (field "metadata" (object metadata) end))))))

module _ ⦃w : World⦄ where
  -- `_iso`
  unfoldable pub iso : DateTime → Result String
  iso value = do utc ← or_raise (w.astimezone value "UTC") overflow_error; ok (w.isoformat utc)

  unfoldable pub account_delinquent_event : Delinquency → DateTime → Result Fields
  unfolding event_body customer_body account_body iso
  account_delinquent_event e occurred_at = do
    at ← iso occurred_at
    ok (
        event_body e.external_id "account_delinquent"
          (customer_body e.customer_external_id e.full_name e.email e.phone_number true)
          (account_body e.account_external_id "delinquent" e.balance_cents e.days_past_due) at
          (field "demo_scenario" (boolean true) end))

  unfoldable pub opt_out_event :
      (external_id customer_external_id account_external_id : String) → DateTime → Result Fields
  unfolding event_body customer_body account_body iso
  opt_out_event external_id customer_external_id account_external_id occurred_at = do
    at ← iso occurred_at
    ok (
        event_body external_id "opt_out_received"
          (customer_body customer_external_id "Sam Taylor" "sam.taylor@example.com" "+12125550100"
            false)
          (account_body account_external_id "delinquent" 5400 7) at
          (field "demo_scenario" (boolean true) (
            field "opt_out"
              (object (field "channel" (text "sms") (field "message" (text "STOP") end))) end)))

  unfoldable pub payment_received_event :
      (external_id customer_external_id account_external_id : String) → DateTime → Result Fields
  unfolding event_body customer_body account_body iso
  payment_received_event external_id customer_external_id account_external_id occurred_at = do
    at ← iso occurred_at
    ok (
        event_body external_id "payment_received"
          (customer_body customer_external_id "Maria Santos" "maria.santos@example.com"
            "+16465550100" true)
          (account_body account_external_id "resolved" 0 0) at
          (field "demo_scenario" (boolean true) (
            field "payment"
              (object (
                field "amount_cents" (number 12500)
                  (field "provider_reference" (text "pay_demo_001") end)))
              end)))
