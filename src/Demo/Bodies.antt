-- ===== src/Demo/Bodies.antt =====
-- What the API's request models make of the demo's bodies.
use ai_compliance_orquestrat.Demo.Payloads.{customer_body, account_body, event_body}
use ai_compliance_orquestrat.World.{World}
use ai_compliance_orquestrat.DateTime.{DateTime}
use ai_compliance_orquestrat.Policy.{is_aware}
use ai_compliance_orquestrat.Text.{has_length}
use ai_compliance_orquestrat.Json.{Fields, text, get}
use ai_compliance_orquestrat.Errors.{ok}
use ai_compliance_orquestrat.Models.{AccountStatus, account_status_value}
use ai_compliance_orquestrat.Planner.PolicyEvent.{contains}
use ai_compliance_orquestrat.Api.Readers.{
  Pydantic, PydanticLaws, required, defaulted, as_object, checked,
}
use ai_compliance_orquestrat.Api.Requests.{
  InboundEventRequest, CustomerSnapshotRequest, AccountSnapshotRequest, inbound_event_request,
  customer_request, account_request, event_types, identity_field, occurred_at_field,
}
use ai_compliance_orquestrat.Api.Requests.Payload.{
  bounded_text_text, event_type_text, status_text, natural_number, timezone_text, nullable_text,
}
use ai_compliance_orquestrat.Prelude.{String, ℕ, Bool, ◌≡◌, true, refl, some}

module _ ⦃w : World⦄ ⦃p : Pydantic⦄ where
  -- The API reads the body as a request.
  abbrev pub IsAccepted : Fields → Type 0
  IsAccepted body = (e : InboundEventRequest) × (inbound_event_request body ≡ ok e)

  abbrev customer_read :
      (external_id full_name email phone_number : String) → Bool → CustomerSnapshotRequest
  customer_read external_id full_name email phone_number consent = record {
    external_id = external_id;
    full_name = full_name;
    timezone = "America/New_York";
    phone_number = some phone_number;
    email = some email;
    sms_consent = consent;
    call_consent = consent;
    email_consent = consent;
  }

  module _ (laws : PydanticLaws p) (zone : w.zone_exists "America/New_York" ≡ true) where
    pub customer_body-read :
        (external_id full_name email phone_number : String) (consent : Bool)
        → has_length 1 255 external_id ≡ true
        → has_length 1 255 full_name ≡ true
        → has_length 0 255 email ≡ true
        → has_length 0 64 phone_number ≡ true
        → customer_request (customer_body external_id full_name email phone_number consent)
          ≡ ok (customer_read external_id full_name email phone_number consent)
    unfolding customer_request customer_body required defaulted get identity_field has_length
    customer_body-read external_id full_name email phone_number consent h1 h2 h3 h4 = simp (
      bounded_text_text laws 1 255 external_id h1,
      bounded_text_text laws 1 255 full_name h2,
      timezone_text laws "America/New_York" refl zone,
      nullable_text laws 64 (some phone_number) h4,
      nullable_text laws 255 (some email) h3,
      laws.as_bool_boolean,
    )

    pub account_body-read :
        (external_id : String) (status : AccountStatus) (balance_cents days_past_due : ℕ)
        → has_length 1 255 external_id ≡ true
        → account_request
            (account_body external_id (account_status_value status) balance_cents days_past_due)
          ≡ ok (record {
            external_id = external_id;
            status = status;
            balance_cents = balance_cents;
            days_past_due = days_past_due;
          })
    unfolding account_request account_body required defaulted get identity_field
    account_body-read external_id status balance_cents days_past_due h =
        simp
          (bounded_text_text laws 1 255 external_id h, status_text laws status, natural_number laws)

    pub event_body-IsAccepted :
        (external_id event_type : String) (customer account : Fields) (at : String)
        (metadata : Fields) (c : CustomerSnapshotRequest) (a : AccountSnapshotRequest)
        (t : DateTime)
        → has_length 1 255 external_id ≡ true
        → contains event_type event_types ≡ true
        → customer_request customer ≡ ok c
        → account_request account ≡ ok a
        → p.as_datetime (text at) ≡ some t
        → is_aware t ≡ true
        → IsAccepted (event_body external_id event_type customer account at metadata)
    unfolding inbound_event_request event_body required defaulted get identity_field as_object
        occurred_at_field checked has_length
    event_body-IsAccepted external_id event_type customer account at metadata c a t h1 h2 h3 h4 h5
          h6 =
        (
          record {
            source = "demo_script";
            external_id = external_id;
            event_type = event_type;
            customer = c;
            account = a;
            occurred_at = t;
            metadata = metadata;
          },
          simp (
            bounded_text_text laws 1 255 "demo_script" refl,
            bounded_text_text laws 1 255 external_id h1,
            event_type_text laws event_type h2,
            h3,
            h4,
            h5,
            h6,
          ),
        )
