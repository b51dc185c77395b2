-- ===== src/Api/Requests.antt =====
-- src/orchestrator/api: the request models of events.py, accounts.py and tasks.py. A field is read
-- from the decoded JSON body by pydantic's reader of its type, then checked as the model says.
pub mod Accepted
pub mod Payload
pub mod Refused
use ai_compliance_orquestrat.Api.Readers.{
  Pydantic, invalid, checked, required, defaulted, nullable, non_negative, as_object, bounded_text,
}
use ai_compliance_orquestrat.Policy.{is_aware}
use ai_compliance_orquestrat.Planner.PolicyEvent.{contains}
use ai_compliance_orquestrat.Text.{has_length, is_empty, strip}
use ai_compliance_orquestrat.Models.{AccountStatus}
use ai_compliance_orquestrat.DateTime.{DateTime}
use ai_compliance_orquestrat.Ingestion.Snapshots.{Submission}
use ai_compliance_orquestrat.World.{World}
use ai_compliance_orquestrat.Errors.{
  Error, http_exception, Result, ◌>>=◌, err, ok, ◌>>◌, or_raise, raise_if,
}
use ai_compliance_orquestrat.Operational.{DeliveryStatus, marked_sent, marked_failed}
use ai_compliance_orquestrat.Json.{Json, Fields, text, object, get, boolean, null, end, number}
use ai_compliance_orquestrat.Prelude.{
  ℕ, String, List, Bool, Option, ◌∷◌, some, ◌≡◌, [], if◌then◌else◌, none, ◌==◌, false,
}

-- events.py
pub record CustomerSnapshotRequest : Type 0 where
  pub external_id : String
  pub full_name : String
  pub timezone : String
  pub phone_number : Option String
  pub email : Option String
  pub sms_consent : Bool
  pub call_consent : Bool
  pub email_consent : Bool

pub record AccountSnapshotRequest : Type 0 where
  pub external_id : String
  pub status : AccountStatus
  pub balance_cents : ℕ
  pub days_past_due : ℕ

pub record InboundEventRequest : Type 0 where
  pub source : String
  pub external_id : String
  pub event_type : String
  pub customer : CustomerSnapshotRequest
  pub account : AccountSnapshotRequest
  pub occurred_at : DateTime
  pub metadata : Fields

-- tasks.py
pub record DeliveryResultRequest : Type 0 where
  pub status : DeliveryStatus
  pub provider_message_id : Option String
  pub details : Fields

-- the Literal `EventType`
abbrev pub event_types : List String
event_types =
    "account_delinquent" ∷ "payment_failed" ∷ "payment_received" ∷ "hardship_requested"
    ∷ "opt_out_received" ∷ "account_paused" ∷ []

-- the StrEnum by its values
unfoldable pub account_status_of : String → Option AccountStatus
account_status_of s =
    if s == "current"
    then some AccountStatus.current
    else if s == "delinquent"
    then some AccountStatus.delinquent
    else if s == "resolved"
    then some AccountStatus.resolved
    else if s == "paused"
    then some AccountStatus.paused
    else none

unfoldable pub as_account_status : Json → Option AccountStatus
unfolding account_status_of
as_account_status (text s) = account_status_of s
as_account_status _ = none

-- Literal["sent", "failed"]
unfoldable pub as_delivery_status : Json → Option DeliveryStatus
as_delivery_status (text s) =
    if s == "sent" then some marked_sent else if s == "failed" then some marked_failed else none
as_delivery_status _ = none

module _ ⦃p : Pydantic⦄ where
  unfoldable pub identity_field : Json → Option String
  unfolding bounded_text
  identity_field = bounded_text 1 255

  unfoldable pub as_event_type : Json → Option String
  as_event_type v = checked (λ s. contains s event_types) (p.as_str v)

  unfoldable pub account_request : Fields → Result AccountSnapshotRequest
  unfolding identity_field as_account_status
  account_request fs = do
    external_id ← required identity_field "external_id" fs
    status ← required as_account_status "status" fs
    balance_cents ← defaulted (λ v. non_negative (p.as_int v)) 0 "balance_cents" fs
    days_past_due ← defaulted (λ v. non_negative (p.as_int v)) 0 "days_past_due" fs
    ok (record {
      external_id = external_id;
      status = status;
      balance_cents = balance_cents;
      days_past_due = days_past_due;
    })

  unfoldable pub delivery_result_request : Fields → Result DeliveryResultRequest
  unfolding as_delivery_status bounded_text
  delivery_result_request fs = do
    status ← required as_delivery_status "status" fs
    provider_message_id ← defaulted (nullable (bounded_text 0 255)) none "provider_message_id" fs
    details ← defaulted as_object end "details" fs
    ok (record { status = status; provider_message_id = provider_message_id; details = details })

  -- accounts.py: `CancelOutreachRequest`, its reason stripped
  unfoldable pub cancel_outreach_request : Fields → Result String
  unfolding bounded_text
  cancel_outreach_request fs = do
    reason ← required (bounded_text 1 500) "reason" fs
    raise_if (is_empty (strip reason)) invalid
    ok (strip reason)

  module _ ⦃w : World⦄ where
    -- `validate_timezone`
    unfoldable pub timezone_field : Json → Option String
    timezone_field v = checked w.zone_exists (bounded_text 1 64 v)

    -- `validate_occurred_at`
    unfoldable pub occurred_at_field : Json → Option DateTime
    occurred_at_field v = checked is_aware (p.as_datetime v)

    unfoldable pub customer_request : Fields → Result CustomerSnapshotRequest
    unfolding identity_field timezone_field bounded_text
    customer_request fs = do
      external_id ← required identity_field "external_id" fs
      full_name ← required (bounded_text 1 255) "full_name" fs
      timezone ← required timezone_field "timezone" fs
      phone_number ← defaulted (nullable (bounded_text 0 64)) none "phone_number" fs
      email ← defaulted (nullable (bounded_text 0 255)) none "email" fs
      sms_consent ← defaulted p.as_bool false "sms_consent" fs
      call_consent ← defaulted p.as_bool false "call_consent" fs
      email_consent ← defaulted p.as_bool false "email_consent" fs
      ok (record {
        external_id = external_id;
        full_name = full_name;
        timezone = timezone;
        phone_number = phone_number;
        email = email;
        sms_consent = sms_consent;
        call_consent = call_consent;
        email_consent = email_consent;
      })

    unfoldable pub inbound_event_request : Fields → Result InboundEventRequest
    unfolding identity_field as_event_type occurred_at_field
    inbound_event_request fs = do
      source ← required identity_field "source" fs
      external_id ← required identity_field "external_id" fs
      event_type ← required as_event_type "event_type" fs
      customer_fields ← required as_object "customer" fs
      customer ← customer_request customer_fields
      account_fields ← required as_object "account" fs
      account ← account_request account_fields
      occurred_at ← required occurred_at_field "occurred_at" fs
      metadata ← defaulted as_object end "metadata" fs
      ok (record {
        source = source;
        external_id = external_id;
        event_type = event_type;
        customer = customer;
        account = account;
        occurred_at = occurred_at;
        metadata = metadata;
      })

-- the arguments that the handler passes on
unfoldable pub submission_of : InboundEventRequest → Submission
submission_of body = record {
  source = body.source;
  external_id = body.external_id;
  event_type = body.event_type;
  customer = record {
    external_id = body.customer.external_id;
    full_name = body.customer.full_name;
    timezone = body.customer.timezone;
    phone_number = body.customer.phone_number;
    email = body.customer.email;
    sms_consent = body.customer.sms_consent;
    call_consent = body.customer.call_consent;
    email_consent = body.customer.email_consent;
  };
  account = record {
    external_id = body.account.external_id;
    status = body.account.status;
    balance_cents = body.account.balance_cents;
    days_past_due = body.account.days_past_due;
  };
  occurred_at = body.occurred_at;
  metadata = body.metadata;
}
