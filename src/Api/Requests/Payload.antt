-- ===== src/Api/Requests/Payload.antt =====
-- What the stored payload of an event is worth: it reads back as the request.
use ai_compliance_orquestrat.Api.Requests.Accepted.{Fits, IsValidEvent}
use ai_compliance_orquestrat.Ingestion.{new_inbound_event}
use ai_compliance_orquestrat.DateTime.{DateTime}
use ai_compliance_orquestrat.Errors.{ok}
use ai_compliance_orquestrat.Policy.{is_aware}
use ai_compliance_orquestrat.Models.{AccountStatus, account_status_value, Customer, Account}
use ai_compliance_orquestrat.Json.{optional_text, number, text, get}
use ai_compliance_orquestrat.Planner.PolicyEvent.{contains}
use ai_compliance_orquestrat.Api.Readers.{
  Pydantic, PydanticLaws, bounded_text, nullable, non_negative, checked, required, defaulted,
  as_object,
}
use ai_compliance_orquestrat.Api.Requests.{
  CustomerSnapshotRequest, AccountSnapshotRequest, InboundEventRequest, timezone_field,
  as_event_type, as_account_status, customer_request, account_status_of, event_types,
  identity_field, account_request, occurred_at_field, inbound_event_request,
}
use ai_compliance_orquestrat.Text.{has_length}
use ai_compliance_orquestrat.Ingestion.Snapshots.{
  CustomerSnapshot, AccountSnapshot, Submission, customer_payload, account_payload,
}
use ai_compliance_orquestrat.World.{World}
use ai_compliance_orquestrat.Prelude.{ℕ, Option, String, ◌≡◌, some, true, none, refl}

abbrev customer_of : CustomerSnapshot → CustomerSnapshotRequest
customer_of c = record {
  external_id = c.external_id;
  full_name = c.full_name;
  timezone = c.timezone;
  phone_number = c.phone_number;
  email = c.email;
  sms_consent = c.sms_consent;
  call_consent = c.call_consent;
  email_consent = c.email_consent;
}

abbrev account_of : AccountSnapshot → AccountSnapshotRequest
account_of a = record {
  external_id = a.external_id;
  status = a.status;
  balance_cents = a.balance_cents;
  days_past_due = a.days_past_due;
}

-- The request that a submission comes from.
abbrev pub request_of : Submission → InboundEventRequest
request_of e = record {
  source = e.source;
  external_id = e.external_id;
  event_type = e.event_type;
  customer = customer_of e.customer;
  account = account_of e.account;
  occurred_at = e.occurred_at;
  metadata = e.metadata;
}

module _ ⦃w : World⦄ ⦃p : Pydantic⦄ (laws : PydanticLaws p) where
  pub bounded_text_text :
      (least most : ℕ) (s : String)
      → has_length least most s ≡ true
      → bounded_text least most (text s) ≡ some s
  unfolding bounded_text checked
  bounded_text_text least most s h = rw (laws.as_str_text s, h)

  pub nullable_text :
      (most : ℕ) (o : Option String)
      → Fits most o
      → nullable (bounded_text 0 most) (optional_text o) ≡ some o
  unfolding nullable
  nullable_text most none h = refl
  nullable_text most (some s) h = rw (bounded_text_text 0 most s h, nullable)

  pub timezone_text :
      (z : String)
      → has_length 1 64 z ≡ true
      → w.zone_exists z ≡ true
      → timezone_field (text z) ≡ some z
  unfolding timezone_field checked
  timezone_text z h k = rw (bounded_text_text 1 64 z h, k)

  pub event_type_text :
      (s : String) → contains s event_types ≡ true → as_event_type (text s) ≡ some s
  unfolding as_event_type checked
  event_type_text s h = rw (laws.as_str_text s, h)

  pub status_text : (s : AccountStatus) → as_account_status (text (account_status_value s)) ≡ some s
  unfolding as_account_status account_status_of
  status_text AccountStatus.current = refl
  status_text AccountStatus.delinquent = refl
  status_text AccountStatus.resolved = refl
  status_text AccountStatus.paused = refl

  pub natural_number : (n : ℕ) → non_negative (p.as_int (number n)) ≡ some n
  unfolding non_negative
  natural_number n = rw (laws.as_int_number n)

  customer_payload-read :
      (e : Submission)
      → IsValidEvent (request_of e)
      → customer_request (customer_payload e.customer) ≡ ok (customer_of e.customer)
  unfolding customer_request customer_payload required defaulted get identity_field
  customer_payload-read e h = simp (
    bounded_text_text 1 255 e.customer.external_id h.customer.external_id,
    bounded_text_text 1 255 e.customer.full_name h.customer.full_name,
    timezone_text e.customer.timezone h.customer.timezone h.customer.zone,
    nullable_text 64 e.customer.phone_number h.customer.phone_number,
    nullable_text 255 e.customer.email h.customer.email,
    laws.as_bool_boolean,
  )

  account_payload-read :
      (e : Submission)
      → IsValidEvent (request_of e)
      → account_request (account_payload e.account) ≡ ok (account_of e.account)
  unfolding account_request account_payload required defaulted get identity_field
  account_payload-read e h = simp (
    bounded_text_text 1 255 e.account.external_id h.account,
    status_text e.account.status,
    natural_number,
  )

  occurred_at_text :
      (d : DateTime)
      → p.as_datetime (text (w.isoformat d)) ≡ some d
      → is_aware d ≡ true
      → occurred_at_field (text (w.isoformat d)) ≡ some d
  unfolding occurred_at_field checked
  occurred_at_text d h k = rw (h, k)

  -- The payload that is stored with an event reads back, under the request models, as the request
  -- that was accepted: every field of the snapshots, the times and the metadata is there.
  pub payload_read :
      (e : Submission) (id : String) (customer : Customer) (account : Account)
      → IsValidEvent (request_of e)
      → p.as_datetime (text (w.isoformat e.occurred_at)) ≡ some e.occurred_at
      → inbound_event_request (new_inbound_event e id customer account).payload ≡ ok (request_of e)
  unfolding inbound_event_request new_inbound_event required defaulted get identity_field as_object
  payload_read e id customer account h back = simp (
    bounded_text_text 1 255 e.source h.source,
    bounded_text_text 1 255 e.external_id h.external_id,
    event_type_text e.event_type h.known_type,
    customer_payload-read e h,
    account_payload-read e h,
    occurred_at_text e.occurred_at back h.aware,
  )
