-- ===== src/Ingestion/Snapshots.antt =====
-- src/orchestrator/domain/event_ingestion.py: the snapshots, the upserts, and the insert of the
-- event with what another session may do to it.
use ai_compliance_orquestrat.Tables.{
  add_customer, add_account, update_customer, add_inbound_event, update_account,
}
use ai_compliance_orquestrat.DateTime.{DateTime}
use ai_compliance_orquestrat.Errors.{
  Result, err, ok, integrity_error, raise_if, event_ingestion_validation_error,
}
use ai_compliance_orquestrat.World.{World}
use ai_compliance_orquestrat.Models.{
  Customer, Account, InboundEvent, Database, AccountStatus, account_status_value,
}
use ai_compliance_orquestrat.Json.{Fields, field, text, optional_text, boolean, number, end}
use ai_compliance_orquestrat.Prelude.{
  String, Option, Bool, ◌==◌, some, ℕ, find, ◌&&◌, true, false, ◌||◌, not, is_some, none,
}
use ai_compliance_orquestrat.Session.{Action, ◌>>=◌, gets, reading, ◌>>◌, lift, pure}

pub record CustomerSnapshot : Type 0 where
  pub external_id : String
  pub full_name : String
  pub timezone : String
  pub phone_number : Option String
  pub email : Option String
  pub sms_consent : Bool
  pub call_consent : Bool
  pub email_consent : Bool

pub record AccountSnapshot : Type 0 where
  pub external_id : String
  pub status : AccountStatus
  pub balance_cents : ℕ
  pub days_past_due : ℕ

-- the arguments of `ingest_event_snapshot`
pub record Submission : Type 0 where
  pub source : String
  pub external_id : String
  pub event_type : String
  pub customer : CustomerSnapshot
  pub account : AccountSnapshot
  pub occurred_at : DateTime
  pub metadata : Fields

unfoldable pub customer_payload : CustomerSnapshot → Fields
customer_payload c = field "external_id" (text c.external_id) (
    field "full_name" (text c.full_name) (
      field "timezone" (text c.timezone) (
        field "phone_number" (optional_text c.phone_number) (
          field "email" (optional_text c.email) (
            field "sms_consent" (boolean c.sms_consent) (
              field "call_consent" (boolean c.call_consent)
                (field "email_consent" (boolean c.email_consent) end)))))))

unfoldable pub account_payload : AccountSnapshot → Fields
account_payload a = field "external_id" (text a.external_id) (
    field "status" (text (account_status_value a.status)) (
      field "balance_cents" (number a.balance_cents)
        (field "days_past_due" (number a.days_past_due) end)))

-- a row with the snapshot's fields; the opt-out is not among them
unfoldable pub apply_customer : CustomerSnapshot → Customer → Customer
apply_customer s c = record c {
  full_name = s.full_name;
  timezone = s.timezone;
  phone_number = s.phone_number;
  email = s.email;
  sms_consent = s.sms_consent;
  call_consent = s.call_consent;
  email_consent = s.email_consent;
}

unfoldable pub apply_account : AccountSnapshot → Account → Account
apply_account s a = record a {
  status = s.status;
  balance_cents = s.balance_cents;
  days_past_due = s.days_past_due;
}

module _ ⦃w : World⦄ where
  unfoldable pub store_customer : CustomerSnapshot → Option Customer → Action Customer
  store_customer s none = do
    id ← reading w.uuid4
    let row : Customer = record {
      id = id;
      external_id = s.external_id;
      full_name = s.full_name;
      timezone = s.timezone;
      phone_number = s.phone_number;
      email = s.email;
      sms_consent = s.sms_consent;
      call_consent = s.call_consent;
      email_consent = s.email_consent;
      opted_out = false;
    }
    add_customer row
    pure row
  store_customer s (some c) = do update_customer c.id (apply_customer s); pure (apply_customer s c)

  unfoldable pub upsert_customer : CustomerSnapshot → Action Customer
  unfolding store_customer apply_customer
  upsert_customer s = do
    found ← gets (λ d. find (λ c. c.external_id == s.external_id) d.customers)
    store_customer s found

  unfoldable pub store_account : AccountSnapshot → Customer → Option Account → Action Account
  store_account s customer none = do
    id ← reading w.uuid4
    let row : Account = record {
      id = id;
      external_id = s.external_id;
      customer_id = customer.id;
      status = s.status;
      balance_cents = s.balance_cents;
      days_past_due = s.days_past_due;
    }
    add_account row
    pure row
  store_account s customer (some a) = do
    lift (
        raise_if (not (a.customer_id == customer.id)) (
          event_ingestion_validation_error
            "Account external_id already belongs to another customer"))
    update_account a.id (apply_account s)
    pure (apply_account s a)

  unfoldable pub upsert_account : AccountSnapshot → Customer → Action Account
  unfolding store_account apply_account
  upsert_account s customer = do
    found ← gets (λ d. find (λ a. a.external_id == s.external_id) d.accounts)
    store_account s customer found

unfoldable pub find_existing_event : String → String → Action (Option InboundEvent)
find_existing_event source external_id =
    gets (λ d. find (λ e. e.source == source && e.external_id == external_id) d.inbound_events)

-- What another session commits between the search and the insert, if its row makes the insert
-- break a unique constraint.
abbrev pub Race : Type 0
Race = Option (Database → Database)

-- the two unique constraints of `inbound_events`
unfoldable pub violates_unique : InboundEvent → InboundEvent → Bool
violates_unique event r =
    (r.source == event.source && r.external_id == event.external_id)
    || r.idempotency_key == event.idempotency_key

-- the rival's commit becomes durable, and the flush raises
unfoldable pub lose_race : (Database → Database) → Action (Unit {0})
lose_race rival s = (err integrity_error, record s { committed = rival s.committed })

-- `session.add(inbound_event)` and `session.flush()`
unfoldable pub flush_inbound_event : Race → InboundEvent → Action (Unit {0})
flush_inbound_event (some rival) event = lose_race rival
flush_inbound_event none event = do
  taken ← gets (λ d. find (violates_unique event) d.inbound_events)
  lift (raise_if (is_some taken) integrity_error)
  add_inbound_event event

-- `try: … except IntegrityError`: whether the action went through
unfoldable pub caught : Result (Unit {0}) → Result Bool
caught (ok tt) = ok true
caught (err integrity_error) = ok false
caught (err e) = err e

unfoldable pub attempt : Action (Unit {0}) → Action Bool
unfolding caught
attempt m s = let (r, s') = m s in (caught r, s')
