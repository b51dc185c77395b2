-- ===== src/Tests/Sample.antt =====
-- A small world and rows for the runs of the code.
use ai_compliance_orquestrat.Evolution.Unique.{
  IsUnique, count_single-le, is_customer, is_account, is_event, has_key,
}
use ai_compliance_orquestrat.Evolution.{Evolves-refl}
use ai_compliance_orquestrat.Policy.{PolicyInput}
use ai_compliance_orquestrat.Worker.Record.{default_adapters}
use ai_compliance_orquestrat.Ingestion.Snapshots.{Submission}
use ai_compliance_orquestrat.System.{Server, Work, IsFairWork, ingest, cancel, dispatch}
use ai_compliance_orquestrat.Session.{Session}
use ai_compliance_orquestrat.Json.{end}
use ai_compliance_orquestrat.Worker.{Dispatch}
use ai_compliance_orquestrat.Models.{
  Customer, Account, InboundEvent, OutreachTaskStatus, AccountStatus, OutreachTask, Database,
  processed, sms,
}
use ai_compliance_orquestrat.World.{World, TimeLaws}
use ai_compliance_orquestrat.DateTime.{DateTime, hour, minute, day}
use ai_compliance_orquestrat.Prelude.{
  ℕ, String, List, All, suc, ◌*◌, some, ap, none, concat, true, sym, ◌∷◌, zero, ◌+◌, [], false,
  count,
}

-- readings count up in the name
unfoldable pub name : ℕ → String
name zero = "id"
name (suc n) = concat (name n) "'"

abbrev pub nine : DateTime
nine = record { wall = 9 * hour + 365 * day; fold = false; tzinfo = some "UTC" }

abbrev pub late : DateTime
late = record { wall = 22 * hour + 365 * day; fold = false; tzinfo = some "UTC" }

-- A world with one offset: a reading changes its zone's name only.
instance abbrev pub sample : World
sample = record {
  uuid4 = name;
  parse_uuid = λ t. some t;
  utc_now = λ n. nine;
  db_now = λ n. nine;
  instant = λ d. d.wall;
  has_utcoffset = λ z. true;
  zone_exists = λ z. true;
  astimezone = λ d z. some (record d { tzinfo = some z });
  isoformat = λ d. name d.wall;
  sha256_hexdigest = λ t. t;
}

pub sample_laws : TimeLaws sample
sample_laws = record {
  astimezone_zone = λ d z h. ap (λ o. elim o [ none ↦ none | some l ↦ l.tzinfo ]) (sym h);
  astimezone_same = λ d z h. ap (λ t. some (record d { tzinfo = t })) (sym h);
}

abbrev pub opted_out_customer : Customer
opted_out_customer = record {
  id = "c1";
  external_id = "cust-1";
  full_name = "Ada";
  timezone = "UTC";
  phone_number = none;
  email = none;
  sms_consent = true;
  call_consent = true;
  email_consent = true;
  opted_out = true;
}

abbrev pub account : Account
account = record {
  id = "a1";
  external_id = "acct-1";
  customer_id = "c1";
  status = AccountStatus.delinquent;
  balance_cents = 100;
  days_past_due = 3;
}

abbrev pub known_event : InboundEvent
known_event = record {
  id = "e1";
  source = "crm";
  external_id = "ev-1";
  event_type = "payment_failed";
  customer_external_id = "cust-1";
  account_external_id = "acct-1";
  payload = end;
  idempotency_key = "k";
  processing_status = processed;
}

abbrev pub task_of : OutreachTaskStatus → OutreachTask
task_of status = record {
  id = "t1";
  account_id = "a1";
  customer_id = "c1";
  channel = sms;
  correlation_id = "corr";
  status = status;
  scheduled_at = nine;
  attempt_count = 1;
  max_attempts = 3;
  idempotency_key = "t";
  policy_decision_id = none;
  last_error = none;
  created_at = nine;
}

abbrev pub tables : OutreachTaskStatus → Database
tables status = record {
  customers = opted_out_customer ∷ [];
  accounts = account ∷ [];
  inbound_events = known_event ∷ [];
  policy_decisions = [];
  outreach_tasks = task_of status ∷ [];
  audit_events = [];
}

abbrev pub session : OutreachTaskStatus → Session
session status = record { db = tables status; committed = tables status; tick = 0 }

abbrev pub server : OutreachTaskStatus → Server
server status = record { database = tables status; tick = 0 }

-- a submission of the event `external_id` of the customer
abbrev pub submission : String → String → Submission
submission external_id event_type = record {
  source = "crm";
  external_id = external_id;
  event_type = event_type;
  customer = record {
    external_id = "cust-1";
    full_name = "Ada L.";
    timezone = "UTC";
    phone_number = none;
    email = none;
    sms_consent = true;
    call_consent = true;
    email_consent = true;
  };
  account = record {
    external_id = "acct-1";
    status = AccountStatus.delinquent;
    balance_cents = 200;
    days_past_due = 4;
  };
  occurred_at = nine;
  metadata = end;
}

abbrev pub pass : Dispatch
pass = record {
  now = nine;
  limit = 5;
  adapters = default_adapters;
  retry_delay = 15 * minute;
  worker_id = "worker-1";
  meanwhile = λ t d. d;
}

abbrev pub requests : List Work
requests =
    ingest none (submission "ev-2" "payment_failed") "corr-2"
    ∷ cancel "acct-1" "agent" "corr-3"
    ∷ dispatch pass
    ∷ []

pub requests-IsFairWork : All IsFairWork requests
requests-IsFairWork = (tt, (tt, ((λ t d. Evolves-refl d), tt)))

abbrev pub a_text : DateTime → PolicyInput
a_text at = record {
  channel = sms;
  scheduled_at = at;
  customer_timezone = "UTC";
  sms_consent = true;
  call_consent = false;
  email_consent = true;
  opted_out = false;
  account_status = AccountStatus.delinquent;
  recent_outbound_attempt_count = 0;
  frequency_cap = 3;
}

-- The sample tables have one row each.
pub tables-IsUnique : (status : OutreachTaskStatus) → IsUnique (tables status)
unfolding count
tables-IsUnique status = record {
  customers = λ k. count_single-le (is_customer k) opted_out_customer;
  accounts = λ k. count_single-le (is_account k) account;
  inbound_events = λ source k. count_single-le (is_event source k) known_event;
  outreach_tasks = λ k. count_single-le (has_key k) (task_of status);
}
