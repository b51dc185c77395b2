-- ===== src/Evolution.antt =====
-- How the tables may change: rows are never removed, their identities never change, and each kind
-- of row has its own rule.
use ai_compliance_orquestrat.Evolution.Unique.{IsUnique}
pub mod Unique
use ai_compliance_orquestrat.Models.{
  OutreachTaskStatus, Customer, Account, InboundEvent, OutreachTask, Database, same_status,
  scheduled, dispatching, blocked, sent,
}
use ai_compliance_orquestrat.Prelude.{
  ◌≡◌, Bool, true, ◌≤◌, Grows, arith, ◌∙◌, Grows-refl, Grows-trans, false, refl,
}

-- The life of an outreach task, as the statuses that a status may turn into in any number of
-- steps: a retry returns to `scheduled`, a manual result may correct a failure, and `sent`,
-- `cancelled` and `blocked` are final.
abbrev pub may_become : OutreachTaskStatus → OutreachTaskStatus → Bool
may_become scheduled blocked = false
may_become scheduled _ = true
may_become dispatching blocked = false
may_become dispatching _ = true
may_become OutreachTaskStatus.failed OutreachTaskStatus.failed = true
may_become OutreachTaskStatus.failed sent = true
may_become OutreachTaskStatus.failed _ = false
may_become s t = same_status s t

-- An opt-out is never taken back.
pub record CustomerKeeps (c d : Customer) : Type 0 where
  pub id : d.id ≡ c.id
  pub external_id : d.external_id ≡ c.external_id
  pub opted_out : c.opted_out ≡ true → d.opted_out ≡ true

-- An account never moves to another customer.
pub record AccountKeeps (a b : Account) : Type 0 where
  pub id : b.id ≡ a.id
  pub external_id : b.external_id ≡ a.external_id
  pub customer_id : b.customer_id ≡ a.customer_id

-- Of an accepted event only the processing status changes.
pub record EventKeeps (e f : InboundEvent) : Type 0 where
  pub row : f ≡ record e { processing_status = f.processing_status }

-- A task keeps its identity and its limit, counts attempts upwards, and follows `may_become`.
pub record TaskKeeps (t u : OutreachTask) : Type 0 where
  pub id : u.id ≡ t.id
  pub account_id : u.account_id ≡ t.account_id
  pub customer_id : u.customer_id ≡ t.customer_id
  pub channel : u.channel ≡ t.channel
  pub correlation_id : u.correlation_id ≡ t.correlation_id
  pub idempotency_key : u.idempotency_key ≡ t.idempotency_key
  pub policy_decision_id : u.policy_decision_id ≡ t.policy_decision_id
  pub max_attempts : u.max_attempts ≡ t.max_attempts
  pub created_at : u.created_at ≡ t.created_at
  pub attempts : t.attempt_count ≤ u.attempt_count
  pub status : may_become t.status u.status ≡ true

-- Decisions and audit rows are append-only, and unique values stay unique.
pub record Evolves (d e : Database) : Type 0 where
  pub customers : Grows CustomerKeeps d.customers e.customers
  pub accounts : Grows AccountKeeps d.accounts e.accounts
  pub inbound_events : Grows EventKeeps d.inbound_events e.inbound_events
  pub policy_decisions : Grows ◌≡◌ d.policy_decisions e.policy_decisions
  pub outreach_tasks : Grows TaskKeeps d.outreach_tasks e.outreach_tasks
  pub audit_events : Grows ◌≡◌ d.audit_events e.audit_events
  pub unique : IsUnique d → IsUnique e

pub CustomerKeeps-refl : (c : Customer) → CustomerKeeps c c
CustomerKeeps-refl c = record { id = refl; external_id = refl; opted_out = λ h. h }

pub AccountKeeps-refl : (a : Account) → AccountKeeps a a
AccountKeeps-refl a = record { id = refl; external_id = refl; customer_id = refl }

pub EventKeeps-refl : (e : InboundEvent) → EventKeeps e e
EventKeeps-refl e = record { row = refl }

pub TaskKeeps-refl : (t : OutreachTask) → TaskKeeps t t
TaskKeeps-refl t = ground arith

CustomerKeeps-trans : (c d e : Customer) → CustomerKeeps c d → CustomerKeeps d e → CustomerKeeps c e
CustomerKeeps-trans c d e h k = ground arith

AccountKeeps-trans : (c d e : Account) → AccountKeeps c d → AccountKeeps d e → AccountKeeps c e
AccountKeeps-trans c d e h k = ground arith

EventKeeps-trans : (c d e : InboundEvent) → EventKeeps c d → EventKeeps d e → EventKeeps c e
EventKeeps-trans c d e h k = ground arith

may_become_trans :
    (s t u : OutreachTaskStatus)
    → may_become s t ≡ true
    → may_become t u ≡ true
    → may_become s u ≡ true
may_become_trans s t u h k = ground arith

TaskKeeps-trans : (c d e : OutreachTask) → TaskKeeps c d → TaskKeeps d e → TaskKeeps c e
TaskKeeps-trans c d e h k = record {
  id = k.id ∙ h.id;
  account_id = k.account_id ∙ h.account_id;
  customer_id = k.customer_id ∙ h.customer_id;
  channel = k.channel ∙ h.channel;
  correlation_id = k.correlation_id ∙ h.correlation_id;
  idempotency_key = k.idempotency_key ∙ h.idempotency_key;
  policy_decision_id = k.policy_decision_id ∙ h.policy_decision_id;
  max_attempts = k.max_attempts ∙ h.max_attempts;
  created_at = k.created_at ∙ h.created_at;
  attempts = omega arith;
  status = may_become_trans c.status d.status e.status h.status k.status;
}

pub Evolves-refl : (d : Database) → Evolves d d
Evolves-refl d = record {
  customers = Grows-refl CustomerKeeps CustomerKeeps-refl d.customers;
  accounts = Grows-refl AccountKeeps AccountKeeps-refl d.accounts;
  inbound_events = Grows-refl EventKeeps EventKeeps-refl d.inbound_events;
  policy_decisions = Grows-refl ◌≡◌ (λ x. refl) d.policy_decisions;
  outreach_tasks = Grows-refl TaskKeeps TaskKeeps-refl d.outreach_tasks;
  audit_events = Grows-refl ◌≡◌ (λ x. refl) d.audit_events;
  unique = λ h. h;
}

pub Evolves-trans : {a b c : Database} → Evolves a b → Evolves b c → Evolves a c
Evolves-trans {a} {b} {c} h k = record {
  customers =
      Grows-trans CustomerKeeps CustomerKeeps-trans a.customers b.customers c.customers h.customers
        k.customers;
  accounts =
      Grows-trans AccountKeeps AccountKeeps-trans a.accounts b.accounts c.accounts h.accounts
        k.accounts;
  inbound_events =
      Grows-trans EventKeeps EventKeeps-trans a.inbound_events b.inbound_events c.inbound_events
        h.inbound_events k.inbound_events;
  policy_decisions =
      Grows-trans ◌≡◌ (λ x y z p q. p ∙ q) a.policy_decisions b.policy_decisions c.policy_decisions
        h.policy_decisions k.policy_decisions;
  outreach_tasks =
      Grows-trans TaskKeeps TaskKeeps-trans a.outreach_tasks b.outreach_tasks c.outreach_tasks
        h.outreach_tasks k.outreach_tasks;
  audit_events =
      Grows-trans ◌≡◌ (λ x y z p q. p ∙ q) a.audit_events b.audit_events c.audit_events
        h.audit_events k.audit_events;
  unique = λ u. k.unique (h.unique u);
}
