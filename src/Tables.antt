-- ===== src/Tables.antt =====
-- The statements that the program sends to the database: inserts, updates by primary key, and
-- conditional updates with their row counts.
use ai_compliance_orquestrat.Text.{has_length}
use ai_compliance_orquestrat.Errors.{raise_if, data_error}
use ai_compliance_orquestrat.Prelude.{
  Bool, String, List, ℕ, map, if◌then◌else◌, ◌++◌, ◌==◌, ◌∷◌, count, [], Option, true, some, ltb,
  none, ◌&&◌, not,
}
use ai_compliance_orquestrat.Models.{
  Customer, Account, InboundEvent, PolicyDecision, OutreachTask, AuditEvent,
}
pub mod Changes
pub mod OneRow
pub mod Rules
use ai_compliance_orquestrat.Session.{Action, modify, ◌>>=◌, gets, ◌>>◌, pure, lift}

-- `session.add(row)` and the flush
unfoldable pub add_customer : Customer → Action (Unit {0})
add_customer r = modify (λ d. record d { customers = d.customers ++ r ∷ [] })

unfoldable pub add_account : Account → Action (Unit {0})
add_account r = modify (λ d. record d { accounts = d.accounts ++ r ∷ [] })

unfoldable pub add_inbound_event : InboundEvent → Action (Unit {0})
add_inbound_event r = modify (λ d. record d { inbound_events = d.inbound_events ++ r ∷ [] })

unfoldable pub add_policy_decision : PolicyDecision → Action (Unit {0})
add_policy_decision r = modify (λ d. record d { policy_decisions = d.policy_decisions ++ r ∷ [] })

unfoldable pub add_outreach_task : OutreachTask → Action (Unit {0})
add_outreach_task r = modify (λ d. record d { outreach_tasks = d.outreach_tasks ++ r ∷ [] })

unfoldable pub add_audit_event : AuditEvent → Action (Unit {0})
add_audit_event r = modify (λ d. record d { audit_events = d.audit_events ++ r ∷ [] })

-- the rows that pass a test, changed
abbrev pub update_rows {ℓ} : {A : Type ℓ} → (A → Bool) → (A → A) → List A → List A
update_rows p f rows = map (λ r. if p r then f r else r) rows

unfoldable pub update_customer : String → (Customer → Customer) → Action (Unit {0})
update_customer key f =
    modify (λ d. record d { customers = update_rows (λ r. r.id == key) f d.customers })

unfoldable pub update_account : String → (Account → Account) → Action (Unit {0})
update_account key f =
    modify (λ d. record d { accounts = update_rows (λ r. r.id == key) f d.accounts })

unfoldable pub update_inbound_event : String → (InboundEvent → InboundEvent) → Action (Unit {0})
update_inbound_event key f =
    modify (λ d. record d { inbound_events = update_rows (λ r. r.id == key) f d.inbound_events })

-- `UPDATE outreach_tasks SET … WHERE …`
unfoldable pub update_tasks :
    (OutreachTask → Bool) → (OutreachTask → OutreachTask) → Action (Unit {0})
update_tasks p f = modify (λ d. record d { outreach_tasks = update_rows p f d.outreach_tasks })

-- the same statement with its `rowcount`
unfoldable pub update_tasks_count : (OutreachTask → Bool) → (OutreachTask → OutreachTask) → Action ℕ
update_tasks_count p f = do
  rowcount ← gets (λ d. count p d.outreach_tasks)
  update_tasks p f
  pure rowcount

-- `String(1000)` of `OutreachTask.last_error`
unfoldable pub fits_last_error : Option String → Bool
fits_last_error none = true
fits_last_error (some error) = has_length 0 1000 error

-- PostgreSQL refuses a statement that would write a longer text to some row.
unfoldable pub refuse_long_error : (OutreachTask → Bool) → Option String → Action (Unit {0})
unfolding fits_last_error
refuse_long_error p error = do
  rows ← gets (λ d. count p d.outreach_tasks)
  lift (raise_if (ltb 0 rows && not (fits_last_error error)) data_error)
