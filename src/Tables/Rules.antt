-- ===== src/Tables/Rules.antt =====
-- Inserts extend a transaction; updates do where they keep each row's rule.
use ai_compliance_orquestrat.Errors.{ok, err, data_error}
use ai_compliance_orquestrat.Session.{Session, ◌>>=◌, gets, lift}
use ai_compliance_orquestrat.Tables.Changes.{
  customers-Evolves, accounts-Evolves, inbound_events-Evolves, policy_decisions-Evolves,
  outreach_tasks-Evolves, audit_events-Evolves,
}
use text.Mathlib.TextEquality.{eq_iff}
use ai_compliance_orquestrat.Evolution.Unique.{
  is_event, is_customer, is_account, has_key, count-update_rows_kept, count_append_fresh,
}
use ai_compliance_orquestrat.Evolution.{
  CustomerKeeps, AccountKeeps, EventKeeps, Evolves, TaskKeeps, CustomerKeeps-refl,
  AccountKeeps-refl, EventKeeps-refl, TaskKeeps-refl,
}
use ai_compliance_orquestrat.Session.Rules.{extends_rules, Extends, Extends-modify}
use ai_compliance_orquestrat.Prelude.{
  Bool, List, ◌≡◌, String, Grows, true, ◌++◌, ◌==◌, ◌∷◌, Grows-map, [], Grows-append, refl,
  if◌then◌else◌, Bool-cases, inl, inr, count, subst, ◌≤◌, ap, sym, arith, Option, ltb, false,
}
use ai_compliance_orquestrat.Models.{
  Database, Customer, OutreachTask, Account, InboundEvent, PolicyDecision, AuditEvent,
}
use ai_compliance_orquestrat.Tables.{
  add_policy_decision, add_audit_event, update_customer, update_account, update_inbound_event,
  update_rows, update_tasks, update_tasks_count, refuse_long_error, fits_last_error,
}

-- A row with a new unique value.
pub add_customer-Evolves :
    (r : Customer) (d : Database)
    → count (is_customer r.external_id) d.customers ≡ 0
    → Evolves d (record d { customers = d.customers ++ r ∷ [] })
add_customer-Evolves r d fresh =
    customers-Evolves d (d.customers ++ r ∷ [])
      (Grows-append CustomerKeeps CustomerKeeps-refl d.customers (r ∷ []))
      λ k. count_append_fresh (is_customer k) d.customers r (λ e.
        subst (λ v. count (is_customer v) d.customers ≡ 0) ((eq_iff r.external_id k).0 e) fresh)

-- A row with a new unique value.
pub add_account-Evolves :
    (r : Account) (d : Database)
    → count (is_account r.external_id) d.accounts ≡ 0
    → Evolves d (record d { accounts = d.accounts ++ r ∷ [] })
add_account-Evolves r d fresh =
    accounts-Evolves d (d.accounts ++ r ∷ [])
      (Grows-append AccountKeeps AccountKeeps-refl d.accounts (r ∷ []))
      λ k.
        count_append_fresh (is_account k) d.accounts r (λ e.
          subst (λ v. count (is_account v) d.accounts ≡ 0) ((eq_iff r.external_id k).0 e) fresh)

is_event-eq :
    (r : InboundEvent) (source k : String)
    → is_event source k r ≡ true
    → (r.source ≡ source) × (r.external_id ≡ k)
is_event-eq r source k e = ground (arith, eq_iff r.source source, eq_iff r.external_id k)

-- A row with a new unique value.
pub add_inbound_event-Evolves :
    (r : InboundEvent) (d : Database)
    → count (is_event r.source r.external_id) d.inbound_events ≡ 0
    → Evolves d (record d { inbound_events = d.inbound_events ++ r ∷ [] })
add_inbound_event-Evolves r d fresh =
    inbound_events-Evolves d (d.inbound_events ++ r ∷ [])
      (Grows-append EventKeeps EventKeeps-refl d.inbound_events (r ∷ []))
      λ source k. count_append_fresh (is_event source k) d.inbound_events r (λ e.
        let same = is_event-eq r source k e in
        subst (λ v. count (is_event v k) d.inbound_events ≡ 0) same.0
          (subst (λ v. count (is_event r.source v) d.inbound_events ≡ 0) same.1 fresh))

pub add_policy_decision-Extends : (r : PolicyDecision) → Extends (add_policy_decision r)
unfolding add_policy_decision
add_policy_decision-Extends r = Extends-modify _ λ d.
    policy_decisions-Evolves d (d.policy_decisions ++ r ∷ [])
      (Grows-append ◌≡◌ (λ x. refl) d.policy_decisions (r ∷ []))

-- A row with a new unique value.
pub add_outreach_task-Evolves :
    (r : OutreachTask) (d : Database)
    → count (has_key r.idempotency_key) d.outreach_tasks ≡ 0
    → Evolves d (record d { outreach_tasks = d.outreach_tasks ++ r ∷ [] })
add_outreach_task-Evolves r d fresh =
    outreach_tasks-Evolves d (d.outreach_tasks ++ r ∷ [])
      (Grows-append TaskKeeps TaskKeeps-refl d.outreach_tasks (r ∷ []))
      λ k. count_append_fresh (has_key k) d.outreach_tasks r (λ e.
        subst (λ v. count (has_key v) d.outreach_tasks ≡ 0) ((eq_iff r.idempotency_key k).0 e)
          fresh)

pub add_audit_event-Extends : (r : AuditEvent) → Extends (add_audit_event r)
unfolding add_audit_event
add_audit_event-Extends r = Extends-modify _ λ d.
    audit_events-Evolves d (d.audit_events ++ r ∷ [])
      (Grows-append ◌≡◌ (λ x. refl) d.audit_events (r ∷ []))

pub update_rows-Grows {ℓ} :
    {A : Type ℓ} (R : A → A → Type 0) (p : A → Bool) (f : A → A)
    → ((a : A) → R a a)
    → ((a : A) → p a ≡ true → R a (f a))
    → (rows : List A) → Grows R rows (update_rows p f rows)
update_rows-Grows R p f same step rows =
    Grows-map R (λ r. if p r then f r else r)
      (λ r. elim (Bool-cases (p r)) [ inl e ↦ rw e (step r e) | inr e ↦ rw e (same r) ]) rows

EventKeeps-is_event :
    {e f : InboundEvent}
    → EventKeeps e f
    → (source k : String) → is_event source k f ≡ is_event source k e
EventKeeps-is_event k source x = ap (is_event source x) k.row

pub update_customer-Extends :
    (key : String) (f : Customer → Customer)
    → ((c : Customer) → CustomerKeeps c (f c))
    → Extends (update_customer key f)
unfolding update_customer
update_customer-Extends key f step = Extends-modify _ λ d.
    customers-Evolves d _
      (update_rows-Grows CustomerKeeps (λ r. r.id == key) f CustomerKeeps-refl (λ c _. step c)
        d.customers)
      λ k h.
        subst (λ n. n ≤ 1)
          (sym (
            count-update_rows_kept (is_customer k) _ f
              (λ c _. ap (λ x. x == k) (step c).external_id) d.customers))
          h

pub update_account-Extends :
    (key : String) (f : Account → Account)
    → ((a : Account) → AccountKeeps a (f a))
    → Extends (update_account key f)
unfolding update_account
update_account-Extends key f step = Extends-modify _ λ d.
    accounts-Evolves d _
      (update_rows-Grows AccountKeeps (λ r. r.id == key) f AccountKeeps-refl (λ c _. step c)
        d.accounts)
      λ k h.
        subst (λ n. n ≤ 1)
          (sym (
            count-update_rows_kept (is_account k) _ f (λ c _. ap (λ x. x == k) (step c).external_id)
              d.accounts))
          h

pub update_inbound_event-Extends :
    (key : String) (f : InboundEvent → InboundEvent)
    → ((a : InboundEvent) → EventKeeps a (f a))
    → Extends (update_inbound_event key f)
unfolding update_inbound_event
update_inbound_event-Extends key f step = Extends-modify _ λ d.
    inbound_events-Evolves d _
      (update_rows-Grows EventKeeps (λ r. r.id == key) f EventKeeps-refl (λ c _. step c)
        d.inbound_events)
      λ source k h.
        subst (λ n. n ≤ 1)
          (sym (
            count-update_rows_kept (is_event source k) _ f
              (λ e _. EventKeeps-is_event (step e) source k) d.inbound_events))
          h

module _ (p : OutreachTask → Bool) (f : OutreachTask → OutreachTask)
    (step : (t : OutreachTask) → p t ≡ true → TaskKeeps t (f t)) where
  pub update_tasks-Extends : Extends (update_tasks p f)
  unfolding update_tasks
  update_tasks-Extends = Extends-modify _ λ d.
      outreach_tasks-Evolves d _
        (update_rows-Grows TaskKeeps p f TaskKeeps-refl step d.outreach_tasks)
        λ k h.
          subst (λ n. n ≤ 1)
            (sym (
              count-update_rows_kept (has_key k) p f
                (λ t e. ap (λ x. x == k) (step t e).idempotency_key) d.outreach_tasks))
            h

  pub update_tasks_count-Extends : Extends (update_tasks_count p f)
  unfolding update_tasks_count
  update_tasks_count-Extends = search (extends_rules, update_tasks-Extends)

pub ruleset insert_rules = (extends_rules, add_policy_decision-Extends, add_audit_event-Extends)

pub refuse_long_error-Extends :
    (p : OutreachTask → Bool) (error : Option String) → Extends (refuse_long_error p error)
unfolding refuse_long_error
refuse_long_error-Extends p error = search extends_rules

-- A text that fits is written, a longer one is refused, and no row refuses none.
module _ (p : OutreachTask → Bool) (error : Option String) (s : Session) where
  pub refuse_long_error-fits :
      fits_last_error error ≡ true → refuse_long_error p error s ≡ (ok tt, s)
  unfolding refuse_long_error ◌>>=◌ gets lift
  refuse_long_error-fits fits = rw fits (elim (Bool-cases (ltb 0 (count p s.db.outreach_tasks))) [
    | inl e ↦ rw e refl
    | inr e ↦ rw e refl
  ])

  pub refuse_long_error-unmatched :
      count p s.db.outreach_tasks ≡ 0 → refuse_long_error p error s ≡ (ok tt, s)
  unfolding refuse_long_error ◌>>=◌ gets lift
  refuse_long_error-unmatched none_matched = rw none_matched refl

  pub refuse_long_error-long :
      count p s.db.outreach_tasks ≡ 1
      → fits_last_error error ≡ false
      → refuse_long_error p error s ≡ (err data_error, s)
  unfolding refuse_long_error ◌>>=◌ gets lift
  refuse_long_error-long one long = rw (one, long) refl
