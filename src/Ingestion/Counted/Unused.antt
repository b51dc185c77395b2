-- ===== src/Ingestion/Counted/Unused.antt =====
-- The upserts before the insert of an event, and the ids that uuid4 still has to give.
use ai_compliance_orquestrat.World.{World}
use ai_compliance_orquestrat.Ingestion.Counted.{names_decision, has_decision_id}
use ai_compliance_orquestrat.Ingestion.Replay.{is_cancellation_by}
use ai_compliance_orquestrat.Ingestion.Snapshots.{
  upsert_account, upsert_customer, store_account, store_customer, AccountSnapshot, CustomerSnapshot,
}
use ai_compliance_orquestrat.Models.{Account, Customer, Database}
use ai_compliance_orquestrat.Planner.Effects.{is_decision_of}
use ai_compliance_orquestrat.Session.{Session, ◌>>=◌, ◌>>◌, modify, pure, reading}
use ai_compliance_orquestrat.Session.Triples.{
  Anything, Triple, Triple-bind, Triple-gets_any, Triple-lift_any,
}
use ai_compliance_orquestrat.Tables.{add_customer, update_customer, add_account, update_account}
use ai_compliance_orquestrat.Prelude.{Option, String, ℕ, ◌≡◌, ◌≤◌, arith, count, none, some, refl}

-- No row mentions an id that uuid4 still has to give.
abbrev pub IsUnusedAt : ⦃w : World⦄ → Database → ℕ → Type 0
IsUnusedAt ⦃w⦄ d k =
    (count (has_decision_id (w.uuid4 k)) d.policy_decisions ≡ 0)
    × (count (names_decision (w.uuid4 k)) d.outreach_tasks ≡ 0)
    × (count (is_decision_of (w.uuid4 k)) d.policy_decisions ≡ 0)
    × (count (is_cancellation_by (w.uuid4 k)) d.audit_events ≡ 0)

abbrev pub AreUnused : ⦃w : World⦄ → Session → Type 0
AreUnused s = (k : ℕ) → s.tick ≤ k → IsUnusedAt s.db k

module _ ⦃w : World⦄ where
  reading-AreUnused :
      {A : Type 0} (f : ℕ → A) → Triple AreUnused (reading f) (λ _. AreUnused) Anything
  unfolding reading
  reading-AreUnused f = record { at = λ s h k le. h k (omega arith) }

  store_customer-AreUnused :
      (c : CustomerSnapshot) (found : Option Customer)
      → Triple AreUnused (store_customer c found) (λ _. AreUnused) Anything
  unfolding store_customer reading add_customer update_customer modify pure ◌>>=◌
  store_customer-AreUnused c none = record { at = λ s h k le. h k (omega arith) }
  store_customer-AreUnused c (some r) = record { at = λ s h k le. h k le }

  new_account-AreUnused :
      (a : AccountSnapshot) (c : Customer)
      → Triple AreUnused (store_account a c none) (λ _. AreUnused) Anything
  unfolding store_account reading add_account modify pure ◌>>=◌
  new_account-AreUnused a c = record { at = λ s h k le. h k (omega arith) }

  old_account-AreUnused :
      (id : String) (f : Account → Account) (a : Account)
      → Triple AreUnused (update_account id f >> pure a) (λ _. AreUnused) Anything
  unfolding update_account modify pure ◌>>=◌
  old_account-AreUnused id f a = record { at = λ s h k le. h k le }

  store_account-AreUnused :
      (a : AccountSnapshot) (c : Customer) (found : Option Account)
      → Triple AreUnused (store_account a c found) (λ _. AreUnused) Anything
  unfolding store_account
  store_account-AreUnused a c none = new_account-AreUnused a c
  store_account-AreUnused a c (some r) =
      Triple-bind _ _ _ (Triple-lift_any _ _ (λ s h. tt) _) λ _. old_account-AreUnused _ _ _

  pub upsert_customer-AreUnused :
      (c : CustomerSnapshot) → Triple AreUnused (upsert_customer c) (λ _. AreUnused) Anything
  unfolding upsert_customer
  upsert_customer-AreUnused c =
      Triple-bind _ _ _ (Triple-gets_any _ _ _) (λ found. store_customer-AreUnused c found)

  pub upsert_account-AreUnused :
      (a : AccountSnapshot) (c : Customer)
      → Triple AreUnused (upsert_account a c) (λ _. AreUnused) Anything
  unfolding upsert_account
  upsert_account-AreUnused a c =
      Triple-bind _ _ _ (Triple-gets_any _ _ _) (λ found. store_account-AreUnused a c found)

-- An id that uuid4 has given and that no row mentions yet.
abbrev pub IsNew : ⦃w : World⦄ → String → Session → Type 0
IsNew ⦃w⦄ id s = AreUnused s × ((j : ℕ) × (id ≡ w.uuid4 j) × IsUnusedAt s.db j)

module _ ⦃w : World⦄ where
  pub event_id-IsNew : Triple AreUnused (reading w.uuid4) IsNew Anything
  unfolding reading
  event_id-IsNew = record {
    at = λ s h. ((λ k le. h k (omega arith)), (s.tick, refl, h s.tick (omega arith)));
  }
