-- ===== src/Evolution/Unique.antt =====
-- The unique columns of models.py: `external_id` of customers and accounts, `source` with
-- `external_id` of events, and `idempotency_key` of tasks.
use ai_compliance_orquestrat.Tables.{update_rows}
use ai_compliance_orquestrat.Models.{Database, InboundEvent, Customer, Account, OutreachTask}
use ai_compliance_orquestrat.Prelude.{
  String, Bool, count, List, ◌==◌, ◌≤◌, ◌≡◌, find, ◌&&◌, true, ◌++◌, none, ◌∷◌, [], Bool-cases,
  false, inl, count-append, arith, inr, refl,
}

-- The event that a submission's identity names.
abbrev pub is_event : String → String → InboundEvent → Bool
is_event source external_id e = e.source == source && e.external_id == external_id

abbrev pub is_customer : String → Customer → Bool
is_customer external_id c = c.external_id == external_id

abbrev pub is_account : String → Account → Bool
is_account external_id a = a.external_id == external_id

abbrev pub has_key : String → OutreachTask → Bool
has_key key t = t.idempotency_key == key

-- No two rows share a unique value.
pub record IsUnique (d : Database) : Type 0 where
  pub customers : (external_id : String) → count (is_customer external_id) d.customers ≤ 1
  pub accounts : (external_id : String) → count (is_account external_id) d.accounts ≤ 1
  pub inbound_events :
      (source external_id : String) → count (is_event source external_id) d.inbound_events ≤ 1
  pub outreach_tasks : (key : String) → count (has_key key) d.outreach_tasks ≤ 1

module _ {ℓ} {A : Type ℓ} (q : A → Bool) where
  pub count_hit : (x : A) → q x ≡ true → count q (x ∷ []) ≡ 1
  unfolding count
  count_hit x e = rw e

  pub count_miss : (x : A) → q x ≡ false → count q (x ∷ []) ≡ 0
  unfolding count
  count_miss x e = rw e

  -- A table of one row.
  pub count_single-le : (r : A) → count q (r ∷ []) ≤ 1
  unfolding count
  count_single-le r = elim (Bool-cases (q r)) [
    | inl e ↦ rw e (omega arith)
    | inr e ↦ rw e (omega arith)
  ]

  -- A new row is the only one with its value, if no old row has it.
  pub count_append_fresh :
      (rows : List A) (r : A)
      → (q r ≡ true → count q rows ≡ 0)
      → count q rows ≤ 1
      → count q (rows ++ r ∷ []) ≤ 1
  count_append_fresh rows r fresh h = rw (count-append q rows (r ∷ [])) (elim (Bool-cases (q r)) [
    | inl e ↦ omega (arith, count_hit r e, fresh e)
    | inr e ↦ omega (arith, count_miss r e)
  ])

  find-none_rest :
      (p : A → Bool) (x : A) (rows : List A) → find p (x ∷ rows) ≡ none → find p rows ≡ none
  unfolding find
  find-none_rest p x rows h = ground arith

  pub count-none_of :
      (p : A → Bool) (rows : List A)
      → ((x : A) → q x ≡ true → p x ≡ true)
      → find p rows ≡ none
      → count q rows ≡ 0
  unfolding count find
  count-none_of p [] k h = refl
  count-none_of p (x ∷ rows) k h = elim (Bool-cases (q x)) [
    | inl e ↦ let found = k x e in absurd (ground arith)
    | inr e ↦ rw e (count-none_of p rows k (find-none_rest p x rows h))
  ]

  pub count-update_rows_kept :
      (p : A → Bool) (f : A → A)
      → ((x : A) → p x ≡ true → q (f x) ≡ q x)
      → (rows : List A) → count q (update_rows p f rows) ≡ count q rows
  unfolding count
  count-update_rows_kept p f k [] = refl
  count-update_rows_kept p f k (x ∷ rows) =
      let rest = count-update_rows_kept p f k rows in
      elim (Bool-cases (p x)) [ inl e ↦ rw (e, k x e, rest) | inr e ↦ rw (e, rest) ]
