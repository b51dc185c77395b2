-- ===== src/Errors.antt =====
-- The exceptions that the program raises, and the result of code that may raise.
pub mod Ensures
use ai_compliance_orquestrat.Prelude.{
  ℕ, ◌≡◌, refl, ◌⊎◌, inl, inr, String, Bool, true, false, Option, none, some,
}

pub data Error : Type 0 where
  value_error : String → Error
  -- `EventIngestionValidationError`, of event_ingestion.py
  event_ingestion_validation_error : String → Error
  -- `TaskStateConflictError`, of operational_outreach.py
  task_state_conflict_error : String → Error
  http_exception : ℕ → String → Error
  zone_info_not_found_error : String → Error
  runtime_error : String → Error
  overflow_error : Error
  integrity_error : Error
  key_error : Error
  -- `DBAPIError`, for a value that the database refuses
  data_error : Error

pub data Result {ℓ} (A : Type ℓ) : Type ℓ where
  ok : A → Result A
  err : Error → Result A

module _ {ℓ κ} {A : Type ℓ} {B : Type κ} where
  infixl 5 ◌>>=◌ ◌>>◌
  -- an exception ends the block
  abbrev pub ◌>>=◌ : Result A → (A → Result B) → Result B
  ◌>>=◌ (err e) next = err e
  ◌>>=◌ (ok a) next = next a

  abbrev pub ◌>>◌ : Result A → Result B → Result B
  m >> next = m >>= λ _. next

abbrev pub raise_if : Bool → Error → Result (Unit {0})
raise_if true e = err e
raise_if false e = ok tt

abbrev pub or_raise {ℓ} : {A : Type ℓ} → Option A → Error → Result A
or_raise none e = err e
or_raise (some a) e = ok a

pub Result-cases {ℓ} :
    {A : Type ℓ} (r : Result A) → ((a : A) × (r ≡ ok a)) ⊎ ((e : Error) × (r ≡ err e))
Result-cases (ok a) = inl (a, refl)
Result-cases (err e) = inr (e, refl)

pub ok_inj {ℓ} : {A : Type ℓ} {a b : A} → ok a ≡ ok b → a ≡ b
ok_inj h = cc
