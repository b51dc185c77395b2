-- ===== src/Api/Requests/Refused.antt =====
-- The request models refuse a body with HTTP 422 and raise nothing else.
use ai_compliance_orquestrat.Api.Readers.{required, defaulted, invalid, Pydantic}
use ai_compliance_orquestrat.Api.Requests.{
  account_request, customer_request, inbound_event_request, delivery_result_request,
  cancel_outreach_request,
}
use ai_compliance_orquestrat.Errors.{Result, Error, ok, err, ◌>>=◌, or_raise, raise_if}
use ai_compliance_orquestrat.Json.{Json, Fields, get}
use ai_compliance_orquestrat.World.{World}
use ai_compliance_orquestrat.Prelude.{String, Option, Bool, ◌≡◌, none, some, true, false, refl}

-- a value, or the error `invalid`
pub data Validates {ℓ} {A : Type ℓ} : Result A → Type ℓ where
  accepts : (a : A) → Validates (ok a)
  refuses : Validates (err invalid)

Validates-bind {ℓ κ} :
    {A : Type ℓ} {B : Type κ} (m : Result A) (f : A → Result B)
    → Validates m
    → ((a : A) → Validates (f a))
    → Validates (m >>= f)
Validates-bind m f (accepts a) k = k a
Validates-bind m f refuses k = refuses

Validates-ok {ℓ} : {A : Type ℓ} (a : A) → Validates (ok a)
Validates-ok a = accepts a

Validates-or_raise {ℓ} : {A : Type ℓ} (o : Option A) → Validates (or_raise o invalid)
Validates-or_raise none = refuses
Validates-or_raise (some a) = accepts a

Validates-raise_if : (b : Bool) → Validates (raise_if b invalid)
Validates-raise_if true = refuses
Validates-raise_if false = accepts _

module _ {ℓ} {A : Type ℓ} (read : Json → Option A) (key : String) (fs : Fields) where
  Validates-required : Validates (required read key fs)
  unfolding required
  Validates-required =
      elim (get key fs)
        as (λ o. Validates (elim o [ none ↦ err invalid | some v ↦ or_raise (read v) invalid ])) [
          | none ↦ refuses
          | some v ↦ Validates-or_raise (read v)
        ]

  Validates-defaulted : (default : A) → Validates (defaulted read default key fs)
  unfolding defaulted
  Validates-defaulted default =
      elim (get key fs)
        as (λ o. Validates (elim o [ none ↦ ok default | some v ↦ or_raise (read v) invalid ])) [
          | none ↦ accepts default
          | some v ↦ Validates-or_raise (read v)
        ]

ruleset validates_rules = (
  Validates-bind, Validates-ok, Validates-or_raise, Validates-raise_if, Validates-required,
  Validates-defaulted,
)

module _ ⦃p : Pydantic⦄ where
  account_request-Validates : (fs : Fields) → Validates (account_request fs)
  unfolding account_request
  account_request-Validates fs = search validates_rules depth 12

  pub delivery_result_request-Validates : (fs : Fields) → Validates (delivery_result_request fs)
  unfolding delivery_result_request
  delivery_result_request-Validates fs = search validates_rules depth 12

  pub cancel_outreach_request-Validates : (fs : Fields) → Validates (cancel_outreach_request fs)
  unfolding cancel_outreach_request
  cancel_outreach_request-Validates fs = search validates_rules depth 12

  module _ ⦃w : World⦄ where
    customer_request-Validates : (fs : Fields) → Validates (customer_request fs)
    unfolding customer_request
    customer_request-Validates fs = search validates_rules depth 20

    pub inbound_event_request-Validates : (fs : Fields) → Validates (inbound_event_request fs)
    unfolding inbound_event_request
    inbound_event_request-Validates fs =
        search (validates_rules, customer_request-Validates, account_request-Validates) depth 20

pub Validates-err {ℓ} :
    {A : Type ℓ} {r : Result A} → Validates r → {e : Error} → r ≡ err e → r ≡ err invalid
Validates-err (accepts a) h = absurd (cc)
Validates-err refuses h = refl
