-- ===== src/Api/Requests/Accepted.antt =====
-- What a request that the models accept is known to satisfy.
use ai_compliance_orquestrat.Errors.Ensures.{
  Ensures, returns, raises, Ensures-bind, Ensures-after, Ensures-or_raise, Ensures_ok,
}
use ai_compliance_orquestrat.Policy.{is_aware}
use ai_compliance_orquestrat.Planner.PolicyEvent.{contains}
use ai_compliance_orquestrat.Text.{has_length}
use ai_compliance_orquestrat.Json.{Json, Fields, get, end, null}
use ai_compliance_orquestrat.World.{World}
use ai_compliance_orquestrat.Api.Readers.{
  required, checked, Pydantic, bounded_text, invalid, defaulted, as_object, nullable, non_negative,
}
use ai_compliance_orquestrat.Api.Requests.{
  CustomerSnapshotRequest, InboundEventRequest, customer_request, account_request,
  inbound_event_request, identity_field, timezone_field, as_event_type, event_types,
  occurred_at_field, as_account_status,
}
use ai_compliance_orquestrat.Prelude.{Option, ◌≡◌, Bool, some, String, true, ℕ, none, arith, false}
use ai_compliance_orquestrat.Errors.{ok, err, or_raise}

module _ {ℓ} {A : Type ℓ} (P : A → Type 0) where
  Ensures-required :
      (read : Json → Option A) (key : String) (fs : Fields)
      → ((v : Json) (a : A) → read v ≡ some a → P a)
      → Ensures P (required read key fs)
  unfolding required
  Ensures-required read key fs k =
      elim (get key fs)
        as (λ o. Ensures P (elim o [ none ↦ err invalid | some v ↦ or_raise (read v) invalid ])) [
          | none ↦ raises invalid
          | some v ↦ Ensures-or_raise P (read v) invalid (k v)
        ]

  Ensures-defaulted :
      (read : Json → Option A) (default : A) (key : String) (fs : Fields)
      → P default
      → ((v : Json) (a : A) → read v ≡ some a → P a)
      → Ensures P (defaulted read default key fs)
  unfolding defaulted
  Ensures-defaulted read default key fs d k =
      elim (get key fs)
        as (λ o. Ensures P (elim o [ none ↦ ok default | some v ↦ or_raise (read v) invalid ])) [
          | none ↦ returns default d
          | some v ↦ Ensures-or_raise P (read v) invalid (k v)
        ]

checked_inner {ℓ} :
    {A : Type ℓ} (test : A → Bool) (o : Option A) {a : A} → checked test o ≡ some a → o ≡ some a
unfolding checked
checked_inner test none h = cc
checked_inner test (some b) h = ground arith

-- A text, if any, of at most `most` characters.
abbrev pub Fits : ℕ → Option String → Type 0
Fits most none = Unit
Fits most (some s) = has_length 0 most s ≡ true

checked_holds {ℓ} :
    {A : Type ℓ} (test : A → Bool) (o : Option A) {a : A} → checked test o ≡ some a → test a ≡ true
unfolding checked
checked_holds test none h = cc
checked_holds test (some b) h = ground arith

module _ ⦃w : World⦄ where
  -- A customer whom the API lets in: an identity, and a time zone that is known.
  pub record IsValidCustomer (c : CustomerSnapshotRequest) : Type 0 where
    pub external_id : has_length 1 255 c.external_id ≡ true
    pub full_name : has_length 1 255 c.full_name ≡ true
    pub timezone : has_length 1 64 c.timezone ≡ true
    pub zone : w.zone_exists c.timezone ≡ true
    pub phone_number : Fits 64 c.phone_number
    pub email : Fits 255 c.email

  -- An event that the API lets in.
  pub record IsValidEvent (e : InboundEventRequest) : Type 0 where
    pub source : has_length 1 255 e.source ≡ true
    pub external_id : has_length 1 255 e.external_id ≡ true
    pub known_type : contains e.event_type event_types ≡ true
    pub customer : IsValidCustomer e.customer
    pub account : has_length 1 255 e.account.external_id ≡ true
    pub aware : is_aware e.occurred_at ≡ true

  module _ ⦃p : Pydantic⦄ where
    bounded_text_holds :
        (least most : ℕ) (v : Json) (s : String)
        → bounded_text least most v ≡ some s
        → has_length least most s ≡ true
    unfolding bounded_text
    bounded_text_holds least most v s h = checked_holds (has_length least most) (p.as_str v) h

    timezone_field_holds :
        (v : Json) (z : String)
        → timezone_field v ≡ some z
        → (has_length 1 64 z ≡ true) × (w.zone_exists z ≡ true)
    unfolding timezone_field
    timezone_field_holds v z h = (
      bounded_text_holds 1 64 v z (checked_inner w.zone_exists (bounded_text 1 64 v) h),
      checked_holds w.zone_exists (bounded_text 1 64 v) h,
    )

    some_text-Fits :
        (most : ℕ) (read : Option String) (o : Option String)
        → ((s : String) → read ≡ some s → has_length 0 most s ≡ true)
        → elim read [ none ↦ none | some a ↦ some (some a) ] ≡ some o
        → Fits most o
    some_text-Fits most none o k h = absurd (cc)
    some_text-Fits most (some s) none k h = tt
    some_text-Fits most (some s) (some t) k h = k t (cc)

    nullable-Fits :
        (most : ℕ) (v : Json) (o : Option String)
        → nullable (bounded_text 0 most) v ≡ some o
        → Fits most o
    unfolding nullable
    nullable-Fits most null none h = tt
    nullable-Fits most null (some s) h = absurd (cc)
    nullable-Fits most v o h =
        some_text-Fits most (bounded_text 0 most v) o (λ s e. bounded_text_holds 0 most v s e) h

    customer_request-Ensures : (fs : Fields) → Ensures IsValidCustomer (customer_request fs)
    unfolding customer_request identity_field timezone_field
    customer_request-Ensures fs =
        Ensures-bind _ (λ s. has_length 1 255 s ≡ true) _ _
          (Ensures-required _ _ _ _ (bounded_text_holds 1 255))
          λ external_id h.
            Ensures-bind _ (λ s. has_length 1 255 s ≡ true) _ _
              (Ensures-required _ _ _ _ (bounded_text_holds 1 255))
              λ full_name k.
                Ensures-bind _ (λ z. (has_length 1 64 z ≡ true) × (w.zone_exists z ≡ true)) _ _
                  (Ensures-required _ _ _ _ timezone_field_holds)
                  λ timezone z.
                    Ensures-bind _ (Fits 64) _ _
                      (Ensures-defaulted _ _ _ "phone_number" fs tt (nullable-Fits 64))
                      λ phone_number n.
                        Ensures-bind _ (Fits 255) _ _
                          (Ensures-defaulted _ _ _ "email" fs tt (nullable-Fits 255))
                          λ email m.
                            Ensures-after _ (defaulted p.as_bool false "sms_consent" fs) _
                              λ sms_consent.
                                Ensures-after _ (defaulted p.as_bool false "call_consent" fs) _
                                  λ call_consent.
                                    Ensures-after _ (defaulted p.as_bool false "email_consent" fs) _
                                      λ email_consent. returns _ (record {
                                        external_id = h;
                                        full_name = k;
                                        timezone = z.0;
                                        zone = z.1;
                                        phone_number = n;
                                        email = m;
                                      })

    account_request-Ensures :
        (fs : Fields) → Ensures (λ a. has_length 1 255 a.external_id ≡ true) (account_request fs)
    unfolding account_request identity_field
    account_request-Ensures fs =
        Ensures-bind _ (λ s. has_length 1 255 s ≡ true) _ _
          (Ensures-required _ _ _ _ (bounded_text_holds 1 255))
          λ external_id h. Ensures-after _ (required as_account_status "status" fs) _ λ status.
            Ensures-after _ (defaulted (λ v. non_negative (p.as_int v)) 0 "balance_cents" fs) _
              λ balance_cents.
                Ensures-after _ (defaulted (λ v. non_negative (p.as_int v)) 0 "days_past_due" fs) _
                  λ days_past_due. returns _ h

    inbound_event_request-Ensures : (fs : Fields) → Ensures IsValidEvent (inbound_event_request fs)
    unfolding inbound_event_request identity_field as_event_type occurred_at_field
    inbound_event_request-Ensures fs =
        Ensures-bind _ (λ s. has_length 1 255 s ≡ true) _ _
          (Ensures-required _ _ _ _ (bounded_text_holds 1 255))
          λ source h.
            Ensures-bind _ (λ s. has_length 1 255 s ≡ true) _ _
              (Ensures-required _ _ _ _ (bounded_text_holds 1 255))
              λ external_id k.
                Ensures-bind _ (λ s. contains s event_types ≡ true) _ _
                  (Ensures-required _ _ _ _ (λ v s. checked_holds (λ t. contains t event_types) _))
                  λ event_type known.
                    Ensures-after _ (required as_object "customer" fs) _ λ customer_fields.
                      Ensures-bind _ IsValidCustomer _ _ (customer_request-Ensures customer_fields)
                        λ customer valid.
                          Ensures-after _ (required as_object "account" fs) _ λ account_fields.
                            Ensures-bind _ (λ a. has_length 1 255 a.external_id ≡ true) _ _
                              (account_request-Ensures account_fields)
                              λ account a.
                                Ensures-bind _ (λ d. is_aware d ≡ true) _ _
                                  (Ensures-required _ _ _ _ (λ v d. checked_holds is_aware _))
                                  λ occurred_at aware.
                                    Ensures-after _ (defaulted as_object end "metadata" fs) _
                                      λ metadata. returns _ (record {
                                        source = h;
                                        external_id = k;
                                        known_type = known;
                                        customer = valid;
                                        account = a;
                                        aware = aware;
                                      })

    -- Whatever the body, an accepted event has identities of 1 to 255 characters, one of the six
    -- event types, a customer with an identity, a name and a known time zone, an account with an
    -- identity, and an aware time.
    pub inbound_event_request-IsValidEvent :
        (fs : Fields) (e : InboundEventRequest) → inbound_event_request fs ≡ ok e → IsValidEvent e
    inbound_event_request-IsValidEvent fs =
        Ensures_ok IsValidEvent (inbound_event_request-Ensures fs)
