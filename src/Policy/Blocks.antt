-- ===== src/Policy/Blocks.antt =====
-- When engine.py blocks, and that a block needs no time zone.
use ai_compliance_orquestrat.Prelude.{
  String, ◌≡◌, refl, inl, inr, List-cases, ◌≢◌, ◌⊎◌, ◌↔◌, Bool, true, false, List, [], ◌∷◌, none,
  arith, if◌then◌else◌, sym, ◌&&◌, ◌∙◌, not,
}
use ai_compliance_orquestrat.Errors.{ok}
use ai_compliance_orquestrat.World.{World}
use ai_compliance_orquestrat.Models.{
  AccountStatus, OutreachChannel, call, sms, email, block, same_channel,
}
use ai_compliance_orquestrat.Policy.{
  PolicyInput, PolicyResult, block_reasons, blocked_result, is_aware, evaluate_policy,
  decide_unblocked,
}

-- The consent flag of a channel.
abbrev pub has_consent : OutreachChannel → PolicyInput → Bool
has_consent call p = p.call_consent
has_consent sms p = p.sms_consent
has_consent email p = p.email_consent

-- What the documents ask of a customer and an account before any contact on the channel.
pub record MayContact (p : PolicyInput) : Type 0 where
  pub not_opted_out : p.opted_out ≡ false
  pub consented : has_consent p.channel p ≡ true
  pub not_paused : p.account_status ≢ AccountStatus.paused
  pub not_resolved : p.account_status ≢ AccountStatus.resolved

-- What forbids contact.
abbrev pub Forbidden : PolicyInput → Type 0
Forbidden p =
    (p.opted_out ≡ true)
    ⊎ (has_consent p.channel p ≡ false)
    ⊎ (p.account_status ≡ AccountStatus.paused)
    ⊎ (p.account_status ≡ AccountStatus.resolved)

-- No block reason is found exactly when contact is permitted.
pub block_reasons_none : (p : PolicyInput) → (block_reasons p ≡ []) ↔ MayContact p
unfolding block_reasons
block_reasons_none p = (λ e. ground arith, λ m. ground arith)

-- The one flag of contact that fails, if any.
pub Forbidden-or-MayContact : (p : PolicyInput) → Forbidden p ⊎ MayContact p
Forbidden-or-MayContact p = ground arith

pub not-Forbidden : (p : PolicyInput) → MayContact p → ¬ Forbidden p
not-Forbidden p m f = ground arith

pub Forbidden-block_reasons :
    (p : PolicyInput) → Forbidden p → (r : String) × (rs : List String) × (block_reasons p ≡ r ∷ rs)
Forbidden-block_reasons p f = elim (List-cases (block_reasons p)) [
  | inl e ↦ absurd (not-Forbidden p ((block_reasons_none p).0 e) f)
  | inr c ↦ c
]

-- a text for each test that holds, in order
abbrev those : List (Bool × String) → List String
those [] = []
those ((holds, reason) ∷ rest) = if holds then reason ∷ those rest else those rest

abbrev is_paused : AccountStatus → Bool
is_paused AccountStatus.paused = true
is_paused _ = false

abbrev is_resolved : AccountStatus → Bool
is_resolved AccountStatus.resolved = true
is_resolved _ = false

-- Everything that forbids contact, with the text that the audit trail and the API use for it.
abbrev pub all_reasons : PolicyInput → List String
all_reasons p = those (
    (p.opted_out, "customer_opted_out")
    ∷ (same_channel p.channel sms && not p.sms_consent, "missing_sms_consent")
    ∷ (same_channel p.channel call && not p.call_consent, "missing_call_consent")
    ∷ (same_channel p.channel email && not p.email_consent, "missing_email_consent")
    ∷ (is_paused p.account_status, "account_paused")
    ∷ (is_resolved p.account_status, "account_resolved")
    ∷ [])

pub block_reasons_lem : (p : PolicyInput) → block_reasons p ≡ all_reasons p
unfolding block_reasons
block_reasons_lem p = ground arith

module _ ⦃w : World⦄ (p : PolicyInput) (aware : is_aware p.scheduled_at ≡ true) where
  pub evaluate_policy-aware : evaluate_policy p ≡ decide_unblocked p (block_reasons p)
  unfolding evaluate_policy
  evaluate_policy-aware = rw aware

  -- With an opt-out, a missing consent, or a paused or resolved account, and an aware time, the
  -- engine blocks, on the proposed channel, with the reason of each of these that holds and no
  -- other, and with no time, whatever the time zone, the hour and the count.
  pub evaluate_policy-Forbidden :
      Forbidden p
      → (r : PolicyResult) × (evaluate_policy p ≡ ok r)
        × (r.decision ≡ block)
        × (r.channel ≡ p.channel)
        × (r.reasons ≡ all_reasons p)
        × (r.defer_until ≡ none)
  unfolding decide_unblocked blocked_result
  evaluate_policy-Forbidden f =
      let (r, rs, e) = Forbidden-block_reasons p f in
      (
        blocked_result p (r ∷ rs),
        rw (evaluate_policy-aware, e),
        refl,
        refl,
        sym e ∙ block_reasons_lem p,
        refl,
      )

  -- Without one the engine goes on to the deferrals.
  pub evaluate_policy-MayContact : MayContact p → evaluate_policy p ≡ decide_unblocked p []
  evaluate_policy-MayContact m = rw (evaluate_policy-aware, (block_reasons_none p).1 m)
