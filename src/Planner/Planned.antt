-- ===== src/Planner/Planned.antt =====
-- What a policy event adds to the tables, and that it complies.
use ai_compliance_orquestrat.Policy.QuietHours.{
  quiet_hours_inv, quiet_hours-email, quiet_hours_settled, next_opening-none,
}
use ai_compliance_orquestrat.Policy.Decisions.{email-cases}
use ai_compliance_orquestrat.Policy.Blocks.{MayContact}
use ai_compliance_orquestrat.Errors.{ok, ok_inj}
use ai_compliance_orquestrat.Planner.PolicyEvent.{contains, Tally, policy_input}
use ai_compliance_orquestrat.DateTime.{DateTime, time}
use ai_compliance_orquestrat.Policy.{
  PolicyInput, quiet_hours_defer_until, defer_reasons, in_outreach_window, over_cap,
}
use ai_compliance_orquestrat.Models.{
  OutreachChannel, Customer, Account, OutreachTask, email, scheduled, PolicyDecision, same_outcome,
  block, defer,
}
use ai_compliance_orquestrat.Prelude.{
  length, List, ◌++◌, String, ℕ, ◌≡◌, ◌+◌, Option, count, ◌⊎◌, ◌∷◌, none, some, false, [], arith,
  ◌≢◌, refl, inl, count-append, true, inr, sym, All-append, ◌≤◌, All, ◌∙◌, ap, ◌<◌,
}
use ai_compliance_orquestrat.World.{World, TimeLaws}

-- The channel and the customer's local time at `at` permit contact.
abbrev pub InLocalHours : ⦃w : World⦄ → OutreachChannel → DateTime → String → Type 0
InLocalHours ⦃w⦄ channel at zone =
    (channel ≡ email)
    ⊎ ((local : DateTime) × (w.astimezone at zone ≡ some local)
        × (in_outreach_window (time local) ≡ true))

module _ ⦃w : World⦄ (customer : Customer) (account : Account) where
  -- A task that may be made for the customer: no opt-out, consent to its channel, an open account,
  -- a time in the outreach window, and not attempted yet.
  pub record IsCompliant (t : OutreachTask) : Type 0 where
    pub customer_id : t.customer_id ≡ customer.id
    pub account_id : t.account_id ≡ account.id
    pub status : t.status ≡ scheduled
    pub attempts : t.attempt_count ≡ 0
    pub contact : MayContact (
        policy_input customer account 0
          (record { channel = t.channel; scheduled_at = t.scheduled_at })
          0)
    pub in_hours : InLocalHours t.channel t.scheduled_at customer.timezone

  -- What the evaluation of proposals adds, between two tallies.
  pub record IsPlanned (cap : ℕ) (before : Tally) (ds : List PolicyDecision)
      (ts : List OutreachTask) (after : Tally) : Type 0 where
    pub decisions : after.policy_decisions ≡ before.policy_decisions + length ds
    pub blocked :
        after.blocked_attempts
        ≡ before.blocked_attempts + count (λ d. same_outcome d.decision block) ds
    pub deferred :
        after.deferred_attempts
        ≡ before.deferred_attempts + count (λ d. same_outcome d.decision defer) ds
    pub created : after.created_tasks ≡ before.created_tasks + length ts
    pub recent : after.recent_count ≡ before.recent_count + length ts
    pub capped : (ts ≡ []) ⊎ (after.recent_count ≤ cap)
    pub compliant : All IsCompliant ts

length-append : {A : Type 0} (xs ys : List A) → length (xs ++ ys) ≡ length xs + length ys
length-append [] ys = omega arith
length-append (x ∷ xs) ys = rw (length-append xs ys) (omega arith)

nil-append : {A : Type 0} (xs ys : List A) → xs ≡ [] → ys ≡ [] → xs ++ ys ≡ []
nil-append xs ys h k = cc

length-nil : {A : Type 0} (xs : List A) → xs ≡ [] → length xs ≡ 0
length-nil xs h = ap length h

module _ ⦃w : World⦄ (p : PolicyInput) where
  pub quiet_none-InLocalHours :
      quiet_hours_defer_until p ≡ ok none
      → InLocalHours p.channel p.scheduled_at p.customer_timezone
  quiet_none-InLocalHours q = elim (email-cases p.channel) [
    | inl e ↦ inl e
    | inr ne ↦
        let (local, known, converts, opening) = quiet_hours_inv p ne q in
        inr (local, converts, next_opening-none local opening)
  ]

  quiet_some-no_email : {d : DateTime} → quiet_hours_defer_until p ≡ ok (some d) → p.channel ≢ email
  quiet_some-no_email q e = absurd (none_ne_some (ok_inj (sym (quiet_hours-email p e) ∙ q)))
    where
      none_ne_some : {d : DateTime} → none ≡ some d → ⊥
      none_ne_some h = cc

  pub quiet_some-InLocalHours :
      TimeLaws w
      → {d : DateTime} → quiet_hours_defer_until p ≡ ok (some d)
      → InLocalHours p.channel d p.customer_timezone
  quiet_some-InLocalHours laws {d} q = elim (email-cases p.channel) [
    | inl e ↦ inl e
    | inr ne ↦
        let settled = quiet_hours_settled laws p ne q in
        let (local, known, converts, opening) =
          quiet_hours_inv (record p { scheduled_at = d }) ne settled in
        inr (local, converts, next_opening-none local opening)
  ]

  -- a deferral that mentions no full cap had room under it
  pub deferral_has_room :
      (until : Option DateTime)
      → contains "frequency_cap_exceeded" (defer_reasons p until) ≡ false
      → over_cap p ≡ false
  unfolding defer_reasons contains
  deferral_has_room none h = ground arith
  deferral_has_room (some d) h = ground arith

pub room_below :
    (p : PolicyInput) → over_cap p ≡ false → p.recent_outbound_attempt_count < p.frequency_cap
unfolding over_cap
room_below p h = ground arith

module _ ⦃w : World⦄ (customer : Customer) (account : Account) (cap : ℕ) where
  pub IsPlanned-none : (tally : Tally) → IsPlanned customer account cap tally [] [] tally
  unfolding count
  IsPlanned-none tally = record {
    decisions = omega arith;
    blocked = omega arith;
    deferred = omega arith;
    created = omega arith;
    recent = omega arith;
    capped = inl refl;
    compliant = tt;
  }

  pub IsPlanned-append :
      {a b c : Tally} (ds ds' : List PolicyDecision) (ts ts' : List OutreachTask)
      → IsPlanned customer account cap a ds ts b
      → IsPlanned customer account cap b ds' ts' c
      → IsPlanned customer account cap a (ds ++ ds') (ts ++ ts') c
  IsPlanned-append {a} {b} {c} ds ds' ts ts' h k = record {
    decisions = rw (length-append ds ds') (ground arith);
    blocked = rw (count-append _ ds ds') (ground arith);
    deferred = rw (count-append _ ds ds') (ground arith);
    created = rw (length-append ts ts') (ground arith);
    recent = rw (length-append ts ts') (ground arith);
    capped = capped_append h.capped k.capped;
    compliant = All-append _ ts ts' h.compliant k.compliant;
  }
    where
      capped_append :
          (ts ≡ []) ⊎ (b.recent_count ≤ cap)
          → (ts' ≡ []) ⊎ (c.recent_count ≤ cap)
          → (ts ++ ts' ≡ []) ⊎ (c.recent_count ≤ cap)
      capped_append (inl e) (inl e') = inl (nil-append ts ts' e e')
      capped_append (inr le) (inl e') =
          let none_more = length-nil ts' e' in let counted = k.recent in inr (omega arith)
      capped_append first (inr le) = inr le
