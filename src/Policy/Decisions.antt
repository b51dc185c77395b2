-- ===== src/Policy/Decisions.antt =====
-- The three outcomes of `evaluate_policy`, exactly.
use ai_compliance_orquestrat.Policy.QuietHours.{
  quiet_hours-email, next_opening_total, quiet_hours-local, next_opening-none, next_opening-inside,
}
use ai_compliance_orquestrat.Policy.Blocks.{
  Forbidden, MayContact, Forbidden-or-MayContact, evaluate_policy-Forbidden, not-Forbidden,
  evaluate_policy-MayContact,
}
use ai_compliance_orquestrat.Errors.{ok, ok_inj}
use ai_compliance_orquestrat.DateTime.{DateTime, time, day, end_of_time}
use ai_compliance_orquestrat.Prelude.{
  refl, ◌≡◌, Option, ◌⊎◌, ◌≢◌, true, arith, ◌↔◌, some, none, ◌<◌, ◌+◌, inl, [], inr, ◌∙◌, ap, sym,
}
use ai_compliance_orquestrat.World.{World}
use ai_compliance_orquestrat.Models.{OutreachChannel, email, allow, block}
use ai_compliance_orquestrat.Policy.{
  evaluate_policy, unblocked_result, PolicyInput, defer_reasons, is_aware, PolicyResult,
  quiet_hours_defer_until, in_outreach_window, decide_unblocked,
}

pub email-cases : (c : OutreachChannel) → (c ≡ email) ⊎ (c ≢ email)
email-cases c = ground arith

-- After no block, the outcome is a deferral exactly for a quiet hour or a full cap.
pub unblocked_result-allow :
    (p : PolicyInput) (until : Option DateTime)
    → ((unblocked_result p until (defer_reasons p until)).decision ≡ allow)
      ↔ ((until ≡ none) × (p.recent_outbound_attempt_count < p.frequency_cap))
unfolding unblocked_result defer_reasons
unblocked_result-allow p until = (λ e. ground arith, λ h. ground arith)

pub unblocked_result-block :
    (p : PolicyInput) (until : Option DateTime)
    → (unblocked_result p until (defer_reasons p until)).decision ≢ block
unfolding unblocked_result defer_reasons
unblocked_result-block p until e = ground arith

pub decide_unblocked-ok :
    ⦃w : World⦄ (p : PolicyInput) (until : Option DateTime)
    → quiet_hours_defer_until p ≡ ok until
    → decide_unblocked p [] ≡ ok (unblocked_result p until (defer_reasons p until))
unfolding decide_unblocked
decide_unblocked-ok p until e = rw e

-- What is needed for an answer: an aware time, a known zone, and a local reading `local` of it
-- before the last representable day.
pub record Answers ⦃w : World⦄ (p : PolicyInput) (local : DateTime) : Type 0 where
  pub aware : is_aware p.scheduled_at ≡ true
  pub known : w.zone_exists p.customer_timezone ≡ true
  pub converts : w.astimezone p.scheduled_at p.customer_timezone ≡ some local
  pub representable : local.wall + day < end_of_time

-- The channel and the local time permit contact now.
abbrev pub InHours : PolicyInput → DateTime → Type 0
InHours p local = (p.channel ≡ email) ⊎ (in_outreach_window (time local) ≡ true)

module _ ⦃w : World⦄ (p : PolicyInput) {local : DateTime} (answers : Answers p local) where
  -- Quiet hours answer: nothing exactly in hours.
  pub quiet_hours_decides :
      (until : Option DateTime) × (quiet_hours_defer_until p ≡ ok until)
      × ((until ≡ none) ↔ InHours p local)
  quiet_hours_decides = elim (email-cases p.channel) [
    | inl e ↦ (none, quiet_hours-email p e, ((λ _. inl e), (λ _. refl)))
    | inr ne ↦
        let (o, opens) = next_opening_total local answers.representable in
        (
          o,
          quiet_hours-local p ne answers.known answers.converts ∙ opens,
          (
            (λ e. inr (next_opening-none local (opens ∙ ap ok e))),
            (λ h. ok_inj (sym opens ∙ next_opening-inside local (inside ne h))),
          ),
        )
  ]
    where
      inside : p.channel ≢ email → InHours p local → in_outreach_window (time local) ≡ true
      inside ne (inl e) = absurd (ne e)
      inside ne (inr i) = i

  -- The engine always answers; it blocks exactly what is forbidden, and allows exactly what is
  -- permitted, in hours and below the cap. So it defers the rest.
  pub evaluate_policy_decides :
      (r : PolicyResult) × (evaluate_policy p ≡ ok r)
      × ((r.decision ≡ block) ↔ Forbidden p)
      × ((r.decision ≡ allow)
          ↔ (MayContact p × InHours p local × (p.recent_outbound_attempt_count < p.frequency_cap)))
  evaluate_policy_decides = elim (Forbidden-or-MayContact p) [
    | inl f ↦
        let (r, e, b, _, _, _) = evaluate_policy-Forbidden p answers.aware f in
        (
          r,
          e,
          ((λ _. f), (λ _. b)),
          ((λ a. absurd (ground arith)), (λ m. absurd (not-Forbidden p m.0 f))),
        )
    | inr m ↦
        let (until, e, hours) = quiet_hours_decides in
        let allows = unblocked_result-allow p until in
        (
          unblocked_result p until (defer_reasons p until),
          evaluate_policy-MayContact p answers.aware m ∙ decide_unblocked-ok p until e,
          ((λ b. absurd (unblocked_result-block p until b)), (λ f. absurd (not-Forbidden p m f))),
          ((λ a. (m, hours.0 (allows.0 a).0, (allows.0 a).1)), (λ h. allows.1 (hours.1 h.1, h.2))),
        )
  ]
