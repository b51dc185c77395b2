-- ===== src/Tests/PolicyRuns.antt =====
-- The policy engine and the planner's calendar on concrete inputs.
use ai_compliance_orquestrat.Policy.Blocks.{Forbidden, evaluate_policy-Forbidden, MayContact}
use ai_compliance_orquestrat.Schedule.BusinessDay.{
  IsNextBusinessDay, next_business_day_lem, next_business_day_at_10_lem,
}
use ai_compliance_orquestrat.Errors.{ok}
use ai_compliance_orquestrat.Tests.Sample.{late, a_text, nine, sample_laws, sample}
use ai_compliance_orquestrat.Schedule.{next_business_day_at_10, next_business_day, skip_weekend}
use ai_compliance_orquestrat.Prelude.{
  ℕ, ◌≡◌, ◌*◌, ◌≢◌, some, refl, none, ◌∷◌, ◌+◌, arith, ◌↔◌, [], false, true, inr, inl, ◌<◌,
}
use ai_compliance_orquestrat.Policy.Outcomes.{Outcome, evaluate_policy-Outcome}
use ai_compliance_orquestrat.Policy.Decisions.{Answers, InHours, evaluate_policy_decides}
use ai_compliance_orquestrat.Models.{sms, allow, email, block, call}
use ai_compliance_orquestrat.Policy.QuietHours.{
  IsNextOpening, next_opening-earliest, quiet_hours_settled,
}
use ai_compliance_orquestrat.Policy.{
  quiet_hours_defer_until, next_opening, PolicyResult, PolicyInput, evaluate_policy,
  decide_unblocked, block_reasons, unblocked_result, in_outreach_window, defer_reasons, is_aware,
}
use ai_compliance_orquestrat.DateTime.{DateTime, plus, hour, day, time}

abbrev tomorrow : DateTime
tomorrow = record { wall = 9 * hour + 366 * day; fold = false; tzinfo = some "UTC" }

-- 22:00 moves to 09:00 of the next day.
late_text_defers : quiet_hours_defer_until (a_text late) ≡ ok (some tomorrow)
unfolding quiet_hours_defer_until next_opening plus
late_text_defers = refl

late_opening : next_opening late ≡ ok (some tomorrow)
unfolding next_opening plus
late_opening = refl

next_opening-earliest_example : IsNextOpening late tomorrow
next_opening-earliest_example = next_opening-earliest late late_opening

sms_no_email : sms ≢ email
sms_no_email e = ground arith

settled_tomorrow :
    quiet_hours_defer_until (record (a_text late) { scheduled_at = tomorrow }) ≡ ok none
settled_tomorrow = quiet_hours_settled sample_laws (a_text late) sms_no_email late_text_defers

a_text-Answers : Answers (a_text nine) nine
unfolding is_aware
a_text-Answers = record { aware = refl; known = refl; converts = refl; representable = omega arith }

evaluate_policy_decides_example :
    (r : PolicyResult) × (evaluate_policy (a_text nine) ≡ ok r)
    × ((r.decision ≡ block) ↔ Forbidden (a_text nine))
    × ((r.decision ≡ allow) ↔ (MayContact (a_text nine) × InHours (a_text nine) nine × (0 < 3)))
evaluate_policy_decides_example = evaluate_policy_decides (a_text nine) a_text-Answers

-- a call without consent
abbrev unasked_call : PolicyInput
unasked_call = record (a_text nine) { channel = call }

evaluate_policy-Forbidden_example :
    (r : PolicyResult) × (evaluate_policy unasked_call ≡ ok r)
    × (r.decision ≡ block)
    × (r.channel ≡ call)
    × (r.reasons ≡ "missing_call_consent" ∷ [])
    × (r.defer_until ≡ none)
unfolding is_aware
evaluate_policy-Forbidden_example = evaluate_policy-Forbidden unasked_call refl (inr (inl refl))

abbrev allowed : PolicyResult
allowed = record {
  decision = allow;
  channel = sms;
  reasons = "policy_allowed" ∷ [];
  defer_until = none;
}

text_allowed : evaluate_policy (a_text nine) ≡ ok allowed
unfolding evaluate_policy is_aware decide_unblocked block_reasons quiet_hours_defer_until
    next_opening unblocked_result defer_reasons
text_allowed = refl

evaluate_policy-Outcome_example : Outcome (a_text nine) allowed
evaluate_policy-Outcome_example = evaluate_policy-Outcome (a_text nine) text_allowed

-- 1 January of the year 2 is a Monday; the day before is a Sunday.
next_business_day_lem_example : (d : ℕ) × (next_business_day 362 ≡ ok d) × IsNextBusinessDay 362 d
next_business_day_lem_example = next_business_day_lem 362 (omega arith)

abbrev call_at_10 : DateTime
call_at_10 = record { wall = 366 * day + 10 * hour; fold = false; tzinfo = some "UTC" }

call_proposed : next_business_day_at_10 nine "UTC" ≡ ok call_at_10
unfolding next_business_day_at_10 next_business_day skip_weekend
call_proposed = refl

next_business_day_at_10_lem_example :
    (call_at_10.tzinfo ≡ some "UTC")
    × (time call_at_10 ≡ 10 * hour)
    × (in_outreach_window (time call_at_10) ≡ true)
    × (sample.zone_exists "UTC" ≡ true)
next_business_day_at_10_lem_example = next_business_day_at_10_lem nine "UTC" call_proposed
