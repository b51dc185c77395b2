-- ===== src/Schedule.antt =====
-- src/orchestrator/orchestration/planner.py: when each event proposes which channel
-- (`_proposals_for_event`, `_next_business_day_at_10`).
use ai_compliance_orquestrat.DateTime.{DateTime, weekday, plus, date, combine, minute, hour}
use ai_compliance_orquestrat.World.{World}
use ai_compliance_orquestrat.Prelude.{
  ℕ, suc, ◌+◌, String, if◌then◌else◌, List, leb, ◌==◌, not, zero, ◌*◌, concat, ◌∷◌, [],
}
use ai_compliance_orquestrat.Models.{OutreachChannel, email, sms, call}
pub mod BusinessDay
use ai_compliance_orquestrat.Errors.{
  Result, ◌>>◌, raise_if, ◌>>=◌, overflow_error, or_raise, err, ok, zone_info_not_found_error,
  value_error,
}

pub record ProposedOutreach : Type 0 where
  pub channel : OutreachChannel
  pub scheduled_at : DateTime

-- `while candidate.weekday() >= 5: candidate += timedelta(days=1)`, for at most `fuel` rounds
unfoldable pub skip_weekend : ℕ → ℕ → ℕ
skip_weekend zero candidate = candidate
skip_weekend (suc fuel) candidate =
    let rest = skip_weekend fuel (candidate + 1) in
    if leb 5 (weekday candidate) then rest else candidate

-- the number of dates that Python represents, 0001-01-01 to 9999-12-31
abbrev pub last_date : ℕ
last_date = 3652059

-- Two rounds pass a weekend; moving past the last date is an OverflowError.
unfoldable pub next_business_day : ℕ → Result ℕ
unfolding skip_weekend
next_business_day today = do
  let candidate = skip_weekend 2 (today + 1)
  raise_if (leb last_date candidate) overflow_error
  ok candidate

module _ ⦃w : World⦄ where
  unfoldable pub next_business_day_at_10 : DateTime → String → Result DateTime
  next_business_day_at_10 now customer_timezone = do
    raise_if (not (w.zone_exists customer_timezone)) (zone_info_not_found_error customer_timezone)
    local_now ← or_raise (w.astimezone now customer_timezone) overflow_error
    candidate ← next_business_day (date local_now)
    ok (combine candidate (10 * hour) customer_timezone)

  account_delinquent_proposals : DateTime → String → Result (List ProposedOutreach)
  unfolding next_business_day_at_10
  account_delinquent_proposals now customer_timezone = do
    in_half_an_hour ← or_raise (plus now (30 * minute)) overflow_error
    business_day ← next_business_day_at_10 now customer_timezone
    ok (
        record { channel = email; scheduled_at = now }
        ∷ record { channel = sms; scheduled_at = in_half_an_hour }
        ∷ record { channel = call; scheduled_at = business_day }
        ∷ [])

  payment_failed_proposals : DateTime → Result (List ProposedOutreach)
  payment_failed_proposals now = do
    in_a_quarter ← or_raise (plus now (15 * minute)) overflow_error
    ok (
        record { channel = email; scheduled_at = now }
        ∷ record { channel = sms; scheduled_at = in_a_quarter }
        ∷ [])

  unfoldable pub proposals_for_event : String → DateTime → String → Result (List ProposedOutreach)
  unfolding account_delinquent_proposals payment_failed_proposals
  proposals_for_event event_type now customer_timezone =
      if event_type == "account_delinquent"
      then account_delinquent_proposals now customer_timezone
      else if event_type == "payment_failed"
      then payment_failed_proposals now
      else err (value_error (concat "Unsupported policy event type: " event_type))
