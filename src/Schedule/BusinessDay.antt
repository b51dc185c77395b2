-- ===== src/Schedule/BusinessDay.antt =====
-- The next business day, and the call that is proposed for it.
use ai_compliance_orquestrat.Policy.{in_outreach_window}
use ai_compliance_orquestrat.Errors.{ok}
use ai_compliance_orquestrat.DateTime.{DateTime, weekday, time, hour}
use ai_compliance_orquestrat.World.{World}
use ai_compliance_orquestrat.Prelude.{ℕ, ◌<◌, ◌+◌, ◌≤◌, arith, String, ◌≡◌, some, ◌*◌, true}
use ai_compliance_orquestrat.Schedule.{
  next_business_day, skip_weekend, last_date, next_business_day_at_10,
}

-- What the docstring promises of the day after `today` that is no weekend day.
pub record IsNextBusinessDay (today d : ℕ) : Type 0 where
  pub later : today < d
  pub soon : d ≤ today + 3
  pub workday : weekday d < 5
  pub first : (n : ℕ) → today < n → n < d → 5 ≤ weekday n

-- Two rounds of the loop are enough: it ends by its own test, on the first workday.
pub skip_weekend-IsNextBusinessDay :
    (today : ℕ) → IsNextBusinessDay today (skip_weekend 2 (today + 1))
unfolding skip_weekend
skip_weekend-IsNextBusinessDay today = record {
  later = ground arith;
  soon = ground arith;
  workday = ground arith;
  first = λ n a b. ground arith;
}

-- Four days before the end of the calendar and earlier, the next business day exists: the first
-- day after today that is not in a weekend, at most three days on.
pub next_business_day_lem :
    (today : ℕ)
    → today + 3 < last_date
    → (d : ℕ) × (next_business_day today ≡ ok d) × IsNextBusinessDay today d
unfolding next_business_day
next_business_day_lem today h =
    let is = skip_weekend-IsNextBusinessDay today in (skip_weekend 2 (today + 1), ground arith, is)

module _ ⦃w : World⦄ (now : DateTime) (zone : String) {d : DateTime} where
  -- The proposed call is at 10:00 in the customer's zone, so inside the outreach window.
  pub next_business_day_at_10_lem :
      next_business_day_at_10 now zone ≡ ok d
      → (d.tzinfo ≡ some zone)
        × (time d ≡ 10 * hour)
        × (in_outreach_window (time d) ≡ true)
        × (w.zone_exists zone ≡ true)
  unfolding next_business_day_at_10 in_outreach_window
  next_business_day_at_10_lem h = ground arith
