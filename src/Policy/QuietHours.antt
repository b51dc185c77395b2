-- ===== src/Policy/QuietHours.antt =====
-- The quiet hours of engine.py: what a deferral moves a call or a text to.
use ai_compliance_orquestrat.Models.{email}
use ai_compliance_orquestrat.World.{World, TimeLaws}
use ai_compliance_orquestrat.Prelude.{
  ℕ, ◌+◌, ◌%◌, ◌≤◌, ◌<◌, ◌≡◌, true, false, Option, none, some, arith, ◌≢◌, inl, Option-cases, ◌∙◌,
  inr,
}
use ai_compliance_orquestrat.Errors.{ok, Result-cases}
use ai_compliance_orquestrat.DateTime.{DateTime, day, time, plus, end_of_time}
use ai_compliance_orquestrat.Policy.{
  in_outreach_window, next_opening, outreach_window_start, PolicyInput, quiet_hours_defer_until,
}

-- What a deferral from `local` to `d` promises: `d` is later, in the same zone and in the window,
-- and no reading between the two is in the window.
pub record IsNextOpening (local d : DateTime) : Type 0 where
  pub later : local.wall < d.wall
  pub zone : d.tzinfo ≡ local.tzinfo
  pub opens : time d ≡ outreach_window_start
  pub earliest : (t : ℕ) → local.wall ≤ t → t < d.wall → in_outreach_window (t % day) ≡ false

-- The next opening moves an early reading to 09:00 of its day and a late one to 09:00 of the day
-- after, which is the earliest later reading in the window; inside the window nothing moves.
pub next_opening-earliest :
    (local : DateTime) {d : DateTime} → next_opening local ≡ ok (some d) → IsNextOpening local d
unfolding next_opening plus
next_opening-earliest local {d} h = record {
  later = ground arith;
  zone = ground arith;
  opens = ground arith;
  earliest = λ t a b. ground arith;
}

pub next_opening-none :
    (local : DateTime) → next_opening local ≡ ok none → in_outreach_window (time local) ≡ true
unfolding next_opening plus
next_opening-none local h = ground arith

pub next_opening-inside :
    (local : DateTime) → in_outreach_window (time local) ≡ true → next_opening local ≡ ok none
unfolding next_opening
next_opening-inside local h = ground arith

-- Before the last representable day a reading always has an answer.
pub next_opening_total :
    (local : DateTime)
    → local.wall + day < end_of_time
    → (o : Option DateTime) × (next_opening local ≡ ok o)
unfolding next_opening plus
next_opening_total local h = elim (Result-cases (next_opening local)) [
  | inl answer ↦ answer
  | inr (e, fails) ↦ absurd (ground arith)
]

pub IsNextOpening-in_outreach_window :
    {local d : DateTime} → IsNextOpening local d → in_outreach_window (time d) ≡ true
unfolding in_outreach_window
IsNextOpening-in_outreach_window h = rw h.opens

module _ ⦃w : World⦄ (p : PolicyInput) {local : DateTime} where
  -- The engine's answer for a call or a text is that of the customer's local reading.
  pub quiet_hours-local :
      p.channel ≢ email
      → w.zone_exists p.customer_timezone ≡ true
      → w.astimezone p.scheduled_at p.customer_timezone ≡ some local
      → quiet_hours_defer_until p ≡ next_opening local
  unfolding quiet_hours_defer_until
  quiet_hours-local ne known converts = ground arith

module _ ⦃w : World⦄ (p : PolicyInput) {o : Option DateTime} where
  -- An answer for a call or a text came from a known zone and a local reading.
  pub quiet_hours_inv :
      p.channel ≢ email
      → quiet_hours_defer_until p ≡ ok o
      → (local : DateTime) × (w.zone_exists p.customer_timezone ≡ true)
        × (w.astimezone p.scheduled_at p.customer_timezone ≡ some local)
        × (next_opening local ≡ ok o)
  unfolding quiet_hours_defer_until
  quiet_hours_inv ne h = elim (Option-cases (w.astimezone p.scheduled_at p.customer_timezone)) [
    | inl overflow ↦ absurd (ground arith)
    | inr (local, e) ↦ (local, ground arith, e, ground arith)
  ]

pub quiet_hours-email :
    ⦃w : World⦄ (p : PolicyInput) → p.channel ≡ email → quiet_hours_defer_until p ≡ ok none
unfolding quiet_hours_defer_until
quiet_hours-email p e = ground arith

module _ ⦃w : World⦄ (laws : TimeLaws w) (p : PolicyInput) where
  -- A time that quiet hours moved is not moved again: it is local already, and in the window.
  pub quiet_hours_settled :
      {d : DateTime}
      → p.channel ≢ email
      → quiet_hours_defer_until p ≡ ok (some d)
      → quiet_hours_defer_until (record p { scheduled_at = d }) ≡ ok none
  quiet_hours_settled {d} ne h =
      let (local, known, converts, opening) = quiet_hours_inv p ne h in
      let next = next_opening-earliest local opening in
      let zone = next.zone ∙ laws.astimezone_zone p.scheduled_at p.customer_timezone converts in
      quiet_hours-local (record p { scheduled_at = d }) ne known
        (laws.astimezone_same d p.customer_timezone zone)
      ∙ next_opening-inside d (IsNextOpening-in_outreach_window next)
