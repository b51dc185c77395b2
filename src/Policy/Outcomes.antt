-- ===== src/Policy/Outcomes.antt =====
-- What an answer of `evaluate_policy` tells its caller.
use ai_compliance_orquestrat.Policy.QuietHours.{
  IsNextOpening, quiet_hours_inv, quiet_hours-email, next_opening-none, next_opening-earliest,
}
use ai_compliance_orquestrat.Policy.Decisions.{email-cases}
use ai_compliance_orquestrat.Models.{email, defer, block, allow}
use ai_compliance_orquestrat.DateTime.{DateTime, time, hour}
use ai_compliance_orquestrat.Errors.{ok}
use ai_compliance_orquestrat.Prelude.{
  ◌≡◌, Option, true, none, Bool-cases, inl, false, leb, [], inr, arith, sym, some, ◌∙◌, ◌≢◌, List,
  subst, ◌⊎◌, String, ◌*◌, if◌then◌else◌, ◌<◌, ◌∷◌, ◌≤◌,
}
use ai_compliance_orquestrat.Policy.Blocks.{Forbidden, MayContact, all_reasons, block_reasons_lem}
use ai_compliance_orquestrat.Policy.Branches.{Branch, defers, evaluate_policy-Branch}
use ai_compliance_orquestrat.World.{World}
use ai_compliance_orquestrat.Policy.{
  evaluate_policy, PolicyInput, PolicyResult, unblocked_result, defer_reasons, blocked_result,
  over_cap, block_reasons, quiet_hours_defer_until, in_outreach_window,
}

-- The channel and the local time permit contact: an email, or from 09:00 to 20:00.
abbrev pub IsInHours : ⦃w : World⦄ → PolicyInput → Type 0
IsInHours ⦃w⦄ p =
    (p.channel ≡ email)
    ⊎ ((local : DateTime) × (w.astimezone p.scheduled_at p.customer_timezone ≡ some local)
        × (9 * hour ≤ time local)
        × (time local < 20 * hour))

-- They do not, and `d` is the next local reading that does.
abbrev pub IsMovedTo : ⦃w : World⦄ → PolicyInput → DateTime → Type 0
IsMovedTo ⦃w⦄ p d =
    (p.channel ≢ email)
    × ((local : DateTime) × (w.astimezone p.scheduled_at p.customer_timezone ≡ some local)
        × IsNextOpening local d)

abbrev pub cap_reasons : PolicyInput → List String
cap_reasons p =
    if leb p.frequency_cap p.recent_outbound_attempt_count
    then "frequency_cap_exceeded" ∷ []
    else []

-- The ways to an answer, each with the whole answer.
pub data Outcome ⦃w : World⦄ (p : PolicyInput) : PolicyResult → Type 0 where
  blocks :
      Forbidden p
      → Outcome p (record {
        decision = block;
        channel = p.channel;
        reasons = all_reasons p;
        defer_until = none;
      })
  allows :
      MayContact p
      → IsInHours p
      → p.recent_outbound_attempt_count < p.frequency_cap
      → Outcome p (record {
        decision = allow;
        channel = p.channel;
        reasons = "policy_allowed" ∷ [];
        defer_until = none;
      })
  waits_for_hours :
      MayContact p
      → (d : DateTime) → IsMovedTo p d
      → Outcome p (record {
        decision = defer;
        channel = p.channel;
        reasons = "quiet_hours" ∷ cap_reasons p;
        defer_until = some d;
      })
  waits_for_cap :
      MayContact p
      → IsInHours p
      → p.frequency_cap ≤ p.recent_outbound_attempt_count
      → Outcome p (record {
        decision = defer;
        channel = p.channel;
        reasons = "frequency_cap_exceeded" ∷ [];
        defer_until = none;
      })

module _ ⦃w : World⦄ (p : PolicyInput) where
  in_window :
      (local : DateTime)
      → in_outreach_window (time local) ≡ true
      → (9 * hour ≤ time local) × (time local < 20 * hour)
  unfolding in_outreach_window
  in_window local h = ground arith

  none-IsInHours : quiet_hours_defer_until p ≡ ok none → IsInHours p
  none-IsInHours q = elim (email-cases p.channel) [
    | inl e ↦ inl e
    | inr ne ↦
        let (local, known, converts, opens) = quiet_hours_inv p ne q in
        let (after, before) = in_window local (next_opening-none local opens) in
        inr (local, converts, after, before)
  ]

  some-IsMovedTo : (d : DateTime) → quiet_hours_defer_until p ≡ ok (some d) → IsMovedTo p d
  some-IsMovedTo d q = elim (email-cases p.channel) [
    | inl e ↦ let bad : ok none ≡ ok (some d) = sym (quiet_hours-email p e) ∙ q in cc
    | inr ne ↦
        let (local, known, converts, opens) = quiet_hours_inv p ne q in
        (ne, (local, converts, next_opening-earliest local opens))
  ]

  blocked-Outcome : Forbidden p → Outcome p (blocked_result p (block_reasons p))
  unfolding blocked_result
  blocked-Outcome f = rw (block_reasons_lem p) (blocks f)

  allowed-Outcome :
      MayContact p
      → quiet_hours_defer_until p ≡ ok none
      → over_cap p ≡ false
      → Outcome p (unblocked_result p none [])
  unfolding unblocked_result over_cap
  allowed-Outcome m q room = allows m (none-IsInHours q) (ground arith)

  deferred-Outcome :
      MayContact p
      → (until : Option DateTime) → quiet_hours_defer_until p ≡ ok until
      → Outcome p (unblocked_result p until (defer_reasons p until))
  unfolding unblocked_result defer_reasons over_cap
  deferred-Outcome m none q =
      elim (Bool-cases (leb p.frequency_cap p.recent_outbound_attempt_count)) [
        | inl full ↦ rw full (waits_for_cap m (none-IsInHours q) (ground arith))
        | inr room ↦ rw room (allows m (none-IsInHours q) (ground arith))
      ]
  deferred-Outcome m (some d) q = waits_for_hours m d (some-IsMovedTo d q)

  Branch-Outcome : {r : PolicyResult} → Branch p r → Outcome p r
  Branch-Outcome (Branch.blocks f is) = subst (Outcome p) (sym is) (blocked-Outcome f)
  Branch-Outcome (Branch.allows m q room is) = subst (Outcome p) (sym is) (allowed-Outcome m q room)
  Branch-Outcome (defers m until q _ _ _ _ is) =
      subst (Outcome p) (sym is) (deferred-Outcome m until q)

  -- Every answer of the engine is one of four, as a whole: a block with the reason of all that
  -- forbids contact; or, where nothing does, an allowance in hours and below the cap; a deferral to
  -- the next local reading in hours, for quiet hours and for the cap if it is full; or a deferral
  -- without a time for a full cap in hours.
  pub evaluate_policy-Outcome : {r : PolicyResult} → evaluate_policy p ≡ ok r → Outcome p r
  evaluate_policy-Outcome h = Branch-Outcome (evaluate_policy-Branch p h)
