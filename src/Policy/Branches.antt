-- ===== src/Policy/Branches.antt =====
-- The branches of `evaluate_policy` by which an answer came.
use ai_compliance_orquestrat.Policy.Decisions.{decide_unblocked-ok}
use ai_compliance_orquestrat.Models.{defer}
use ai_compliance_orquestrat.DateTime.{DateTime}
use ai_compliance_orquestrat.Errors.{Result, ok, err, ok_inj, value_error}
use ai_compliance_orquestrat.Prelude.{
  ◌≡◌, Option, true, none, Bool-cases, inl, false, leb, [], inr, arith, sym, some, ◌∙◌, refl, ap,
}
use ai_compliance_orquestrat.Policy.Blocks.{
  Forbidden, MayContact, Forbidden-or-MayContact, evaluate_policy-MayContact,
  Forbidden-block_reasons, evaluate_policy-aware,
}
use ai_compliance_orquestrat.World.{World}
use ai_compliance_orquestrat.Policy.{
  evaluate_policy, PolicyInput, PolicyResult, unblocked_result, is_aware, defer_reasons,
  blocked_result, over_cap, block_reasons, quiet_hours_defer_until, decide_unblocked,
}

-- The three ways to an answer, each with what the engine found out.
pub data Branch ⦃w : World⦄ (p : PolicyInput) (r : PolicyResult) : Type 0 where
  blocks : Forbidden p → r ≡ blocked_result p (block_reasons p) → Branch p r
  allows :
      MayContact p
      → quiet_hours_defer_until p ≡ ok none
      → over_cap p ≡ false
      → r ≡ unblocked_result p none []
      → Branch p r
  defers :
      MayContact p
      → (until : Option DateTime) → quiet_hours_defer_until p ≡ ok until
      → r.decision ≡ defer
      → r.channel ≡ p.channel
      → r.reasons ≡ defer_reasons p until
      → r.defer_until ≡ until
      → r ≡ unblocked_result p until (defer_reasons p until)
      → Branch p r

module _ ⦃w : World⦄ (p : PolicyInput) {r : PolicyResult} where
  unblocked-Branch :
      MayContact p
      → (until : Option DateTime) → quiet_hours_defer_until p ≡ ok until
      → unblocked_result p until (defer_reasons p until) ≡ r
      → Branch p r
  unfolding unblocked_result defer_reasons over_cap
  unblocked-Branch m none q e =
      elim (Bool-cases (leb p.frequency_cap p.recent_outbound_attempt_count)) [
        | inl full ↦
            defers m none q (ground arith) (ground arith) (ground arith) (ground arith) (sym e)
        | inr room ↦ allows m q room (ground arith)
      ]
  unblocked-Branch m (some d) q e =
      defers m (some d) q (ground arith) (ground arith) (ground arith) (ground arith) (sym e)

  decide_unblocked-Branch :
      MayContact p
      → (q : Result (Option DateTime)) → quiet_hours_defer_until p ≡ q
      → decide_unblocked p [] ≡ ok r
      → Branch p r
  decide_unblocked-Branch m (err e) q h =
      let bad : err e ≡ ok r = unfold decide_unblocked in rw (q, decide_unblocked) at h in cc
  decide_unblocked-Branch m (ok until) q h =
      unblocked-Branch m until q (ok_inj (sym (decide_unblocked-ok p until q) ∙ h))

  aware_of_ok : evaluate_policy p ≡ ok r → is_aware p.scheduled_at ≡ true
  unfolding evaluate_policy
  aware_of_ok h = elim (Bool-cases (is_aware p.scheduled_at)) [
    | inl aware ↦ aware
    | inr naive ↦
        let bad : err (value_error "scheduled_at must be timezone-aware") ≡ ok r = rw naive at h in
        cc
  ]

  blocked-Branch : Forbidden p → evaluate_policy p ≡ ok r → Branch p r
  unfolding decide_unblocked
  blocked-Branch f h =
      let (x, xs, e) = Forbidden-block_reasons p f in
      blocks f (
        ok_inj (sym h ∙ evaluate_policy-aware p (aware_of_ok h) ∙ ap (decide_unblocked p) e)
        ∙ ap (blocked_result p) (sym e))

  -- Every answer came by one of the three.
  pub evaluate_policy-Branch : evaluate_policy p ≡ ok r → Branch p r
  evaluate_policy-Branch h = elim (Forbidden-or-MayContact p) [
    | inl f ↦ blocked-Branch f h
    | inr m ↦
        decide_unblocked-Branch m (quiet_hours_defer_until p) refl
          (sym (evaluate_policy-MayContact p (aware_of_ok h) m) ∙ h)
  ]
