-- ===== src/Policy.antt =====
-- src/orchestrator/policy/engine.py: the decision for one proposed outreach, with the reasons.
use ai_compliance_orquestrat.Prelude.{
  ℕ, ◌+◌, ◌*◌, String, Bool, true, false, not, ◌&&◌, Option, none, some, List, [], ◌∷◌, ◌++◌, ltb,
  leb, is_some, if◌then◌else◌, concat,
}
use ai_compliance_orquestrat.Errors.{
  Result, ok, err, value_error, overflow_error, ◌>>=◌, ◌>>◌, raise_if, or_raise,
}
use ai_compliance_orquestrat.DateTime.{DateTime, hour, day, time, plus, replace_time}
use ai_compliance_orquestrat.World.{World}
use ai_compliance_orquestrat.Models.{
  AccountStatus, OutreachChannel, call, sms, email, PolicyDecisionOutcome, allow, block, defer,
}
pub mod Blocks
pub mod QuietHours
pub mod Decisions
pub mod Branches
pub mod Outcomes

-- 09:00 and 20:00, as microseconds from midnight
abbrev pub outreach_window_start : ℕ
outreach_window_start = 9 * hour

abbrev pub outreach_window_end : ℕ
outreach_window_end = 20 * hour

pub record PolicyInput : Type 0 where
  pub channel : OutreachChannel
  pub scheduled_at : DateTime
  pub customer_timezone : String
  pub sms_consent : Bool
  pub call_consent : Bool
  pub email_consent : Bool
  pub opted_out : Bool
  pub account_status : AccountStatus
  pub recent_outbound_attempt_count : ℕ
  pub frequency_cap : ℕ

pub record PolicyResult : Type 0 where
  pub decision : PolicyDecisionOutcome
  pub channel : OutreachChannel
  pub reasons : List String
  pub defer_until : Option DateTime

unfoldable pub opt_out_block_reasons : PolicyInput → List String
opt_out_block_reasons p = if p.opted_out then "customer_opted_out" ∷ [] else []

-- the consent flag that the channel needs, with its reason
consent_reasons : OutreachChannel → PolicyInput → List String
consent_reasons sms p = if not p.sms_consent then "missing_sms_consent" ∷ [] else []
consent_reasons call p = if not p.call_consent then "missing_call_consent" ∷ [] else []
consent_reasons email p = if not p.email_consent then "missing_email_consent" ∷ [] else []

unfoldable pub channel_consent_block_reasons : PolicyInput → List String
unfolding consent_reasons
channel_consent_block_reasons p = consent_reasons p.channel p

status_reasons : AccountStatus → List String
status_reasons AccountStatus.paused = "account_paused" ∷ []
status_reasons AccountStatus.resolved = "account_resolved" ∷ []
status_reasons _ = []

unfoldable pub account_status_block_reasons : PolicyInput → List String
unfolding status_reasons
account_status_block_reasons p = status_reasons p.account_status

unfoldable pub block_reasons : PolicyInput → List String
unfolding opt_out_block_reasons channel_consent_block_reasons account_status_block_reasons
block_reasons p =
    opt_out_block_reasons p ++ (channel_consent_block_reasons p ++ account_status_block_reasons p)

-- `OUTREACH_WINDOW_START <= t < OUTREACH_WINDOW_END`
unfoldable pub in_outreach_window : ℕ → Bool
in_outreach_window t = leb outreach_window_start t && ltb t outreach_window_end

-- the local reading moved to the next opening of the window, or nothing inside it
unfoldable pub next_opening : DateTime → Result (Option DateTime)
unfolding in_outreach_window
next_opening local =
    if in_outreach_window (time local)
    then ok none
    else if ltb (time local) outreach_window_start
    then ok (some (replace_time local outreach_window_start))
    else do
      next_day ← or_raise (plus local day) overflow_error
      ok (some (replace_time next_day outreach_window_start))

unfoldable pub over_cap : PolicyInput → Bool
over_cap p = leb p.frequency_cap p.recent_outbound_attempt_count

unfoldable pub defer_reasons : PolicyInput → Option DateTime → List String
unfolding over_cap
defer_reasons p until =
    (if is_some until then "quiet_hours" ∷ [] else [])
    ++ (if over_cap p then "frequency_cap_exceeded" ∷ [] else [])

unfoldable pub blocked_result : PolicyInput → List String → PolicyResult
blocked_result p reasons = record {
  decision = block;
  channel = p.channel;
  reasons = reasons;
  defer_until = none;
}

-- what the engine answers when nothing blocks: `defer_reasons` decides
unfoldable pub unblocked_result : PolicyInput → Option DateTime → List String → PolicyResult
unblocked_result p until [] = record {
  decision = allow;
  channel = p.channel;
  reasons = "policy_allowed" ∷ [];
  defer_until = none;
}
unblocked_result p until (r ∷ rs) = record {
  decision = defer;
  channel = p.channel;
  reasons = r ∷ rs;
  defer_until = until;
}

module _ ⦃w : World⦄ where
  -- the aware-datetime test of the field validators
  unfoldable pub is_aware : DateTime → Bool
  is_aware d = elim d.tzinfo [ none ↦ false | some z ↦ w.has_utcoffset z ]

  unfoldable pub get_customer_timezone : String → Result String
  get_customer_timezone z =
      if w.zone_exists z then ok z else err (value_error (concat "Invalid customer_timezone: " z))

  local_opening : PolicyInput → Result (Option DateTime)
  unfolding get_customer_timezone
  local_opening p = do
    zone ← get_customer_timezone p.customer_timezone
    local ← or_raise (w.astimezone p.scheduled_at zone) overflow_error
    next_opening local

  quiet_hours : OutreachChannel → PolicyInput → Result (Option DateTime)
  unfolding local_opening
  quiet_hours email p = ok none
  quiet_hours _ p = local_opening p

  unfoldable pub quiet_hours_defer_until : PolicyInput → Result (Option DateTime)
  unfolding quiet_hours
  quiet_hours_defer_until p = quiet_hours p.channel p

  unfoldable pub decide_unblocked : PolicyInput → List String → Result PolicyResult
  unfolding blocked_result unblocked_result quiet_hours_defer_until defer_reasons
  decide_unblocked p [] = do
    until ← quiet_hours_defer_until p
    ok (unblocked_result p until (defer_reasons p until))
  decide_unblocked p (r ∷ rs) = ok (blocked_result p (r ∷ rs))

  unfoldable pub evaluate_policy : PolicyInput → Result PolicyResult
  unfolding decide_unblocked block_reasons
  evaluate_policy p = do
    raise_if (not (is_aware p.scheduled_at)) (value_error "scheduled_at must be timezone-aware")
    decide_unblocked p (block_reasons p)
