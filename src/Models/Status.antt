-- ===== src/Models/Status.antt =====
-- The string enumerations of models.py, their stored values, and equality on them.
use ai_compliance_orquestrat.Prelude.{String, ◌≡◌, Bool, true, false, arith}

pub data AccountStatus : Type 0 where
  current delinquent resolved paused : AccountStatus

pub data InboundEventStatus : Type 0 where
  received processed failed : InboundEventStatus

pub data OutreachChannel : Type 0 where
  call sms email : OutreachChannel

pub data OutreachTaskStatus : Type 0 where
  scheduled blocked dispatching sent failed cancelled : OutreachTaskStatus

pub data PolicyDecisionOutcome : Type 0 where
  allow block defer : PolicyDecisionOutcome

pub data AuditActorType : Type 0 where
  system api_client worker policy_engine : AuditActorType

abbrev pub account_status_value : AccountStatus → String
account_status_value AccountStatus.current = "current"
account_status_value AccountStatus.delinquent = "delinquent"
account_status_value AccountStatus.resolved = "resolved"
account_status_value AccountStatus.paused = "paused"

abbrev pub channel_value : OutreachChannel → String
channel_value OutreachChannel.call = "call"
channel_value OutreachChannel.sms = "sms"
channel_value OutreachChannel.email = "email"

abbrev pub task_status_value : OutreachTaskStatus → String
task_status_value OutreachTaskStatus.scheduled = "scheduled"
task_status_value OutreachTaskStatus.blocked = "blocked"
task_status_value OutreachTaskStatus.dispatching = "dispatching"
task_status_value OutreachTaskStatus.sent = "sent"
task_status_value OutreachTaskStatus.failed = "failed"
task_status_value OutreachTaskStatus.cancelled = "cancelled"

abbrev pub outcome_value : PolicyDecisionOutcome → String
outcome_value PolicyDecisionOutcome.allow = "allow"
outcome_value PolicyDecisionOutcome.block = "block"
outcome_value PolicyDecisionOutcome.defer = "defer"

-- `==` on a status column
abbrev pub same_status : OutreachTaskStatus → OutreachTaskStatus → Bool
same_status scheduled scheduled = true
same_status blocked blocked = true
same_status dispatching dispatching = true
same_status sent sent = true
same_status OutreachTaskStatus.failed OutreachTaskStatus.failed = true
same_status cancelled cancelled = true
same_status _ _ = false

abbrev pub same_channel : OutreachChannel → OutreachChannel → Bool
same_channel call call = true
same_channel sms sms = true
same_channel email email = true
same_channel _ _ = false

abbrev pub same_outcome : PolicyDecisionOutcome → PolicyDecisionOutcome → Bool
same_outcome allow allow = true
same_outcome block block = true
same_outcome defer defer = true
same_outcome _ _ = false

pub same_status_eq : (s t : OutreachTaskStatus) → same_status s t ≡ true → s ≡ t
same_status_eq s t h = ground arith

pub same_status_self : (s : OutreachTaskStatus) → same_status s s ≡ true
same_status_self s = ground arith
