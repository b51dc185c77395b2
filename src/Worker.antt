-- ===== src/Worker.antt =====
-- src/orchestrator/workers/dispatch.py: the worker claims due tasks, sends them through a channel's
-- provider, and records what came of it. src/orchestrator/channels: the providers.
use ai_compliance_orquestrat.Json.{field, text, number, end}
use ai_compliance_orquestrat.Tables.{update_tasks_count}
use ai_compliance_orquestrat.AuditLog.{append_audit_event, AuditEntry}
use ai_compliance_orquestrat.Worker.Record.{
  Delivery, Adapter, failure, record_failure, delivered, record_success,
}
use ai_compliance_orquestrat.Errors.{ok, or_raise, runtime_error}
use ai_compliance_orquestrat.Prelude.{
  Bool, Option, ℕ, String, List, if◌then◌else◌, map, ◌+◌, ◌==◌, eqb, some, take, none, ◌&&◌, ◌∷◌,
  leb, is_some, order_by, concat, find, [], ltb, filter,
}
use ai_compliance_orquestrat.DateTime.{DateTime}
use ai_compliance_orquestrat.Models.{
  OutreachTask, OutreachChannel, Database, dispatching, same_status, scheduled, worker,
  channel_value,
}
use ai_compliance_orquestrat.World.{World}
pub mod Record
pub mod Kept
pub mod Bounds
pub mod Outcomes
pub mod Recorded
pub mod Attempts
pub mod Delivers
pub mod Picked
pub mod Sends
pub mod Drains
use ai_compliance_orquestrat.Session.{
  Action, reading, ◌>>=◌, ◌>>◌, pure, gets, rollback, lift, commit,
}

-- the order of the claims
unfoldable pub claims_before : ⦃w : World⦄ → OutreachTask → OutreachTask → Bool
claims_before ⦃w⦄ t u =
    if eqb (w.instant t.scheduled_at) (w.instant u.scheduled_at)
    then leb (w.instant t.created_at) (w.instant u.created_at)
    else ltb (w.instant t.scheduled_at) (w.instant u.scheduled_at)

module _ ⦃w : World⦄ where
  -- `_aware_now`: a naive time is taken as UTC
  unfoldable pub aware_now : Option DateTime → Action DateTime
  aware_now none = reading w.utc_now
  aware_now (some d) = pure (if is_some d.tzinfo then d else record d { tzinfo = some "UTC" })

  -- scheduled, and its time has come
  unfoldable pub is_due : DateTime → OutreachTask → Bool
  is_due now t = same_status t.status scheduled && leb (w.instant t.scheduled_at) (w.instant now)

  unfoldable pub due_tasks : DateTime → ℕ → Database → List String
  due_tasks now limit d =
      map (λ t. t.id) (take limit (order_by claims_before (filter (is_due now) d.outreach_tasks)))

unfoldable pub claim_task : OutreachTask → OutreachTask
claim_task t = record t { status = dispatching; attempt_count = t.attempt_count + 1 }

-- The parameters of a pass over the due tasks.
pub record Dispatch : Type 0 where
  pub now : DateTime
  pub limit : ℕ
  pub adapters : OutreachChannel → Option Adapter
  pub retry_delay : ℕ
  pub worker_id : String
  -- what other sessions commit while the provider works on a task
  pub meanwhile : OutreachTask → Database → Database

-- a provider failure becomes an outcome
unfoldable pub send : (OutreachChannel → Option Adapter) → OutreachTask → Delivery
send adapters t = elim (adapters t.channel) [
  | none ↦ failure (concat "no adapter configured for channel: " (channel_value t.channel))
  | some adapter ↦ adapter t
]

-- the durable changes of others become visible at the next statement
unfoldable pub others : (Database → Database) → Action (Unit {0})
others f s = (ok tt, record s { db = f s.committed; committed = f s.committed })

module _ ⦃w : World⦄ (p : Dispatch) where
  -- `try: … except: _record_failure … else: _record_success`
  unfoldable pub record_delivery : OutreachTask → Delivery → Action (Unit {0})
  record_delivery t (failure error) = record_failure p.now p.retry_delay p.worker_id t error
  record_delivery t (delivered result) = record_success p.worker_id t result

  -- the refreshed row of a task that was claimed
  unfoldable pub refresh : String → Action OutreachTask
  refresh id = do
    row ← gets (λ d. find (λ t. t.id == id) d.outreach_tasks)
    lift (or_raise row (runtime_error "Could not refresh instance"))

  abbrev pub started_entry : OutreachTask → AuditEntry
  started_entry t = record {
    entity_type = "outreach_task";
    entity_id = t.id;
    event_type = "dispatch_started";
    actor_type = worker;
    actor_id = some p.worker_id;
    correlation_id = t.correlation_id;
    payload =
        field "channel" (text (channel_value t.channel))
          (field "attempt_count" (number t.attempt_count) end);
  }

  -- after the claim: the audit row and the commit, the provider, the result
  unfoldable pub dispatch_claimed : String → Action ℕ
  dispatch_claimed id = do
    t ← refresh id
    append_audit_event (started_entry t)
    commit
    others (p.meanwhile t)
    record_delivery t (send p.adapters t)
    pure 1

  -- the rows of the conditional update
  unfoldable pub is_claimable : String → OutreachTask → Bool
  is_claimable id t = t.id == id && is_due p.now t

  unfoldable pub skip_task : Action ℕ
  skip_task = do rollback; pure 0

  unfoldable pub dispatch_found : String → Option OutreachTask → Action ℕ
  unfolding skip_task
  dispatch_found id none = pure 0
  dispatch_found id (some _) = do
    rowcount ← update_tasks_count (is_claimable id) claim_task
    if eqb rowcount 1 then dispatch_claimed id else skip_task

  -- the body of the loop: 1 if the task was attempted
  unfoldable pub dispatch_task : String → Action ℕ
  unfolding dispatch_found
  dispatch_task id = do
    row ← gets (λ d. find (λ t. t.id == id) d.outreach_tasks)
    dispatch_found id row

  unfoldable pub dispatch_tasks : List String → ℕ → Action ℕ
  dispatch_tasks [] attempted = pure attempted
  dispatch_tasks (id ∷ rest) attempted = do
    n ← dispatch_task id
    dispatch_tasks rest (attempted + n)

  unfoldable pub dispatch_due_tasks : Action ℕ
  dispatch_due_tasks = do ids ← gets (due_tasks p.now p.limit); dispatch_tasks ids 0
