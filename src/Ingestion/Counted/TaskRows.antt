-- ===== src/Ingestion/Counted/TaskRows.antt =====
-- The rows that one proposal adds: its decision, its task and the audit rows that are not
-- cancellations.
use ai_compliance_orquestrat.World.{World}
use ai_compliance_orquestrat.AuditLog.{append_audit_event, AuditEntry}
use ai_compliance_orquestrat.DateTime.{DateTime}
use ai_compliance_orquestrat.Ingestion.Counted.{Counts, UuidsDiffer, append-other}
use ai_compliance_orquestrat.Ingestion.Counted.Decided.{
  IsOwn, add_decision-Counts, add_task-Counts, with_decision,
}
use ai_compliance_orquestrat.Ingestion.Replay.{is_cancellation_by}
use ai_compliance_orquestrat.Json.{Fields}
use ai_compliance_orquestrat.Models.{
  Account, Customer, InboundEvent, OutreachChannel, OutreachTask, PolicyDecision, scheduled,
}
use ai_compliance_orquestrat.Planner.Effects.{audit}
use ai_compliance_orquestrat.Planner.PolicyEvent.{
  PlannerResult, insert_task, record_decision, schedule_task, task_key,
}
use ai_compliance_orquestrat.Policy.{PolicyResult}
use ai_compliance_orquestrat.Session.{Session, ◌>>=◌, lift, modify, pure, reading}
use ai_compliance_orquestrat.Session.Triples.{Anything, Triple, Triple-bind, Triple-gets_any}
use ai_compliance_orquestrat.Tables.{add_audit_event, add_outreach_task, add_policy_decision}
use ai_compliance_orquestrat.Prelude.{
  Option, String, ◌≡◌, ◌+◌, arith, false, none, refl, some, ◌==◌, ◌&&◌,
}

module _ ⦃w : World⦄ (source external_id : String) (event : InboundEvent)
    (correlation_id : String) where
  -- An audit row that is no cancellation.
  pub entry-other :
      (r : PlannerResult) (e : AuditEntry)
      → (e.entity_type == "outreach_task" && e.event_type == "outreach_cancelled") ≡ false
      → Triple
          (Counts source external_id event.id r)
          (append_audit_event e)
          (λ _. Counts source external_id event.id r)
          Anything
  unfolding append_audit_event reading add_audit_event modify ◌>>=◌ pure is_cancellation_by
  entry-other r e other = record {
    at = λ s h. append-other source external_id event.id r e s (ground (arith, other)) h;
  }

  pub audit-other :
      (r : PlannerResult) (event_type entity_type entity_id : String) (payload : Fields)
      → (entity_type == "outreach_task" && event_type == "outreach_cancelled") ≡ false
      → Triple
          (Counts source external_id event.id r)
          (audit event correlation_id event_type entity_type entity_id payload)
          (λ _. Counts source external_id event.id r)
          Anything
  unfolding audit
  audit-other r event_type entity_type entity_id payload other = entry-other r _ other

  abbrev with_task : PlannerResult → PlannerResult
  with_task r = record r { created_tasks = r.created_tasks + 1 }

  abbrev pub Loop : PlannerResult → PolicyDecision → Session → Type 0
  Loop r d s = Counts source external_id event.id r s × IsOwn event.id d s

  pub audit-Loop :
      (r : PlannerResult) (d : PolicyDecision) (event_type entity_type entity_id : String)
      (payload : Fields)
      → ((entity_type == "outreach_task" && event_type == "outreach_cancelled") ≡ false)
      → Triple
          (Loop r d)
          (audit event correlation_id event_type entity_type entity_id payload)
          (λ _. Loop r d)
          Anything
  unfolding audit append_audit_event reading add_audit_event modify ◌>>=◌ pure
  audit-Loop r d event_type entity_type entity_id payload other = record {
    at = λ s h. (
      (audit-other r event_type entity_type entity_id payload other).at s h.0,
      record { once = h.1.once; old = λ k le. h.1.old k (omega arith) },
    );
  }

  module _ (differ : UuidsDiffer w) (customer : Customer) (account : Account) where
    pub record_decision-Loop :
        (r : PlannerResult) (x : PolicyResult)
        → Triple
            (Counts source external_id event.id r)
            (record_decision event customer account correlation_id x)
            (Loop (with_decision x.decision r))
            Anything
    unfolding record_decision reading add_policy_decision modify ◌>>=◌ pure
    record_decision-Loop r x = record {
      at = λ s h. add_decision-Counts differ source external_id event.id r s _ refl refl h;
    }

    -- the row that `insert_task` adds
    abbrev inserted : PolicyDecision → OutreachChannel → DateTime → String → DateTime → OutreachTask
    inserted d channel at id created_at = record {
      id = id;
      account_id = account.id;
      customer_id = customer.id;
      channel = channel;
      correlation_id = correlation_id;
      status = scheduled;
      scheduled_at = at;
      attempt_count = 0;
      max_attempts = 3;
      idempotency_key = task_key event channel;
      policy_decision_id = some d.id;
      last_error = none;
      created_at = created_at;
    }

    insert_task-Counts :
        (r : PlannerResult) (d : PolicyDecision) (channel : OutreachChannel) (at : DateTime)
        (taken : Option OutreachTask)
        → Triple
            (Loop r d)
            (insert_task event customer account correlation_id channel at d taken)
            (λ _. Counts source external_id event.id (with_task r))
            Anything
    unfolding insert_task ◌>>=◌ lift reading add_outreach_task modify
    insert_task-Counts r d channel at (some t) = record { at = λ s h. tt }
    insert_task-Counts r d channel at none = record {
      at = λ s h.
          add_task-Counts differ source external_id event.id r s d
            (inserted d channel at (w.uuid4 s.tick) (w.db_now (s.tick + 1))) refl h.1 h.0;
    }

    pub schedule_task-Counts :
        (r : PlannerResult) (d : PolicyDecision) (channel : OutreachChannel) (at : DateTime)
        → Triple
            (Loop r d)
            (schedule_task event customer account correlation_id channel at d)
            (λ _. Counts source external_id event.id (with_task r))
            Anything
    unfolding schedule_task
    schedule_task-Counts r d channel at =
        Triple-bind (λ _. Loop r d) _ _ (Triple-gets_any _ _ _)
          (λ taken. insert_task-Counts r d channel at taken)
