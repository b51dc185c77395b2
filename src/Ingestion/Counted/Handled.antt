-- ===== src/Ingestion/Counted/Handled.antt =====
-- The branches of the planner that cancel tasks: what the replay counts after them.
use ai_compliance_orquestrat.World.{World}
use ai_compliance_orquestrat.AuditLog.{append_audit_event}
use ai_compliance_orquestrat.DateTime.{DateTime}
use ai_compliance_orquestrat.Evolution.Unique.{count-update_rows_kept}
use ai_compliance_orquestrat.Ingestion.Counted.{
  Counts, UuidsDiffer, append-cancelled, names_decision,
}
use ai_compliance_orquestrat.Ingestion.Counted.PolicyEvents.{plan_policy_event-Counts}
use ai_compliance_orquestrat.Ingestion.Counted.TaskRows.{audit-other, entry-other}
use ai_compliance_orquestrat.Ingestion.Replay.{
  count_created, is_cancellation_by, joins, names_event,
}
use ai_compliance_orquestrat.Json.{get, put, field, text, end}
use ai_compliance_orquestrat.Models.{
  Account, Customer, InboundEvent, OutreachTask, PolicyDecision, channel_value,
}
use ai_compliance_orquestrat.Planner.{
  EventKind, cancel_and_mark, handle_account_paused, handle_cancellation_event, handle_hardship,
  handle_opt_out, once, plan_kind, policy_event, payment_received, opt_out_received,
  hardship_requested, account_paused, unsupported,
}
use ai_compliance_orquestrat.Planner.Effects.{
  append_processed_marker, audit, audit_cancelled, cancel_scheduled_tasks, cancel_task,
  has_processed_marker, is_cancellable, with_event,
}
use ai_compliance_orquestrat.Planner.PolicyEvent.{PlannerResult, no_effects}
use ai_compliance_orquestrat.Session.{Session, Action, ◌>>=◌, modify, pure, reading, raise}
use ai_compliance_orquestrat.Session.Triples.{
  Anything, Triple, Triple-bind, Triple-gets_any, Triple-if, Triple-lift_any, Triple-weaken,
  Triple-pure,
}
use ai_compliance_orquestrat.Tables.{
  add_audit_event, update_account, update_customer, update_rows, update_tasks,
}
use ai_compliance_orquestrat.Prelude.{
  Bool, List, String, ℕ, ◌≡◌, ◌+◌, [], ◌∷◌, arith, refl, length, eq_iff, subst, Bool-cases, ◌∙◌,
  inl, inr,
}

-- A cancellation keeps the decision that a task names.
count_created-cancelled :
    (p : OutreachTask → Bool) (id : String) (ts : List OutreachTask) (ds : List PolicyDecision)
    → count_created id (update_rows p cancel_task ts) ds ≡ count_created id ts ds
unfolding count_created joins cancel_task
count_created-cancelled p id [] ds = refl
count_created-cancelled p id (t ∷ ts) ds = elim (Bool-cases (p t)) [
  | inl e ↦ rw (e, count_created-cancelled p id ts ds) refl
  | inr e ↦ rw (e, count_created-cancelled p id ts ds) refl
]

module _ ⦃w : World⦄ (source external_id : String) (event : InboundEvent) (customer : Customer)
    (account : Account) (correlation_id : String) where
  abbrev Counted : PlannerResult → Session → Type 0
  Counted r s = Counts source external_id event.id r s

  -- what the planner returns after it has cancelled so many tasks
  abbrev cancelling : ℕ → PlannerResult
  cancelling n = record (no_effects event) { cancelled_tasks = n }

  cancel_rows-Counts :
      (r : PlannerResult)
      → Triple
          (Counted r)
          (update_tasks (is_cancellable account customer) cancel_task)
          (λ _. Counted r)
          Anything
  unfolding update_tasks modify cancel_task
  cancel_rows-Counts r = record {
    at = λ s h.
        let p = is_cancellable account customer in
        record {
          created =
              count_created-cancelled p event.id s.db.outreach_tasks s.db.policy_decisions
              ∙ h.created;
          blocked = h.blocked;
          deferred = h.deferred;
          cancelled = h.cancelled;
          decisions = h.decisions;
          stored = h.stored;
          fresh = λ k le.
              let x = h.fresh k le in
              record {
                decisions = x.decisions;
                tasks =
                    count-update_rows_kept (names_decision (w.uuid4 k)) p cancel_task (λ t _. refl)
                      s.db.outreach_tasks
                    ∙ x.tasks;
              };
        };
  }

  audit_cancellation-Counts :
      (n : ℕ) (t : OutreachTask)
      → Triple
          (Counted (cancelling n))
          (audit event correlation_id "outreach_cancelled" "outreach_task" t.id (
            field "channel"
              (text (channel_value t.channel))
              (field "account_external_id" (text account.external_id) end)))
          (λ _. Counted (cancelling (n + 1)))
          Anything
  unfolding audit append_audit_event reading add_audit_event modify ◌>>=◌ pure is_cancellation_by
      names_event with_event get put
  audit_cancellation-Counts n t = record {
    at = λ s h.
        append-cancelled source external_id event.id (cancelling n) _ s
          ((eq_iff event.id event.id).1 refl) h;
  }

  audit_cancelled-Counts :
      (n : ℕ) (ts : List OutreachTask)
      → Triple
          (Counted (cancelling n))
          (audit_cancelled event correlation_id account ts)
          (λ _. Counted (cancelling (n + length ts)))
          Anything
  unfolding audit_cancelled pure
  audit_cancelled-Counts n [] = record {
    at = λ s h. subst (λ m. Counted (cancelling m) s) (omega arith) h;
  }
  audit_cancelled-Counts n (t ∷ ts) =
      Triple-bind (λ _. Counted (cancelling (n + 1))) _ _ (audit_cancellation-Counts n t)
        λ _.
          Triple-weaken _ _ _ (λ s h. h)
            (λ _ s h. subst (λ m. Counted (cancelling m) s) (omega arith) h)
            (audit_cancelled-Counts (n + 1) ts)

  cancel_scheduled_tasks-Counts :
      Triple
        (Counted (no_effects event))
        (cancel_scheduled_tasks event correlation_id customer account)
        (λ n. Counted (cancelling n))
        Anything
  unfolding cancel_scheduled_tasks
  cancel_scheduled_tasks-Counts = Triple-bind _ _ _ (Triple-gets_any _ _ _) λ tasks.
      Triple-bind _ _ _ (cancel_rows-Counts (no_effects event)) λ _.
        Triple-bind _ _ _ (audit_cancelled-Counts 0 tasks) λ _.
          unfold pure in
          record { at = λ s h. subst (λ m. Counted (cancelling m) s) (omega arith) h }

  append_processed_marker-Counts :
      (r : PlannerResult)
      → Triple (Counted r) (append_processed_marker event correlation_id) (λ _. Counted r) Anything
  unfolding append_processed_marker
  append_processed_marker-Counts r =
      Triple-bind _ _ _ (Triple-lift_any _ _ (λ s h. tt) _)
        (λ marker. entry-other source external_id event correlation_id r _ refl)

  cancel_and_mark-Counts :
      Triple
        (Counted (no_effects event))
        (cancel_and_mark event customer account correlation_id)
        Counted
        Anything
  unfolding cancel_and_mark
  cancel_and_mark-Counts = Triple-bind _ _ _ cancel_scheduled_tasks-Counts λ n.
      Triple-bind _ _ _ (append_processed_marker-Counts (cancelling n))
        λ _. unfold pure in record { at = λ s h. h }

  once-Counts :
      (work : Action PlannerResult)
      → Triple (Counted (no_effects event)) work Counted Anything
      → Triple
          (Counted (no_effects event))
          (once event customer account correlation_id work)
          Counted
          Anything
  unfolding once has_processed_marker
  once-Counts work h =
      Triple-bind _ _ _
        (Triple-bind _ _ _ (Triple-lift_any _ _ (λ s h. tt) _)
          (λ marker. Triple-bind _ _ _ (Triple-gets_any _ _ _) (λ found. Triple-pure _ _ _)))
        λ done. Triple-if _ _ done _ _ (unfold pure in record { at = λ s h. h }) h

  update_customer-Counts :
      (id : String) (f : Customer → Customer) (r : PlannerResult)
      → Triple (Counted r) (update_customer id f) (λ _. Counted r) Anything
  unfolding update_customer modify
  update_customer-Counts id f r = record {
    at = λ s h. record {
      created = h.created;
      blocked = h.blocked;
      deferred = h.deferred;
      cancelled = h.cancelled;
      decisions = h.decisions;
      stored = h.stored;
      fresh = λ k le. let x = h.fresh k le in record { decisions = x.decisions; tasks = x.tasks };
    };
  }

  update_account-Counts :
      (id : String) (f : Account → Account) (r : PlannerResult)
      → Triple (Counted r) (update_account id f) (λ _. Counted r) Anything
  unfolding update_account modify
  update_account-Counts id f r = record {
    at = λ s h. record {
      created = h.created;
      blocked = h.blocked;
      deferred = h.deferred;
      cancelled = h.cancelled;
      decisions = h.decisions;
      stored = h.stored;
      fresh = λ k le. let x = h.fresh k le in record { decisions = x.decisions; tasks = x.tasks };
    };
  }

  -- Whatever the kind of the event, a planner that returns has left in the tables what its result
  -- counts.
  pub plan_kind-Counts :
      UuidsDiffer w
      → (kind : EventKind) (now : DateTime) (cap : ℕ)
      → Triple
          (Counted (no_effects event))
          (plan_kind event customer account correlation_id kind now cap)
          Counted
          Anything
  unfolding plan_kind handle_cancellation_event handle_opt_out handle_hardship handle_account_paused
      raise
  plan_kind-Counts differ policy_event now cap =
      plan_policy_event-Counts source external_id event correlation_id differ customer account now
        cap
  plan_kind-Counts differ payment_received now cap = once-Counts _ cancel_and_mark-Counts
  plan_kind-Counts differ opt_out_received now cap = once-Counts _ (
      Triple-bind _ _ _ (update_customer-Counts _ _ _) λ _.
        Triple-bind _ _ _ (audit-other source external_id event correlation_id _ _ _ _ _ refl)
          λ _. cancel_and_mark-Counts)
  plan_kind-Counts differ hardship_requested now cap = once-Counts _ (
      Triple-bind _ _ _ (audit-other source external_id event correlation_id _ _ _ _ _ refl)
        λ _. cancel_and_mark-Counts)
  plan_kind-Counts differ account_paused now cap = once-Counts _ (
      Triple-bind _ _ _ (update_account-Counts _ _ _) λ _.
        Triple-bind _ _ _ (audit-other source external_id event correlation_id _ _ _ _ _ refl)
          λ _. cancel_and_mark-Counts)
  plan_kind-Counts differ unsupported now cap = record { at = λ s h. tt }
