-- ===== src/Tests/PassRuns.antt =====
-- Passes of the worker over two due tasks.
use ai_compliance_orquestrat.Evolution.Unique.{count_single-le}
use ai_compliance_orquestrat.Models.{
  OutreachChannel, call, sms, email, Database, OutreachTask, scheduled,
}
use ai_compliance_orquestrat.Worker.{
  Dispatch, claims_before, dispatch_due_tasks, due_tasks, is_due, send,
}
use ai_compliance_orquestrat.Worker.Attempts.{IsSound, IsWithin}
use ai_compliance_orquestrat.Worker.Attempts.Pass.{attempts_within}
use ai_compliance_orquestrat.Worker.Delivers.{HasSent, deliver_task, has_id}
use ai_compliance_orquestrat.Worker.Record.{
  DeliveryResult, delivered, failure, default_adapters, mock_adapter,
}
use ai_compliance_orquestrat.Worker.Sends.{due_tasks_sent}
use ai_compliance_orquestrat.System.{dispatch, perform_all}
use ai_compliance_orquestrat.System.Drained.{due_tasks_drained, repeated}
use ai_compliance_orquestrat.Tests.Sample.{pass, sample, tables, task_of}
use ai_compliance_orquestrat.Prelude.{
  String, ◌≡◌, ◌≤◌, [], ◌∷◌, arith, count, refl, some, eq_iff, ◌==◌, Bool-cases, find, inl,
  order_by, subst, filter, inr,
}

abbrev second : OutreachTask
second = record (task_of scheduled) { id = "t2" }

abbrev two_due : Database
two_due = record (tables scheduled) { outreach_tasks = task_of scheduled ∷ second ∷ [] }

two_ids : (id : String) → count (has_id id) two_due.outreach_tasks ≤ 1
unfolding count
two_ids id = elim (Bool-cases ("t1" == id)) [
  | inl e ↦
      subst (λ i. count (has_id i) two_due.outreach_tasks ≤ 1) ((eq_iff "t1" id).0 e) (omega arith)
  | inr e ↦ rw e (count_single-le (has_id id) second)
]

abbrev one_by_one : Dispatch
one_by_one = record pass { limit = 1 }

-- The mocks always deliver.
mocks_deliver : (t : OutreachTask) → (r : DeliveryResult) × (send default_adapters t ≡ delivered r)
unfolding send default_adapters mock_adapter
mocks_deliver t = by_channel t.channel refl
  where
    by_channel :
        (c : OutreachChannel)
        → t.channel ≡ c
        → (r : DeliveryResult) × (send default_adapters t ≡ delivered r)
    by_channel sms e = rw e (_, refl)
    by_channel email e = rw e (_, refl)
    by_channel call e = rw e (_, refl)

due_tasks_sent_example :
    HasSent 1
      (deliver_task (task_of scheduled) ∷ second ∷ [])
      (dispatch_due_tasks one_by_one (record { db = two_due; committed = two_due; tick = 0 }))
unfolding due_tasks find order_by filter is_due claims_before
due_tasks_sent_example =
    due_tasks_sent one_by_one (λ t d. refl) mocks_deliver
      (record { db = two_due; committed = two_due; tick = 0 }) two_ids refl

due_tasks_drained_example :
    (perform_all
      (repeated 2 (dispatch one_by_one))
      (record { database = two_due; tick = 0 })).database.outreach_tasks
    ≡ deliver_task (task_of scheduled) ∷ deliver_task second ∷ []
unfolding is_due count
due_tasks_drained_example =
    due_tasks_drained one_by_one (λ t d. refl) mocks_deliver 2
      (record { database = two_due; tick = 0 }) two_ids (omega arith)

abbrev outage : Dispatch
outage = record pass { adapters = λ channel. some (λ t. failure "provider down") }

a_left : (t : OutreachTask) → t.attempt_count ≡ 1 → t.max_attempts ≡ 3 → IsWithin t
a_left t h k = record { limit = omega arith; left = λ _. omega arith }

two_due-IsSound : IsSound two_due.outreach_tasks
two_due-IsSound = record {
  within = (a_left (task_of scheduled) refl refl, (a_left second refl refl, tt));
  ids = two_ids;
}

attempts_within_example :
    IsSound
      (dispatch_due_tasks outage
        (record { db = two_due; committed = two_due; tick = 0 })).1.committed.outreach_tasks
attempts_within_example =
    attempts_within outage (λ t d h k. (h, k))
      (record { db = two_due; committed = two_due; tick = 0 }) two_due-IsSound two_due-IsSound
