-- ===== src/Operational/Expected.antt =====
-- What is expected of a manual delivery result: the row, its error and the audit row.
use ai_compliance_orquestrat.AuditLog.{audit_row}
use ai_compliance_orquestrat.Text.{has_length, code_points}
use ai_compliance_orquestrat.Json.{Json, Fields, get, text, optional_text, object}
use ai_compliance_orquestrat.Tables.{fits_last_error}
use ai_compliance_orquestrat.Operational.{
  DeliveryStatus, mark_manually, manual_entry, is_unchanged, manual_error, marked_sent,
  marked_failed, error_text, new_status,
}
use ai_compliance_orquestrat.Prelude.{
  Option, String, ◌≡◌, ◌==◌, ◌≢◌, some, none, true, false, ◌≤◌, refl, arith, ℕ,
}
use ai_compliance_orquestrat.World.{World}
use ai_compliance_orquestrat.AuditLog.TaskChange.{IsTaskEntry}
use ai_compliance_orquestrat.Models.{
  OutreachTask, OutreachTaskStatus, AuditEvent, api_client, sent, task_status_value,
  same_status_self, same_status_eq,
}

-- The error that a failed result states, as a text, or else the default one.
abbrev pub stated_error : Option Json → String
stated_error (some (text error)) = error
stated_error _ = "manual delivery result failed"

-- A task after a manual result.
abbrev pub recorded_row : DeliveryStatus → Fields → OutreachTask → OutreachTask
recorded_row marked_sent details row = record row { status = sent; last_error = none }
recorded_row marked_failed details row = record row {
  status = OutreachTaskStatus.failed;
  last_error = some (stated_error (get "error" details));
}

-- the value of a status
abbrev pub result_value : DeliveryStatus → String
result_value marked_sent = "sent"
result_value marked_failed = "failed"

-- The error of the result is stored if it has at most 1000 characters.
abbrev pub IsStorable : DeliveryStatus → Fields → Type 0
IsStorable marked_sent details = Unit
IsStorable marked_failed details = code_points (stated_error (get "error" details)) ≤ 1000

-- The audit row: who, which message, and the two statuses.
abbrev pub IsManualEntry :
    OutreachTask → DeliveryStatus → Option String → Fields → AuditEvent → Type 0
IsManualEntry task status message details a =
    IsTaskEntry task.id task.correlation_id "delivery_result_recorded" api_client "operational-api"
      a
    × (get "provider_message_id" a.payload ≡ some (optional_text message))
    × (get "details" a.payload ≡ some (object details))
    × (get "previous_status" a.payload ≡ some (text (task_status_value task.status)))
    × (get "new_status" a.payload ≡ some (text (result_value status)))

error_text_lem : (value : Option Json) → error_text value ≡ stated_error value
unfolding error_text
error_text_lem value = ground arith

pub mark_manually-row :
    (status : DeliveryStatus) (details : Fields) (row : OutreachTask)
    → mark_manually status details row ≡ recorded_row status details row
unfolding mark_manually manual_error
mark_manually-row marked_sent details row = refl
mark_manually-row marked_failed details row = rw (error_text_lem (get "error" details)) refl

pub fits :
    (status : DeliveryStatus) (details : Fields)
    → IsStorable status details
    → fits_last_error (manual_error status details) ≡ true
unfolding fits_last_error has_length manual_error
fits marked_sent details short = refl
fits marked_failed details short = rw (error_text_lem (get "error" details)) (ground arith)

pub manual_entry-says :
    ⦃w : World⦄ (task : OutreachTask) (status : DeliveryStatus) (message : Option String)
    (details : Fields) (n : ℕ)
    → IsManualEntry task status message details
        (audit_row (manual_entry task status message details) n)
unfolding manual_entry get
manual_entry-says task status message details n = (
  record { type = refl; entity = refl; event = refl; actor = refl; by = refl; correlation = refl },
  refl,
  refl,
  refl,
  new_value status,
)
  where
    new_value :
        (status : DeliveryStatus)
        → some (text (task_status_value (new_status status))) ≡ some (text (result_value status))
    new_value marked_sent = refl
    new_value marked_failed = refl

module _ (task : OutreachTask) where
  pub unchanged_has_id : (t : OutreachTask) → is_unchanged task t ≡ true → (t.id == task.id) ≡ true
  unfolding is_unchanged
  unchanged_has_id t h = ground arith

  pub row_unchanged :
      (row : OutreachTask)
      → (row.id == task.id) ≡ true
      → row.status ≡ task.status
      → is_unchanged task row ≡ true
  unfolding is_unchanged
  row_unchanged row h e = rw (h, e, same_status_self task.status) refl

  pub row_changed : (row : OutreachTask) → row.status ≢ task.status → is_unchanged task row ≡ false
  unfolding is_unchanged
  row_changed row e = ground (arith, same_status_eq row.status task.status)
