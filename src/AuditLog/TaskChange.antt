-- ===== src/AuditLog/TaskChange.antt =====
-- A unit of work that writes one task and one audit row, and commits: what it leaves.
use ai_compliance_orquestrat.Tables.OneRow.{IsOnly, update_rows-only, update_rows-row}
use ai_compliance_orquestrat.Tables.{update_rows}
use ai_compliance_orquestrat.Session.{Session}
use ai_compliance_orquestrat.Prelude.{
  String, Bool, ◌≡◌, map, some, ◌+◌, if◌then◌else◌, ◌++◌, ◌==◌, ◌∷◌, true, [], ◌∙◌, refl,
}
use ai_compliance_orquestrat.World.{World}
use ai_compliance_orquestrat.AuditLog.{AuditEntry, audit_row}
use ai_compliance_orquestrat.Models.{AuditActorType, AuditEvent, Database, OutreachTask}

-- A durable change: the row of `id` is now `row`, every other task is as it was, one audit row of
-- which `IsEntry` holds is at the end of the log, and the other tables are as they were.
pub record IsTaskChange (id : String) (row : OutreachTask) (IsEntry : AuditEvent → Type 0)
    (before after : Session) : Type 0 where
  pub durable : after.committed ≡ after.db
  pub rows :
      after.db.outreach_tasks ≡ map (λ t. if t.id == id then row else t) before.db.outreach_tasks
  pub audited :
      (a : AuditEvent) × (after.db.audit_events ≡ before.db.audit_events ++ a ∷ []) × IsEntry a
  pub others :
      record after.db {
        outreach_tasks = before.db.outreach_tasks;
        audit_events = before.db.audit_events;
      }
      ≡ before.db

-- What an audit row says of a task, but for its payload.
pub record IsTaskEntry (id correlation_id event_type : String) (actor_type : AuditActorType)
    (actor_id : String) (a : AuditEvent) : Type 0 where
  pub type : a.entity_type ≡ "outreach_task"
  pub entity : a.entity_id ≡ id
  pub event : a.event_type ≡ event_type
  pub actor : a.actor_type ≡ actor_type
  pub by : a.actor_id ≡ some actor_id
  pub correlation : a.correlation_id ≡ correlation_id

module _ ⦃w : World⦄ (p : OutreachTask → Bool) (f : OutreachTask → OutreachTask)
    (entry : AuditEntry) (s : Session) where
  -- the tables after one row was written, with its audit row
  abbrev pub written : Database
  written = record s.db {
    outreach_tasks = update_rows p f s.db.outreach_tasks;
    audit_events = s.db.audit_events ++ audit_row entry s.tick ∷ [];
  }

  abbrev pub settled : Session
  settled = record { db = written; committed = written; tick = s.tick + 1 + 1 }

  -- A conditional update whose test picks the row of an id, with its audit row.
  pub settled-IsTaskChange :
      (id : String) (row : OutreachTask) {IsEntry : AuditEvent → Type 0}
      → IsOnly (λ t. t.id == id) row s.db.outreach_tasks
      → ((t : OutreachTask) → p t ≡ true → (t.id == id) ≡ true)
      → p row ≡ true
      → IsEntry (audit_row entry s.tick)
      → IsTaskChange id (f row) IsEntry s settled
  settled-IsTaskChange id row only below picked says = record {
    durable = refl;
    rows =
        update_rows-only (λ t. t.id == id) p f below s.db.outreach_tasks only picked
        ∙ update_rows-row (λ t. t.id == id) f s.db.outreach_tasks row only;
    audited = (audit_row entry s.tick, refl, says);
    others = refl;
  }
