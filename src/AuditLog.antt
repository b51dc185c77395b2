-- ===== src/AuditLog.antt =====
-- src/orchestrator/domain/audit_log.py
pub mod TaskChange
use ai_compliance_orquestrat.Errors.{ok}
use ai_compliance_orquestrat.Tables.{add_audit_event}
use ai_compliance_orquestrat.Json.{Fields}
use ai_compliance_orquestrat.Tables.Rules.{insert_rules}
use ai_compliance_orquestrat.Session.Rules.{Extends}
use ai_compliance_orquestrat.Models.{AuditActorType, AuditEvent}
use ai_compliance_orquestrat.World.{World}
use ai_compliance_orquestrat.Prelude.{String, Option, ℕ, ◌+◌, ◌≡◌, ◌++◌, ◌∷◌, [], refl}
use ai_compliance_orquestrat.Session.{Action, ◌>>=◌, reading, ◌>>◌, pure, modify, Session}

-- What a caller says of the row; the log adds the id and the time.
pub record AuditEntry : Type 0 where
  pub entity_type : String
  pub entity_id : String
  pub event_type : String
  pub actor_type : AuditActorType
  pub actor_id : Option String
  pub correlation_id : String
  pub payload : Fields

module _ ⦃w : World⦄ where
  -- the row of an entry, written at the reading `tick`
  abbrev pub audit_row : AuditEntry → ℕ → AuditEvent
  audit_row e tick = record {
    id = w.uuid4 (tick + 1);
    entity_type = e.entity_type;
    entity_id = e.entity_id;
    event_type = e.event_type;
    actor_type = e.actor_type;
    actor_id = e.actor_id;
    correlation_id = e.correlation_id;
    payload = e.payload;
    created_at = w.utc_now tick;
  }

  unfoldable pub append_audit_event : AuditEntry → Action AuditEvent
  append_audit_event e = do
    now ← reading w.utc_now
    id ← reading w.uuid4
    let row : AuditEvent = record {
      id = id;
      entity_type = e.entity_type;
      entity_id = e.entity_id;
      event_type = e.event_type;
      actor_type = e.actor_type;
      actor_id = e.actor_id;
      correlation_id = e.correlation_id;
      payload = e.payload;
      created_at = now;
    }
    add_audit_event row
    pure row

  -- One row, at the end of the log.
  pub append_audit_event_lem :
      (e : AuditEntry) (s : Session)
      → append_audit_event e s ≡ (
        ok (audit_row e s.tick),
        record s {
          db = record s.db { audit_events = s.db.audit_events ++ audit_row e s.tick ∷ [] };
          tick = s.tick + 1 + 1;
        },
      )
  unfolding append_audit_event reading add_audit_event modify ◌>>=◌
  append_audit_event_lem e s = refl

  -- An audit row lands in the caller's transaction.
  pub append_audit_event-Extends : (e : AuditEntry) → Extends (append_audit_event e)
  unfolding append_audit_event
  append_audit_event-Extends e = search insert_rules depth 9
