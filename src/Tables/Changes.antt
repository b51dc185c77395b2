-- ===== src/Tables/Changes.antt =====
-- A change of one table, as a change of the database.
use ai_compliance_orquestrat.Evolution.Unique.{is_event, is_customer, is_account, has_key}
use ai_compliance_orquestrat.Evolution.{
  CustomerKeeps, AccountKeeps, EventKeeps, Evolves, TaskKeeps, Evolves-refl,
}
use ai_compliance_orquestrat.Prelude.{List, ◌≡◌, String, Grows, count, ◌≤◌}
use ai_compliance_orquestrat.Models.{
  Database, Customer, OutreachTask, Account, InboundEvent, PolicyDecision, AuditEvent,
}

-- A change of one table is a change of the database by that table's rule.
module _ (d : Database) where
  pub customers-Evolves :
      (rows : List Customer)
      → Grows CustomerKeeps d.customers rows
      → ((k : String) → count (is_customer k) d.customers ≤ 1 → count (is_customer k) rows ≤ 1)
      → Evolves d (record d { customers = rows })
  customers-Evolves rows h once =
      let same = Evolves-refl d in
      record {
        customers = h;
        accounts = same.accounts;
        inbound_events = same.inbound_events;
        policy_decisions = same.policy_decisions;
        outreach_tasks = same.outreach_tasks;
        audit_events = same.audit_events;
        unique = λ u. record {
          customers = λ k. once k (u.customers k);
          accounts = u.accounts;
          inbound_events = u.inbound_events;
          outreach_tasks = u.outreach_tasks;
        };
      }

  pub accounts-Evolves :
      (rows : List Account)
      → Grows AccountKeeps d.accounts rows
      → ((k : String) → count (is_account k) d.accounts ≤ 1 → count (is_account k) rows ≤ 1)
      → Evolves d (record d { accounts = rows })
  accounts-Evolves rows h once =
      let same = Evolves-refl d in
      record {
        customers = same.customers;
        accounts = h;
        inbound_events = same.inbound_events;
        policy_decisions = same.policy_decisions;
        outreach_tasks = same.outreach_tasks;
        audit_events = same.audit_events;
        unique = λ u. record {
          customers = u.customers;
          accounts = λ k. once k (u.accounts k);
          inbound_events = u.inbound_events;
          outreach_tasks = u.outreach_tasks;
        };
      }

  pub inbound_events-Evolves :
      (rows : List InboundEvent)
      → Grows EventKeeps d.inbound_events rows
      → ((source k : String)
          → count (is_event source k) d.inbound_events ≤ 1
          → count (is_event source k) rows ≤ 1)
      → Evolves d (record d { inbound_events = rows })
  inbound_events-Evolves rows h once =
      let same = Evolves-refl d in
      record {
        customers = same.customers;
        accounts = same.accounts;
        inbound_events = h;
        policy_decisions = same.policy_decisions;
        outreach_tasks = same.outreach_tasks;
        audit_events = same.audit_events;
        unique = λ u. record {
          customers = u.customers;
          accounts = u.accounts;
          inbound_events = λ source k. once source k (u.inbound_events source k);
          outreach_tasks = u.outreach_tasks;
        };
      }

  pub policy_decisions-Evolves :
      (rows : List PolicyDecision)
      → Grows ◌≡◌ d.policy_decisions rows
      → Evolves d (record d { policy_decisions = rows })
  policy_decisions-Evolves rows h =
      let same = Evolves-refl d in
      record {
        customers = same.customers;
        accounts = same.accounts;
        inbound_events = same.inbound_events;
        policy_decisions = h;
        outreach_tasks = same.outreach_tasks;
        audit_events = same.audit_events;
        unique = λ u. record {
          customers = u.customers;
          accounts = u.accounts;
          inbound_events = u.inbound_events;
          outreach_tasks = u.outreach_tasks;
        };
      }

  pub outreach_tasks-Evolves :
      (rows : List OutreachTask)
      → Grows TaskKeeps d.outreach_tasks rows
      → ((k : String) → count (has_key k) d.outreach_tasks ≤ 1 → count (has_key k) rows ≤ 1)
      → Evolves d (record d { outreach_tasks = rows })
  outreach_tasks-Evolves rows h once =
      let same = Evolves-refl d in
      record {
        customers = same.customers;
        accounts = same.accounts;
        inbound_events = same.inbound_events;
        policy_decisions = same.policy_decisions;
        outreach_tasks = h;
        audit_events = same.audit_events;
        unique = λ u. record {
          customers = u.customers;
          accounts = u.accounts;
          inbound_events = u.inbound_events;
          outreach_tasks = λ k. once k (u.outreach_tasks k);
        };
      }

  pub audit_events-Evolves :
      (rows : List AuditEvent)
      → Grows ◌≡◌ d.audit_events rows
      → Evolves d (record d { audit_events = rows })
  audit_events-Evolves rows h =
      let same = Evolves-refl d in
      record {
        customers = same.customers;
        accounts = same.accounts;
        inbound_events = same.inbound_events;
        policy_decisions = same.policy_decisions;
        outreach_tasks = same.outreach_tasks;
        audit_events = h;
        unique = λ u. record {
          customers = u.customers;
          accounts = u.accounts;
          inbound_events = u.inbound_events;
          outreach_tasks = u.outreach_tasks;
        };
      }
