-- ===== src/Ingestion/Kept.antt =====
-- Ingestion keeps the rules of every table in what is durable, whatever is submitted, whatever a
-- rival session does within those rules, and however the request ends.
use ai_compliance_orquestrat.Errors.{raise_if, integrity_error}
use ai_compliance_orquestrat.Evolution.Unique.{is_event, is_customer, is_account, count-none_of}
use ai_compliance_orquestrat.AuditLog.{append_audit_event-Extends}
use ai_compliance_orquestrat.Planner.Kept.{plan_outreach_for_event-Extends}
use ai_compliance_orquestrat.Tables.Rules.{
  update_customer-Extends, update_account-Extends, update_inbound_event-Extends,
  add_customer-Evolves, add_account-Evolves, add_inbound_event-Evolves,
}
use ai_compliance_orquestrat.Tables.{
  update_customer, update_account, update_inbound_event, add_inbound_event, add_customer,
  add_account,
}
use ai_compliance_orquestrat.Evolution.{
  CustomerKeeps, AccountKeeps, Evolves, Evolves-refl, Evolves-trans,
}
use ai_compliance_orquestrat.Ingestion.{
  accept_event, audit_stage, recover, answer_or_raise, ingest_new_event, ingest_found,
  ingest_event_snapshot, new_inbound_event,
}
use ai_compliance_orquestrat.Prelude.{
  String, some, none, Option, refl, if◌then◌else◌, ◌≡◌, true, find, is_some,
}
use ai_compliance_orquestrat.Session.Rules.{
  Extends, Advances, Advances-commit, extends_rules, Advances-rollback, Advances-Extends,
  Advances-bind, Advances-if, Extends-raise, Extends-reading, ExtendsAt,
}
use ai_compliance_orquestrat.World.{World}
use ai_compliance_orquestrat.Ingestion.Replay.{result_from_existing_event}
use ai_compliance_orquestrat.Models.{
  InboundEvent, Customer, Account, Database, processed, AuditActorType,
}
use ai_compliance_orquestrat.Ingestion.Snapshots.{
  apply_customer, apply_account, CustomerSnapshot, AccountSnapshot, find_existing_event, attempt,
  flush_inbound_event, Race, store_customer, upsert_customer, store_account, upsert_account,
  Submission, lose_race, violates_unique,
}
use ai_compliance_orquestrat.Session.{
  Action, ◌>>=◌, Session, rollback, lift, gets, reading, modify, pure, ◌>>◌,
}

apply_customer-CustomerKeeps :
    (s : CustomerSnapshot) (c : Customer) → CustomerKeeps c (apply_customer s c)
unfolding apply_customer
apply_customer-CustomerKeeps s c = record { id = refl; external_id = refl; opted_out = λ h. h }

apply_account-AccountKeeps :
    (s : AccountSnapshot) (a : Account) → AccountKeeps a (apply_account s a)
unfolding apply_account
apply_account-AccountKeeps s a = record { id = refl; external_id = refl; customer_id = refl }

customer_row-Extends :
    (s : CustomerSnapshot) (c : Customer) → Extends (update_customer c.id (apply_customer s))
customer_row-Extends s c =
    update_customer-Extends c.id (apply_customer s) (apply_customer-CustomerKeeps s)

account_row-Extends :
    (s : AccountSnapshot) (a : Account) → Extends (update_account a.id (apply_account s))
account_row-Extends s a =
    update_account-Extends a.id (apply_account s) (apply_account-AccountKeeps s)

pub status_row-Extends :
    (event : InboundEvent)
    → Extends (update_inbound_event event.id (λ r. record r { processing_status = processed }))
status_row-Extends event =
    update_inbound_event-Extends event.id (λ r. record r { processing_status = processed })
      (λ r. record { row = refl })

pub find_existing_event-Extends :
    (source external_id : String) → Extends (find_existing_event source external_id)
unfolding find_existing_event
find_existing_event-Extends source external_id = search extends_rules

pub result_from_existing_event-Extends :
    (event : InboundEvent) → Extends (result_from_existing_event event)
unfolding result_from_existing_event
result_from_existing_event-Extends event = search extends_rules

attempt-Advances : (m : Action (Unit {0})) → Advances m → Advances (attempt m)
unfolding attempt
attempt-Advances m k = record { at = λ s h. k.at s h }

same_identity-violates :
    (event r : InboundEvent)
    → is_event event.source event.external_id r ≡ true
    → violates_unique event r ≡ true
unfolding violates_unique
same_identity-violates event r h = rw h

-- The insert fails on a taken identity or key, else the identity is new.
insert_event_taken :
    (event : InboundEvent) (taken : Option InboundEvent) (s : Session)
    → find (violates_unique event) s.db.inbound_events ≡ taken
    → ExtendsAt (do lift (raise_if (is_some taken) integrity_error); add_inbound_event event) s
unfolding ◌>>=◌ lift add_inbound_event modify
insert_event_taken event none s e = (
  add_inbound_event-Evolves event s.db (
      count-none_of (is_event event.source event.external_id) (violates_unique event)
        s.db.inbound_events (same_identity-violates event) e),
  refl,
)
insert_event_taken event (some r) s e = (Evolves-refl s.db, refl)

pub insert_event-Extends : (event : InboundEvent) → Extends (flush_inbound_event none event)
unfolding flush_inbound_event ◌>>=◌ gets
insert_event-Extends event = record { at = λ s. insert_event_taken event _ s refl }

-- What a rival commits keeps the rules too.
abbrev pub IsFair : Race → Type 0
IsFair none = Unit
IsFair (some rival) = (d : Database) → Evolves d (rival d)

module _ ⦃w : World⦄ where
  stored_customer-Extends :
      (s : CustomerSnapshot) (c : Customer) → Extends (store_customer s (some c))
  unfolding store_customer
  stored_customer-Extends s c = search (extends_rules, customer_row-Extends) depth 9

  stored_account-Extends :
      (s : AccountSnapshot) (customer : Customer) (a : Account)
      → Extends (store_account s customer (some a))
  unfolding store_account
  stored_account-Extends s customer a = search (extends_rules, account_row-Extends) depth 9

  -- A new customer's row is inserted only if the search found none with its external id.
  store_customer_found :
      (s : CustomerSnapshot) (found : Option Customer) (session : Session)
      → find (is_customer s.external_id) session.db.customers ≡ found
      → ExtendsAt (store_customer s found) session
  unfolding store_customer ◌>>=◌ reading add_customer modify pure
  store_customer_found s none session e = (
    add_customer-Evolves _ session.db (
        count-none_of (is_customer s.external_id) (is_customer s.external_id) session.db.customers
          (λ x h. h) e),
    refl,
  )
  store_customer_found s (some c) session e = (stored_customer-Extends s c).at session

  pub upsert_customer-Extends : (s : CustomerSnapshot) → Extends (upsert_customer s)
  unfolding upsert_customer ◌>>=◌ gets
  upsert_customer-Extends s = record { at = λ session. store_customer_found s _ session refl }

  store_account_found :
      (s : AccountSnapshot) (customer : Customer) (found : Option Account) (session : Session)
      → find (is_account s.external_id) session.db.accounts ≡ found
      → ExtendsAt (store_account s customer found) session
  unfolding store_account ◌>>=◌ reading add_account modify pure
  store_account_found s customer none session e = (
    add_account-Evolves _ session.db (
        count-none_of (is_account s.external_id) (is_account s.external_id) session.db.accounts
          (λ x h. h) e),
    refl,
  )
  store_account_found s customer (some a) session e =
      (stored_account-Extends s customer a).at session

  pub upsert_account-Extends :
      (s : AccountSnapshot) (customer : Customer) → Extends (upsert_account s customer)
  unfolding upsert_account ◌>>=◌ gets
  upsert_account-Extends s customer = record {
    at = λ session. store_account_found s customer _ session refl;
  }

  pub audit_stage-Extends :
      (e : Submission) (event : InboundEvent) (correlation_id stage : String)
      (actor : AuditActorType)
      → Extends (audit_stage e event correlation_id stage actor)
  unfolding audit_stage
  audit_stage-Extends e event correlation_id stage actor = append_audit_event-Extends _

  ruleset transaction_rules = (
    Advances-commit, Advances-rollback, Advances-Extends, Advances-bind, Advances-if, extends_rules,
    find_existing_event-Extends, result_from_existing_event-Extends,
  )

  accept_event-Advances :
      (e : Submission) (event : InboundEvent) (correlation_id : String)
      → Advances (accept_event e event correlation_id)
  unfolding accept_event
  accept_event-Advances e event correlation_id =
      search
        (
          transaction_rules, audit_stage-Extends, plan_outreach_for_event-Extends,
          status_row-Extends,
        )
        depth 12

  pub answer_or_raise-Extends : (found : Option InboundEvent) → Extends (answer_or_raise found)
  unfolding answer_or_raise
  answer_or_raise-Extends none = Extends-raise _
  answer_or_raise-Extends (some event) = result_from_existing_event-Extends event

  -- the part of `recover` behind its rollback
  answer-Advances :
      (e : Submission) → Advances (find_existing_event e.source e.external_id >>= answer_or_raise)
  answer-Advances e = search (transaction_rules, answer_or_raise-Extends)

  -- A rollback first: what an abandoned transaction left in view does not matter.
  recover_lem :
      (e : Submission) (s : Session)
      → Evolves s.committed (recover e s).1.committed
        × Evolves (recover e s).1.committed (recover e s).1.db
  unfolding recover ◌>>=◌ rollback find_existing_event
  recover_lem e s =
      (answer-Advances e).at (record s { db = s.committed }) (Evolves-refl s.committed)

  recover-Advances : (e : Submission) → Advances (recover e)
  recover-Advances e = record { at = λ s h. recover_lem e s }

  insert_and_accept-Advances :
      (race : Race)
      → IsFair race
      → (e : Submission) (event : InboundEvent) (correlation_id : String)
      → Advances (do
        flushed ← attempt (flush_inbound_event race event)
        if flushed then accept_event e event correlation_id else recover e)
  insert_and_accept-Advances none fair e event correlation_id =
      search
        (
          transaction_rules, attempt-Advances, insert_event-Extends, accept_event-Advances,
          recover-Advances,
        )
        depth 9
  insert_and_accept-Advances (some rival) fair e event correlation_id = record {
    at = λ s h.
        let s' = record s { committed = rival s.committed } in
        let done = recover_lem e s' in
        unfold attempt flush_inbound_event lose_race ◌>>=◌ in
        (Evolves-trans (fair s.committed) done.0, done.1);
  }

  ingest_new_event-Advances :
      (race : Race)
      → IsFair race
      → (e : Submission) (correlation_id : String)
      → Advances (ingest_new_event race e correlation_id)
  unfolding ingest_new_event
  ingest_new_event-Advances race fair e correlation_id =
      Advances-bind _ _ (Advances-Extends _ (upsert_customer-Extends e.customer)) λ customer.
        Advances-bind _ _ (Advances-Extends _ (upsert_account-Extends e.account customer))
          λ account. Advances-bind _ _ (Advances-Extends _ (Extends-reading w.uuid4)) λ id.
            insert_and_accept-Advances race fair e (new_inbound_event e id customer account)
              correlation_id

  ingest_found-Advances :
      (race : Race)
      → IsFair race
      → (e : Submission) (correlation_id : String) (found : Option InboundEvent)
      → Advances (ingest_found race e correlation_id found)
  unfolding ingest_found
  ingest_found-Advances race fair e correlation_id none =
      ingest_new_event-Advances race fair e correlation_id
  ingest_found-Advances race fair e correlation_id (some event) =
      Advances-Extends _ (result_from_existing_event-Extends event)

  pub ingest_event_snapshot-Advances :
      (race : Race)
      → IsFair race
      → (e : Submission) (correlation_id : String)
      → Advances (ingest_event_snapshot race e correlation_id)
  unfolding ingest_event_snapshot
  ingest_event_snapshot-Advances race fair e correlation_id =
      Advances-bind _ _ (Advances-Extends _ (find_existing_event-Extends e.source e.external_id))
        (ingest_found-Advances race fair e correlation_id)
