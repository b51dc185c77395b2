-- ===== src/Migrations/Revised.antt =====
-- What the revisions make of a database with rows.
use ai_compliance_orquestrat.Migrations.Sources.{
  sources_set, distinct-set_source, ids_kept, sources_dropped,
}
use ai_compliance_orquestrat.Errors.{ok, ◌>>=◌, err, integrity_error}
use ai_compliance_orquestrat.Migrations.SourceIdentity.{
  source_column, set_source, derive_source_identity, set_sources, drop_source_identity,
  add_task_correlation,
}
use ai_compliance_orquestrat.Migrations.CoreTables.{
  create_core_tables, drop_core_tables, audit_events_table, customers_table, inbound_events_table,
  accounts_table, policy_decisions_table, outreach_tasks_table, needed,
}
use ai_compliance_orquestrat.Json.{Fields, get, Json, text}
use ai_compliance_orquestrat.Prelude.{
  List, String, ◌∷◌, [], find, ◌++◌, filter, ◌≡◌, none, refl, ◌==◌, false, map, if◌then◌else◌,
  arith, Option, true, ◌∙◌, All,
}
use ai_compliance_orquestrat.Migrations.Statements.{
  Table, Catalog, Index, create_table, drop_table, alter, create_index, drop_index, is_named,
  is_referenced, refers_to, delete, primary_key, unique, are_distinct, add_column, alter_default,
  drop_constraint, create_unique_constraint, is_column, is_unique_named, unique_name, uuid,
  drop_column, has_rows,
}

abbrev index_of : String → List String → Index
index_of name columns = record { name = name; columns = columns }

-- The core tables with their rows: those of each table by its name.
abbrev pub core_tables : (String → List Fields) → Catalog
core_tables rows =
    record (audit_events_table (rows "audit_events")) {
      indexes =
          index_of "ix_audit_events_correlation_id" ("correlation_id" ∷ [])
          ∷ index_of "ix_audit_events_entity_type_entity_id" ("entity_type" ∷ "entity_id" ∷ [])
          ∷ [];
    }
    ∷ customers_table (rows "customers")
    ∷ inbound_events_table (rows "inbound_events")
    ∷ accounts_table (rows "accounts")
    ∷ policy_decisions_table (rows "policy_decisions")
    ∷ record (outreach_tasks_table (rows "outreach_tasks")) {
      indexes =
          index_of "ix_outreach_tasks_customer_id_created_at" ("customer_id" ∷ "created_at" ∷ [])
          ∷ index_of "ix_outreach_tasks_status_scheduled_at" ("status" ∷ "scheduled_at" ∷ [])
          ∷ [];
    }
    ∷ []

-- be0bd9c687b8 makes the core tables from nothing; whatever rows they have then, its downgrade
-- leaves nothing: no foreign key stops it.
pub core_tables_dropped :
    (rows : String → List Fields)
    → (create_core_tables [] ≡ ok (core_tables (λ t. [])))
      × (drop_core_tables (core_tables rows) ≡ ok [])
unfolding create_core_tables create_table alter create_index drop_core_tables drop_table drop_index
    find is_named filter is_referenced refers_to
core_tables_dropped rows = (refl, refl)

-- The core tables after 6d9d6c4f1f1a: the events have a source, and are unique by it and their id.
abbrev pub sourced_tables : (String → List Fields) → Catalog
sourced_tables rows =
    map (λ t. if is_named "inbound_events" t then sourced t else t) (core_tables rows)
  where
    sourced : Table → Table
    sourced t = record t {
      columns = t.columns ++ source_column none ∷ [];
      constraints =
          primary_key ("id" ∷ [])
          ∷ unique "inbound_events_idempotency_key_key" ("idempotency_key" ∷ [])
          ∷ unique "uq_inbound_events_source_external_id" ("source" ∷ "external_id" ∷ [])
          ∷ [];
    }

-- The core tables after 6d9d6c4f1f1a and its downgrade: the constraint on the ids is the last one.
abbrev pub restored_tables : (String → List Fields) → Catalog
restored_tables rows =
    map (λ t. if is_named "inbound_events" t then restored t else t) (core_tables rows)
  where
    restored : Table → Table
    restored t = record t {
      constraints =
          primary_key ("id" ∷ [])
          ∷ unique "inbound_events_idempotency_key_key" ("idempotency_key" ∷ [])
          ∷ unique "inbound_events_external_id_key" ("external_id" ∷ [])
          ∷ [];
    }

-- The tables after 53d8b15e9a4c.
abbrev pub correlated_tables : (String → List Fields) → Catalog
correlated_tables rows =
    map (λ t. if is_named "outreach_tasks" t then correlated t else t) (sourced_tables rows)
  where
    correlated : Table → Table
    correlated t = record t { columns = t.columns ++ needed "correlation_id" uuid ∷ [] }

abbrev pub without_sources : (String → List Fields) → String → List Fields
without_sources rows table =
    if table == "inbound_events" then map (delete "source") (rows table) else rows table

module _ (as_text : Json → Option String) where
  -- the rows once their sources are set
  abbrev pub with_sources : (String → List Fields) → String → List Fields
  with_sources rows table =
      if table == "inbound_events" then map (set_source as_text) (rows table) else rows table

  pub sources_derived :
      (rows : String → List Fields)
      → are_distinct ("external_id" ∷ []) (rows "inbound_events") ≡ true
      → derive_source_identity as_text (core_tables rows) ≡ ok (sourced_tables (with_sources rows))
  unfolding derive_source_identity alter add_column set_sources alter_default drop_constraint
      create_unique_constraint find is_named is_column is_unique_named filter unique_name
  sources_derived rows h =
      rw
        (
          sources_set as_text (text "unknown") (rows "inbound_events"),
          distinct-set_source as_text (rows "inbound_events") h,
        )
        refl

module _ (rows : String → List Fields) where
  ids_distinct :
      are_distinct ("external_id" ∷ []) (rows "inbound_events") ≡ true
      → drop_source_identity (sourced_tables rows) ≡ ok (restored_tables (without_sources rows))
  unfolding drop_source_identity drop_constraint create_unique_constraint drop_column alter find
      is_named is_column is_unique_named filter
  ids_distinct h = rw (h) refl

  ids_repeat :
      are_distinct ("external_id" ∷ []) (rows "inbound_events") ≡ false
      → drop_source_identity (sourced_tables rows) ≡ err integrity_error
  unfolding drop_source_identity drop_constraint create_unique_constraint drop_column alter find
      is_named is_column is_unique_named filter
  ids_repeat h = rw (h) refl

-- Whatever the rows once events have sources, the downgrade of 6d9d6c4f1f1a drops the sources if no
-- two events share an external id, and is refused otherwise.
pub drop_source_identity_lem :
    (rows : String → List Fields)
    → drop_source_identity (sourced_tables rows) ≡ (
        if are_distinct ("external_id" ∷ []) (rows "inbound_events")
        then ok (restored_tables (without_sources rows))
        else err integrity_error)
drop_source_identity_lem rows = ground (arith, ids_distinct rows, ids_repeat rows)

-- Whatever the rows of the core tables, if no two events share an external id and none has a source
-- yet, 6d9d6c4f1f1a and its downgrade succeed one after the other. Every row and column is back,
-- and every constraint, the one on the external ids last.
pub source_identity_restored :
    (as_text : Json → Option String) (rows : String → List Fields)
    → are_distinct ("external_id" ∷ []) (rows "inbound_events") ≡ true
    → All (λ r. get "source" r ≡ none) (rows "inbound_events")
    → (derive_source_identity as_text (core_tables rows) >>= drop_source_identity)
      ≡ ok (restored_tables rows)
unfolding is_named
source_identity_restored as_text rows h k =
    rw
      (
        sources_derived as_text rows h,
        ids_distinct (with_sources as_text rows) (ids_kept as_text (rows "inbound_events") ∙ h),
        sources_dropped as_text (rows "inbound_events") k,
      )
      refl

-- Whatever the rows, 53d8b15e9a4c adds its column if there are no outreach tasks, and is refused
-- otherwise.
pub add_task_correlation_lem :
    (rows : String → List Fields)
    → add_task_correlation (sourced_tables rows) ≡ (
        if has_rows (rows "outreach_tasks")
        then err integrity_error
        else ok (correlated_tables rows))
unfolding add_task_correlation add_column alter find is_named is_column has_rows
add_task_correlation_lem rows = by_rows (rows "outreach_tasks") refl
  where
    by_rows :
        (tasks : List Fields)
        → rows "outreach_tasks" ≡ tasks
        → add_task_correlation (sourced_tables rows) ≡ (
            if has_rows (rows "outreach_tasks")
            then err integrity_error
            else ok (correlated_tables rows))
    by_rows [] h = rw (h) refl
    by_rows (t ∷ ts) h = rw (h) refl
