-- ===== src/Migrations/Upgraded.antt =====
-- What a run of alembic/env.py makes of the databases, and that the revisions end at the tables that
-- models.py declares.
use ai_compliance_orquestrat.Settings.{migration_database_url}
use ai_compliance_orquestrat.Errors.{Error, Result, ok, err, integrity_error, ◌>>=◌}
use ai_compliance_orquestrat.Json.{Fields, Json}
use ai_compliance_orquestrat.Migrations.Compare.{same_schema}
use ai_compliance_orquestrat.Migrations.Environment.{
  Alembic, AlembicLaws, Deployment, database_url, run_environment, dispose, do_run_migrations,
  run_migrations_online, option_of-set_option,
}
use ai_compliance_orquestrat.Migrations.Metadata.{metadata}
use ai_compliance_orquestrat.Migrations.Revised.{
  core_tables, correlated_tables, with_sources, sources_derived, add_task_correlation_lem,
}
use ai_compliance_orquestrat.Migrations.SourceIdentity.{
  add_task_correlation, derive_source_identity,
}
use ai_compliance_orquestrat.Migrations.Statements.{
  Catalog, are_distinct, has_rows, is_named, unique_name,
}
use mathlib.Core.Path.{fun_ext}
use ai_compliance_orquestrat.Prelude.{
  List, Option, String, false, true, ◌+◌, ◌-◌, ◌==◌, ◌≡◌, ◌∙◌, [], ◌∷◌, arith, if◌then◌else◌, refl,
  eq_iff, ap, ◌≡◌, sym, find, ℕ, Bool-cases, inl, inr,
}

-- The revisions after the core tables, in the order of their `down_revision`.
unfoldable pub later_revisions : (Json → Option String) → Catalog → Result Catalog
later_revisions as_text c = do c ← derive_source_identity as_text c; add_task_correlation c

correlated_tables-same_schema :
    (rows : String → List Fields) → same_schema (correlated_tables rows) metadata ≡ true
unfolding same_schema find is_named unique_name
correlated_tables-same_schema rows = refl

later_revisions_lem :
    (as_text : Json → Option String) (rows : String → List Fields)
    → are_distinct ("external_id" ∷ []) (rows "inbound_events") ≡ true
    → later_revisions as_text (core_tables rows) ≡ (
        if has_rows (rows "outreach_tasks")
        then err integrity_error
        else ok (correlated_tables (with_sources as_text rows)))
unfolding later_revisions
later_revisions_lem as_text rows distinct =
    rw (sources_derived as_text rows distinct)
      (add_task_correlation_lem (with_sources as_text rows))

-- Whatever the rows of the core tables, if no two events share an external id, the later revisions
-- end, unless there are outreach tasks, at a catalogue whose tables, columns, constraints and
-- indexes are those that models.py declares, up to their order.
pub later_revisions-same_schema :
    (as_text : Json → Option String) (rows : String → List Fields)
    → are_distinct ("external_id" ∷ []) (rows "inbound_events") ≡ true
    → has_rows (rows "outreach_tasks") ≡ false
    → (c : Catalog) × (later_revisions as_text (core_tables rows) ≡ ok c)
      × (same_schema c metadata ≡ true)
later_revisions-same_schema as_text rows distinct no_tasks = (
  correlated_tables (with_sources as_text rows),
  later_revisions_lem as_text rows distinct ∙ rw no_tasks refl,
  correlated_tables-same_schema (with_sources as_text rows),
)

plus_minus : (n : ℕ) → n + 1 - 1 ≡ n
plus_minus n = omega arith

module _ (a : Alembic) (laws : AlembicLaws a) (s : Deployment)
    (online : a.is_offline_mode ≡ false) where
  -- the database that the settings choose for the migrations
  abbrev chosen_url : String
  chosen_url = migration_database_url a.settings a.main_option

  -- the databases with another one there
  abbrev pub with_database : Catalog → String → Catalog
  with_database c u = if u == chosen_url then c else s.database u

  run_environment-online : run_environment a s ≡ run_migrations_online a s
  unfolding run_environment
  run_environment-online = rw (online) refl

  ends :
      (r : Result (Unit {0})) (c : Catalog)
      → a.transaction a.run_migrations (s.database chosen_url) ≡ (r, c)
      → run_migrations_online a s
        ≡ dispose a r (record s { database = with_database c; engines = s.engines + 1 })
  unfolding run_migrations_online do_run_migrations database_url
  ends r c h =
      rw (laws.configured _ _ (option_of-set_option "sqlalchemy.url" chosen_url a.section)) (
        ap
          (λ (x : Result (Unit {0}) × Catalog). dispose a x.0 (record s {
            database = with_database x.1;
            engines = s.engines + 1;
            connections = s.connections + 1 - 1;
          }))
          h
        ∙ rw (plus_minus s.connections) refl)

  -- A run that succeeds changes the database at the chosen URL, and no other.
  run_environment-committed :
      (c : Catalog)
      → a.run_migrations (s.database chosen_url) ≡ ok c
      → run_environment a s ≡ (ok tt, record s { database = with_database c })
  unfolding dispose
  run_environment-committed c e =
      run_environment-online
      ∙ (ends (ok tt) c (laws.commits _ _ c e) ∙ rw (plus_minus s.engines) refl)

  same_database : with_database (s.database chosen_url) ≡ s.database
  same_database = fun_ext at_url
    where
      at_url : (u : String) → with_database (s.database chosen_url) u ≡ s.database u
      at_url u = elim (Bool-cases (u == chosen_url)) [
        | inl e ↦ rw e (ap s.database (sym ((eq_iff u chosen_url).0 e)))
        | inr e ↦ rw e refl
      ]

  -- A run that is refused changes no database, and leaves its engine undisposed.
  run_environment-refused :
      (e : Error)
      → a.run_migrations (s.database chosen_url) ≡ err e
      → run_environment a s ≡ (err e, record s { engines = s.engines + 1 })
  unfolding dispose
  run_environment-refused e h =
      run_environment-online
      ∙ (ends (err e) (s.database chosen_url) (laws.rolls_back _ _ e h)
          ∙ ap (λ d. (err e, record s { database = d; engines = s.engines + 1 })) same_database)

  -- When the later revisions are to run on the core tables, whatever their rows, where no two
  -- events share an external id: if there are outreach tasks, the run raises and no database has
  -- changed, although the first of the revisions went through, and its engine is not disposed of.
  -- Otherwise the database at the chosen URL, and no other, has the new tables, and nothing is left
  -- open.
  pub upgraded_or_unchanged :
      (as_text : Json → Option String) (rows : String → List Fields)
      → ((c : Catalog) → a.run_migrations c ≡ later_revisions as_text c)
      → s.database chosen_url ≡ core_tables rows
      → are_distinct ("external_id" ∷ []) (rows "inbound_events") ≡ true
      → run_environment a s ≡ (
          if has_rows (rows "outreach_tasks")
          then (err integrity_error, record s { engines = s.engines + 1 })
          else (
            ok tt,
            record s { database = with_database (correlated_tables (with_sources as_text rows)) },
          ))
  upgraded_or_unchanged as_text rows revisions core distinct =
      let run =
        ap a.run_migrations core
        ∙ (revisions (core_tables rows) ∙ later_revisions_lem as_text rows distinct) in
      elim (Bool-cases (has_rows (rows "outreach_tasks"))) [
        | inl e ↦ rw e (run_environment-refused integrity_error (run ∙ rw e refl))
        | inr e ↦ rw e (
            run_environment-committed (correlated_tables (with_sources as_text rows))
              (run ∙ rw e refl))
      ]
