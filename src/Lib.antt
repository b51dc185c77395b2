-- ===== src/Lib.antt =====
-- A model of the compliant outreach orchestrator, a service that takes source events about
-- customers' accounts, decides by policy which outreach may be made, schedules it as tasks, and
-- sends the due tasks through channel providers. Everything it does is recorded in an audit trail.
--
-- The parts, with their files in the repository:
--   World: what the program calls and does not implement, as parameters (the time-zone database,
--     the clocks, uuid4, SHA-256). TimeLaws is documented behaviour of datetime.astimezone. In the
--     same way Pydantic (Api/Readers) is pydantic's reading of JSON values, and PydanticLaws its
--     documented reading of a value that has the type already. UuidsDiffer (Ingestion/Counted) says
--     that uuid4 gives no id twice; it is assumed only where it is named.
--   DateTime: Python's datetime as a wall clock in microseconds with a zone.
--   Json, Text: the JSON payload columns; the length of a text and `strip`.
--   Models, Models/Status: src/orchestrator/models.py, the six tables and their enumerations.
--   Errors, Session: exceptions as values, and the SQLAlchemy session: what the open transaction
--     sees, what is durable, commit, rollback, and the count of clock and uuid4 readings.
--   Tables: the statements that insert and update rows. Tables/Rules, Session/Rules: their rules.
--     Tables/Changes: each statement's change of one table. Tables/OneRow: the row of a primary
--     key. Session/Triples: conditions before and after. Errors/Ensures: facts on results.
--   Evolution: the rules by which the tables may change. Evolution/Unique: the unique constraints.
--   AuditLog: src/orchestrator/domain/audit_log.py. AuditLog/TaskChange: a unit of work that
--     writes one task and one audit row.
--   Policy: src/orchestrator/policy/engine.py. Policy/Blocks, QuietHours, Decisions,
--     Branches and Outcomes hold what is proved of it.
--   Schedule: the proposals of src/orchestrator/orchestration/planner.py and its calendar.
--   Planner, Planner/Effects, Planner/PolicyEvent: the rest of planner.py. Planner/Kept, Makes,
--     Planned, Steps, Rounds, Cancelled, Marked and Once hold what is proved of it.
--   Ingestion, Ingestion/Snapshots, Ingestion/Replay: src/orchestrator/domain/event_ingestion.py
--     and inbound_events.py. Ingestion/Counted and Repeats: the rows that a submission adds, as a
--     repeated one counts them.
--   Worker, Worker/Record: src/orchestrator/workers/dispatch.py and src/orchestrator/channels.
--     Worker/Delivers, Picked, Sends and Drains: passes that go through; Worker/Attempts: the
--     attempt limit; Worker/Outcomes and Recorded: what becomes of a task after a delivery.
--   Operational: src/orchestrator/domain/operational_outreach.py. Operational/Expected
--     and Recorded: what a manual result does.
--   Api: the handlers of src/orchestrator/api. Api/Readers: how a field of a body is read.
--     Api/Requests: the request models of events.py, accounts.py and tasks.py, with what an accepted
--     body satisfies (Accepted), what a stored payload reads as (Payload), and how a body is refused
--     (Refused). Api/Responses: the response models and task_response.
--   System: the service as a sequence of requests and worker passes over the durable tables.
--     System/Runs: the same as a step relation. System/Loop: _run_loop of dispatch.py.
--     System/Drained: passes until nothing is due.
--   Http: src/orchestrator/main.py, the routes under correlation_id_middleware (api/correlation.py),
--     from a header and a body to a response. Http/Serves, Refined, Still and Performs relate it to
--     System, Reads and Refused hold the requests that change nothing, Header what a malformed
--     header does.
--   Settings: src/orchestrator/settings.py.
--   Demo: scripts/seed_demo.py. Demo/Payloads: its event bodies. Demo/Run: its run against Http.
--     Demo/Main: `main`, with a URL for each database. Demo/Bodies, Accepted, Run/Moves and
--     Main/Effect hold what is proved of them.
--   Migrations: alembic. Migrations/CoreTables and SourceIdentity are the revisions of
--     alembic/versions, Statements what each statement does to tables with rows, Environment is
--     alembic/env.py, Metadata the tables that models.py declares, Compare how schemas are
--     compared; Sources, Revised and Upgraded hold what is proved.
--   Tests: concrete runs.
--
-- How they interact: Http reads a request's body by Api/Requests and calls the route's handler under
-- a correlation id; a handler of Api opens a session and calls Ingestion or Operational; Ingestion
-- stores the snapshots and the event and calls Planner in the same transaction; Planner asks
-- Schedule for proposals and Policy for decisions, and writes decisions, tasks and audit rows;
-- Worker later claims the due tasks, commits the claim, calls the provider, and records the result
-- in a second transaction.
--
-- State and concurrency: an operation is a function from a session to a result and a session. What
-- other sessions commit in between is a parameter where the code commits or races: `Race` is the
-- rival that wins the insert of an event, `meanwhile` is what others commit while a provider works
-- or between the read of a task and its update. Where a theorem needs it, they are assumed to keep
-- the rules of Evolution, or to leave a claimed task alone (Worker/Attempts), or to be quiet.
--
-- Bounds and fuel: the loop of the next business day runs on two rounds of fuel, which is enough,
-- because a weekend has two days (Schedule/BusinessDay). The worker's endless loop is run on a list
-- of passes of any length. All other loops run over lists. Python's
-- integers are unbounded. The tables are lists in the order of insertion; a query without an order
-- answers in that order.
--
-- Not modelled: the HTTP framework, but that it answers an HTTPException as a response; pydantic's
-- coercions between types, which are parameters; the environment that settings.py reads; Alembic
-- and SQLAlchemy's engines, which are parameters of alembic/env.py, with AlembicLaws as their
-- documented behaviour; the parsing of command lines; the HTTP client and printing of
-- the demo script, of which it is only known whether a service listens at the base URL; the columns that the database fills in and no code reads (updated_at among
-- them). The SQL engine is modelled by the meaning of its statements, for the migrations too. Of the
-- lengths of text columns only that of last_error is modelled, the one that a caller's text can
-- exceed: PostgreSQL refuses a longer text (refuse_long_error in Tables). In the migrations a
-- unique constraint is named by table and column, and a NOT NULL column without a default is
-- refused where there are rows. A numeric column holds a natural number.
pub mod Prelude
pub mod Json
pub mod DateTime
pub mod Text
pub mod World
pub mod Errors
pub mod Models
pub mod Evolution
pub mod Session
pub mod Tables
pub mod AuditLog
pub mod Policy
pub mod Schedule
pub mod Planner
pub mod Ingestion
pub mod Worker
pub mod Operational
pub mod Api
pub mod System
pub mod Settings
pub mod Http
pub mod Demo
pub mod Migrations
pub mod Tests
