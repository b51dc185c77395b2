-- ===== src/Migrations.antt =====
-- alembic/versions: the three revisions, each with its upgrade and its downgrade, as the statements
-- that they send to a PostgreSQL catalogue (Statements). A revision runs in one transaction, so one
-- that is refused changes nothing.
pub mod Statements
pub mod CoreTables
pub mod SourceIdentity
pub mod Sources
pub mod Revised
pub mod Metadata
pub mod Compare
pub mod Environment
pub mod Upgraded
