-- ===== src/Tests.antt =====
-- Concrete runs: sample rows, tests of the definitions, and uses of the theorems.
pub mod Sample
pub mod PolicyRuns
pub mod ServiceRuns
pub mod MigrationRuns
pub mod PlannerRuns
pub mod RequestRuns
pub mod DeliveryRuns
pub mod PassRuns
pub mod EnvironmentRuns
pub mod RepeatRuns
