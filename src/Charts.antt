-- ===== src/Charts.antt =====
-- `src/chart_manager/shared/charts`: charts, their lifecycle intent, and the plan to install them.
pub mod Result
pub mod Lifecycle
pub mod InstallPlan
pub mod Samples
mod Tests
