-- ===== src/Validate.antt =====
-- `src/chart_manager/commands/validate`: the charts and environments that changed files call for.
pub mod Models
pub mod Check
pub mod Triggers
pub mod Select
pub mod Run
mod Tests
