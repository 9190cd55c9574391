-- ===== src/Events.antt =====
-- `src/chart_manager/shared/events`: the lifecycle ledger.
pub mod Model
pub mod Ref
mod Tests
