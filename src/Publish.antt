-- ===== src/Publish.antt =====
-- `src/chart_manager/commands/publish`: which charts a change set publishes.
pub mod Select
mod Tests
