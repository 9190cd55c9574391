-- ===== src/Upgrade.antt =====
-- `src/chart_manager/commands/upgrade`: the version and the changelog of a wrapper chart.
pub mod Models
pub mod Changelog
pub mod Finalize
mod Tests
