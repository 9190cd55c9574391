-- ===== src/Plumbing.antt =====
-- `src/chart_manager/plumbing`: rules that know nothing of charts or clusters.
pub mod ExitCodes
pub mod Lines
pub mod Yaml
pub mod SemVer
mod Tests
