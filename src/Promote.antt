-- ===== src/Promote.antt =====
-- `src/chart_manager/commands/promote`: the promotion of a chart release through a Flux repository.
pub mod State
pub mod Request
pub mod Status
pub mod Telemetry
pub mod Fanout
pub mod Action
pub mod World
pub mod Monitor
mod Tests
pub mod Classify
pub mod Report
pub mod HelmTest
pub mod Scanner
pub mod Editor
pub mod PullRequest
