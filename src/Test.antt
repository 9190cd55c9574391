-- ===== src/Test.antt =====
-- `src/chart_manager/commands/test`: compiling, running and tearing down a chart test.
pub mod Plan
pub mod Hooks
pub mod Run
pub mod Command
pub mod Select
mod Tests
