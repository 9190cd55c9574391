-- ===== src/Promote/Tests.antt =====
-- The promotion stages at concrete inputs.
mod Watches
mod Runs
mod HelmTests
mod Promotions
