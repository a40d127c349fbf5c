-- ===== src/Setup.antt =====
-- internal/setup: the first-run wizard and its settings.
pub mod Wizard
pub mod Policy
pub mod Tests
