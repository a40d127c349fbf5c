-- ===== src/Core.antt =====
-- internal/core: the event pipeline, from an adapter's event to the rows of the database.
pub mod Event
pub mod Db
pub mod Tx
pub mod Resolve
pub mod Pipeline
pub mod Tests
