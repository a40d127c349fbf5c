-- ===== src/Resolver.antt =====
-- internal/resolver: maps the evidence of an adapter to a confidence that it means a stored book.
pub mod Bands
pub mod Normalize
pub mod Jaro
pub mod Score
pub mod Tests
