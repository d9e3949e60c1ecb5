-- ===== src/Algebra.antt =====
-- rhizo_core/src/algebraic: operation types, values, the merge of two values, and table schemas.
pub mod Types
pub mod Merger
pub mod Same
pub mod Commutes
pub mod Groups
pub mod Schema
pub mod Tests
