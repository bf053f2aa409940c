-- ===== src/Store.antt =====
-- crates/store: the tables, and the statements that change them.
pub mod Models
pub mod Table
pub mod Apply
pub mod Observations
pub mod Queue
pub mod Anomalies
