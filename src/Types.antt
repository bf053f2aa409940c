-- ===== src/Types.antt =====
-- crates/types: the protocol's data and its pure functions.
pub mod Error
pub mod Ckb
pub mod Bitcoin
pub mod Molecule
pub mod Protocol
pub mod Commitment
pub mod State
pub mod Asset
pub mod Config
pub mod Json
pub mod Text
