-- ===== src/Tests.antt =====
-- The theorems at concrete inputs.
mod Data
mod Types
mod Protocol
mod Commitments
mod Rows
mod Scanner
mod Reconcile
mod Findings
mod Diff
mod Resolve
