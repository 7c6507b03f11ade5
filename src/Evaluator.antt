-- ===== src/Evaluator.antt =====
-- sdk/typescript/src/evaluator.ts: the deterministic authority evaluator.
pub mod Decimal
pub mod Types
pub mod Reasons
pub mod Conditions
pub mod Delegation
pub mod Consumption
pub mod Commerce
pub mod Rwa
pub mod Authority
pub mod Passed
pub mod Kept
pub mod Guarantees
pub mod Ledger
