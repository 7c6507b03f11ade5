-- ===== src/Evaluator/Guarantees.antt =====
-- What follows for a request that the evaluator allows, and how reasons make a result.
pub mod Core
pub mod Terms
pub mod ProfileTerms
pub mod Narrower
pub mod NonAmplification
pub mod Amounts
pub mod Usage
pub mod Outcome
pub mod Descent
pub mod Profiles
pub mod Reported
