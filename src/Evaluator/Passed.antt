-- ===== src/Evaluator/Passed.antt =====
-- What an evaluation that allows has passed.
pub mod Core
pub mod Child
pub mod Commerce
pub mod Rwa
pub mod Consumption
pub mod Whole
