-- ===== src/Middleware.antt =====
-- sdk/typescript/src/middleware.ts: what stands between a request and the handler that acts on it.
pub mod Types
pub mod Headers
pub mod Receipts
pub mod Flow
pub mod Calls
pub mod Issued
pub mod Granted
pub mod Answers
pub mod Keeps
pub mod Kept
pub mod Usage
