-- ===== src/Lookup.antt =====
-- The client of public resolvers, sdk/typescript/src/lookup.ts: its options, the records it accepts,
-- requests with retries, the cache, failover between resolvers, and discovery.
pub mod Types
pub mod Options
pub mod Records
pub mod Headers
pub mod Request
pub mod Cache
pub mod Client
