-- ===== src/Tests.antt =====
-- Tests and instances of the theorems.
mod Requests
mod Evaluations
mod Examples
mod Trust
mod Objects
mod Lookups
mod Canonicals
mod Verification
mod Projections
mod Signing
mod Resolvers
mod Gateway
mod Stores
