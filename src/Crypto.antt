-- ===== src/Crypto.antt =====
-- Trust in a document, sdk/typescript/src/crypto.ts: its proof, the times and the signer of it, the
-- key, the chain of issuers, revocation, the replay cache, and `verifyDocument`, which checks them all.
pub mod Types
pub mod Replay
pub mod Trust
pub mod Period
pub mod Base64
pub mod Ed25519
pub mod Proof
pub mod Key
pub mod Verify
pub mod Sign
pub mod Resolvers
