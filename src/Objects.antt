-- ===== src/Objects.antt =====
-- The objects of sdk/typescript/src/index.ts that the SDK's decisions are about. `oati_version` is
-- "1.0" in every one and is left out; a `DecimalString` is a text; identifiers are texts, whose
-- prefixes only the type checker of TypeScript sees. Counts are non-negative integers, as the
-- published schemas have them.
pub mod Terms
pub mod Decimals
pub mod Validators
use oati.Prelude.{ℕ, Bool, false, true, List, Option, Text, text}
use oati.Json.{Json, Fields}

unfoldable pub commerce_profile : Text
unfolding text
commerce_profile = text "https://specs.intelliger.ai/oati/profiles/commerce/v0.1"

unfoldable pub rwa_profile : Text
unfolding text
rwa_profile = text "https://specs.intelliger.ai/oati/profiles/rwa/v0.1"

pub data MandateStatus : Type 0 where
  active suspended revoked expired consumed : MandateStatus

abbrev pub is_active : MandateStatus → Bool
is_active active = true
is_active _ = false

pub record Delegation : Type 0 where
  pub allowed : Bool
  pub max_depth : ℕ

pub record AgentMandate : Type 0 where
  pub id : Text
  pub issuer : Text
  pub subject : Text
  pub sponsor : Option Text
  pub parent_mandate : Option Text
  pub purpose : Text
  pub actions : List Text
  pub resources : Option (List Text)
  pub counterparties : Option (List Text)
  pub destinations : Option (List Text)
  pub limits : Option Fields
  pub data_use : Option Fields
  pub delegation : Option Delegation
  pub not_before : Text
  pub expires_at : Text
  pub status : MandateStatus
  pub profile : Option Text
  pub extensions : Option Fields
  pub proof : Option Json

pub data Protocol : Type 0 where
  http grpc mcp a2a : Protocol

pub record TransactionEnvelope : Type 0 where
  pub id : Text
  pub agent_id : Text
  pub organisation_id : Text
  pub mandate_id : Text
  pub action : Text
  pub resource : Text
  pub purpose : Option Text
  pub destination : Option Text
  pub counterparty : Option Text
  pub protocol : Option Protocol
  pub commercial_profile : Option Text
  pub request_digest : Option Text
  pub issued_at : Text
  pub nonce : Text
  pub profile : Option Text
  pub extensions : Option Fields
  pub proof : Option Json
