-- ===== src/Objects/Terms.antt =====
-- The Commerce and RWA profiles of sdk/typescript/src/index.ts: terms, receipts and claims. The
-- interface of a profile's object is the core object and the terms of its extension, which are
-- optional where the code tests for them.
use oati.Prelude.{Bool, Option, List, Text}
use oati.Prelude.Ints.{ℤ}
use oati.Json.{Json, Fields}
use oati.Objects.{AgentMandate}

pub data Decision : Type 0 where
  allow deny transform approval_required : Decision

pub data Outcome : Type 0 where
  succeeded outcome_failed denied pending unknown : Outcome

pub record ActionReceipt : Type 0 where
  pub id : Text
  pub transaction_id : Text
  pub agent_id : Text
  pub organisation_id : Text
  pub mandate_id : Text
  pub decision : Decision
  pub outcome : Outcome
  pub occurred_at : Text
  pub issuer : Text
  pub profile : Option Text
  pub extensions : Option Fields
  pub proof : Option Json
  pub policy_digest : Option Text
  pub request_digest : Option Text
  pub response_digest : Option Text
  pub commercial_profile : Option Text

pub data BillingModel : Type 0 where
  per_request per_unit subscription fixed : BillingModel

pub record CommerceTerms : Type 0 where
  pub merchant_organisation_id : Text
  pub service_id : Text
  pub offer_id : Text
  pub currency : Text
  pub max_unit_price : Text
  pub max_total : Text
  pub max_quantity : ℤ
  pub billing_model : Option BillingModel
  pub terms_digest : Option Text

pub record PurchaseMandate : Type 0 where
  pub core : AgentMandate
  pub commerce : CommerceTerms

pub data FulfilmentStatus : Type 0 where
  fulfilled partial failed refunded : FulfilmentStatus

pub record CommerceReceiptTerms : Type 0 where
  pub merchant_organisation_id : Text
  pub service_id : Text
  pub offer_id : Text
  pub currency : Text
  pub quantity : ℤ
  pub unit_price : Text
  pub total_amount : Text
  pub fulfilment_status : FulfilmentStatus
  pub terms_digest : Text
  pub billing_reference : Option Text

pub record CommerceReceipt : Type 0 where
  pub core : ActionReceipt
  pub commerce : Option CommerceReceiptTerms

pub data ClaimType : Type 0 where
  reserve_balance nav eligibility covenant custody collateral : ClaimType

pub data IssuerRole : Type 0 where
  custodian administrator oracle auditor : IssuerRole

pub record Evidence : Type 0 where
  pub uri : Option Text
  pub digest : Text
  pub media_type : Text

-- `profile` is set by `createAssetStateClaim`.
pub record AssetStateClaim : Type 0 where
  pub profile : Text
  pub id : Text
  pub asset_id : Text
  pub claim_type : ClaimType
  pub value : Text
  pub unit : Text
  pub observed_at : Text
  pub valid_until : Text
  pub issuer : Text
  pub issuer_role : IssuerRole
  pub evidence : Evidence
  pub proof : Json

pub data RwaOperation : Type 0 where
  mint burn transfer redeem publish_state : RwaOperation

pub record RwaMandateTerms : Type 0 where
  pub asset_id : Text
  pub state_claim_id : Text
  pub network : Text
  pub token_contract : Text
  pub operation : RwaOperation
  pub unit : Text
  pub max_quantity : Text
  pub one_time : Bool
  pub minimum_approvals : ℤ
  pub required_roles : Option (List Text)

pub record AssetMandate : Type 0 where
  pub core : AgentMandate
  pub rwa : Option RwaMandateTerms

pub record RwaReceiptTerms : Type 0 where
  pub asset_id : Text
  pub state_claim_id : Text
  pub operation : RwaOperation
  pub network : Text
  pub token_contract : Text
  pub quantity : Text
  pub unit : Text
  pub chain_transaction_hash : Text
  pub approval_count : ℤ
  pub resulting_supply : Option Text

pub record RwaReceipt : Type 0 where
  pub core : ActionReceipt
  pub rwa : Option RwaReceiptTerms

pub record ValidationResult : Type 0 where
  pub valid : Bool
  pub issues : List Text
