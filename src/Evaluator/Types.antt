-- ===== src/Evaluator/Types.antt =====
-- The interfaces of sdk/typescript/src/evaluator.ts. Counts are non-negative integers, as the
-- schema of an evaluation request has them.
use oati.Prelude.{ℕ, Bool, List, Option, Text, some, none, text}
use oati.Prelude.Ints.{pos}
use oati.Json.{str, num, Fields, end, field}
use oati.Objects.{AgentMandate, TransactionEnvelope}

pub record UsageSnapshot : Type 0 where
  pub calls : Option ℕ
  pub amount : Option Text
  pub currency : Option Text
  pub quantity : Option Text
  pub consumed : Option Bool
  pub idempotency_keys : Option (List Text)
  pub minted_supply : Option Text

-- `Required<UsageSnapshot>`
pub record Usage : Type 0 where
  pub calls : ℕ
  pub amount : Text
  pub currency : Text
  pub quantity : Text
  pub consumed : Bool
  pub idempotency_keys : List Text
  pub minted_supply : Text

pub record Consumption : Type 0 where
  pub calls : Option ℕ
  pub amount : Option Text
  pub currency : Option Text
  pub quantity : Option Text
  pub idempotency_key : Option Text
  pub consume : Option Bool

-- `Required<Consumption>`
pub record Delta : Type 0 where
  pub calls : ℕ
  pub amount : Text
  pub currency : Text
  pub quantity : Text
  pub idempotency_key : Text
  pub consume : Bool

pub record CommerceContext : Type 0 where
  pub merchant_organisation_id : Text
  pub service_id : Text
  pub offer_id : Text
  pub currency : Text
  pub quantity : ℕ
  pub unit_price : Text
  pub total_amount : Text
  pub idempotency_key : Text
  pub terms_digest : Option Text

pub data Operation : Type 0 where
  mint burn transfer redeem publish_state : Operation

unfoldable pub operation_text : Operation → Text
operation_text mint = text "mint"
operation_text burn = text "burn"
operation_text transfer = text "transfer"
operation_text redeem = text "redeem"
operation_text publish_state = text "publish_state"

pub record RwaContext : Type 0 where
  pub asset_id : Text
  pub state_claim_id : Text
  pub network : Text
  pub token_contract : Text
  pub operation : Operation
  pub unit : Text
  pub quantity : Text
  pub reserve : Text
  pub approval_count : ℕ
  pub approval_roles : List Text
  pub current_supply : Text
  pub maximum_supply : Option Text
  pub claim_valid_until : Text

pub record EvaluationRequest : Type 0 where
  pub evaluation_time : Text
  pub mandate : AgentMandate
  pub parent_mandate : Option AgentMandate
  pub delegation_depth : Option ℕ
  pub envelope : TransactionEnvelope
  pub usage : UsageSnapshot
  pub consumption : Option Consumption
  pub commerce : Option CommerceContext
  pub rwa : Option RwaContext

pub data Verdict : Type 0 where
  allow deny : Verdict

pub record EvaluationResult : Type 0 where
  pub decision : Verdict
  pub mandate_id : Text
  pub transaction_id : Text
  pub reason_codes : List Text
  pub next_usage : UsageSnapshot

-- `value as unknown as Record<string, unknown>`
abbrev optional_field : Text → Option Text → Fields → Fields
optional_field key none fs = fs
optional_field key (some t) fs = field key (str t) fs

unfoldable pub commerce_fields : CommerceContext → Fields
commerce_fields c = field (text "offer_id") (str c.offer_id) (
    field (text "currency") (str c.currency) (
      field (text "quantity") (num (pos c.quantity)) (
        field (text "unit_price") (str c.unit_price) (
          field (text "total_amount") (str c.total_amount) (
            field (text "idempotency_key") (str c.idempotency_key) (
              optional_field (text "terms_digest") c.terms_digest (
                field (text "merchant_organisation_id") (str c.merchant_organisation_id)
                  (field (text "service_id") (str c.service_id) end))))))))

-- The fields that the evaluator reads by name.
unfoldable pub rwa_fields : RwaContext → Fields
rwa_fields c = field (text "asset_id") (str c.asset_id) (
    field (text "state_claim_id") (str c.state_claim_id) (
      field (text "network") (str c.network) (
        field (text "token_contract") (str c.token_contract) (
          field (text "operation") (str (operation_text c.operation))
            (field (text "unit") (str c.unit) (field (text "quantity") (str c.quantity) end))))))
