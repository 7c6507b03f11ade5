-- ===== src/Evaluator/Commerce.antt =====
-- `checkCommerce` of evaluator.ts: a purchase against the terms of its Mandate.
use oati.Prelude.{
  Bool, true, false, not, ◌&&◌, ◌||◌, List, [], ◌∷◌, Option, none, some, any, Text, text, ◌==◌,
  includes, starts_with, Result, ok, ◌>>=◌,
}
use oati.Json.{Json, str, Fields, get, object_at, strict_eq, truthy, to_text, print}
use oati.Objects.{AgentMandate, TransactionEnvelope}
use oati.Evaluator.Decimal.{not_zero, compare_decimal, add_decimal, multiply_decimal}
use oati.Evaluator.Types.{Usage, CommerceContext, commerce_fields}
use oati.Evaluator.Reasons.{Reasons, report}
use oati.Evaluator.Conditions.{same_mapped_fields, exceeds}
use oati.Evaluator.Delegation.{same_optional}
use oati.Evaluator.Consumption.{is_zero_text}

-- The context's own value against an `unknown` of the Mandate
abbrev pub is_text : Text → Option Json → Bool
is_text s v = strict_eq (some (str s)) v

abbrev pub optional_json : Option Text → Option Json
optional_json none = none
optional_json (some s) = some (str s)

abbrev pub signed_fields : List (Text × Text)
signed_fields =
    (text "offer_id", text "offer_id")
    ∷ (text "currency", text "currency")
    ∷ (text "quantity", text "quantity")
    ∷ (text "quoted_unit_price", text "unit_price")
    ∷ (text "quoted_total", text "total_amount")
    ∷ (text "idempotency_key", text "idempotency_key")
    ∷ (text "terms_digest", text "terms_digest")
    ∷ []

-- `envelopeMismatch`
unfoldable pub envelope_mismatch : Option Fields → TransactionEnvelope → CommerceContext → Bool
unfolding same_mapped_fields commerce_fields
envelope_mismatch none envelope context = false
envelope_mismatch (some signed) envelope context =
    not (envelope.resource == context.service_id)
    || not (same_optional envelope.counterparty (some context.merchant_organisation_id))
    || not (same_mapped_fields signed (commerce_fields context) signed_fields)

-- `compareDecimal(total_amount, multiplyDecimal(unit_price, quantity)) !== 0`
unfoldable pub total_invalid : CommerceContext → Result Bool
unfolding multiply_decimal compare_decimal
total_invalid context = do
  product ← multiply_decimal context.unit_price context.quantity
  s ← compare_decimal context.total_amount product
  ok (not_zero s)

-- `compareDecimal(addDecimal(used, amount), String(limit)) > 0`
unfoldable pub sum_exceeds : Text → Text → Option Json → Result Bool
unfolding add_decimal exceeds
sum_exceeds used amount limit = do total ← add_decimal used amount; exceeds total (to_text limit)

abbrev pub commerce_tests :
    CommerceContext → Fields → Usage → (price total budget quantity : Bool) → List (Bool × Text)
commerce_tests context limits usage price total budget quantity =
    (
      not (is_text context.merchant_organisation_id (get limits (text "merchant_organisation_id"))),
      text "COMMERCE_MERCHANT_NOT_ALLOWED",
    )
    ∷ (
      not (is_text context.service_id (get limits (text "service_id"))),
      text "COMMERCE_SERVICE_NOT_ALLOWED",
    )
    ∷ (
      not (is_text context.offer_id (get limits (text "offer_id"))),
      text "COMMERCE_OFFER_NOT_ALLOWED",
    )
    ∷ (
      not (is_text context.currency (get limits (text "currency")))
          || (not (is_zero_text usage.amount) && not (usage.currency == context.currency)),
      text "COMMERCE_CURRENCY_MISMATCH",
    )
    ∷ (price, text "COMMERCE_UNIT_PRICE_EXCEEDED")
    ∷ (total, text "COMMERCE_TOTAL_INVALID")
    ∷ (budget, text "COMMERCE_BUDGET_EXCEEDED")
    ∷ (quantity, text "COMMERCE_QUANTITY_EXCEEDED")
    ∷ (
      truthy (get limits (text "terms_digest"))
          && not
              (strict_eq (optional_json context.terms_digest) (get limits (text "terms_digest"))),
      text "COMMERCE_TERMS_MISMATCH",
    )
    ∷ (includes usage.idempotency_keys context.idempotency_key, text "IDEMPOTENCY_REPLAY")
    ∷ []

-- `[...reasons].some((code) => code.startsWith("COMMERCE_"))`
unfoldable pub has_commerce_reason : Reasons → Bool
unfolding starts_with
has_commerce_reason reasons = any (λ code. starts_with code (text "COMMERCE_")) reasons

abbrev pub mismatch_tests : Bool → Reasons → List (Bool × Text)
mismatch_tests mismatch reasons =
    (mismatch && not (has_commerce_reason reasons), text "COMMERCE_ENVELOPE_CONTEXT_MISMATCH") ∷ []

-- An already invalid context keeps its primary domain failure.
unfoldable pub report_mismatch : Bool → Reasons → Reasons
unfolding report has_commerce_reason
report_mismatch mismatch reasons = report (mismatch_tests mismatch reasons) reasons

unfoldable pub check_commerce_terms :
    CommerceContext → Fields → Bool → Usage → Reasons → Result Reasons
unfolding exceeds total_invalid sum_exceeds report_mismatch
check_commerce_terms context limits mismatch usage reasons = do
  price ← exceeds context.unit_price (to_text (get limits (text "max_unit_price")))
  total ← total_invalid context
  budget ← sum_exceeds usage.amount context.total_amount (get limits (text "max_total"))
  quantity ← exceeds (print context.quantity) (to_text (get limits (text "max_quantity")))
  ok (
      report_mismatch mismatch
        (report (commerce_tests context limits usage price total budget quantity) reasons))

unfoldable pub commerce_required : Reasons → Reasons
unfolding report
commerce_required reasons = report ((true, text "COMMERCE_CONTEXT_REQUIRED") ∷ []) reasons

unfoldable pub check_commerce_with :
    Option CommerceContext → Option Fields → TransactionEnvelope → Usage → Reasons → Result Reasons
unfolding check_commerce_terms envelope_mismatch commerce_required
check_commerce_with (some context) (some limits) envelope usage reasons =
    check_commerce_terms context limits
      (envelope_mismatch (object_at envelope.extensions (text "commerce")) envelope context) usage
      reasons
check_commerce_with _ _ envelope usage reasons = ok (commerce_required reasons)

unfoldable pub check_commerce :
    AgentMandate → TransactionEnvelope → Option CommerceContext → Usage → Reasons → Result Reasons
unfolding check_commerce_with
check_commerce mandate envelope context usage reasons =
    check_commerce_with context (object_at mandate.extensions (text "commerce")) envelope usage
      reasons
