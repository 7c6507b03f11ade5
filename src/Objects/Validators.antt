-- ===== src/Objects/Validators.antt =====
-- The validators of sdk/typescript/src/index.ts. A validator that pushes the messages of the tests
-- that fail is the list of its tests, each with its message, and `messages` of it.
pub mod Rwa
pub mod Facts
pub mod MintFacts
use oati.Prelude.{
  ℕ, Bool, true, false, not, ◌||◌, ◌&&◌, Option, none, some, List, [], ◌∷◌, ◌++◌, leb, ltb, eqb,
  length, if◌then◌else◌, Text, text, ◌==◌, starts_with, Result, ok, throw, type_error,
}
use oati.Prelude.Ints.{ℤ, pos, leb_ℤ}
use oati.Json.{truthy, Json}
use oati.Evaluator.Conditions.{Runtime}
use oati.Evaluator.Decimal.{Sign, at_most_zero, above_zero, not_zero, is_decimal}
use oati.Objects.{
  AgentMandate, MandateStatus, active, suspended, revoked, expired, consumed, is_active,
  commerce_profile, rwa_profile,
}
use oati.Objects.Decimals.{compare_decimal_text, multiply_decimal_text}
use oati.Objects.Terms.{
  ActionReceipt, PurchaseMandate, CommerceTerms, CommerceReceiptTerms, CommerceReceipt, ClaimType,
  reserve_balance, AssetStateClaim, RwaOperation, mint, burn, transfer, redeem, publish_state,
  RwaMandateTerms, AssetMandate, RwaReceiptTerms, RwaReceipt, ValidationResult,
}

-- The messages of the tests that are true, in order.
unfoldable pub messages : List (Bool × Text) → List Text
messages [] = []
messages ((test, message) ∷ tests) =
    let rest = messages tests in if test then message ∷ rest else rest

unfoldable pub result : List Text → ValidationResult
result issues = record { valid = eqb (length issues) 0; issues = issues }

-- /^[A-Z]{3}$/
abbrev is_capital : ℕ → Bool
is_capital c = leb 65 c && leb c 90

unfoldable pub is_currency : Text → Bool
is_currency (a ∷ b ∷ c ∷ []) = is_capital a && is_capital b && is_capital c
is_currency _ = false

-- `<= 0`, `> 0` and `!== 0` of a comparison, where NaN is different from 0 and not ordered
abbrev pub at_most : Option Sign → Bool
at_most none = false
at_most (some s) = at_most_zero s

abbrev pub above : Option Sign → Bool
above none = false
above (some s) = above_zero s

abbrev pub differs : Option Sign → Bool
differs none = true
differs (some s) = not_zero s

-- `a > b` and `a <= b` of two dates; an invalid date is not ordered.
abbrev pub later : Option ℕ → Option ℕ → Bool
later (some a) (some b) = ltb b a
later _ _ = false

abbrev pub by : Option ℕ → Option ℕ → Bool
by (some a) (some b) = leb a b
by _ _ = false

-- `value === text` of a property that may be absent
abbrev pub is_text : Option Text → Text → Bool
is_text none t = false
is_text (some s) t = s == t

abbrev status_text : MandateStatus → Text
status_text active = text "active"
status_text suspended = text "suspended"
status_text revoked = text "revoked"
status_text expired = text "expired"
status_text consumed = text "consumed"

unfoldable pub validate_mandate_core : Runtime → AgentMandate → ℕ → List (Bool × Text)
validate_mandate_core rt mandate now =
    (not (starts_with mandate.id (text "oati:mandate:")), text "invalid Mandate id")
    ∷ (not (starts_with mandate.subject (text "oati:agent:")), text "invalid Mandate subject")
    ∷ (eqb (length mandate.actions) 0, text "Mandate needs at least one action")
    ∷ (later (rt.parse_date mandate.not_before) (some now), text "Mandate is not active yet")
    ∷ (by (rt.parse_date mandate.expires_at) (some now), text "Mandate is expired")
    ∷ (not (is_active mandate.status), text "Mandate status is " ++ status_text mandate.status)
    ∷ []

unfoldable pub validate_receipt_core : ActionReceipt → List (Bool × Text)
validate_receipt_core receipt =
    (not (starts_with receipt.id (text "oati:receipt:")), text "invalid Receipt id")
    ∷ (not (starts_with receipt.transaction_id (text "oati:tx:")), text "invalid transaction id")
    ∷ (
      not (starts_with receipt.mandate_id (text "oati:mandate:")),
      text "invalid Mandate reference",
    )
    ∷ (not (truthy receipt.proof), text "missing Receipt proof")
    ∷ []

-- `createPurchaseMandate` and `createAssetStateClaim` put the profile on the object.
unfoldable pub create_purchase_mandate : AgentMandate → CommerceTerms → PurchaseMandate
create_purchase_mandate core commerce = record {
  core = record core { profile = some commerce_profile };
  commerce = commerce;
}

unfoldable pub create_asset_state_claim : AssetStateClaim → AssetStateClaim
create_asset_state_claim claim = record claim { profile = rwa_profile }

-- `limit.terms_digest && commerce.terms_digest !== limit.terms_digest`
abbrev pub digest_differs : Option Text → Text → Bool
digest_differs none digest = false
digest_differs (some []) digest = false
digest_differs (some (c ∷ s)) digest = not (digest == (c ∷ s))

unfoldable pub commerce_limits :
    Option PurchaseMandate → Text → CommerceReceiptTerms → List (Bool × Text)
unfolding compare_decimal_text
commerce_limits none mandate_id commerce = []
commerce_limits (some mandate) mandate_id commerce =
    let limit = mandate.commerce in
    (not (mandate_id == mandate.core.id), text "receipt mandate_id does not match Mandate")
    ∷ (
      not (commerce.merchant_organisation_id == limit.merchant_organisation_id),
      text "merchant is not authorised by Mandate",
    )
    ∷ (not (commerce.service_id == limit.service_id), text "service is not authorised by Mandate")
    ∷ (not (commerce.offer_id == limit.offer_id), text "offer is not authorised by Mandate")
    ∷ (not (commerce.currency == limit.currency), text "receipt currency differs from Mandate")
    ∷ (
      digest_differs limit.terms_digest commerce.terms_digest,
      text "receipt terms digest differs from Mandate",
    )
    ∷ (not (leb_ℤ commerce.quantity limit.max_quantity), text "quantity exceeds Mandate")
    ∷ (
      above (compare_decimal_text commerce.unit_price limit.max_unit_price),
      text "unit price exceeds Mandate",
    )
    ∷ (
      above (compare_decimal_text commerce.total_amount limit.max_total),
      text "total amount exceeds Mandate",
    )
    ∷ []

unfoldable pub commerce_tests : CommerceReceiptTerms → List (Bool × Text)
unfolding is_currency compare_decimal_text multiply_decimal_text
commerce_tests commerce =
    (not (is_currency commerce.currency), text "currency must be a three-letter uppercase code")
    ∷ (not (leb_ℤ (pos 1) commerce.quantity), text "quantity must be at least 1")
    ∷ (
      not (is_decimal commerce.unit_price),
      text "unit_price must be a non-negative decimal string",
    )
    ∷ (
      not (is_decimal commerce.total_amount),
      text "total_amount must be a non-negative decimal string",
    )
    ∷ (
      (is_decimal commerce.unit_price && is_decimal commerce.total_amount)
          && differs (
              compare_decimal_text commerce.total_amount
                (multiply_decimal_text commerce.unit_price commerce.quantity)),
      text "total amount must equal unit price multiplied by quantity",
    )
    ∷ []

abbrev pub commerce_profile_test : Option Text → List (Bool × Text)
commerce_profile_test profile =
    (not (is_text profile commerce_profile), text "unexpected Commerce profile URI") ∷ []

unfoldable pub commerce_issues :
    Option CommerceReceiptTerms → Option PurchaseMandate → Text → List (Bool × Text)
unfolding commerce_tests commerce_limits
commerce_issues none mandate mandate_id = (true, text "missing extensions.commerce") ∷ []
commerce_issues (some commerce) mandate mandate_id =
    commerce_tests commerce ++ commerce_limits mandate mandate_id commerce

unfoldable pub validate_commerce_receipt :
    CommerceReceipt → Option PurchaseMandate → ValidationResult
unfolding messages result validate_receipt_core commerce_issues
validate_commerce_receipt receipt mandate = result (
    messages (
      validate_receipt_core receipt.core
      ++ commerce_profile_test receipt.core.profile
      ++ commerce_issues receipt.commerce mandate receipt.core.mandate_id))
