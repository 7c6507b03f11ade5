-- ===== src/Objects/Validators/Rwa.antt =====
-- `validateMintMandate` and `validateRwaReceipt` of sdk/typescript/src/index.ts.
use oati.Prelude.{
  ℕ, Bool, true, false, not, ◌||◌, Option, none, some, List, [], ◌∷◌, ◌++◌, Text, text, ◌==◌,
  Result, ok, throw, type_error, ◌>>=◌,
}
use oati.Prelude.Ints.{pos, leb_ℤ}
use oati.Evaluator.Conditions.{Runtime}
use oati.Evaluator.Decimal.{is_decimal}
use oati.Objects.{rwa_profile}
use oati.Objects.Decimals.{compare_decimal_text}
use oati.Objects.Terms.{
  ClaimType, reserve_balance, AssetStateClaim, RwaOperation, mint, burn, transfer, redeem,
  publish_state, RwaMandateTerms, AssetMandate, RwaReceiptTerms, RwaReceipt, ValidationResult,
}
use oati.Objects.Validators.{
  messages, result, at_most, above, later, by, is_text, validate_mandate_core,
  validate_receipt_core,
}

abbrev pub is_mint : RwaOperation → Bool
is_mint mint = true
is_mint _ = false

abbrev pub is_reserve : ClaimType → Bool
is_reserve reserve_balance = true
is_reserve _ = false

abbrev pub same_operation : RwaOperation → RwaOperation → Bool
same_operation mint mint = true
same_operation burn burn = true
same_operation transfer transfer = true
same_operation redeem redeem = true
same_operation publish_state publish_state = true
same_operation _ _ = false

-- `!isDecimal(value) || compareDecimal(value, "0") <= 0`
unfoldable pub not_positive : Text → Bool
unfolding compare_decimal_text
not_positive value = not (is_decimal value) || at_most (compare_decimal_text value (text "0"))

unfoldable pub claim_tests :
    Runtime → RwaMandateTerms → Option AssetStateClaim → ℕ → List (Bool × Text)
unfolding compare_decimal_text
claim_tests rt rwa none now = []
claim_tests rt rwa (some claim) now =
    let until = rt.parse_date claim.valid_until in
    let observed = rt.parse_date claim.observed_at in
    (
      not (is_reserve claim.claim_type),
      text "controlled mint requires a reserve_balance State Claim",
    )
    ∷ (not (rwa.asset_id == claim.asset_id), text "State Claim asset differs from Mandate")
    ∷ (not (rwa.state_claim_id == claim.id), text "State Claim id differs from Mandate")
    ∷ (not (rwa.unit == claim.unit), text "State Claim unit differs from Mandate")
    ∷ (by until (some now), text "State Claim is expired")
    ∷ (later observed (some now), text "State Claim observation is in the future")
    ∷ (by until observed, text "State Claim valid_until must be after observed_at")
    ∷ (
      above (compare_decimal_text rwa.max_quantity claim.value),
      text "mint authority exceeds claimed reserve",
    )
    ∷ []

unfoldable pub mint_tests : RwaMandateTerms → List (Bool × Text)
unfolding not_positive
mint_tests rwa =
    (not (is_mint rwa.operation), text "controlled-mint Mandate operation must be mint")
    ∷ (not rwa.one_time, text "controlled-mint Mandate must be one-time")
    ∷ (not_positive rwa.max_quantity, text "max_quantity must be greater than zero")
    ∷ (not (leb_ℤ (pos 1) rwa.minimum_approvals), text "minimum_approvals must be at least 1")
    ∷ []

abbrev pub rwa_profile_test : Option Text → List (Bool × Text)
rwa_profile_test profile =
    (not (is_text profile rwa_profile), text "unexpected RWA profile URI") ∷ []

unfoldable pub mint_issues :
    Runtime → Option RwaMandateTerms → Option AssetStateClaim → ℕ → List (Bool × Text)
unfolding mint_tests claim_tests
mint_issues rt none claim now = (true, text "missing extensions.rwa") ∷ []
mint_issues rt (some rwa) claim now = mint_tests rwa ++ claim_tests rt rwa claim now

unfoldable pub validate_mint_mandate :
    Runtime → AssetMandate → Option AssetStateClaim → ℕ → ValidationResult
unfolding messages result validate_mandate_core mint_issues
validate_mint_mandate rt mandate claim now = result (
    messages (
      validate_mandate_core rt mandate.core now
      ++ rwa_profile_test mandate.core.profile
      ++ mint_issues rt mandate.rwa claim now))

-- `rwa.resulting_supply === undefined || !isDecimal(rwa.resulting_supply)`
abbrev supply_invalid : Option Text → Bool
supply_invalid none = true
supply_invalid (some s) = not (is_decimal s)

abbrev is_empty : Text → Bool
is_empty [] = true
is_empty (c ∷ s) = false

unfoldable pub rwa_receipt_tests : RwaReceiptTerms → List (Bool × Text)
unfolding not_positive
rwa_receipt_tests rwa =
    (is_empty rwa.chain_transaction_hash, text "missing chain transaction hash")
    ∷ (not (leb_ℤ (pos 0) rwa.approval_count), text "approval_count cannot be negative")
    ∷ (not_positive rwa.quantity, text "receipt quantity must be greater than zero")
    ∷ (
      supply_invalid rwa.resulting_supply,
      text "receipt resulting_supply must be a non-negative decimal string",
    )
    ∷ []

unfoldable pub rwa_limits : Text → Text → RwaReceiptTerms → RwaMandateTerms → List (Bool × Text)
unfolding compare_decimal_text
rwa_limits mandate_id id rwa limit =
    (not (mandate_id == id), text "receipt mandate_id does not match Mandate")
    ∷ (not (rwa.asset_id == limit.asset_id), text "receipt asset differs from Mandate")
    ∷ (
      not (rwa.state_claim_id == limit.state_claim_id),
      text "receipt State Claim differs from Mandate",
    )
    ∷ (
      not (rwa.network == limit.network) || not (rwa.token_contract == limit.token_contract),
      text "receipt token target differs from Mandate",
    )
    ∷ (
      not (same_operation rwa.operation limit.operation),
      text "receipt operation differs from Mandate",
    )
    ∷ (not (rwa.unit == limit.unit), text "receipt unit differs from Mandate")
    ∷ (
      above (compare_decimal_text rwa.quantity limit.max_quantity),
      text "receipt quantity exceeds Mandate",
    )
    ∷ (
      not (leb_ℤ limit.minimum_approvals rwa.approval_count),
      text "receipt has insufficient approvals",
    )
    ∷ []

-- The comparison with a Mandate, whose terms are read without a test that they are there.
unfoldable pub rwa_mandate_tests :
    Option AssetMandate → Text → RwaReceiptTerms → Result (List (Bool × Text))
unfolding rwa_limits
rwa_mandate_tests none mandate_id rwa = ok []
rwa_mandate_tests (some mandate) mandate_id rwa = elim mandate.rwa [
  | none ↦ throw (type_error (text "Cannot read properties of undefined (reading 'asset_id')"))
  | some limit ↦ ok (rwa_limits mandate_id mandate.core.id rwa limit)
]

unfoldable pub rwa_issues :
    Option RwaReceiptTerms → Option AssetMandate → Text → Result (List (Bool × Text))
unfolding rwa_receipt_tests rwa_mandate_tests
rwa_issues none mandate mandate_id = ok ((true, text "missing extensions.rwa") ∷ [])
rwa_issues (some rwa) mandate mandate_id = do
  tests ← rwa_mandate_tests mandate mandate_id rwa
  ok (rwa_receipt_tests rwa ++ tests)

unfoldable pub validate_rwa_receipt : RwaReceipt → Option AssetMandate → Result ValidationResult
unfolding messages result validate_receipt_core rwa_issues
validate_rwa_receipt receipt mandate = do
  issues ← rwa_issues receipt.rwa mandate receipt.core.mandate_id
  ok (
      result (
        messages
          (validate_receipt_core receipt.core ++ rwa_profile_test receipt.core.profile ++ issues)))
