-- ===== src/Evaluator/Rwa.antt =====
-- `checkRwa` of evaluator.ts: a controlled mint against its Mandate and its State Claim.
use oati.Prelude.{
  ℕ, Bool, true, false, not, ◌&&◌, ◌||◌, List, [], ◌∷◌, Option, none, some, leb, any, if◌then◌else◌,
  Text, text, ◌==◌, includes, Result, ok, ◌>>=◌,
}
use oati.Prelude.Ints.{ℤ, pos, leb_ℤ}
use oati.Json.{Json, null, bool, num, str, Fields, get, object_at, string_array, string_of}
use oati.Objects.{AgentMandate, TransactionEnvelope}
use oati.Evaluator.Decimal.{not_zero, compare_decimal, add_decimal}
use oati.Evaluator.Types.{Usage, RwaContext, rwa_fields}
use oati.Evaluator.Reasons.{Reasons, report}
use oati.Evaluator.Conditions.{Runtime, timestamp, same_fields, exceeds}
use oati.Evaluator.Delegation.{rwa_identity, is_true}
use oati.Evaluator.Commerce.{sum_exceeds}

-- `Number(value)`; `none` is NaN.
unfoldable pub number_of : Runtime → Option Json → Option ℤ
number_of rt none = none
number_of rt (some null) = some (pos 0)
number_of rt (some (bool true)) = some (pos 1)
number_of rt (some (bool false)) = some (pos 0)
number_of rt (some (num n)) = some n
number_of rt (some (str s)) = rt.number_of_text s
number_of rt (some v) = rt.number_of_text (string_of v)

-- `count < n`, which NaN fails
abbrev pub below : ℕ → Option ℤ → Bool
below count none = false
below count (some n) = not (leb_ℤ n (pos count))

abbrev pub signed_rwa_fields : List Text
signed_rwa_fields =
    text "asset_id"
    ∷ text "state_claim_id"
    ∷ text "network"
    ∷ text "token_contract"
    ∷ text "operation"
    ∷ text "unit"
    ∷ text "quantity"
    ∷ []

unfoldable pub rwa_envelope_mismatch : Option Fields → TransactionEnvelope → RwaContext → Bool
unfolding same_fields rwa_fields
rwa_envelope_mismatch none envelope context = false
rwa_envelope_mismatch (some signed) envelope context =
    not (envelope.resource == context.asset_id)
    || not (same_fields signed (rwa_fields context) signed_rwa_fields)

-- `maximum_supply && compareDecimal(resultingSupply, maximum_supply) > 0`
unfoldable pub supply_exceeds : Text → Option Text → Result Bool
unfolding exceeds
supply_exceeds supply none = ok false
supply_exceeds supply (some []) = ok false
supply_exceeds supply (some maximum) = exceeds supply maximum

-- The minted supply is compared where the caller tracks it.
unfoldable pub supply_differs : Bool → Text → Text → Result Bool
unfolding compare_decimal
supply_differs tracked minted current =
    if tracked then (do s ← compare_decimal minted current; ok (not_zero s)) else ok false

unfoldable pub role_missing : List Text → List Text → Bool
role_missing required held = any (λ role. not (includes held role)) required

abbrev pub rwa_tests :
    Runtime
    → RwaContext
    → Fields
    → Usage
    → (mismatch expired quantity reserve maximum supply : Bool) → List (Bool × Text)
rwa_tests rt context limits usage mismatch expired quantity reserve maximum supply =
    (mismatch, text "RWA_ENVELOPE_CONTEXT_MISMATCH")
    ∷ (not (same_fields (rwa_fields context) limits rwa_identity), text "RWA_TARGET_MISMATCH")
    ∷ (expired, text "RWA_STATE_CLAIM_EXPIRED")
    ∷ (quantity, text "RWA_QUANTITY_EXCEEDED")
    ∷ (reserve, text "RWA_RESERVE_EXCEEDED")
    ∷ (maximum, text "RWA_MAXIMUM_SUPPLY_EXCEEDED")
    ∷ (supply, text "RWA_SUPPLY_STATE_MISMATCH")
    ∷ (
      below context.approval_count (number_of rt (get limits (text "minimum_approvals"))),
      text "RWA_APPROVAL_THRESHOLD_NOT_MET",
    )
    ∷ (
      role_missing (string_array (get limits (text "required_roles"))) context.approval_roles,
      text "RWA_REQUIRED_ROLE_MISSING",
    )
    ∷ (is_true (get limits (text "one_time")) && usage.consumed, text "MANDATE_ALREADY_CONSUMED")
    ∷ []

unfoldable pub check_rwa_terms :
    Runtime → RwaContext → Fields → Bool → Usage → Bool → ℕ → Reasons → Result Reasons
unfolding timestamp sum_exceeds exceeds add_decimal supply_exceeds supply_differs
check_rwa_terms rt context limits mismatch usage tracked now reasons = do
  until ← timestamp rt context.claim_valid_until
  quantity ← sum_exceeds usage.quantity context.quantity (get limits (text "max_quantity"))
  resulting ← add_decimal context.current_supply context.quantity
  reserve ← exceeds resulting context.reserve
  maximum ← supply_exceeds resulting context.maximum_supply
  supply ← supply_differs tracked usage.minted_supply context.current_supply
  ok (
      report
        (rwa_tests rt context limits usage mismatch (leb until now) quantity reserve maximum supply)
        reasons)

unfoldable pub rwa_required : Reasons → Reasons
unfolding report
rwa_required reasons = report ((true, text "RWA_CONTEXT_REQUIRED") ∷ []) reasons

unfoldable pub check_rwa_with :
    Runtime
    → Option RwaContext
    → Option Fields
    → TransactionEnvelope
    → Usage
    → Bool
    → ℕ
    → Reasons
    → Result Reasons
unfolding check_rwa_terms rwa_envelope_mismatch rwa_required
check_rwa_with rt (some context) (some limits) envelope usage tracked now reasons =
    check_rwa_terms rt context limits
      (rwa_envelope_mismatch (object_at envelope.extensions (text "rwa")) envelope context) usage
      tracked now reasons
check_rwa_with rt _ _ envelope usage tracked now reasons = ok (rwa_required reasons)

unfoldable pub check_rwa :
    Runtime
    → AgentMandate
    → TransactionEnvelope
    → Option RwaContext
    → Usage
    → Bool
    → ℕ
    → Reasons
    → Result Reasons
unfolding check_rwa_with
check_rwa rt mandate envelope context usage tracked now reasons =
    check_rwa_with rt context (object_at mandate.extensions (text "rwa")) envelope usage tracked now
      reasons
