-- ===== src/Tests/Examples.antt =====
-- The theorems on evaluations at the sample requests.
use oati.Prelude.{ℕ, ◌+◌, ◌*◌, List, [], ◌∷◌, some, ◌≡◌, refl, Text, text, includes, ok, true}
use oati.Prelude.Ints.{pos, leb_ℤ}
use oati.Json.{Fields, object_at}
use oati.Evaluator.Decimal.{
  is_decimal, read, parse_decimal, compare_decimal, add_decimal, multiply_decimal, format_decimal,
  Sign,
}
use oati.Evaluator.Decimal.Format.{parse_decimal-format_decimal}
use oati.Evaluator.Decimal.Value.{
  IsSum, SignOf, add_decimal-IsSum, compare_decimal-SignOf, multiply_decimal_exact,
}
use oati.Evaluator.Types.{deny, Delta}
use oati.Evaluator.Conditions.{exceeds}
use oati.Evaluator.Consumption.{normalized_usage, effective_consumption}
use oati.Evaluator.Passed.Whole.{Allows}
use oati.Evaluator.Guarantees.Core.{InForce, Covers, Allows-InForce, Allows-Covers}
use oati.Evaluator.Guarantees.Narrower.{Narrower}
use oati.Evaluator.Guarantees.Amounts.{Bounds, exceeds-Bounds}
use oati.Evaluator.Guarantees.Profiles.{Purchase, Mint, Allows-Purchase, Allows-Mint}
use oati.Evaluator.Guarantees.Descent.{Descends, delegated, redelegated}
use oati.Evaluator.Guarantees.Reported.{not_active, evaluate_authority-reports}
use oati.Evaluator.Guarantees.Outcome.{Outcome, evaluate_authority-Outcome}
use oati.Evaluator.Ledger.{Ledger, opened, accepted, refused, Reached, Ledger-Reached, total_calls}
use oati.Evaluator.Ledger.Single.{Single, Ledger-Single}
use oati.Evaluator.Ledger.Limits.{Ledger-within_budget, Ledger-within_calls}
use oati.Tests.Requests.{
  running, runtime, child, prior, child_request, commerce_context, commerce_request,
  purchase_mandate, rwa_context, rwa_request, mint_mandate,
}
use oati.Tests.Evaluations.{
  deep_parent, middle_request, middle_runs, grandchild, grandchild_request, grandchild_result,
  grandchild_runs, suspended_request, suspended_result, suspended_runs, child_result, child_runs,
  second_request, second_result, second_runs, replayed_request, replayed_result, replayed_runs,
  commerce_result, commerce_runs, rwa_result, rwa_runs,
}

abbrev child_allows : Allows runtime child_request child_result
child_allows = (child_runs, refl)

-- Two calls that are allowed, and the first one again.
abbrev consumptions : List Delta
consumptions = effective_consumption second_request ∷ effective_consumption child_request ∷ []

abbrev calls_made : Ledger runtime child prior consumptions replayed_result.next_usage
calls_made =
    refused
      (accepted (accepted opened child_request child_result refl refl child_allows) second_request
        second_result refl refl (second_runs, refl))
      replayed_request replayed_result refl refl replayed_runs refl

Allows-InForce_example :
    (now : ℕ) × (runtime.parse_date child_request.evaluation_time ≡ some now)
    × InForce runtime child now
Allows-InForce_example = Allows-InForce runtime child_request child_result child_allows

Allows-Covers_example : Covers child child_request.envelope
Allows-Covers_example = Allows-Covers runtime child_request child_result child_allows

Allows-Purchase_example :
    (terms : Fields) × (object_at purchase_mandate.extensions (text "commerce") ≡ some terms)
    × Purchase terms commerce_context (normalized_usage prior)
Allows-Purchase_example =
    Allows-Purchase runtime commerce_request commerce_result (commerce_runs, refl) commerce_context
      refl

Allows-Mint_example :
    (now : ℕ) × (runtime.parse_date rwa_request.evaluation_time ≡ some now)
    × (terms : Fields) × (object_at mint_mandate.extensions (text "rwa") ≡ some terms)
    × Mint runtime terms rwa_context (normalized_usage rwa_request.usage) true now
Allows-Mint_example = Allows-Mint runtime rwa_request rwa_result (rwa_runs, refl) rwa_context refl

evaluate_authority-Outcome_example : Outcome replayed_request replayed_result
evaluate_authority-Outcome_example =
    evaluate_authority-Outcome runtime replayed_request replayed_result replayed_runs

Ledger-Reached_example :
    Reached (normalized_usage prior) consumptions (normalized_usage replayed_result.next_usage)
Ledger-Reached_example =
    Ledger-Reached runtime child prior consumptions replayed_result.next_usage calls_made

Ledger-Single_example : Single (normalized_usage prior) consumptions
Ledger-Single_example =
    Ledger-Single runtime child prior consumptions replayed_result.next_usage calls_made

Ledger-within_budget_example :
    Bounds (normalized_usage replayed_result.next_usage).amount (text "25.00")
unfolding running exceeds normalized_usage
Ledger-within_budget_example =
    Ledger-within_budget runtime child prior consumptions replayed_result.next_usage calls_made
      (text "25.00") refl (exceeds-Bounds (text "5.00") (text "25.00") refl)

Ledger-within_calls_example :
    leb_ℤ
      (pos (
        (normalized_usage prior).calls
        + total_calls
            (effective_consumption second_request ∷ effective_consumption child_request ∷ [])))
      (pos 5)
    ≡ true
unfolding running
Ledger-within_calls_example =
    Ledger-within_calls runtime child prior child_result.next_usage
      (effective_consumption child_request ∷ []) second_request second_result
      (accepted opened child_request child_result refl refl child_allows) refl refl
      (second_runs, refl) (pos 5) refl

parse_decimal-format_decimal_example :
    parse_decimal (format_decimal 305 2) ≡ ok (record { coefficient = 305; scale = 2 })
parse_decimal-format_decimal_example = parse_decimal-format_decimal 305 2

add_decimal-IsSum_example :
    (u : Text) × (add_decimal (text "0.25") (text "7.5") ≡ ok u)
    × (is_decimal u ≡ true)
    × IsSum (read (text "0.25")) (read (text "7.5")) (read u)
unfolding running
add_decimal-IsSum_example = add_decimal-IsSum (text "0.25") (text "7.5") refl refl

compare_decimal-SignOf_example :
    (r : Sign) × (compare_decimal (text "10.0") (text "9.75") ≡ ok r)
    × SignOf r (read (text "10.0")) (read (text "9.75"))
unfolding running
compare_decimal-SignOf_example = compare_decimal-SignOf (text "10.0") (text "9.75") refl refl

multiply_decimal_exact_example :
    (u : Text) × (multiply_decimal (text "0.20") 3 ≡ ok u)
    × (is_decimal u ≡ true)
    × ((read u).coefficient ≡ (read (text "0.20")).coefficient * 3)
    × ((read u).scale ≡ (read (text "0.20")).scale)
unfolding running
multiply_decimal_exact_example = multiply_decimal_exact (text "0.20") 3 refl

evaluate_authority-reports_example :
    (includes suspended_result.reason_codes (text "MANDATE_NOT_ACTIVE") ≡ true)
    × (suspended_result.decision ≡ deny)
unfolding running
evaluate_authority-reports_example =
    evaluate_authority-reports runtime suspended_request suspended_result 20260727100000
      20260727090000 20260727120000 (text "MANDATE_NOT_ACTIVE") suspended_runs refl refl refl
      (not_active (λ e. cc))

abbrev grandchild_descends : Descends runtime deep_parent grandchild
grandchild_descends =
    redelegated (delegated middle_request child_result (middle_runs, refl) refl) grandchild_request
      grandchild_result (grandchild_runs, refl) refl
