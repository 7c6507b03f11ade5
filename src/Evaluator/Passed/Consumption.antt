-- ===== src/Evaluator/Passed/Consumption.antt =====
-- What a consumption that passed its checks satisfies.

use oati.Prelude.{
  ◌+◌, includes, false, [], ◌∷◌, ◌≡◌, text, ok, >>=-eq-ok, ok-injective, ap, ◌∙◌, not, ◌&&◌,
}
use oati.Objects.{AgentMandate}
use oati.Json.{end, get}
use oati.Evaluator.Types.{Usage, Delta, EvaluationRequest}
use oati.Evaluator.Reasons.{Reasons, report-eq-nil}
use oati.Evaluator.Consumption.{
  or_else, check_consumption_context, check_consumption, consumption_mismatch, consumption_tests,
  quantity_exceeded, limit_text, budget_tests, text_of, is_empty, calls_exceeded,
}

-- What a consumption that passed `checkConsumption` satisfies.
pub record ConsumptionPassed (mandate : AgentMandate) (usage : Usage) (delta : Delta) : Type 0 where
  pub quantity :
      quantity_exceeded mandate.profile
        (limit_text (get (or_else mandate.limits end) (text "max_quantity")))
        usage.quantity
        delta.quantity
      ≡ ok false
  pub budget :
      budget_tests
        (text_of (get (or_else mandate.limits end) (text "max_total")))
        (text_of (get (or_else mandate.limits end) (text "currency")))
        usage
        delta
      ≡ ok (false, false)
  pub unconsumed : usage.consumed ≡ false
  pub fresh :
      (not (is_empty delta.idempotency_key)
        && includes usage.idempotency_keys delta.idempotency_key)
      ≡ false
  pub calls :
      calls_exceeded
        (get (or_else mandate.limits end) (text "max_calls"))
        (usage.calls + delta.calls)
      ≡ false

pub check_consumption-eq-nil :
    (m : AgentMandate) (u : Usage) (d : Delta) (r : Reasons)
    → check_consumption m u d r ≡ ok []
    → (r ≡ []) × ConsumptionPassed m u d
unfolding check_consumption
check_consumption-eq-nil m u d r h =
    let limits = or_else m.limits end in
    let (quantity, p, h1) =
      >>=-eq-ok
        (quantity_exceeded m.profile (limit_text (get limits (text "max_quantity"))) u.quantity
          d.quantity)
        _ h in
    let (budget, q, h2) =
      >>=-eq-ok
        (budget_tests (text_of (get limits (text "max_total")))
          (text_of (get limits (text "currency"))) u d)
        _ h1 in
    let (start, f) =
      report-eq-nil (consumption_tests m u d quantity budget.0 budget.1) r (ok-injective h2) in
    (
      start,
      record {
        quantity = p ∙ ap ok f.1.1.1.0;
        budget = q ∙ ap ok (λ i. (f.1.1.1.1.0 i, f.1.1.1.1.1.0 i));
        unconsumed = f.0;
        fresh = f.1.0;
        calls = f.1.1.0;
      },
    )

pub check_consumption_context-eq-nil :
    (q : EvaluationRequest) (d : Delta) (r : Reasons)
    → check_consumption_context q d r ≡ []
    → (r ≡ []) × (consumption_mismatch q d q.consumption ≡ false)
unfolding check_consumption_context
check_consumption_context-eq-nil q d r h =
    let (start, f) =
      report-eq-nil
        ((consumption_mismatch q d q.consumption, text "CONSUMPTION_CONTEXT_MISMATCH") ∷ []) r h in
    (start, f.0)
