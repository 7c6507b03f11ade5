-- ===== src/Tests/Evaluations.antt =====
-- Evaluations of the sample requests.
use oati.Prelude.{
  List, [], ◌∷◌, Option, none, some, ◌≡◌, refl, Text, text, Result, ok, throw, type_error, true,
  false,
}
use oati.Evaluator.Types.{EvaluationRequest, EvaluationResult, Verdict, allow, deny}
use oati.Json.{num, str, field, end}
use oati.Prelude.Ints.{pos}
use oati.Objects.{AgentMandate, suspended}
use oati.Evaluator.Rwa.{below, number_of}
use oati.Evaluator.Authority.{evaluate_authority}
use oati.Tests.Requests.{
  parent, child, running, commerce_context, runtime, child_request, commerce_request, rwa_request,
  prior,
}

abbrev decision_of : Result EvaluationResult → Option Verdict
decision_of (ok r) = some r.decision
decision_of (throw e) = none

abbrev reasons_of : Result EvaluationResult → List Text
reasons_of (ok r) = r.reason_codes
reasons_of (throw e) = []

abbrev pub child_result : EvaluationResult
child_result = record {
  decision = allow;
  mandate_id = text "oati:mandate:child:one";
  transaction_id = text "oati:tx:child:one";
  reason_codes = [];
  next_usage = record {
    calls = some 2;
    amount = some (text "7.00");
    currency = some (text "EUR");
    quantity = some (text "0");
    consumed = some false;
    idempotency_keys = some (text "child-call-1" ∷ text "child-call-2" ∷ []);
    minted_supply = some (text "0");
  };
}

pub child_runs : evaluate_authority runtime child_request ≡ ok child_result
unfolding running
child_runs = refl

-- A second call, from the usage that the first one returned.
abbrev pub second_request : EvaluationRequest
second_request = record child_request {
  usage = child_result.next_usage;
  consumption = some (record {
    calls = some 2;
    amount = some (text "17.5");
    currency = some (text "EUR");
    quantity = none;
    idempotency_key = some (text "child-call-3");
    consume = none;
  });
}

abbrev pub second_result : EvaluationResult
second_result = record child_result {
  next_usage = record {
    calls = some 4;
    amount = some (text "24.50");
    currency = some (text "EUR");
    quantity = some (text "0");
    consumed = some false;
    idempotency_keys = some (text "child-call-1" ∷ text "child-call-2" ∷ text "child-call-3" ∷ []);
    minted_supply = some (text "0");
  };
}

pub second_runs : evaluate_authority runtime second_request ≡ ok second_result
unfolding running
second_runs = refl

-- The first call again, which is refused.
abbrev pub replayed_request : EvaluationRequest
replayed_request = record child_request { usage = second_result.next_usage }

abbrev pub replayed_result : EvaluationResult
replayed_result = record second_result {
  decision = deny;
  reason_codes = text "BUDGET_EXCEEDED" ∷ text "IDEMPOTENCY_REPLAY" ∷ [];
}

pub replayed_runs : evaluate_authority runtime replayed_request ≡ ok replayed_result
unfolding running
replayed_runs = refl

-- The first call under a suspended Mandate, for an action that it does not list.
abbrev pub suspended_request : EvaluationRequest
suspended_request = record child_request {
  mandate = record child_request.mandate { status = suspended };
  envelope = record child_request.envelope { action = text "order.create" };
}

abbrev pub suspended_result : EvaluationResult
suspended_result = record child_result {
  decision = deny;
  reason_codes = text "ACTION_NOT_ALLOWED" ∷ text "MANDATE_NOT_ACTIVE" ∷ [];
  next_usage = prior;
}

pub suspended_runs : evaluate_authority runtime suspended_request ≡ ok suspended_result
unfolding running
suspended_runs = refl

-- A parent that lets its child delegate once more, and a grandchild.
abbrev pub deep_parent : AgentMandate
deep_parent = record parent { delegation = some (record { allowed = true; max_depth = 2 }) }

abbrev pub middle_request : EvaluationRequest
middle_request = record child_request {
  mandate = record child { delegation = some (record { allowed = true; max_depth = 1 }) };
  parent_mandate = some deep_parent;
}

pub middle_runs : evaluate_authority runtime middle_request ≡ ok child_result
unfolding running
middle_runs = refl

abbrev pub grandchild : AgentMandate
grandchild = record child {
  id = text "oati:mandate:grandchild:one";
  parent_mandate = some (text "oati:mandate:child:one");
  limits = some (
      field (text "max_calls") (num (pos 3)) (
        field (text "max_total") (str (text "7.0"))
          (field (text "currency") (str (text "EUR")) end)));
}

abbrev pub grandchild_request : EvaluationRequest
grandchild_request = record child_request {
  mandate = grandchild;
  parent_mandate = some middle_request.mandate;
  envelope = record child_request.envelope { mandate_id = text "oati:mandate:grandchild:one" };
}

abbrev pub grandchild_result : EvaluationResult
grandchild_result = record child_result { mandate_id = text "oati:mandate:grandchild:one" }

pub grandchild_runs : evaluate_authority runtime grandchild_request ≡ ok grandchild_result
unfolding running
grandchild_runs = refl

abbrev pub commerce_result : EvaluationResult
commerce_result = record {
  decision = allow;
  mandate_id = text "oati:mandate:child:one";
  transaction_id = text "oati:tx:child:one";
  reason_codes = [];
  next_usage = record {
    calls = some 2;
    amount = some (text "5.60");
    currency = some (text "EUR");
    quantity = some (text "3");
    consumed = some false;
    idempotency_keys = some (text "child-call-1" ∷ text "weather-purchase-001" ∷ []);
    minted_supply = some (text "0");
  };
}

pub commerce_runs : evaluate_authority runtime commerce_request ≡ ok commerce_result
unfolding running
commerce_runs = refl

abbrev pub rwa_result : EvaluationResult
rwa_result = record {
  decision = allow;
  mandate_id = text "oati:mandate:child:one";
  transaction_id = text "oati:tx:child:one";
  reason_codes = [];
  next_usage = record {
    calls = some 2;
    amount = some (text "5.00");
    currency = some (text "EUR");
    quantity = some (text "250.00");
    consumed = some true;
    idempotency_keys = some (text "child-call-1" ∷ []);
    minted_supply = some (text "750.00");
  };
}

pub rwa_runs : evaluate_authority runtime rwa_request ≡ ok rwa_result
unfolding running
rwa_runs = refl

-- The cumulative budget: 24.00 spent and 2.00 more.
over_budget :
    reasons_of (
      evaluate_authority runtime
        (record child_request { usage = record prior { amount = some (text "24.00") } }))
    ≡ text "BUDGET_EXCEEDED" ∷ []
unfolding running
over_budget = refl

-- Two reasons, sorted: a replayed key and a price above the quoted maximum.
price_and_replay :
    reasons_of (
      evaluate_authority runtime (record commerce_request {
        usage = record prior { idempotency_keys = some (text "weather-purchase-001" ∷ []) };
        commerce =
            some (record commerce_context { unit_price = text "0.30"; total_amount = text "0.90" });
      }))
    ≡ text "COMMERCE_UNIT_PRICE_EXCEEDED" ∷ text "IDEMPOTENCY_REPLAY" ∷ []
unfolding running
price_and_replay = refl

-- A child that delegates, under a parent with no `delegation`: the exception in place of a refusal.
no_delegation :
    evaluate_authority runtime
      (record middle_request { parent_mandate = some (record parent { delegation = none }) })
    ≡ throw (type_error (text "Cannot read properties of undefined (reading 'max_depth')"))
unfolding running
no_delegation = refl

-- Nothing spent, written "0.00", and no currency recorded.
zero_spent :
    reasons_of (
      evaluate_authority runtime (record child_request {
        usage = record prior { amount = some (text "0.00"); currency = none };
      }))
    ≡ text "BUDGET_CURRENCY_MISMATCH" ∷ []
unfolding running
zero_spent = refl

-- No approval, where the terms have no `minimum_approvals`.
no_threshold : below 0 (number_of runtime none) ≡ false
unfolding running
no_threshold = refl
