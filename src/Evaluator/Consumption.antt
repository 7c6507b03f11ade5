-- ===== src/Evaluator/Consumption.antt =====
-- The accounting of evaluator.ts: prior usage, the consumption of one transaction, the limits on
-- both, and the usage that follows.
use oati.Prelude.{
  ℕ, ◌+◌, Bool, true, false, not, ◌&&◌, ◌||◌, List, [], ◌∷◌, ◌++◌, Option, none, some,
  if◌then◌else◌, Text, text, ◌==◌, includes, Result, ok, ◌>>=◌,
}
use oati.Prelude.Ints.{pos, leb_ℤ}
use oati.Json.{Json, num, str, Fields, end, get, object_at, truthy, print, string_of}
use oati.Objects.{AgentMandate}
use oati.Evaluator.Decimal.{add_decimal}
use oati.Evaluator.Types.{
  UsageSnapshot, Usage, Consumption, Delta, CommerceContext, RwaContext, EvaluationRequest,
}
use oati.Evaluator.Reasons.{Reasons, report, sort}
use oati.Evaluator.Conditions.{exceeds}

-- `value ?? other`
abbrev pub or_else {ℓ} : {A : Type ℓ} → Option A → A → A
or_else none other = other
or_else (some a) other = a

-- `!value` of a string
abbrev pub is_empty : Text → Bool
is_empty [] = true
is_empty (c ∷ s) = false

-- `value?.[key]`
abbrev pub field_of : Option Fields → Text → Option Json
field_of none key = none
field_of (some fs) key = get fs key

unfoldable pub normalized_usage : UsageSnapshot → Usage
normalized_usage value = record {
  calls = or_else value.calls 0;
  amount = or_else value.amount (text "0");
  currency = or_else value.currency [];
  quantity = or_else value.quantity (text "0");
  consumed = or_else value.consumed false;
  idempotency_keys = sort (or_else value.idempotency_keys []);
  minted_supply = or_else value.minted_supply (text "0");
}

-- A `Required<UsageSnapshot>` where a `UsageSnapshot` is expected.
unfoldable pub snapshot : Usage → UsageSnapshot
snapshot u = record {
  calls = some u.calls;
  amount = some u.amount;
  currency = some u.currency;
  quantity = some u.quantity;
  consumed = some u.consumed;
  idempotency_keys = some u.idempotency_keys;
  minted_supply = some u.minted_supply;
}

abbrev no_consumption : Consumption
no_consumption = record {
  calls = none;
  amount = none;
  currency = none;
  quantity = none;
  idempotency_key = none;
  consume = none;
}

-- `Boolean(… one_time) || supplied.consume === true`
abbrev pub one_time : AgentMandate → Bool
one_time mandate =
    truthy (field_of (object_at mandate.extensions (text "rwa")) (text "one_time"))
    || truthy (field_of mandate.limits (text "one_time"))

-- The fields that the profile context determines, and the rest from the caller.
unfoldable pub profile_delta :
    Option CommerceContext → Option RwaContext → Consumption → Bool → Delta
profile_delta (some commerce) rwa supplied consume = record {
  calls = or_else supplied.calls 1;
  amount = commerce.total_amount;
  currency = commerce.currency;
  quantity = print commerce.quantity;
  idempotency_key = commerce.idempotency_key;
  consume = consume;
}
profile_delta none (some rwa) supplied consume = record {
  calls = or_else supplied.calls 1;
  amount = or_else supplied.amount (text "0");
  currency = or_else supplied.currency [];
  quantity = rwa.quantity;
  idempotency_key = or_else supplied.idempotency_key [];
  consume = consume;
}
profile_delta none none supplied consume = record {
  calls = or_else supplied.calls 1;
  amount = or_else supplied.amount (text "0");
  currency = or_else supplied.currency [];
  quantity = or_else supplied.quantity (text "0");
  idempotency_key = or_else supplied.idempotency_key [];
  consume = consume;
}

unfoldable pub effective_consumption : EvaluationRequest → Delta
unfolding profile_delta
effective_consumption request =
    let supplied = or_else request.consumption no_consumption in
    profile_delta request.commerce request.rwa supplied
      (one_time request.mandate || or_else supplied.consume false)

-- `supplied[field] !== undefined && supplied[field] !== effective[field]`
abbrev pub text_differs : Option Text → Text → Bool
text_differs none effective = false
text_differs (some s) effective = not (s == effective)

-- `constrained.some(…)`: the fields that the profile determines may not be supplied otherwise, and
-- a consumption that is due may not be switched off.
unfoldable pub context_mismatch :
    Option CommerceContext → Option RwaContext → Consumption → Delta → Bool
context_mismatch (some commerce) rwa supplied effective =
    text_differs supplied.amount effective.amount
    || text_differs supplied.currency effective.currency
    || text_differs supplied.quantity effective.quantity
    || text_differs supplied.idempotency_key effective.idempotency_key
    || (effective.consume && not (or_else supplied.consume true))
context_mismatch none (some rwa) supplied effective =
    text_differs supplied.quantity effective.quantity
    || (effective.consume && not (or_else supplied.consume true))
context_mismatch none none supplied effective =
    effective.consume && not (or_else supplied.consume true)

abbrev pub consumption_mismatch : EvaluationRequest → Delta → Option Consumption → Bool
consumption_mismatch request effective none = false
consumption_mismatch request effective (some supplied) =
    context_mismatch request.commerce request.rwa supplied effective

unfoldable pub check_consumption_context : EvaluationRequest → Delta → Reasons → Reasons
unfolding context_mismatch report
check_consumption_context request effective reasons =
    report
      ((
        consumption_mismatch request effective request.consumption,
        text "CONSUMPTION_CONTEXT_MISMATCH",
      )
        ∷ [])
      reasons

-- `usage.calls + delta.calls > limits.max_calls`
abbrev pub calls_exceeded : Option Json → ℕ → Bool
calls_exceeded (some (num limit)) calls = not (leb_ℤ (pos calls) limit)
calls_exceeded _ calls = false

-- The cumulative quantity against a generic limit, for a Mandate with no profile.
abbrev pub limit_text : Option Json → Option Text
limit_text (some (str s)) = some s
limit_text (some (num n)) = some (string_of (num n))
limit_text _ = none

unfoldable pub quantity_exceeded : Option Text → Option Text → Text → Text → Result Bool
unfolding add_decimal exceeds
quantity_exceeded none (some limit) used quantity = do
  total ← add_decimal used quantity
  exceeds total limit
quantity_exceeded _ _ used quantity = ok false

abbrev pub text_of : Option Json → Option Text
text_of (some (str s)) = some s
text_of _ = none

abbrev pub is_zero_text : Text → Bool
is_zero_text s = s == text "0"

-- `currency && (delta.currency !== currency || usage.amount !== "0" && usage.currency !== currency)`
abbrev pub currency_differs : Option Text → Usage → Delta → Bool
currency_differs none usage delta = false
currency_differs (some []) usage delta = false
currency_differs (some currency) usage delta =
    not (delta.currency == currency)
    || (not (is_zero_text usage.amount) && not (usage.currency == currency))

-- The tests of the budget: the currency and the cumulative amount.
unfoldable pub budget_tests : Option Text → Option Text → Usage → Delta → Result (Bool × Bool)
unfolding add_decimal exceeds
budget_tests none currency usage delta = ok (false, false)
budget_tests (some max_total) currency usage delta =
    if is_zero_text delta.amount then ok (false, false) else do
      total ← add_decimal usage.amount delta.amount
      over ← exceeds total max_total
      ok (currency_differs currency usage delta, over)

abbrev pub consumption_tests :
    AgentMandate → Usage → Delta → (quantity currency budget : Bool) → List (Bool × Text)
consumption_tests mandate usage delta quantity currency budget =
    (usage.consumed, text "MANDATE_ALREADY_CONSUMED")
    ∷ (
      not (is_empty delta.idempotency_key) && includes usage.idempotency_keys delta.idempotency_key,
      text "IDEMPOTENCY_REPLAY",
    )
    ∷ (
      calls_exceeded (get (or_else mandate.limits end) (text "max_calls"))
          (usage.calls + delta.calls),
      text "CALL_LIMIT_EXCEEDED",
    )
    ∷ (quantity, text "QUANTITY_LIMIT_EXCEEDED")
    ∷ (currency, text "BUDGET_CURRENCY_MISMATCH")
    ∷ (budget, text "BUDGET_EXCEEDED")
    ∷ []

unfoldable pub check_consumption : AgentMandate → Usage → Delta → Reasons → Result Reasons
unfolding quantity_exceeded budget_tests
check_consumption mandate usage delta reasons = do
  let limits = or_else mandate.limits end
  quantity ←
      quantity_exceeded mandate.profile (limit_text (get limits (text "max_quantity")))
        usage.quantity delta.quantity
  budget ←
      budget_tests (text_of (get limits (text "max_total")))
        (text_of (get limits (text "currency"))) usage delta
  ok (report (consumption_tests mandate usage delta quantity budget.0 budget.1) reasons)

-- `request.rwa ? addDecimal(current_supply, quantity) : usage.minted_supply`
unfoldable pub next_supply : Option RwaContext → Text → Result Text
unfolding add_decimal
next_supply none supply = ok supply
next_supply (some rwa) supply = add_decimal rwa.current_supply rwa.quantity

unfoldable pub apply_consumption : Usage → Delta → EvaluationRequest → Result Usage
unfolding next_supply add_decimal
apply_consumption usage delta request = do
  amount ← add_decimal usage.amount delta.amount
  quantity ← add_decimal usage.quantity delta.quantity
  supply ← next_supply request.rwa usage.minted_supply
  ok (record {
    calls = usage.calls + delta.calls;
    amount = amount;
    currency = if is_empty delta.currency then usage.currency else delta.currency;
    quantity = quantity;
    consumed = usage.consumed || delta.consume;
    idempotency_keys =
        if is_empty delta.idempotency_key
        then usage.idempotency_keys
        else sort (usage.idempotency_keys ++ delta.idempotency_key ∷ []);
    minted_supply = supply;
  })
