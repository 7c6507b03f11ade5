-- ===== src/Evaluator/Authority.antt =====
-- `evaluateAuthority` of evaluator.ts. The `Set` of reasons is passed from check to check.
use oati.Prelude.{
  ℕ, Bool, true, false, not, ◌&&◌, ◌||◌, List, [], ◌∷◌, Option, none, some, ltb, leb, if◌then◌else◌,
  Text, text, ◌==◌, includes, Result, ok, ◌>>=◌,
}
use oati.Objects.{AgentMandate, TransactionEnvelope, commerce_profile, rwa_profile, is_active}
use oati.Evaluator.Types.{Usage, Delta, EvaluationRequest, EvaluationResult, allow, deny}
use oati.Evaluator.Reasons.{Reasons, report, sort}
use oati.Evaluator.Conditions.{Runtime, timestamp, violates_set}
use oati.Evaluator.Delegation.{same_optional, set_text, check_child_mandate}
use oati.Evaluator.Consumption.{
  or_else, normalized_usage, snapshot, effective_consumption, check_consumption_context,
  check_consumption, apply_consumption,
}
use oati.Evaluator.Commerce.{check_commerce}
use oati.Evaluator.Rwa.{check_rwa}

abbrev pub is_some {ℓ} : {A : Type ℓ} → Option A → Bool
is_some none = false
is_some (some a) = true

-- The tests of the Envelope against its Mandate at the time `now`.
abbrev pub core_tests :
    AgentMandate → TransactionEnvelope → (now from until : ℕ) → List (Bool × Text)
core_tests mandate envelope now from until =
    (not (is_active mandate.status), text "MANDATE_NOT_ACTIVE")
    ∷ (ltb now from, text "MANDATE_NOT_YET_ACTIVE")
    ∷ (leb until now, text "MANDATE_EXPIRED")
    ∷ (not (envelope.mandate_id == mandate.id), text "MANDATE_REFERENCE_MISMATCH")
    ∷ (not (envelope.agent_id == mandate.subject), text "SUBJECT_MISMATCH")
    ∷ (not (includes mandate.actions envelope.action), text "ACTION_NOT_ALLOWED")
    ∷ (violates_set mandate.resources (some envelope.resource), text "RESOURCE_NOT_ALLOWED")
    ∷ (not (same_optional envelope.purpose (some mandate.purpose)), text "PURPOSE_MISMATCH")
    ∷ (violates_set mandate.counterparties envelope.counterparty, text "COUNTERPARTY_NOT_ALLOWED")
    ∷ (violates_set mandate.destinations envelope.destination, text "DESTINATION_NOT_ALLOWED")
    ∷ (
      is_some envelope.profile && not (same_optional envelope.profile mandate.profile),
      text "PROFILE_MISMATCH",
    )
    ∷ []

unfoldable pub check_core :
    Runtime → AgentMandate → TransactionEnvelope → ℕ → Reasons → Result Reasons
unfolding timestamp
check_core rt mandate envelope now reasons = do
  from ← timestamp rt mandate.not_before
  until ← timestamp rt mandate.expires_at
  ok (report (core_tests mandate envelope now from until) reasons)

unfoldable pub check_parent :
    Runtime → AgentMandate → Option AgentMandate → ℕ → ℕ → Reasons → Result Reasons
unfolding check_child_mandate report
check_parent rt mandate (some parent) depth now reasons =
    check_child_mandate rt mandate parent depth now reasons
check_parent rt mandate none depth now reasons =
    ok (report ((set_text mandate.parent_mandate, text "PARENT_MANDATE_REQUIRED") ∷ []) reasons)

-- A profile is checked if its context is supplied or the Mandate names it.
unfoldable pub check_commerce_profile : EvaluationRequest → Usage → Reasons → Result Reasons
unfolding check_commerce
check_commerce_profile request usage reasons =
    if is_some request.commerce || same_optional request.mandate.profile (some commerce_profile)
    then check_commerce request.mandate request.envelope request.commerce usage reasons
    else ok reasons

unfoldable pub check_rwa_profile :
    Runtime → EvaluationRequest → Usage → ℕ → Reasons → Result Reasons
unfolding check_rwa
check_rwa_profile rt request usage now reasons =
    if is_some request.rwa || same_optional request.mandate.profile (some rwa_profile)
    then check_rwa rt request.mandate request.envelope request.rwa usage
        (is_some request.usage.minted_supply) now reasons
    else ok reasons

unfoldable pub check_all : Runtime → EvaluationRequest → Usage → Delta → Result Reasons
unfolding check_core check_parent check_consumption_context check_consumption check_commerce_profile
    check_rwa_profile timestamp
check_all rt request usage delta = do
  now ← timestamp rt request.evaluation_time
  core ← check_core rt request.mandate request.envelope now []
  parent ←
      check_parent rt request.mandate request.parent_mandate (or_else request.delegation_depth 1)
        now core
  consumption ←
      check_consumption request.mandate usage delta (check_consumption_context request delta parent)
  commerce ← check_commerce_profile request usage consumption
  check_rwa_profile rt request usage now commerce

unfoldable pub conclude : EvaluationRequest → Usage → Delta → Reasons → Result EvaluationResult
unfolding apply_consumption snapshot
conclude request usage delta [] = do
  next ← apply_consumption usage delta request
  ok (record {
    decision = allow;
    mandate_id = request.mandate.id;
    transaction_id = request.envelope.id;
    reason_codes = [];
    next_usage = snapshot next;
  })
conclude request usage delta (code ∷ codes) = ok (record {
  decision = deny;
  mandate_id = request.mandate.id;
  transaction_id = request.envelope.id;
  reason_codes = code ∷ codes;
  next_usage = snapshot usage;
})

unfoldable pub evaluate_authority : Runtime → EvaluationRequest → Result EvaluationResult
unfolding check_all conclude normalized_usage effective_consumption sort
evaluate_authority rt request =
    let usage = normalized_usage request.usage in
    let delta = effective_consumption request in
    do reasons ← check_all rt request usage delta; conclude request usage delta (sort reasons)
