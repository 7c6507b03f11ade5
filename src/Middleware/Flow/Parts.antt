-- ===== src/Middleware/Flow/Parts.antt =====
-- The tests and the small steps of `createOatiMiddleware`.
use oati.Prelude.{
  ℕ, Bool, true, false, not, ◌||◌, Option, none, some, [], ◌∷◌, if◌then◌else◌, ltb, eqb, Text, text,
  ◌==◌,
}
use oati.Objects.{AgentMandate, consumed, MandateStatus}
use oati.Objects.Terms.{Outcome, succeeded, outcome_failed, denied}
use oati.Evaluator.Types.{UsageSnapshot, EvaluationRequest, Verdict, allow, deny}
use oati.Middleware.Types.{
  Thrown, oati_error, other_error, Try, threw, got, Response, Extracted, EvaluationExtensions,
  MiddlewareContext, loaded_usage, set_usage, Log, Action, pure, tries, Host, UsageStore, Policy,
}
use oati.Middleware.Headers.{non_empty}
use oati.Middleware.Receipts.{safe_error, problem, empty_usage, denied_evaluation}

abbrev pub Flow : Type 0
Flow = Log → Try Response × Option MiddlewareContext × Log

-- The handler is not called by an action, nor if it throws.
abbrev pub answer_by : Action Response → Flow
answer_by call log = let (result, log') = call log in (result, none, log')

unfoldable pub after {ℓ} : {A : Type ℓ} → Action A → (A → Flow) → Flow
after call rest log =
    let (result, log') = call log in
    elim result [ got value ↦ rest value log' | threw failure ↦ (threw failure, none, log') ]

-- `reusableDocumentPolicy`: a document may be presented again, however old its proof is.
abbrev reusable_age : Option ℕ → Option ℕ
reusable_age none = some 9007199254740991
reusable_age (some age) = some age

unfoldable pub reusable_document_policy : Policy → Policy
reusable_document_policy policy = record {
  verification = record policy.verification {
    max_proof_age_ms = reusable_age policy.verification.max_proof_age_ms;
  };
  replay = record { check_and_store = λ log key expires now. (true, log) };
}

abbrev is_consumed : MandateStatus → Bool
is_consumed consumed = true
is_consumed _ = false

abbrev pub is_given {ℓ} : {A : Type ℓ} → Option A → Bool
is_given none = false
is_given (some a) = true

-- `requiresPersistentUsage`
unfoldable pub requires_persistent_usage : AgentMandate → Bool
requires_persistent_usage mandate =
    is_consumed mandate.status || (is_given mandate.limits || is_given mandate.profile)

abbrev pub digest_required : Option Bool → Bool
digest_required (some false) = false
digest_required _ = true

-- `!expected || expected !== actual`
abbrev pub digest_unbound : Option Text → Text → Bool
digest_unbound none actual = true
digest_unbound (some expected) actual = expected == [] || not (expected == actual)

abbrev pub digest_code : Option Text → Text
digest_code expected =
    if non_empty expected
    then text "HTTP_REQUEST_DIGEST_MISMATCH"
    else text "HTTP_REQUEST_DIGEST_REQUIRED"

abbrev pub no_extensions : EvaluationExtensions
no_extensions = record { delegation_depth = none; consumption = none; commerce = none; rwa = none }

abbrev pub is_allow : Verdict → Bool
is_allow allow = true
is_allow deny = false

abbrev pub or_succeeded : Option Outcome → Outcome
or_succeeded none = succeeded
or_succeeded (some outcome) = outcome

-- The outcome that the receipt of a handler's response has.
unfoldable pub outcome_of : Option Outcome → ℕ → Outcome
outcome_of allowed status =
    if ltb status 400
    then or_succeeded allowed
    else if eqb status 403
    then denied
    else outcome_failed

unfoldable pub evaluation_request :
    Host → Extracted → EvaluationExtensions → UsageSnapshot → ℕ → EvaluationRequest
evaluation_request host extracted extensions usage at = record {
  evaluation_time = host.to_iso_string at;
  mandate = extracted.mandate;
  parent_mandate = extracted.parent_mandate;
  delegation_depth = extensions.delegation_depth;
  envelope = extracted.envelope;
  usage = usage;
  consumption = extensions.consumption;
  commerce = extensions.commerce;
  rwa = extensions.rwa;
}

abbrev pub load_usage : Option UsageStore → Text → Action UsageSnapshot
load_usage none mandate_id = pure empty_usage
load_usage (some store) mandate_id =
    tries (λ log. store.load log mandate_id) (loaded_usage mandate_id)

-- `true` where there is no store to be asked
abbrev pub spend : Option UsageStore → Text → UsageSnapshot → UsageSnapshot → Action Bool
spend none mandate_id previous next = pure true
spend (some store) mandate_id previous next =
    tries (λ log. store.compare_and_set log mandate_id previous next)
      (set_usage mandate_id previous next)

unfoldable pub conflict_context : MiddlewareContext → Extracted → MiddlewareContext
unfolding denied_evaluation
conflict_context context extracted = record context {
  evaluation = denied_evaluation extracted (text "USAGE_CONFLICT" ∷ []);
}

-- The answer of the second `catch`
abbrev pub recovered :
    (Thrown → Response)
    → Try Response × Option MiddlewareContext × Log
    → Response × Option MiddlewareContext × Log
recovered recover (got response, called, log) = (response, called, log)
recovered recover (threw failure, called, log) = (recover failure, called, log)

abbrev pub is_code : Thrown → Text → Bool
is_code (oati_error code) t = code == t
is_code other_error t = false

unfoldable pub bad_request : Thrown → Option Text → Response
unfolding safe_error problem
bad_request failure correlation_id =
    let safe = safe_error failure (text "MIDDLEWARE_BAD_REQUEST") in
    if is_code safe (text "MIDDLEWARE_UNAVAILABLE")
    then problem safe 503 (text "OATI middleware unavailable") correlation_id none
    else problem safe 400 (text "Invalid OATI request") correlation_id none

unfoldable pub unavailable : Text → Text → Thrown → Response
unfolding safe_error problem
unavailable correlation_id transaction_id failure =
    let safe = safe_error failure (text "MIDDLEWARE_UNAVAILABLE") in
    if is_code failure (text "MIDDLEWARE_REPLAY")
    then problem safe 401 (text "Replay rejected") (some correlation_id) (some transaction_id)
    else problem safe 503 (text "OATI middleware unavailable") (some correlation_id)
        (some transaction_id)
