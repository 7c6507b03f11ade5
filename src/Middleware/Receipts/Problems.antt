-- ===== src/Middleware/Receipts/Problems.antt =====
-- The problem documents of middleware.ts, and what is known of a request that is refused.
use oati.Prelude.{
  ℕ, Bool, false, Option, none, some, List, [], ◌∷◌, if◌then◌else◌, Text, text, starts_with,
}
use oati.Prelude.Ints.{pos}
use oati.Json.{num, str, obj, end, field}
use oati.Evaluator.Types.{UsageSnapshot, deny, EvaluationResult}
use oati.Evaluator.Reasons.{add, sort}
use oati.Crypto.Verify.{VerificationResult}
use oati.Middleware.Types.{
  Thrown, oati_error, other_error, Headers, set_header, Request, json_body, Response, Extracted,
  MiddlewareContext,
}
use oati.Middleware.Headers.{transaction_id_header, correlation_id_header}

-- `isMiddlewareError`
unfoldable pub is_middleware_error : Thrown → Bool
unfolding starts_with
is_middleware_error (oati_error code) = starts_with code (text "MIDDLEWARE_")
is_middleware_error other_error = false

-- The error itself, or one of the middleware in its place.
unfoldable pub safe_error : Thrown → Text → Thrown
unfolding is_middleware_error
safe_error failure code = if is_middleware_error failure then failure else oati_error code

abbrev pub code_of : Thrown → Text
code_of (oati_error code) = code
code_of other_error = text "MIDDLEWARE_BAD_REQUEST"

abbrev set_if_given : Text → Option Text → Headers → Headers
set_if_given name none headers = headers
set_if_given name (some []) headers = headers
set_if_given name (some (c ∷ s)) headers = set_header name (c ∷ s) headers

abbrev pub problem_headers : Headers
problem_headers = set_header (text "Content-Type") (text "application/problem+json") (λ name. none)

-- `problem`
unfoldable pub problem : Thrown → ℕ → Text → Option Text → Option Text → Response
problem failure status title correlation_id transaction_id = record {
  status = status;
  headers =
      set_if_given transaction_id_header transaction_id
        (set_if_given correlation_id_header correlation_id problem_headers);
  body = json_body (
      obj (
        field (text "type") (str (text "https://specs.intelliger.ai/oati/problems/middleware")) (
          field (text "title") (str title) (
            field (text "status") (num (pos status))
              (field (text "code") (str (code_of failure)) end)))));
}

abbrev add_all : List Text → List Text → List Text
add_all [] codes = codes
add_all (c ∷ cs) codes = add_all cs (add c codes)

-- `{}`
abbrev pub empty_usage : UsageSnapshot
empty_usage = record {
  calls = none;
  amount = none;
  currency = none;
  quantity = none;
  consumed = none;
  idempotency_keys = none;
  minted_supply = none;
}

-- `deniedEvaluation`
unfoldable pub denied_evaluation : Extracted → List Text → EvaluationResult
unfolding add sort
denied_evaluation extracted reason_codes = record {
  decision = deny;
  mandate_id = extracted.mandate.id;
  transaction_id = extracted.envelope.id;
  reason_codes = sort (add_all reason_codes []);
  next_usage = empty_usage;
}

-- `failedVerification`
unfoldable pub failed_verification : Text → VerificationResult
failed_verification code = record {
  verified = false;
  algorithm = none;
  verification_method = none;
  issuer = none;
  issues = record { code = text "PROOF_MISSING"; message = code } ∷ [];
}

-- `middlewareContext`
unfoldable pub middleware_context :
    Request
    → Extracted
    → Text
    → VerificationResult
    → VerificationResult
    → Option VerificationResult
    → EvaluationResult
    → MiddlewareContext
middleware_context request extracted correlation_id envelope mandate parent evaluation = record {
  request = request;
  envelope = extracted.envelope;
  mandate = extracted.mandate;
  parent_mandate = extracted.parent_mandate;
  correlation_id = correlation_id;
  transaction_id = extracted.envelope.id;
  envelope_verification = envelope;
  mandate_verification = mandate;
  parent_mandate_verification = parent;
  evaluation = evaluation;
}
