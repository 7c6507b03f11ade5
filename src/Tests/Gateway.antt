-- ===== src/Tests/Gateway.antt =====
-- The theorems on the middleware, at a request whose documents are verified, and its refusals.
use oati.Prelude.{true, false, [], ◌∷◌, Option, none, some, ◌≡◌, refl, text, ◌==◌, if◌then◌else◌}
use oati.Json.{Json, str, obj, field, get}
use oati.Objects.{AgentMandate, TransactionEnvelope}
use oati.Evaluator.Authority.{evaluate_authority}
use oati.Crypto.Verify.{verify_document}
use oati.Middleware.Types.{
  other_error, threw, got, Body, json_body, Request, other_body, Documents, Extracted,
  MiddlewareContext, stored_nonce, ◌>>=◌, Host, UsageStore, Policy, MiddlewareOptions, Handler,
}
use oati.Middleware.Headers.{or_default, correlation_id_header}
use oati.Middleware.Receipts.{failed_verification, denied_evaluation, middleware_context}
use oati.Middleware.Flow.{after, middleware}
use oati.Middleware.Granted.{Granted, middleware-Granted}
use oati.Middleware.Answers.{Answers, middleware-Answers}
use oati.Tests.Requests.{runtime, running, child, envelope, prior, child_request}
use oati.Tests.Verification.{signatures, verification_policy, passport}

abbrev pub mandate : AgentMandate
mandate = record child { parent_mandate = none }

-- The digest of this host is one byte.
abbrev bound_envelope : TransactionEnvelope
bound_envelope = record envelope { request_digest = some (text "sha256:07") }

abbrev pub host : Host
host = record {
  runtime = runtime;
  signatures = signatures;
  sha256 = λ bytes. 7 ∷ [];
  to_iso_string = λ t. text "2026-07-27T10:00:00Z";
  to_upper_case = λ s. s;
  trim = λ s. s;
  random_uuid = some (λ log. text "u1");
  random_values = none;
  mandate_of = λ fields. got mandate;
  envelope_of = λ fields. got bound_envelope;
  check_receipt = λ fields. got tt;
}

abbrev documents : Documents
documents = record {
  envelope = passport (text "TWH_..CQ");
  mandate = passport (text "TWH_..CQ");
  parent_mandate = none;
}

-- Each nonce is stored in the log, and the usage is always replaced.
abbrev pub policy_of_log : Policy
policy_of_log = record {
  verification = verification_policy;
  replay = record { check_and_store = λ log key expires now. (true, stored_nonce key ∷ log) };
}

abbrev pub usage_store : UsageStore
usage_store = record {
  load = λ log id. got prior;
  compare_and_set = λ log id previous next. got true;
}

abbrev pub options : MiddlewareOptions
options = record {
  verification_policy = λ log kind request. got policy_of_log;
  receipt_issuer = text "oati:org:seller";
  sign_receipt = λ log draft context. got (field (text "oati_version") (str (text "1.0")) draft);
  usage_store = some usage_store;
  evaluation_extensions = some (λ log request extracted. got (record {
    delegation_depth = none;
    consumption = child_request.consumption;
    commerce = none;
    rwa = none;
  }));
  extract = some (λ log request. got documents);
  emit_receipt = none;
  now = λ log. 20260727100000;
  generate_correlation_id = none;
  generate_receipt_id = none;
  policy_digest = none;
  max_header_bytes = none;
  require_request_digest = none;
  max_body_bytes = none;
  allowed_receipt_outcome = none;
}

abbrev pub request : Request
request = record {
  method = text "POST";
  pathname = text "/quotes";
  search = [];
  headers = λ name. if name == correlation_id_header then some (text "c1") else none;
  body = 1 ∷ 2 ∷ [];
}

abbrev pub handler : Handler
handler log _ context =
    got (record { status = 200; headers = λ name. none; body = other_body (text "ok") })

abbrev extracted : Extracted
extracted = record {
  documents = documents;
  envelope = bound_envelope;
  mandate = mandate;
  parent_mandate = none;
}

abbrev no_context : MiddlewareContext
no_context =
    middleware_context request extracted [] (failed_verification []) (failed_verification []) none
      (denied_evaluation extracted [])

abbrev granted_context : MiddlewareContext
granted_context = or_default (middleware host options request handler []).1 no_context

middleware-Granted_example : Granted host options request granted_context
unfolding running middleware after ◌>>=◌ verify_document evaluate_authority
middleware-Granted_example = middleware-Granted host options request handler [] granted_context refl

middleware-Answers_example :
    Answers host options handler (middleware host options request handler [])
middleware-Answers_example = middleware-Answers host options request handler []

-- A store whose usage changed meanwhile.
abbrev contended : MiddlewareOptions
contended = record options {
  usage_store = some (record usage_store { compare_and_set = λ log id previous next. got false });
}

conflict : (middleware host contended request handler []).0.status ≡ 409
unfolding running middleware after ◌>>=◌ verify_document evaluate_authority
conflict = refl

-- A handler that throws is answered by 500, with the code of a denial.
abbrev failing : Handler
failing log _ context = threw other_error

abbrev body_code : Body → Option Json
body_code (json_body (obj fields)) = get fields (text "code")
body_code _ = none

failure_code :
    body_code (middleware host options request failing []).0.body
    ≡ some (str (text "MIDDLEWARE_FORBIDDEN"))
unfolding running middleware after ◌>>=◌ verify_document evaluate_authority
failure_code = refl
