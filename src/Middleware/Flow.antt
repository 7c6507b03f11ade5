-- ===== src/Middleware/Flow.antt =====
-- `createOatiMiddleware` of middleware.ts, in the steps of its body. Beside the response stands the
-- context with which the handler was called, if it was.
mod Parts
unfoldable pub use Parts.*
use oati.Prelude.{
  ℕ, Bool, true, false, not, ◌&&◌, ◌||◌, Option, none, some, [], ◌∷◌, if◌then◌else◌, ltb, eqb, Text,
  text, ◌==◌,
}
use oati.Json.{Fields}
use oati.Objects.{AgentMandate, consumed, MandateStatus}
use oati.Objects.Terms.{Outcome, succeeded, outcome_failed, denied}
use oati.Evaluator.Types.{UsageSnapshot, EvaluationRequest, EvaluationResult, Verdict, allow, deny}
use oati.Evaluator.Authority.{evaluate_authority}
use oati.Crypto.Verify.{VerificationResult, verify_document}
use oati.Middleware.Types.{
  Thrown, oati_error, other_error, Try, threw, got, Request, Response, DocumentKind, envelope_kind,
  mandate_kind, parent_mandate_kind, Documents, Extracted, EvaluationExtensions, MiddlewareContext,
  loaded_usage, set_usage, called_handler, Log, Action, ◌>>=◌, ◌>>◌, pure, raise_if, lift, asks,
  tries, of_result, Host, UsageStore, Policy, MiddlewareOptions, Handler,
}
use oati.Middleware.Headers.{
  transaction_id_header, correlation_id_header, non_empty, correlation, extract_oati_headers,
  http_request_digest,
}
use oati.Middleware.Receipts.{
  safe_error, problem, empty_usage, denied_evaluation, middleware_context, issue_receipt,
  attach_receipt, receipt_response, denied_verification,
}

module _ (host : Host) (options : MiddlewareOptions) where
  abbrev pub ask_policy : Request → DocumentKind → Action Policy
  ask_policy request kind log = (options.verification_policy log kind request, log)

  abbrev pub verify_by : Policy → Fields → Action VerificationResult
  verify_by policy document log =
      let (result, log') =
        verify_document host.runtime host.signatures policy.replay policy.verification document
          log in
      (got result, log')

  -- The verification of one document.
  unfoldable pub verify :
      Request → DocumentKind → (Policy → Policy) → Fields → Action VerificationResult
  unfolding verify_document
  verify request kind prepare document =
      ask_policy request kind >>= λ policy. verify_by (prepare policy) document

  abbrev pub ask_extensions : Request → Extracted → Action EvaluationExtensions
  ask_extensions request extracted = elim options.evaluation_extensions [
    | none ↦ pure no_extensions
    | some extensions ↦ λ log. (extensions log request extracted, log)
  ]

  -- The handler's response, with the receipt of what came of it.
  unfoldable pub answered : MiddlewareContext → Try Response → Action Response
  unfolding receipt_response issue_receipt attach_receipt outcome_of
  answered context (threw failure) = do
    at ← asks options.now
    receipt_response host options context outcome_failed 500 at (text "MIDDLEWARE_FORBIDDEN")
  answered context (got downstream) = do
    at ← asks options.now
    receipt ←
        issue_receipt host options context
          (outcome_of options.allowed_receipt_outcome downstream.status) at
    attach_receipt host downstream receipt context

  unfoldable pub call_handler : Handler → MiddlewareContext → Flow
  unfolding answered
  call_handler next context log =
      let (result, log') =
        answered context (next log context.request context) (called_handler context ∷ log) in
      (result, some context, log')

  unfoldable pub refuse_with : MiddlewareContext → ℕ → Text → Flow
  unfolding receipt_response
  refuse_with context status code =
      answer_by
        (do at ← asks options.now; receipt_response host options context denied status at code)

  module _ (request : Request) (next : Handler) (correlation_id : Text)
      (extracted : Extracted) where
    unfoldable pub act_on :
        (EvaluationResult → MiddlewareContext) → UsageSnapshot → EvaluationResult → Flow
    unfolding refuse_with call_handler denied_evaluation conflict_context
    act_on context_of previous evaluation =
        if not (is_allow evaluation.decision)
        then refuse_with (context_of evaluation) 403 (text "MIDDLEWARE_FORBIDDEN")
        else after (spend options.usage_store extracted.mandate.id previous evaluation.next_usage)
            λ accepted.
              if not accepted
              then refuse_with (conflict_context (context_of evaluation) extracted) 409
                  (text "MIDDLEWARE_USAGE_CONFLICT")
              else call_handler next (context_of evaluation)

    unfoldable pub evaluate :
        (EvaluationResult → MiddlewareContext) → EvaluationExtensions → UsageSnapshot → Flow
    unfolding act_on evaluate_authority evaluation_request
    evaluate context_of extensions previous = after (asks options.now) λ at.
        after
          (lift (
            of_result (
              evaluate_authority host.runtime
                (evaluation_request host extracted extensions previous at))))
          λ evaluation. act_on context_of previous evaluation

    unfoldable pub use_mandate : (EvaluationResult → MiddlewareContext) → Flow
    unfolding evaluate requires_persistent_usage refuse_with denied_evaluation
    use_mandate context_of = after (ask_extensions request extracted) λ extensions.
        after (load_usage options.usage_store extracted.mandate.id) λ previous.
          if not (is_given options.usage_store) && requires_persistent_usage extracted.mandate
          then refuse_with
              (context_of (denied_evaluation extracted (text "USAGE_STORE_REQUIRED" ∷ []))) 503
              (text "MIDDLEWARE_UNAVAILABLE")
          else evaluate context_of extensions previous

    -- The digest of the Envelope binds the request.
    unfoldable pub check_digest : (EvaluationResult → MiddlewareContext) → Flow
    unfolding use_mandate refuse_with denied_evaluation http_request_digest
    check_digest context_of =
        if digest_required options.require_request_digest
        then (after (http_request_digest host request options.max_body_bytes) λ actual.
            if digest_unbound extracted.envelope.request_digest actual
            then refuse_with
                (context_of (
                  denied_evaluation extracted (digest_code extracted.envelope.request_digest ∷ [])))
                401 (text "MIDDLEWARE_UNAUTHENTICATED")
            else use_mandate context_of)
        else use_mandate context_of

    unfoldable pub refuse_document :
        VerificationResult
        → DocumentKind
        → Option VerificationResult
        → Option VerificationResult
        → Flow
    unfolding denied_verification
    refuse_document verification kind mandate parent = answer_by (do
      at ← asks options.now
      denied_verification host options request extracted correlation_id verification kind at mandate
          parent)

    unfoldable pub verify_envelope : VerificationResult → Option VerificationResult → Flow
    unfolding verify refuse_document check_digest middleware_context
    verify_envelope mandate parent =
        after (verify request envelope_kind (λ policy. policy) extracted.documents.envelope)
          λ envelope.
            if not envelope.verified
            then refuse_document envelope envelope_kind (some mandate) parent
            else check_digest
                (middleware_context request extracted correlation_id envelope mandate parent)

    unfoldable pub verify_parent : Option Fields → VerificationResult → Flow
    unfolding verify refuse_document verify_envelope reusable_document_policy
    verify_parent none mandate = verify_envelope mandate none
    verify_parent (some document) mandate =
        after (verify request parent_mandate_kind reusable_document_policy document) λ parent.
          if not parent.verified
          then refuse_document parent parent_mandate_kind (some mandate) none
          else verify_envelope mandate (some parent)

    -- The second `try` of the middleware.
    unfoldable pub protected_flow : Flow
    unfolding verify refuse_document verify_parent reusable_document_policy
    protected_flow = after (raise_if (correlation_id == []) (text "MIDDLEWARE_UNAVAILABLE")) λ _.
        after (verify request mandate_kind reusable_document_policy extracted.documents.mandate)
          λ mandate.
            if not mandate.verified
            then refuse_document mandate mandate_kind none none
            else verify_parent extracted.documents.parent_mandate mandate

  abbrev pub parent_mandate_of : Option Fields → Try (Option AgentMandate)
  parent_mandate_of none = got none
  parent_mandate_of (some document) = elim (host.mandate_of document) [
    | threw failure ↦ threw failure
    | got parent ↦ got (some parent)
  ]

  abbrev pub documents_of : Request → Action Documents
  documents_of request = elim options.extract [
    | none ↦ extract_oati_headers host request options.max_header_bytes
    | some extract ↦ λ log. (extract log request, log)
  ]

  abbrev pub transaction_differs : Option Text → Text → Bool
  transaction_differs declared id = non_empty declared && digest_unbound declared id

  -- The first `try` of the middleware, after the correlation identifier.
  unfoldable pub receive_request : Request → Action Extracted
  unfolding extract_oati_headers
  receive_request request = do
    documents ← documents_of request
    mandate ← lift (host.mandate_of documents.mandate)
    envelope ← lift (host.envelope_of documents.envelope)
    parent ← lift (parent_mandate_of documents.parent_mandate)
    raise_if (transaction_differs (request.headers transaction_id_header) envelope.id)
        (text "MIDDLEWARE_BAD_REQUEST")
    pure (record {
      documents = documents;
      envelope = envelope;
      mandate = mandate;
      parent_mandate = parent;
    })

  unfoldable pub guarded :
      Request → Handler → Text → Extracted → Log → Response × Option MiddlewareContext × Log
  unfolding protected_flow unavailable
  guarded request next correlation_id extracted log =
      recovered (unavailable correlation_id extracted.envelope.id)
        (protected_flow request next correlation_id extracted log)

  unfoldable pub respond_received :
      Request → Handler → Text → Try Extracted × Log → Response × Option MiddlewareContext × Log
  unfolding guarded bad_request
  respond_received request next correlation_id (threw failure, log) =
      (bad_request failure (some correlation_id), none, log)
  respond_received request next correlation_id (got extracted, log) =
      guarded request next correlation_id extracted log

  unfoldable pub respond_correlated :
      Request → Handler → Try Text × Log → Response × Option MiddlewareContext × Log
  unfolding receive_request respond_received bad_request
  respond_correlated request next (threw failure, log) = (bad_request failure none, none, log)
  respond_correlated request next (got correlation_id, log) =
      respond_received request next correlation_id (receive_request request log)

  -- The middleware that `createOatiMiddleware` returns.
  unfoldable pub middleware : Request → Handler → Log → Response × Option MiddlewareContext × Log
  unfolding correlation respond_correlated
  middleware request next log =
      respond_correlated request next (
        correlation host (request.headers correlation_id_header) options.generate_correlation_id
          log)

abbrev pub Middleware : Type 0
Middleware = Request → Handler → Log → Response × Option MiddlewareContext × Log

-- `createOatiMiddleware`
unfoldable pub create_oati_middleware : Host → MiddlewareOptions → Try Middleware
unfolding middleware
create_oati_middleware host options =
    if host.trim options.receipt_issuer == []
    then threw other_error
    else got (middleware host options)

abbrev applied :
    Handler → Try Middleware → Try (Request → Log → Response × Option MiddlewareContext × Log)
applied handler (threw failure) = threw failure
applied handler (got run) = got (λ request. run request handler)

-- `withOati`
unfoldable pub with_oati :
    Handler
    → Host
    → MiddlewareOptions
    → Try (Request → Log → Response × Option MiddlewareContext × Log)
unfolding create_oati_middleware
with_oati handler host options = applied handler (create_oati_middleware host options)
