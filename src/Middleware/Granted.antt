-- ===== src/Middleware/Granted.antt =====
-- What holds when the handler is called.
mod Parts
pub use Parts.*
use oati.Prelude.{
  sym, ℕ, Bool, true, false, not, ◌&&◌, Option, none, some, [], ◌∷◌, ◌≡◌, refl, ap, ◌∙◌, ◌⊎◌, inl,
  inr, if◌then◌else◌, Text, text, ◌==◌, ==_iff, Bool-cases, or_false,
}
use oati.Json.{Fields}
use oati.Objects.{AgentMandate}
use oati.Evaluator.Types.{UsageSnapshot, EvaluationResult}
use oati.Evaluator.Passed.Whole.{Allows}
use oati.Crypto.Verify.{VerificationResult, verify_document}
use oati.Crypto.Verify.Verified.{Verified, verify_document-Verified}
use oati.Middleware.Types.{
  Thrown, Try, threw, got, Request, Response, DocumentKind, envelope_kind, mandate_kind,
  parent_mandate_kind, Extracted, EvaluationExtensions, MiddlewareContext, Log, Host, UsageStore,
  Policy, MiddlewareOptions, Handler,
}
use oati.Middleware.Headers.{http_request_digest}
use oati.Middleware.Receipts.{middleware_context, denied_evaluation}
use oati.Middleware.Flow.{
  after, reusable_document_policy, requires_persistent_usage, digest_required, digest_unbound,
  digest_code, is_given, evaluation_request, verify, ask_policy, verify_by, load_usage, spend,
  call_handler, refuse_with, act_on, evaluate, use_mandate, check_digest, refuse_document,
  verify_envelope, verify_parent, protected_flow, receive_request, guarded, recovered, unavailable,
  respond_received, respond_correlated, middleware,
}
use oati.Middleware.Calls.{
  got-injective, Calls, after-Calls, unless-Calls, >>=-got, got-injective, verified_of, allowed_of,
  result-got,
}

module _ (host : Host) (options : MiddlewareOptions) (request : Request) where
  -- An evaluation of the request allows it, and the usage that it gives was recorded.
  pub record Authorised (extracted : Extracted) (evaluation : EvaluationResult) : Type 0 where
    pub extensions : EvaluationExtensions
    pub supplied : Supplied host options request options.evaluation_extensions extracted extensions
    pub previous : UsageSnapshot
    pub at : ℕ
    pub clock : Log
    pub at_is : at ≡ options.now clock
    pub allows :
        Allows host.runtime (evaluation_request host extracted extensions previous at) evaluation
    pub spent : Spent options.usage_store extracted.mandate previous evaluation.next_usage

  pub record Granted (context : MiddlewareContext) : Type 0 where
    pub extracted : Extracted
    pub received_from : Log
    pub received_to : Log
    pub received : receive_request host options request received_from ≡ (got extracted, received_to)
    pub mandate_verified :
        VerifiedAs host options request mandate_kind reusable_document_policy
          extracted.documents.mandate
    pub parent_verified : ParentVerified host options request extracted.documents.parent_mandate
    pub envelope_verified :
        VerifiedAs host options request envelope_kind
          (λ policy. policy)
          extracted.documents.envelope
    pub bound : Bound host options request extracted
    pub authorised : Authorised extracted context.evaluation
    pub same_request : context.request ≡ request
    pub same_envelope : context.envelope ≡ extracted.envelope
    pub same_mandate : context.mandate ≡ extracted.mandate

  module _ (next : Handler) (correlation_id : Text) (extracted : Extracted) where
    -- The context is one of this request, with the evaluation that was allowed.
    abbrev Decided : (EvaluationResult → MiddlewareContext) → MiddlewareContext → Type 0
    Decided context_of context =
        (evaluation : EvaluationResult) × (context ≡ context_of evaluation)
        × Authorised extracted evaluation

    called_context :
        (given context : MiddlewareContext) (log : Log)
        → Calls context (call_handler host options next given log)
        → context ≡ given
    unfolding call_handler
    called_context given context log h = some-injective h

    use_mandate-Decided :
        (context_of : EvaluationResult → MiddlewareContext) (log : Log)
        (context : MiddlewareContext)
        → Calls context
            (use_mandate host options request next correlation_id extracted context_of log)
        → Decided context_of context
    unfolding use_mandate evaluate act_on refuse_with
    use_mandate-Decided context_of log context h =
        let (extensions, l1, asked, h1) = after-Calls _ _ log context h in
        let (previous, l2, loaded, h2) = after-Calls _ _ l1 context h1 in
        let (needs, h3) = unless-Calls _ _ _ l2 context h2 in
        let (at, l3, told, h4) = after-Calls _ _ l2 context h3 in
        let (evaluation, l4, evaluated, h5) = after-Calls _ _ l3 context h4 in
        let (allowed, h6) = unless-Calls _ _ _ l4 context h5 in
        let (accepted, l5, spent, h7) = after-Calls _ _ l4 context h6 in
        let (kept, h8) = unless-Calls _ _ _ l5 context h7 in
        (
          evaluation,
          called_context (context_of evaluation) context l5 h8,
          record {
            extensions = extensions;
            supplied =
                ask_extensions-Supplied host options request extracted log l1 extensions asked;
            previous = previous;
            at = at;
            clock = l2;
            at_is = sym (got-injective (options.now l2) at (ap (λ (r : Try ℕ × Log). r.0) told));
            allows = (
              result-got _ evaluation (ap (λ (r : Try EvaluationResult × Log). r.0) evaluated),
              allowed_of evaluation.decision allowed,
            );
            spent =
                loaded_spent options.usage_store extracted.mandate previous evaluation.next_usage l1
                  l2 l4 l5 accepted loaded needs spent kept;
          },
        )

    check_digest-Decided :
        (context_of : EvaluationResult → MiddlewareContext) (log : Log)
        (context : MiddlewareContext)
        → Calls context
            (check_digest host options request next correlation_id extracted context_of log)
        → Bound host options request extracted × Decided context_of context
    unfolding check_digest refuse_with
    check_digest-Decided context_of log context h =
        elim (Bool-cases (digest_required options.require_request_digest)) [
          | inr free ↦ (
            inl (not_required options.require_request_digest free),
            use_mandate-Decided context_of log context (rw free at h),
          )
          | inl required ↦
              let h0 : Calls context (
                  after (http_request_digest host request options.max_body_bytes)
                    (λ actual.
                      if digest_unbound extracted.envelope.request_digest actual
                      then refuse_with host options
                          (context_of (
                            denied_evaluation extracted
                              (digest_code extracted.envelope.request_digest ∷ [])))
                          401 (text "MIDDLEWARE_UNAUTHENTICATED")
                      else use_mandate host options request next correlation_id extracted
                          context_of)
                    log) =
                rw required at h in
              let (actual, l1, digest, h1) = after-Calls _ _ log context h0 in
              let (same, h2) =
                unless-Calls (digest_unbound extracted.envelope.request_digest actual) _ _ l1
                  context h1 in
              (
                inr (
                  actual,
                  log,
                  l1,
                  digest,
                  differs_not extracted.envelope.request_digest actual same,
                ),
                use_mandate-Decided context_of l1 context h2,
              )
        ]

    -- What the verifications leave to be shown.
    abbrev Rest : MiddlewareContext → Type 0
    Rest context =
        VerifiedAs host options request envelope_kind (λ policy. policy)
          extracted.documents.envelope
        × Bound host options request extracted
        × Authorised extracted context.evaluation
        × (context.request ≡ request)
        × (context.envelope ≡ extracted.envelope)
        × (context.mandate ≡ extracted.mandate)

    verify_envelope-Rest :
        (mandate : VerificationResult) (parent : Option VerificationResult) (log : Log)
        (context : MiddlewareContext)
        → Calls context
            (verify_envelope host options request next correlation_id extracted mandate parent log)
        → Rest context
    unfolding verify_envelope refuse_document middleware_context
    verify_envelope-Rest mandate parent log context h =
        let (envelope, l1, done, h1) = after-Calls _ _ log context h in
        let (verified, h2) = unless-Calls (not envelope.verified) _ _ l1 context h1 in
        let (bound, (evaluation, same, authorised)) =
          check_digest-Decided
            (middleware_context request extracted correlation_id envelope mandate parent) l1 context
            h2 in
        (
          verify-VerifiedAs host options request envelope_kind (λ policy. policy)
              extracted.documents.envelope log l1 envelope done verified,
          bound,
          (let evaluated = ap (λ (c : MiddlewareContext). c.evaluation) same in
              rw evaluated authorised),
          ap (λ (c : MiddlewareContext). c.request) same,
          ap (λ (c : MiddlewareContext). c.envelope) same,
          ap (λ (c : MiddlewareContext). c.mandate) same,
        )

    verify_parent-Rest :
        (document : Option Fields) (mandate : VerificationResult) (log : Log)
        (context : MiddlewareContext)
        → Calls context
            (verify_parent host options request next correlation_id extracted document mandate log)
        → ParentVerified host options request document × Rest context
    unfolding verify_parent refuse_document
    verify_parent-Rest none mandate log context h =
        (tt, verify_envelope-Rest mandate none log context h)
    verify_parent-Rest (some document) mandate log context h =
        let (parent, l1, done, h1) = after-Calls _ _ log context h in
        let (verified, h2) = unless-Calls (not parent.verified) _ _ l1 context h1 in
        (
          verify-VerifiedAs host options request parent_mandate_kind reusable_document_policy
              document log l1 parent done verified,
          verify_envelope-Rest mandate (some parent) l1 context h2,
        )

    protected_flow-Granted :
        (log received_from received_to : Log) (context : MiddlewareContext)
        → receive_request host options request received_from ≡ (got extracted, received_to)
        → Calls context (protected_flow host options request next correlation_id extracted log)
        → Granted context
    unfolding protected_flow refuse_document
    protected_flow-Granted log from to context received h =
        let (_, l0, _, h0) = after-Calls _ _ log context h in
        let (mandate, l1, done, h1) = after-Calls _ _ l0 context h0 in
        let (verified, h2) = unless-Calls (not mandate.verified) _ _ l1 context h1 in
        let (parent, (envelope, bound, authorised, request_is, envelope_is, mandate_is)) =
          verify_parent-Rest extracted.documents.parent_mandate mandate l1 context h2 in
        record {
          extracted = extracted;
          received_from = from;
          received_to = to;
          received = received;
          mandate_verified =
              verify-VerifiedAs host options request mandate_kind reusable_document_policy
                extracted.documents.mandate l0 l1 mandate done verified;
          parent_verified = parent;
          envelope_verified = envelope;
          bound = bound;
          authorised = authorised;
          same_request = request_is;
          same_envelope = envelope_is;
          same_mandate = mandate_is;
        }

  respond_received-Granted :
      (next : Handler) (correlation_id : Text) (log : Log) (answer : Try Extracted × Log)
      (context : MiddlewareContext)
      → receive_request host options request log ≡ answer
      → (respond_received host options request next correlation_id answer).1 ≡ some context
      → Granted context
  unfolding respond_received guarded
  respond_received-Granted next correlation_id log (threw f, log') context e h = cc
  respond_received-Granted next correlation_id log (got extracted, log') context e h =
      protected_flow-Granted next correlation_id extracted log' log log' context e (
        called_before (unavailable correlation_id extracted.envelope.id)
          (protected_flow host options request next correlation_id extracted log') context h)

  respond_correlated-Granted :
      (next : Handler) (answer : Try Text × Log) (context : MiddlewareContext)
      → (respond_correlated host options request next answer).1 ≡ some context
      → Granted context
  unfolding respond_correlated
  respond_correlated-Granted next (threw f, log) context h = cc
  respond_correlated-Granted next (got correlation_id, log) context h =
      respond_received-Granted next correlation_id log (receive_request host options request log)
        context refl h

  -- The middleware calls the handler only with a request whose Mandate, parent Mandate, if it has one,
  -- and Envelope were all found verified by `verifyDocument`, under the policies for their kinds;
  -- whose digest, where it is asked for, is that of the Envelope; and which `evaluateAuthority`
  -- allows, at an instant that the clock told, with the extensions that the options supply for the
  -- request, and from a usage that the store gave and that a compare-and-set of the store replaced by
  -- the next one. Without a store, the usage is the empty one, and the Mandate has no limits and no
  -- profile and is not consumed.
  pub middleware-Granted :
      (next : Handler) (log : Log) (context : MiddlewareContext)
      → (middleware host options request next log).1 ≡ some context
      → Granted context
  unfolding middleware
  middleware-Granted next log context h = respond_correlated-Granted next _ context h
