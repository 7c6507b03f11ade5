-- ===== src/Middleware/Kept.antt =====
-- The steps of the middleware keep what their effects keep.
mod Received
use oati.Prelude.{
  ℕ, true, not, ◌&&◌, Option, none, some, ◌∷◌, ◌≡◌, refl, ap, Text, text, Bool-cases, inl, inr, ◌∙◌,
}
use oati.Json.{Json, null, bool, num, str, arr, obj, Fields}
use oati.Objects.{AgentMandate}
use oati.Objects.Terms.{denied}
use oati.Evaluator.Types.{UsageSnapshot, EvaluationResult, allow}
use oati.Evaluator.Passed.Whole.{Allows}
use oati.Crypto.Verify.{VerificationResult}
use oati.Crypto.Verify.Effects.{verify_document-keeps}
use oati.Middleware.Types.{
  Thrown, Try, threw, got, Request, Response, DocumentKind, mandate_kind, parent_mandate_kind,
  envelope_kind, Documents, Extracted, EvaluationExtensions, MiddlewareContext, Event, loaded_usage,
  Log, Action, ◌>>=◌, pure, Host, UsageStore, MiddlewareOptions, Policy, Handler,
}
use oati.Middleware.Headers.{
  non_empty, correlation, generated, decode_header, decode_parent, object_or_fail,
  extract_oati_headers, http_request_digest,
}
use oati.Middleware.Receipts.{denied_verification, middleware_context}
use oati.Middleware.Flow.{
  reusable_document_policy, requires_persistent_usage, digest_required, digest_unbound, is_allow,
  is_given, no_extensions, evaluation_request, verify, ask_extensions, load_usage, spend,
  conflict_context, refuse_document, act_on, evaluate, use_mandate, check_digest, verify_envelope,
  verify_parent, protected_flow, documents_of, receive_request, recovered, unavailable, guarded,
  respond_received, respond_correlated, middleware,
}
use oati.Middleware.Calls.{>>=-got, allowed_of, result-got}
use oati.Middleware.Keeps.{
  is_other, then_keeps, after_keeps, try_or_else_keeps, if_keeps, safe_uuid-keeps,
  receipt_response-keeps, refuse_with-keeps, call_handler-keeps,
}
use Received.{receive_request-keeps, correlation-keeps, mandate_received}

load_usage-keeps :
    (I : Log → Type 0)
    (other : (event : Event) (log : Log) → is_other event ≡ true → I log → I (event ∷ log))
    (store : Option UsageStore) (id : Text) (log : Log)
    → I log
    → I (load_usage store id log).1
load_usage-keeps I other none id log h = h
load_usage-keeps I other (some store) id log h = other (loaded_usage id) log refl h

http_request_digest-keeps :
    (I : Log → Type 0) (host : Host) (request : Request) (max_body_bytes : Option ℕ) (log : Log)
    → I log
    → I (http_request_digest host request max_body_bytes log).1
unfolding http_request_digest
http_request_digest-keeps I host request max_body_bytes log h =
    then_keeps I _ _ log h λ _ l1 _ h1. then_keeps I _ _ l1 h1 λ binding l2 _ h2. h2

module _ (host : Host) (options : MiddlewareOptions) (I : Log → Type 0)
    (other : (event : Event) (log : Log) → is_other event ≡ true → I log → I (event ∷ log))
    (request : Request) where
  module _
      (stores : (asked : Log) (kind : DocumentKind) (policy : Policy)
        → options.verification_policy asked kind request ≡ got policy
        → (state : Log) (key : Text) (expires now : ℕ) → I state
        → I (policy.replay.check_and_store state key expires now).1) where
    verify-keeps :
        (kind : DocumentKind) (document : Fields) (log : Log)
        → I log
        → I (verify host options request kind (λ policy. policy) document log).1
    unfolding verify
    verify-keeps kind document log h = then_keeps I _ _ log h λ policy l1 asked h1.
        verify_document-keeps host.runtime host.signatures policy.replay I
          (stores log kind policy (ap (λ (r : Try Policy × Log). r.0) asked)) policy.verification
          document l1 h1

    -- With a policy for documents that may be presented again
    verify_reusable-keeps :
        (kind : DocumentKind) (document : Fields) (log : Log)
        → I log
        → I (verify host options request kind reusable_document_policy document log).1
    unfolding verify reusable_document_policy
    verify_reusable-keeps kind document log h = then_keeps I _ _ log h λ policy l1 asked h1.
        verify_document-keeps host.runtime host.signatures (reusable_document_policy policy).replay
          I (λ state key expires now k. k) (reusable_document_policy policy).verification document
          l1 h1

    ask_extensions-keeps :
        (extracted : Extracted) (log : Log)
        → I log
        → I (ask_extensions host options request extracted log).1
    ask_extensions-keeps extracted log h = by_option options.evaluation_extensions
      where
        by_option :
            (given : Option (Log → Request → Extracted → Try EvaluationExtensions))
            → (let f : Action EvaluationExtensions = elim given [
              | none ↦ pure no_extensions
              | some extensions ↦ λ log. (extensions log request extracted, log)
            ] in
                I (f log).1)
        by_option none = h
        by_option (some extensions) = h

    module _ (next : Handler) (correlation_id : Text) (extracted : Extracted)
        (spends : (extensions : EvaluationExtensions) (previous : UsageSnapshot) (at : ℕ)
            (evaluation : EvaluationResult)
          → Allows host.runtime
              (evaluation_request host extracted extensions previous at)
              evaluation
          → (log : Log) → I log
          → I
              (spend options.usage_store extracted.mandate.id previous evaluation.next_usage
                log).1) where
      act_on-keeps :
          (context_of : EvaluationResult → MiddlewareContext) (extensions : EvaluationExtensions)
          (previous : UsageSnapshot) (at : ℕ) (evaluation : EvaluationResult)
          → (evaluation.decision ≡ allow
              → Allows host.runtime
                  (evaluation_request host extracted extensions previous at)
                  evaluation)
          → (log : Log) → I log
          → I
              (act_on host options request next correlation_id extracted context_of previous
                evaluation log).2
      unfolding act_on
      act_on-keeps context_of extensions previous at evaluation allows log h =
          if_keeps I (not (is_allow evaluation.decision)) _ _ log
            (refuse_with-keeps host options I other (context_of evaluation) 403
              (text "MIDDLEWARE_FORBIDDEN") log h)
            λ allowed.
              after_keeps I _ _ log
                (spends extensions previous at evaluation
                  (allows (allowed_of evaluation.decision allowed)) log h)
                λ accepted l1 _ h1.
                  if_keeps I (not accepted) _ _ l1
                    (refuse_with-keeps host options I other
                      (conflict_context (context_of evaluation) extracted) 409
                      (text "MIDDLEWARE_USAGE_CONFLICT") l1 h1)
                    λ _. call_handler-keeps host options I other next (context_of evaluation) l1 h1

      use_mandate-keeps :
          (context_of : EvaluationResult → MiddlewareContext) (log : Log)
          → I log
          → I (use_mandate host options request next correlation_id extracted context_of log).2
      unfolding use_mandate evaluate
      use_mandate-keeps context_of log h =
          after_keeps I _ _ log (ask_extensions-keeps extracted log h) λ extensions l1 _ h1.
            after_keeps I _ _ l1
              (load_usage-keeps I other options.usage_store extracted.mandate.id l1 h1)
              λ previous l2 _ h2.
                if_keeps I
                  (not (is_given options.usage_store)
                    && requires_persistent_usage extracted.mandate)
                  _ _ l2
                  (refuse_with-keeps host options I other _ 503 (text "MIDDLEWARE_UNAVAILABLE") l2
                    h2)
                  λ _. after_keeps I _ _ l2 h2 λ at l3 _ h3.
                    after_keeps I _ _ l3 h3 λ evaluation l4 evaluated h4.
                      act_on-keeps context_of extensions previous at evaluation
                        (λ allow_is. (
                          result-got _ evaluation
                              (ap (λ (r : Try EvaluationResult × Log). r.0) evaluated),
                          allow_is,
                        ))
                        l4 h4

      check_digest-keeps :
          (context_of : EvaluationResult → MiddlewareContext) (log : Log)
          → I log
          → I (check_digest host options request next correlation_id extracted context_of log).2
      unfolding check_digest
      check_digest-keeps context_of log h =
          if_keeps I (digest_required options.require_request_digest) _ _ log
            (after_keeps I _ _ log
              (http_request_digest-keeps I host request options.max_body_bytes log h)
              λ actual l1 _ h1.
                if_keeps I (digest_unbound extracted.envelope.request_digest actual) _ _ l1
                  (refuse_with-keeps host options I other _ 401 _ l1 h1)
                  λ _. use_mandate-keeps context_of l1 h1)
            λ _. use_mandate-keeps context_of log h

      refuse_document-keeps :
          (verification : VerificationResult) (kind : DocumentKind)
          (mandate parent : Option VerificationResult) (log : Log)
          → I log
          → I
              (refuse_document host options request next correlation_id extracted verification kind
                mandate parent log).2
      unfolding refuse_document denied_verification ◌>>=◌
      refuse_document-keeps verification kind mandate parent log h =
          try_or_else_keeps I _ _ log
            (receipt_response-keeps host options I other _ denied 401 _ _ log h)

      verify_envelope-keeps :
          (mandate : VerificationResult) (parent : Option VerificationResult) (log : Log)
          → I log
          → I
              (verify_envelope host options request next correlation_id extracted mandate parent
                log).2
      unfolding verify_envelope
      verify_envelope-keeps mandate parent log h =
          after_keeps I _ _ log (verify-keeps envelope_kind extracted.documents.envelope log h)
            λ envelope l1 _ h1.
              if_keeps I (not envelope.verified) _ _ l1
                (refuse_document-keeps envelope envelope_kind (some mandate) parent l1 h1)
                λ _.
                  check_digest-keeps
                    (middleware_context request extracted correlation_id envelope mandate parent) l1
                    h1

      verify_parent-keeps :
          (document : Option Fields) (mandate : VerificationResult) (log : Log)
          → I log
          → I
              (verify_parent host options request next correlation_id extracted document mandate
                log).2
      unfolding verify_parent
      verify_parent-keeps none mandate log h = verify_envelope-keeps mandate none log h
      verify_parent-keeps (some document) mandate log h =
          after_keeps I _ _ log (verify_reusable-keeps parent_mandate_kind document log h)
            λ parent l1 _ h1.
              if_keeps I (not parent.verified) _ _ l1
                (refuse_document-keeps parent parent_mandate_kind (some mandate) none l1 h1)
                λ _. verify_envelope-keeps mandate (some parent) l1 h1

      protected_flow-keeps :
          (log : Log)
          → I log
          → I (protected_flow host options request next correlation_id extracted log).2
      unfolding protected_flow
      protected_flow-keeps log h = after_keeps I _ _ log h λ _ l0 _ h0.
          after_keeps I _ _ l0
            (verify_reusable-keeps mandate_kind extracted.documents.mandate l0 h0)
            λ mandate l1 _ h1.
              if_keeps I (not mandate.verified) _ _ l1
                (refuse_document-keeps mandate mandate_kind none none l1 h1)
                λ _. verify_parent-keeps extracted.documents.parent_mandate mandate l1 h1

recovered_log :
    (recover : Thrown → Response) (answer : Try Response × Option MiddlewareContext × Log)
    → (recovered recover answer).2 ≡ answer.2
recovered_log recover (got response, called, log) = refl
recovered_log recover (threw f, called, log) = refl

module _ (host : Host) (options : MiddlewareOptions) (I : Log → Type 0)
    (other : (event : Event) (log : Log) → is_other event ≡ true → I log → I (event ∷ log))
    (request : Request)
    (stores : (asked : Log) (kind : DocumentKind) (policy : Policy)
      → options.verification_policy asked kind request ≡ got policy
      → (state : Log) (key : Text) (expires now : ℕ) → I state
      → I (policy.replay.check_and_store state key expires now).1)
    (spends : (extracted : Extracted) (document : Fields)
      → host.mandate_of document ≡ got extracted.mandate
      → (extensions : EvaluationExtensions) (previous : UsageSnapshot) (at : ℕ)
        (evaluation : EvaluationResult)
      → Allows host.runtime (evaluation_request host extracted extensions previous at) evaluation
      → (log : Log) → I log
      → I
          (spend options.usage_store extracted.mandate.id previous evaluation.next_usage
            log).1) where
  respond_received-keeps :
      (next : Handler) (correlation_id : Text) (answer : Try Extracted × Log) (log : Log)
      → receive_request host options request log ≡ answer
      → I answer.1
      → I (respond_received host options request next correlation_id answer).2
  unfolding respond_received guarded
  respond_received-keeps next correlation_id (threw f, l) log e h = h
  respond_received-keeps next correlation_id (got extracted, l) log e h =
      let (document, is_mandate) = mandate_received host options request log l extracted e in
      rw
        (recovered_log (unavailable correlation_id extracted.envelope.id)
          (protected_flow host options request next correlation_id extracted l))
        (protected_flow-keeps host options I other request stores next correlation_id extracted
          (spends extracted document is_mandate) l h)

  respond_correlated-keeps :
      (next : Handler) (answer : Try Text × Log)
      → I answer.1
      → I (respond_correlated host options request next answer).2
  unfolding respond_correlated
  respond_correlated-keeps next (threw f, l) h = h
  respond_correlated-keeps next (got correlation_id, l) h =
      respond_received-keeps next correlation_id (receive_request host options request l) l refl
        (receive_request-keeps host options I other request l h)

  -- What every effect keeps, the middleware keeps.
  pub middleware-keeps :
      (next : Handler) (log : Log) → I log → I (middleware host options request next log).2
  unfolding middleware
  middleware-keeps next log h =
      respond_correlated-keeps next _ (correlation-keeps host options I other request _ _ log h)
