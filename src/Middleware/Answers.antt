-- ===== src/Middleware/Answers.antt =====
-- How a request is answered.
mod Problems
pub use Problems.*
use oati.Prelude.{
  ℕ, Bool, true, false, not, ◌&&◌, Option, none, some, List, [], ◌∷◌, ◌≡◌, refl, sym, ap, ◌∙◌, ◌⊎◌,
  inl, inr, if◌then◌else◌, eqb, Text, text, ◌==◌, any, arith,
}
use oati.Prelude.Ints.{pos}
use oati.Json.{num, obj, Fields, get}
use oati.Objects.Terms.{Outcome, denied, outcome_failed}
use oati.Evaluator.Types.{EvaluationResult}
use oati.Crypto.Verify.{VerificationResult}
use oati.Middleware.Types.{
  Thrown, oati_error, Try, threw, got, Request, Response, json_body, DocumentKind, envelope_kind,
  mandate_kind, parent_mandate_kind, Extracted, MiddlewareContext, Log, Action, ◌>>=◌, pure,
  try_or_else, called_handler, Host, MiddlewareOptions, Handler,
}
use oati.Middleware.Headers.{encode_oati_header, correlation, correlation_id_header}
use oati.Middleware.Receipts.{
  middleware_context, safe_error, problem, denial, labelled, issue_receipt, attach_receipt,
  receipt_response, denied_verification,
}
use oati.Middleware.Flow.{
  Flow, is_given, requires_persistent_usage, is_allow, digest_required, digest_unbound, after,
  answered, outcome_of, call_handler, refuse_with, act_on, evaluate, use_mandate, check_digest,
  refuse_document, verify_envelope, verify_parent, protected_flow, receive_request, guarded,
  conflict_context, recovered, is_code, respond_received, respond_correlated, middleware,
  bad_request, unavailable,
}
use oati.Middleware.Issued.{Receipted, issued-Receipted}
use oati.Middleware.Calls.{>>=-got, got-injective}

module _ (host : Host) (options : MiddlewareOptions) where
  receipt_response-Stated :
      (context : MiddlewareContext) (outcome : Outcome) (status at : ℕ) (code : Text)
      (log log' : Log) (response : Response)
      → receipt_response host options context outcome status at code log ≡ (got response, log')
      → Stated status response
  unfolding receipt_response
  receipt_response-Stated context outcome status at code log log' response h =
      let (receipt, l1, _, h1) =
        >>=-got (issue_receipt host options context outcome at)
          (λ receipt. attach_receipt host (denial context status code receipt) receipt context) log
          log' response h in
      same-Stated status (denial context status code receipt) response
        (attach_receipt-got host (denial context status code receipt) response receipt context l1
          log' h1)
        (denial-Stated context status code receipt)

  receipt_response-Receipted :
      (context : MiddlewareContext) (outcome : Outcome) (status at : ℕ) (code : Text)
      (log log' : Log) (response : Response)
      → receipt_response host options context outcome status at code log ≡ (got response, log')
      → Receipted host options context outcome response
  unfolding receipt_response
  receipt_response-Receipted context outcome status at code log log' response h =
      let (receipt, l1, issued, h1) =
        >>=-got (issue_receipt host options context outcome at)
          (λ receipt. attach_receipt host (denial context status code receipt) receipt context) log
          log' response h in
      issued-Receipted host options context outcome at receipt log l1 issued
        (denial context status code receipt) response l1 log' h1

  denied_verification-Refused :
      (request : Request) (extracted : Extracted) (correlation_id : Text)
      (verification : VerificationResult) (kind : DocumentKind) (at : ℕ)
      (mandate parent : Option VerificationResult) (log : Log) (response : Response) (log' : Log)
      → denied_verification host options request extracted correlation_id verification kind at
          mandate parent log
        ≡ (got response, log')
      → Refused refusals response
  unfolding denied_verification refusals
  denied_verification-Refused request extracted correlation_id verification kind at mandate parent
        log response log' h =
      elim (try_or_else-got _ _ log log' response h) [
        | inl (l, e) ↦ (401, refl, receipt_response-Stated _ denied 401 at _ log l response e)
        | inr e ↦ (
          503,
          refl,
          rw (← e) (
              problem-Stated (oati_error (text "MIDDLEWARE_UNAVAILABLE")) 503
                (text "Receipt generation unavailable") (some correlation_id)
                (some extracted.envelope.id)),
        )
      ]

  -- The flow answers as `Answer` has it, where it does not throw.
  module _ (next : Handler) where
    -- What an action returned is what is answered.
    returned-Post :
        (called : Option MiddlewareContext) (answer : Try Response × Log)
        → ((response : Response) (log' : Log)
            → answer ≡ (got response, log')
            → Answer host options next response called)
        → Post host options next (answer.0, called, answer.1)
    unfolding Post
    returned-Post called (got response, log') h = h response log' refl
    returned-Post called (threw f, log') h = tt

    after-Post {ℓ} :
        {A : Type ℓ} (call : Action A) (rest : A → Flow) (log : Log)
        → ((a : A) (log' : Log) → Post host options next (rest a log'))
        → Post host options next (after call rest log)
    unfolding after Post
    after-Post {A} call rest log h = by_answer (call log)
      where
        by_answer :
            (answer : Try A × Log)
            → Post host options next (elim answer.0 [
              | got value ↦ rest value answer.1
              | threw failure ↦ (threw failure, none, answer.1)
            ])
        by_answer (got a, log') = h a log'
        by_answer (threw f, log') = tt

    if-Post :
        (test : Bool) (x y : Flow) (log : Log)
        → Post host options next (x log)
        → Post host options next (y log)
        → Post host options next ((if test then x else y) log)
    if-Post true x y log h k = h
    if-Post false x y log h k = k

    refuse_with-Post :
        (context : MiddlewareContext) (status : ℕ) (code : Text) (log : Log)
        → any (eqb status) refusals ≡ true
        → Post host options next (refuse_with host options context status code log)
    unfolding refuse_with Post ◌>>=◌
    refuse_with-Post context status code log allowed =
        returned-Post none
          (receipt_response host options context denied status (options.now log) code log)
          λ response log' h. (
            status,
            allowed,
            receipt_response-Stated context denied status (options.now log) code log log' response
                h,
          )

    answered-Follows :
        (context : MiddlewareContext) (result : Try Response) (log log' : Log) (response : Response)
        → answered host options context result log ≡ (got response, log')
        → Follows host options context result response
    unfolding answered ◌>>=◌
    answered-Follows context (threw f) log log' response h = (
      receipt_response-Stated context outcome_failed 500 (options.now log)
          (text "MIDDLEWARE_FORBIDDEN") log log' response h,
      receipt_response-Receipted context outcome_failed 500 (options.now log)
          (text "MIDDLEWARE_FORBIDDEN") log log' response h,
    )
    answered-Follows context (got downstream) log log' response h =
        let outcome = outcome_of options.allowed_receipt_outcome downstream.status in
        let (receipt, l1, issued, h1) =
          >>=-got (issue_receipt host options context outcome (options.now log))
            (λ receipt. attach_receipt host downstream receipt context) log log' response h in
        let (status, body) =
          attach_receipt-got host downstream response receipt context l1 log' h1 in
        (
          status,
          body,
          issued-Receipted host options context outcome (options.now log) receipt log l1 issued
              downstream response l1 log' h1,
        )

    call_handler-Post :
        (context : MiddlewareContext) (log : Log)
        → Post host options next (call_handler host options next context log)
    unfolding call_handler
    call_handler-Post context log =
        let result = next log context.request context in
        returned-Post (some context)
          (answered host options context result (called_handler context ∷ log))
          λ response log' h.
            inl
              (log, answered-Follows context result (called_handler context ∷ log) log' response h)

    module _ (request : Request) (correlation_id : Text) (extracted : Extracted) where
      use_mandate-Post :
          (context_of : EvaluationResult → MiddlewareContext) (log : Log)
          → Post host options next
              (use_mandate host options request next correlation_id extracted context_of log)
      unfolding use_mandate evaluate act_on refusals
      use_mandate-Post context_of log = after-Post _ _ log λ extensions l1.
          after-Post _ _ l1 λ previous l2.
            if-Post
              (not (is_given options.usage_store) && requires_persistent_usage extracted.mandate) _
              _ l2 (refuse_with-Post _ 503 (text "MIDDLEWARE_UNAVAILABLE") l2 refl)
              (after-Post _ _ l2 λ at l3. after-Post _ _ l3 λ evaluation l4.
                if-Post (not (is_allow evaluation.decision)) _ _ l4
                  (refuse_with-Post (context_of evaluation) 403 (text "MIDDLEWARE_FORBIDDEN") l4
                    refl)
                  (after-Post _ _ l4 λ accepted l5.
                    if-Post (not accepted) _ _ l5
                      (refuse_with-Post (conflict_context (context_of evaluation) extracted) 409
                        (text "MIDDLEWARE_USAGE_CONFLICT") l5 refl)
                      (call_handler-Post _ l5)))

      check_digest-Post :
          (context_of : EvaluationResult → MiddlewareContext) (log : Log)
          → Post host options next
              (check_digest host options request next correlation_id extracted context_of log)
      unfolding check_digest refusals
      check_digest-Post context_of log =
          if-Post (digest_required options.require_request_digest) _ _ log
            (after-Post _ _ log λ actual l1.
              if-Post (digest_unbound extracted.envelope.request_digest actual) _ _ l1
                (refuse_with-Post _ 401 _ l1 refl) (use_mandate-Post context_of l1))
            (use_mandate-Post context_of log)

      refuse_document-Post :
          (verification : VerificationResult) (kind : DocumentKind)
          (mandate parent : Option VerificationResult) (log : Log)
          → Post host options next (
              refuse_document host options request next correlation_id extracted verification kind
                mandate parent log)
      unfolding refuse_document Post ◌>>=◌
      refuse_document-Post verification kind mandate parent log =
          returned-Post none
            (denied_verification host options request extracted correlation_id verification kind
              (options.now log) mandate parent log)
            (denied_verification-Refused request extracted correlation_id verification kind
              (options.now log) mandate parent log)

      verify_envelope-Post :
          (mandate : VerificationResult) (parent : Option VerificationResult) (log : Log)
          → Post host options next (
              verify_envelope host options request next correlation_id extracted mandate parent log)
      unfolding verify_envelope
      verify_envelope-Post mandate parent log = after-Post _ _ log λ envelope l1.
          if-Post (not envelope.verified) _ _ l1
            (refuse_document-Post envelope envelope_kind (some mandate) parent l1)
            (check_digest-Post
              (middleware_context request extracted correlation_id envelope mandate parent) l1)

      verify_parent-Post :
          (document : Option Fields) (mandate : VerificationResult) (log : Log)
          → Post host options next (
              verify_parent host options request next correlation_id extracted document mandate log)
      unfolding verify_parent
      verify_parent-Post none mandate log = verify_envelope-Post mandate none log
      verify_parent-Post (some document) mandate log = after-Post _ _ log λ parent l1.
          if-Post (not parent.verified) _ _ l1
            (refuse_document-Post parent parent_mandate_kind (some mandate) none l1)
            (verify_envelope-Post mandate (some parent) l1)

      protected_flow-Post :
          (log : Log)
          → Post host options next
              (protected_flow host options request next correlation_id extracted log)
      unfolding protected_flow
      protected_flow-Post log = after-Post _ _ log λ _ l0. after-Post _ _ l0 λ mandate l1.
          if-Post (not mandate.verified) _ _ l1
            (refuse_document-Post mandate mandate_kind none none l1)
            (verify_parent-Post extracted.documents.parent_mandate mandate l1)

-- Every refusal for an outage is one of the refusals.
outage-Refused : (response : Response) → Refused outages response → Refused refusals response
unfolding outages refusals
outage-Refused response (status, h, stated) = (status, ground arith, stated)

either_problem :
    (statuses : List ℕ) (test : Bool) (failure : Thrown) (a b : ℕ) (title other_title : Text)
    (correlation_id transaction_id : Option Text)
    → any (eqb a) statuses ≡ true
    → any (eqb b) statuses ≡ true
    → Refused statuses (
        if test
        then problem failure a title correlation_id transaction_id
        else problem failure b other_title correlation_id transaction_id)
either_problem statuses true failure a b title other_title correlation_id transaction_id h k =
    (a, h, problem-Stated failure a title correlation_id transaction_id)
either_problem statuses false failure a b title other_title correlation_id transaction_id h k =
    (b, k, problem-Stated failure b other_title correlation_id transaction_id)

unavailable-Refused :
    (correlation_id transaction_id : Text) (failure : Thrown)
    → Refused outages (unavailable correlation_id transaction_id failure)
unfolding unavailable outages
unavailable-Refused correlation_id transaction_id failure =
    either_problem outages (is_code failure (text "MIDDLEWARE_REPLAY"))
      (safe_error failure (text "MIDDLEWARE_UNAVAILABLE")) 401 503 (text "Replay rejected")
      (text "OATI middleware unavailable") (some correlation_id) (some transaction_id) refl refl

bad_request-Refused :
    (failure : Thrown) (correlation_id : Option Text)
    → Refused refusals (bad_request failure correlation_id)
unfolding bad_request refusals
bad_request-Refused failure correlation_id =
    let safe = safe_error failure (text "MIDDLEWARE_BAD_REQUEST") in
    either_problem refusals (is_code safe (text "MIDDLEWARE_UNAVAILABLE")) safe 503 400
      (text "OATI middleware unavailable") (text "Invalid OATI request") correlation_id none refl
      refl

abbrev pub Answers :
    Host → MiddlewareOptions → Handler → Response × Option MiddlewareContext × Log → Type 0
Answers host options next (response, called, log) = Answer host options next response called

recovered-Answers :
    (host : Host) (options : MiddlewareOptions) (next : Handler) (recover : Thrown → Response)
    (answer : Try Response × Option MiddlewareContext × Log)
    → ((failure : Thrown) → Refused outages (recover failure))
    → Post host options next answer
    → Answers host options next (recovered recover answer)
unfolding Post
recovered-Answers host options next recover (got response, called, log) outage h = h
recovered-Answers host options next recover (threw f, none, log) outage h =
    outage-Refused (recover f) (outage f)
recovered-Answers host options next recover (threw f, some context, log) outage h = inr (outage f)

module _ (host : Host) (options : MiddlewareOptions) (request : Request) (next : Handler) where
  respond_received-Answers :
      (correlation_id : Text) (answer : Try Extracted × Log)
      → Answers host options next (respond_received host options request next correlation_id answer)
  unfolding respond_received guarded
  respond_received-Answers correlation_id (threw f, log) =
      bad_request-Refused f (some correlation_id)
  respond_received-Answers correlation_id (got extracted, log) =
      recovered-Answers host options next (unavailable correlation_id extracted.envelope.id)
        (protected_flow host options request next correlation_id extracted log)
        (unavailable-Refused correlation_id extracted.envelope.id)
        (protected_flow-Post host options next request correlation_id extracted log)

  respond_correlated-Answers :
      (answer : Try Text × Log)
      → Answers host options next (respond_correlated host options request next answer)
  unfolding respond_correlated
  respond_correlated-Answers (threw f, log) = bad_request-Refused f none
  respond_correlated-Answers (got correlation_id, log) =
      respond_received-Answers correlation_id (receive_request host options request log)

  -- Every request is answered. If the handler is not called, by a problem document with the status
  -- 400, 401, 403, 409 or 503, which it names. If the handler returns a response, with that status
  -- and body; if it throws, by a problem document with the status 500; in both cases with the
  -- identifier of a valid receipt that the signer returned for what came of the call, and whose
  -- canonical text without the proof is that of the draft; or else, where the handler was called, by
  -- a problem document with the status 401 or 503.
  pub middleware-Answers :
      (log : Log) → Answers host options next (middleware host options request next log)
  unfolding middleware
  middleware-Answers log =
      respond_correlated-Answers (
        correlation host (request.headers correlation_id_header) options.generate_correlation_id
          log)
