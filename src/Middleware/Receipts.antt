-- ===== src/Middleware/Receipts.antt =====
-- The responses of middleware.ts and the receipts that they carry.
mod Problems
unfoldable pub use Problems.*
use oati.Prelude.{
  ℕ, Bool, false, not, Option, none, some, List, [], ◌∷◌, ◌++◌, if◌then◌else◌, leb, eqb, length,
  any, map, Text, text, ◌==◌, starts_with,
}
use oati.Prelude.Ints.{pos}
use oati.Json.{num, str, arr, obj, Items, nil, cons, Fields, end, field, get}
use oati.Canonical.{canonical_json}
use oati.Objects.Terms.{Outcome, succeeded, outcome_failed, denied, pending, unknown}
use oati.Evaluator.Types.{UsageSnapshot, Verdict, allow, deny, EvaluationResult}
use oati.Evaluator.Reasons.{add, sort}
use oati.Crypto.Types.{VerificationIssue}
use oati.Crypto.Proof.{without, string_value}
use oati.Crypto.Verify.{VerificationResult}
use oati.Middleware.Types.{
  Thrown, oati_error, other_error, got, Headers, set_header, Request, json_body, Response,
  DocumentKind, envelope_kind, mandate_kind, parent_mandate_kind, Extracted, MiddlewareContext,
  signed_receipt, emitted_receipt, Action, ◌>>=◌, ◌>>◌, pure, raise_if, lift, tries, try_or_else,
  Host, MiddlewareOptions,
}
use oati.Middleware.Headers.{
  transaction_id_header, correlation_id_header, receipt_header, receipt_id_header, or_default,
  safe_uuid, canonical_or_fail, encode_oati_header,
}

abbrev decision_text : Verdict → Text
decision_text allow = text "allow"
decision_text deny = text "deny"

abbrev outcome_text : Outcome → Text
outcome_text succeeded = text "succeeded"
outcome_text outcome_failed = text "failed"
outcome_text denied = text "denied"
outcome_text pending = text "pending"
outcome_text unknown = text "unknown"

abbrev texts : List Text → Items
texts [] = nil
texts (t ∷ ts) = cons (str t) (texts ts)

-- `...(value ? { [key]: value } : {})`
abbrev if_given : Text → Option Text → Fields → Fields
if_given key none rest = rest
if_given key (some []) rest = rest
if_given key (some (c ∷ s)) rest = field key (str (c ∷ s)) rest

-- The draft of a receipt, with its version.
unfoldable pub receipt_draft :
    Host → MiddlewareOptions → MiddlewareContext → Outcome → ℕ → Text → Fields
receipt_draft host options context outcome at id = field (text "oati_version") (str (text "1.0")) (
    field (text "id") (str id) (
      field (text "transaction_id") (str context.transaction_id) (
        field (text "agent_id") (str context.envelope.agent_id) (
          field (text "organisation_id") (str context.envelope.organisation_id) (
            field (text "mandate_id") (str context.mandate.id) (
              field (text "decision") (str (decision_text context.evaluation.decision)) (
                field (text "outcome") (str (outcome_text outcome)) (
                  field (text "occurred_at") (str (host.to_iso_string at)) (
                    field (text "issuer") (str options.receipt_issuer) (
                      field (text "policy_digest")
                        (str (
                          or_default options.policy_digest
                            (text "sha256:oati-reference-evaluator-v1")))
                        (if_given (text "request_digest") context.envelope.request_digest (
                          if_given (text "commercial_profile") context.envelope.commercial_profile (
                            field (text "extensions")
                              (obj (
                                field (text "correlation_id") (str context.correlation_id) (
                                  field (text "reason_codes")
                                    (arr (texts context.evaluation.reason_codes))
                                    (if_given (text "counterparty_organisation_id")
                                      context.envelope.counterparty end))))
                              end)))))))))))))

abbrev pub receipt_id_of : Host → MiddlewareOptions → Text → Action Text
receipt_id_of host options transaction_id = elim options.generate_receipt_id [
  | none ↦ (do uuid ← safe_uuid host; pure (text "oati:receipt:" ++ uuid))
  | some generate ↦ λ log. (got (generate log transaction_id), log)
]

abbrev pub emit : MiddlewareOptions → Fields → MiddlewareContext → Action (Unit {0})
emit options receipt context = elim options.emit_receipt [
  | none ↦ pure tt
  | some send ↦ tries (λ log. send log receipt context) (emitted_receipt receipt)
]

-- `issueReceipt`: a signer that changes the draft is refused.
unfoldable pub issue_receipt :
    Host → MiddlewareOptions → MiddlewareContext → Outcome → ℕ → Action Fields
unfolding receipt_draft safe_uuid without canonical_json
issue_receipt host options context outcome at = do
  id ← receipt_id_of host options context.transaction_id
  let draft = receipt_draft host options context outcome at id
  receipt ←
      tries (λ log. options.sign_receipt log (without draft (text "oati_version")) context)
        (signed_receipt draft)
  lift (host.check_receipt receipt)
  signed ← lift (canonical_or_fail (canonical_json (obj (without receipt (text "proof")))))
  asked ← lift (canonical_or_fail (canonical_json (obj draft)))
  raise_if (not (signed == asked)) (text "MIDDLEWARE_UNAVAILABLE")
  emit options receipt context
  pure receipt

-- The response with the headers for its receipt.
unfoldable pub labelled : Response → Fields → MiddlewareContext → Text → Response
labelled response receipt context encoded =
    let named =
      set_header correlation_id_header context.correlation_id
        (set_header transaction_id_header context.transaction_id response.headers) in
    let carrying =
      if leb (length encoded) 8192 then set_header receipt_header encoded named else named in
    record response {
      headers = set_header receipt_id_header (string_value (get receipt (text "id"))) carrying;
    }

-- `attachReceipt`
unfoldable pub attach_receipt : Host → Response → Fields → MiddlewareContext → Action Response
unfolding encode_oati_header labelled
attach_receipt host response receipt context = do
  encoded ← encode_oati_header host receipt
  pure (labelled response receipt context encoded)

unfoldable pub denial_title : ℕ → Text
denial_title status =
    if eqb status 401
    then text "OATI authentication failed"
    else if eqb status 409
    then text "OATI usage conflict"
    else if eqb status 503
    then text "OATI authority unavailable"
    else text "OATI authority denied"

unfoldable pub denial : MiddlewareContext → ℕ → Text → Fields → Response
unfolding denial_title
denial context status code receipt = record {
  status = status;
  headers = problem_headers;
  body = json_body (
      obj (
        field (text "type") (str (text "https://specs.intelliger.ai/oati/problems/authorization")) (
          field (text "title") (str (denial_title status)) (
            field (text "status") (num (pos status)) (
              field (text "code") (str code) (
                field (text "reason_codes") (arr (texts context.evaluation.reason_codes))
                  (field (text "receipt") (obj receipt) end)))))));
}

-- `receiptResponse`
unfoldable pub receipt_response :
    Host → MiddlewareOptions → MiddlewareContext → Outcome → ℕ → ℕ → Text → Action Response
unfolding issue_receipt denial attach_receipt
receipt_response host options context outcome status at code = do
  receipt ← issue_receipt host options context outcome at
  attach_receipt host (denial context status code receipt) receipt context

unfoldable pub kind_text : DocumentKind → Text
kind_text envelope_kind = text "ENVELOPE"
kind_text mandate_kind = text "MANDATE"
kind_text parent_mandate_kind = text "PARENT_MANDATE"

-- The verifications that a denial reports: the one that failed, and those before it.
unfoldable pub denied_context :
    Request
    → Extracted
    → Text
    → VerificationResult
    → DocumentKind
    → Option VerificationResult
    → Option VerificationResult
    → EvaluationResult
    → MiddlewareContext
unfolding middleware_context failed_verification
denied_context request extracted correlation_id verification envelope_kind mandate parent
      evaluation =
    middleware_context request extracted correlation_id verification
      (or_default mandate (failed_verification (text "MANDATE_NOT_VERIFIED"))) parent evaluation
denied_context request extracted correlation_id verification mandate_kind mandate parent
      evaluation =
    middleware_context request extracted correlation_id
      (failed_verification (text "ENVELOPE_NOT_VERIFIED")) verification parent evaluation
denied_context request extracted correlation_id verification parent_mandate_kind mandate parent
      evaluation =
    middleware_context request extracted correlation_id
      (failed_verification (text "ENVELOPE_NOT_VERIFIED"))
      (or_default mandate (failed_verification (text "MANDATE_NOT_VERIFIED"))) (some verification)
      evaluation

-- `deniedVerification`
unfoldable pub denied_verification :
    Host
    → MiddlewareOptions
    → Request
    → Extracted
    → Text
    → VerificationResult
    → DocumentKind
    → ℕ
    → Option VerificationResult
    → Option VerificationResult
    → Action Response
unfolding denied_evaluation kind_text denied_context receipt_response problem
denied_verification host options request extracted correlation_id verification kind at mandate
      parent =
    let replay =
      any (λ (i : VerificationIssue). i.code == text "REPLAY_DETECTED") verification.issues in
    let evaluation =
      denied_evaluation extracted
        (map (λ (i : VerificationIssue). kind_text kind ++ (b'_' ∷ i.code)) verification.issues) in
    let context =
      denied_context request extracted correlation_id verification kind mandate parent evaluation in
    try_or_else
      (receipt_response host options context denied 401 at
        (if replay then text "MIDDLEWARE_REPLAY" else text "MIDDLEWARE_UNAUTHENTICATED"))
      (problem (oati_error (text "MIDDLEWARE_UNAVAILABLE")) 503
        (text "Receipt generation unavailable") (some correlation_id) (some extracted.envelope.id))
