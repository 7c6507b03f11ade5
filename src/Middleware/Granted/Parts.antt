-- ===== src/Middleware/Granted/Parts.antt =====
-- What each guard of the middleware established, where it let the request pass.
use oati.Prelude.{
  Bool, true, false, not, ◌&&◌, ◌||◌, Option, none, some, [], ◌≡◌, ◌≢◌, refl, sym, ap, ◌∙◌, ◌⊎◌,
  Text, ◌==◌, ==_iff, or_false,
}
use oati.Json.{Fields}
use oati.Objects.{AgentMandate, consumed}
use oati.Evaluator.Types.{UsageSnapshot}
use oati.Crypto.Verify.{VerificationResult, verify_document}
use oati.Middleware.Types.{
  Thrown, Try, threw, got, Request, Response, DocumentKind, parent_mandate_kind, Extracted,
  EvaluationExtensions, Action, pure, MiddlewareContext, Log, Host, UsageStore, Policy,
  MiddlewareOptions,
}
use oati.Middleware.Headers.{http_request_digest}
use oati.Middleware.Receipts.{empty_usage}
use oati.Middleware.Flow.{
  no_extensions, ask_extensions, reusable_document_policy, requires_persistent_usage,
  digest_required, digest_unbound, is_given, verify, ask_policy, verify_by, load_usage, spend,
  recovered,
}
use oati.Middleware.Calls.{Calls, >>=-got, got-injective, verified_of}

module _ (host : Host) (options : MiddlewareOptions) (request : Request) where
  -- `verifyDocument` found the document verified, under the policy for its kind.
  pub record VerifiedAs (kind : DocumentKind) (prepare : Policy → Policy) (document : Fields)
      : Type 0 where
    pub policy : Policy
    pub asked : Log
    pub at : Log
    pub policy_is : options.verification_policy asked kind request ≡ got policy
    pub verified :
        (verify_document host.runtime host.signatures
          (prepare policy).replay
          (prepare policy).verification
          document
          at).0.verified
        ≡ true

  pub verify-VerifiedAs :
      (kind : DocumentKind) (prepare : Policy → Policy) (document : Fields) (log log' : Log)
      (result : VerificationResult)
      → verify host options request kind prepare document log ≡ (got result, log')
      → not result.verified ≡ false
      → VerifiedAs kind prepare document
  unfolding verify
  verify-VerifiedAs kind prepare document log log' result h k =
      let (policy, log1, asked, h1) =
        >>=-got (ask_policy host options request kind)
          (λ policy. verify_by host options (prepare policy) document) log log' result h in
      let same : (verify_document host.runtime host.signatures (prepare policy).replay
            (prepare policy).verification document log1).0
          ≡ result =
        got-injective _ result (ap (λ (r : Try VerificationResult × Log). r.0) h1) in
      record {
        policy = policy;
        asked = log;
        at = log1;
        policy_is = ap (λ (r : Try Policy × Log). r.0) asked;
        verified = ap (λ (r : VerificationResult). r.verified) same ∙ verified_of result.verified k;
      }

  abbrev pub ParentVerified : Option Fields → Type 0
  ParentVerified none = Unit {0}
  ParentVerified (some document) = VerifiedAs parent_mandate_kind reusable_document_policy document

  -- The extensions are those that the options supply for the request, or none.
  abbrev pub Supplied :
      Option (Log → Request → Extracted → Try EvaluationExtensions)
      → Extracted
      → EvaluationExtensions
      → Type 0
  Supplied none extracted extensions = extensions ≡ no_extensions
  Supplied (some supply) extracted extensions =
      (log : Log) × (supply log request extracted ≡ got extensions)

  pub ask_extensions-Supplied :
      (extracted : Extracted) (log log' : Log) (extensions : EvaluationExtensions)
      → ask_extensions host options request extracted log ≡ (got extensions, log')
      → Supplied options.evaluation_extensions extracted extensions
  ask_extensions-Supplied extracted log log' extensions h =
      by_option options.evaluation_extensions h
    where
      by_option :
          (given : Option (Log → Request → Extracted → Try EvaluationExtensions))
          → (let f : Action EvaluationExtensions = elim given [
            | none ↦ pure no_extensions
            | some supply ↦ λ log. (supply log request extracted, log)
          ] in
              f log ≡ (got extensions, log'))
          → Supplied given extracted extensions
      by_option none h =
          got-injective extensions no_extensions
            (sym (ap (λ (r : Try EvaluationExtensions × Log). r.0) h))
      by_option (some supply) h = (log, ap (λ (r : Try EvaluationExtensions × Log). r.0) h)

  -- The Envelope has the digest of the request, where that is asked for.
  abbrev pub Bound : Extracted → Type 0
  Bound extracted =
      (options.require_request_digest ≡ some false)
      ⊎ ((actual : Text) × (log log' : Log) × (http_request_digest host request
              options.max_body_bytes log
            ≡ (got actual, log'))
          × (extracted.envelope.request_digest ≡ some actual))

-- The usage was loaded from the store and replaced there by that which the evaluation gives. Without
-- a store there was none before, and the Mandate needs no record of it.
abbrev pub Spent : Option UsageStore → AgentMandate → UsageSnapshot → UsageSnapshot → Type 0
Spent none mandate previous next =
    (previous ≡ empty_usage)
    × (mandate.status ≢ consumed)
    × (mandate.limits ≡ none)
    × (mandate.profile ≡ none)
Spent (some store) mandate previous next =
    (log log' : Log) × (store.load log mandate.id ≡ got previous)
    × (store.compare_and_set log' mandate.id previous next ≡ got true)

pub some-injective :
    {given context : MiddlewareContext} → some given ≡ some context → context ≡ given
some-injective h = cc

pub differs_not :
    (expected : Option Text) (actual : Text)
    → digest_unbound expected actual ≡ false
    → expected ≡ some actual
differs_not none actual h = cc
differs_not (some expected) actual h =
    let (_, differs) = or_false (expected == []) (not (expected == actual)) h in
    ap (λ (t : Text). some t)
      ((==_iff expected actual).0 (verified_of (expected == actual) differs))

pub not_required : (asked : Option Bool) → digest_required asked ≡ false → asked ≡ some false
not_required none h = cc
not_required (some true) h = cc
not_required (some false) h = refl

absent {ℓ} : {A : Type ℓ} → (given : Option A) → is_given given ≡ false → given ≡ none
absent none h = refl
absent (some a) h = cc

unrecorded :
    (mandate : AgentMandate)
    → requires_persistent_usage mandate ≡ false
    → (mandate.status ≢ consumed) × (mandate.limits ≡ none) × (mandate.profile ≡ none)
unfolding requires_persistent_usage
unrecorded mandate h =
    let (unused, given) = or_false _ (is_given mandate.limits || is_given mandate.profile) h in
    let (limits, profile) = or_false (is_given mandate.limits) (is_given mandate.profile) given in
    (λ same. cc, absent mandate.limits limits, absent mandate.profile profile)

pub loaded_spent :
    (store : Option UsageStore) (mandate : AgentMandate) (previous next : UsageSnapshot)
    (log0 log1 log2 log3 : Log) (accepted : Bool)
    → load_usage store mandate.id log0 ≡ (got previous, log1)
    → not (is_given store) && requires_persistent_usage mandate ≡ false
    → spend store mandate.id previous next log2 ≡ (got accepted, log3)
    → not accepted ≡ false
    → Spent store mandate previous next
loaded_spent none mandate previous next log0 log1 log2 log3 accepted h needs k a =
    let (unused, limits, profile) = unrecorded mandate needs in
    (
      got-injective previous empty_usage (sym (ap (λ (r : Try UsageSnapshot × Log). r.0) h)),
      unused,
      limits,
      profile,
    )
loaded_spent (some store) mandate previous next log0 log1 log2 log3 accepted h needs k a = (
  log0,
  log2,
  ap (λ (r : Try UsageSnapshot × Log). r.0) h,
  ap (λ (r : Try Bool × Log). r.0) k ∙ ap (λ (b : Bool). got b) (verified_of accepted a),
)

pub called_before :
    (recover : Thrown → Response) (answer : Try Response × Option MiddlewareContext × Log)
    (context : MiddlewareContext)
    → (recovered recover answer).1 ≡ some context
    → Calls context answer
called_before recover (got response, called, log) context h = h
called_before recover (threw f, called, log) context h = h
