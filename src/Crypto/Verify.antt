-- ===== src/Crypto/Verify.antt =====
-- `verifyDocument` of sdk/typescript/src/crypto.ts. Text encoding, `JSON.parse` and Web Crypto are
-- parameters; the message of an exception that they raise is left out.
pub mod Effects
pub mod Checks
pub mod Verified
use oati.Prelude.{
  ℕ, Bool, true, false, not, ◌&&◌, ◌||◌, Option, none, some, List, [], ◌∷◌, ◌++◌, if◌then◌else◌,
  any, leb, Text, text, ◌==◌, includes, split, Result, ok, throw,
}
use oati.Json.{Json, null, bool, num, str, arr, obj, Items, nil, cons, Fields, get}
use oati.Evaluator.Conditions.{Runtime}
use oati.Canonical.{canonical_json}
use oati.Lookup.Records.{put}
use oati.Crypto.Types.{VerificationKey, VerificationIssue, Issues, issue}
use oati.Crypto.Trust.{TrustPolicy, check_revocation, validate_trust_chain}
use oati.Crypto.Period.{issue_if, check_proof_time, check_document_time, check_signer_binding}
use oati.Crypto.Base64.{from_base64url}
use oati.Crypto.Proof.{OatiJwsProof, parse_proof, oati_supported_algorithms, equals}
use oati.Crypto.Key.{check_key}

-- `throw` and `none` are exceptions. `verify` imports the key for the algorithm and verifies the
-- signature of the input.
pub record Signatures : Type 0 where
  pub encode : Text → List ℕ
  pub decode : List ℕ → Text
  pub parse_json : Text → Option Json
  pub verify : Text → Fields → List ℕ → List ℕ → Option Bool

-- `ReplayCache`, whose state is passed along.
pub record ReplayCache (State : Type 0) : Type 0 where
  pub check_and_store : State → Text → ℕ → ℕ → Bool × State

pub record VerificationPolicy : Type 0 where
  pub trust : TrustPolicy
  pub max_trust_depth : Option ℕ
  pub expected_audience : Text
  pub allowed_algorithms : Option (List Text)
  pub max_proof_age_ms : Option ℕ

pub record VerificationResult : Type 0 where
  pub verified : Bool
  pub algorithm : Option Text
  pub verification_method : Option Text
  pub issuer : Option Text
  pub issues : Issues

abbrev pub allowed_of : Option (List Text) → List Text
allowed_of none = oati_supported_algorithms
allowed_of (some algorithms) = algorithms

abbrev pub max_age_of : Option ℕ → ℕ
max_age_of none = 300000
max_age_of (some age) = age

abbrev pub no_issues : Issues → Bool
no_issues [] = true
no_issues _ = false

-- `result`
unfoldable pub verification_result : OatiJwsProof → Option Text → Issues → VerificationResult
verification_result proof issuer issues = record {
  verified = no_issues issues;
  algorithm = some proof.algorithm;
  verification_method = some proof.verification_method;
  issuer = issuer;
  issues = issues;
}

-- The checks of the proof and the document that need no key.
unfoldable pub check_claims : Runtime → VerificationPolicy → Fields → OatiJwsProof → Issues → Issues
unfolding issue_if check_proof_time check_document_time
check_claims rt policy document proof issues =
    let now = policy.trust.now in
    let skew = policy.trust.skew in
    issue_if (not (includes proof.audience policy.expected_audience)) (text "AUDIENCE_MISMATCH")
      (text "proof is not addressed to " ++ policy.expected_audience)
      (check_document_time rt document now skew (
        check_proof_time rt proof.created proof.expires now skew
          (max_age_of policy.max_proof_age_ms)
          (issue_if (not (includes (allowed_of policy.allowed_algorithms) proof.algorithm))
            (text "ALGORITHM_NOT_ALLOWED") (proof.algorithm ++ text " is not allowed") issues)))

abbrev pub critical : Option Json → Bool
critical (some (arr (cons (str s) nil))) = s == text "b64"
critical _ = false

abbrev pub is_false : Option Json → Bool
is_false (some (bool false)) = true
is_false _ = false

-- The protected header is for this proof.
unfoldable pub header_matches : OatiJwsProof → Option Json → Bool
header_matches proof (some (obj header)) =
    equals (get header (text "alg")) proof.algorithm
    && (equals (get header (text "kid")) proof.verification_method
        && (is_false (get header (text "b64"))
            && (equals (get header (text "typ")) (text "oati+jws")
                && critical (get header (text "crit")))))
header_matches proof _ = false

-- `joinSigningInput`
unfoldable pub join_signing_input : Signatures → Text → List ℕ → List ℕ
join_signing_input sigs header payload = sigs.encode (header ++ b'.' ∷ []) ++ payload

-- The bytes that were signed: the canonical text of the document without the signature.
unfoldable pub signing_input : Signatures → Fields → OatiJwsProof → Text → Option (List ℕ)
unfolding join_signing_input put canonical_json
signing_input sigs document proof header =
    elim (canonical_json (obj (put document (text "proof") (some (obj proof.unsigned))))) [
      | none ↦ none
      | some t ↦ some (join_signing_input sigs header (sigs.encode t))
    ]

abbrev pub decoded_header : Signatures → Option (List ℕ) → Option Json
decoded_header sigs none = none
decoded_header sigs (some bytes) = sigs.parse_json (sigs.decode bytes)

abbrev pub verified_by :
    Signatures → Text → Fields → Option (List ℕ) → Option (List ℕ) → Option Bool
verified_by sigs algorithm jwk (some signature) (some input) =
    sigs.verify algorithm jwk signature input
verified_by sigs algorithm jwk _ _ = none

-- The parts of the detached signature; `none` is an exception.
unfoldable pub check_parts :
    Signatures → Fields → OatiJwsProof → VerificationKey → List Text → Option Bool
unfolding header_matches signing_input from_base64url
check_parts sigs document proof key (header ∷ [] ∷ signature ∷ rest) =
    if header_matches proof (decoded_header sigs (from_base64url header))
    then verified_by sigs proof.algorithm key.public_key_jwk (from_base64url signature)
        (signing_input sigs document proof header)
    else none
check_parts sigs document proof key _ = none

-- The issue of a signature that is not valid.
unfoldable pub report_signature : Option Bool → Issues → Issues
unfolding issue
report_signature (some true) issues = issues
report_signature (some false) issues =
    issue (text "SIGNATURE_INVALID") (text "detached JWS signature is invalid") issues
report_signature none issues = issue (text "SIGNATURE_INVALID") [] issues

abbrev pub has_code : Text → Issues → Bool
has_code code issues = any (λ (i : VerificationIssue). i.code == code) issues

-- The signature is not checked for a malformed proof or an algorithm that is not allowed.
unfoldable pub check_signature :
    Signatures → Fields → OatiJwsProof → VerificationKey → Issues → Issues
unfolding check_parts report_signature split
check_signature sigs document proof key issues =
    if has_code (text "PROOF_MALFORMED") issues || has_code (text "ALGORITHM_NOT_ALLOWED") issues
    then issues
    else report_signature (check_parts sigs document proof key (split b'.' proof.signature)) issues

-- `documentId`
abbrev pub document_id : Option Json → Text
document_id (some (str s)) = s
document_id _ = []

-- The checks of a key that was resolved.
unfoldable pub check_with_key :
    Runtime
    → Signatures
    → VerificationPolicy
    → Fields
    → OatiJwsProof
    → VerificationKey
    → Issues
    → Option Text × Issues
unfolding check_key validate_trust_chain check_revocation check_signer_binding check_signature
check_with_key rt sigs policy document proof key issues =
    let now = policy.trust.now in
    let (issuer, chained) =
      validate_trust_chain rt policy.trust policy.max_trust_depth key.issuer
        (check_key rt key proof now policy.trust.skew issues) in
    let revoked =
      check_revocation rt policy.trust.resolver
        (key.id ∷ key.issuer ∷ document_id (get document (text "id")) ∷ []) now chained in
    (
      issuer,
      check_signature sigs document proof key
          (check_signer_binding document key.controller key.issuer revoked),
    )

-- `${verification_method}\u0000${expectedAudience}\u0000${nonce}`
abbrev pub replay_key : VerificationPolicy → OatiJwsProof → Text
replay_key policy proof =
    proof.verification_method ++ (0 ∷ (policy.expected_audience ++ (0 ∷ proof.nonce)))

-- The time of a date; that of a proof without issues is valid.
abbrev pub time_of : Option ℕ → ℕ
time_of none = 0
time_of (some t) = t

module _ {State : Type 0} (rt : Runtime) (sigs : Signatures) (replay : ReplayCache State) where
  -- A nonce is stored only where nothing else was found.
  unfoldable pub check_replay :
      VerificationPolicy → OatiJwsProof → Option Text → Issues → State → VerificationResult × State
  unfolding issue verification_result
  check_replay policy proof issuer [] state =
      let (fresh, state') =
        replay.check_and_store state (replay_key policy proof)
          (time_of (rt.parse_date proof.expires)) policy.trust.now in
      (
        verification_result proof issuer (
            if fresh
            then []
            else issue (text "REPLAY_DETECTED") (text "proof nonce has already been accepted") []),
        state',
      )
  check_replay policy proof issuer (i ∷ issues) state =
      (verification_result proof issuer (i ∷ issues), state)

  unfoldable pub verify_with :
      VerificationPolicy
      → Fields
      → OatiJwsProof
      → Issues
      → State
      → Result (Option VerificationKey)
      → VerificationResult × State
  unfolding issue verification_result check_with_key check_replay
  verify_with policy document proof issues state (throw e) = (
    verification_result proof none (
        issue (text "KEY_NOT_FOUND")
          (text "verification key " ++ proof.verification_method ++ text " could not be resolved")
          issues),
    state,
  )
  verify_with policy document proof issues state (ok none) = (
    verification_result proof none (
        issue (text "KEY_NOT_FOUND")
          (text "verification key " ++ proof.verification_method ++ text " was not found") issues),
    state,
  )
  verify_with policy document proof issues state (ok (some key)) =
      let (issuer, found) = check_with_key rt sigs policy document proof key issues in
      check_replay policy proof issuer found state

  unfoldable pub verify_parsed :
      VerificationPolicy
      → Fields
      → Option OatiJwsProof × Issues
      → State
      → VerificationResult × State
  unfolding check_claims verify_with
  verify_parsed policy document (none, issues) state = (
    record {
      verified = false;
      algorithm = none;
      verification_method = none;
      issuer = none;
      issues = issues;
    },
    state,
  )
  verify_parsed policy document (some proof, issues) state =
      verify_with policy document proof (check_claims rt policy document proof issues) state
        (policy.trust.resolver.resolve_key proof.verification_method)

  -- `verifyDocument`
  unfoldable pub verify_document : VerificationPolicy → Fields → State → VerificationResult × State
  unfolding parse_proof verify_parsed
  verify_document policy document state =
      verify_parsed policy document (parse_proof (get document (text "proof")) []) state
