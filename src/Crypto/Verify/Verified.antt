-- ===== src/Crypto/Verify/Verified.antt =====
-- What a verified document satisfies.
use oati.Prelude.{
  ℕ, Bool, true, false, ◌||◌, Option, none, some, [], ◌∷◌, ◌≡◌, refl, ap, ◌∙◌, Text, text, split,
  Result, ok, throw, arith, Bool-cases, inl, inr, suc,
}
use oati.Json.{Fields, get}
use oati.Evaluator.Consumption.{or_else}
use oati.Evaluator.Conditions.{Runtime}
use oati.Crypto.Types.{VerificationKey, Issues, issue}
use oati.Crypto.Trust.{TrustPolicy, check_revocation, check_revocation_from, validate_trust_chain}
use oati.Crypto.Trust.Chain.{
  Clear, Reaches, issue-ne-nil, check_target-eq-nil, follow_chain-Reaches,
}
use oati.Crypto.Period.{check_signer_binding, claimed_signer, unbound}
use oati.Crypto.Period.Timely.{BoundTo, issue_if-eq-nil, unbound-BoundTo}
use oati.Crypto.Proof.{OatiJwsProof, parse_proof}
use oati.Crypto.Key.{check_key}
use oati.Crypto.Verify.{
  Signatures, ReplayCache, VerificationPolicy, check_claims, report_signature, check_signature,
  has_code, document_id, check_with_key, replay_key, time_of, check_replay, verification_result,
  verify_with, verify_parsed, verify_document, no_issues,
}
use oati.Crypto.Verify.Checks.{
  Claims, check_claims-Claims, Fits, check_key-Fits, Signed, check_parts-Signed,
}

report_signature-eq-nil :
    (valid : Option Bool) (issues : Issues)
    → report_signature valid issues ≡ []
    → (issues ≡ []) × (valid ≡ some true)
unfolding report_signature
report_signature-eq-nil (some true) issues h = (h, refl)
report_signature-eq-nil (some false) issues h = absurd (issue-ne-nil _ _ issues h)
report_signature-eq-nil none issues h = absurd (issue-ne-nil _ _ issues h)

check_signature-Signed :
    (sigs : Signatures) (document : Fields) (proof : OatiJwsProof) (key : VerificationKey)
    (issues : Issues)
    → check_signature sigs document proof key issues ≡ []
    → (issues ≡ []) × Signed sigs document proof key
unfolding check_signature
check_signature-Signed sigs document proof key [] h =
    let (start, valid) = report_signature-eq-nil _ [] h in
    (refl, check_parts-Signed sigs document proof key (split b'.' proof.signature) refl valid)
check_signature-Signed sigs document proof key (i ∷ issues) h =
    elim (Bool-cases (
      has_code (text "PROOF_MALFORMED") (i ∷ issues)
      || has_code (text "ALGORITHM_NOT_ALLOWED") (i ∷ issues))) [
        | inl skipped ↦ let full : i ∷ issues ≡ [] = rw skipped at h in cc
        | inr checked ↦
            let (full, _) = report_signature-eq-nil _ (i ∷ issues) (rw checked at h) in cc
      ]

chain-Reaches :
    (rt : Runtime) (p : TrustPolicy) (depth : Option ℕ) (start : Text) (issues : Issues)
    (r : Option Text)
    → validate_trust_chain rt p depth start issues ≡ (r, [])
    → (issues ≡ [])
      × (anchor : Text) × (r ≡ some anchor)
      × Reaches rt p anchor (suc (or_else depth 8)) start
unfolding validate_trust_chain
chain-Reaches rt p none start issues r h = follow_chain-Reaches rt p start 9 start [] issues r h
chain-Reaches rt p (some depth) start issues r h =
    follow_chain-Reaches rt p start (suc depth) start [] issues r h

chain_of : (answer : Option Text × Issues) → answer.1 ≡ [] → answer ≡ (answer.0, [])
chain_of answer h = ap (λ (i : Issues). (answer.0, i)) h

check_revocation-Clear :
    (rt : Runtime) (p : TrustPolicy) (key issuer id : Text) (issues : Issues)
    → check_revocation rt p.resolver (key ∷ issuer ∷ id ∷ []) p.now issues ≡ []
    → (issues ≡ []) × Clear rt p key × Clear rt p issuer × Clear rt p id
unfolding check_revocation check_revocation_from
check_revocation-Clear rt p key issuer id issues h =
    let (h1, third) = check_target-eq-nil rt p 2 id _ h in
    let (h2, second) = check_target-eq-nil rt p 1 issuer _ h1 in
    let (h3, first) = check_target-eq-nil rt p 0 key issues h2 in (h3, first, second, third)

-- The key is trusted: it fits the proof, its issuer is under a trust anchor, neither it nor its issuer
-- nor the document is revoked, it is bound to the signer, and the signature is valid.
pub record TrustedBy (rt : Runtime) (sigs : Signatures) (policy : VerificationPolicy)
    (document : Fields) (proof : OatiJwsProof) (key : VerificationKey) : Type 0 where
  pub fits : Fits rt policy proof key
  pub anchor : Text
  pub chain : Reaches rt policy.trust anchor (suc (or_else policy.max_trust_depth 8)) key.issuer
  pub clear_key : Clear rt policy.trust key.id
  pub clear_issuer : Clear rt policy.trust key.issuer
  pub clear_document : Clear rt policy.trust (document_id (get document (text "id")))
  pub bound : BoundTo (claimed_signer document) key.controller key.issuer
  pub signed : Signed sigs document proof key

check_with_key-TrustedBy :
    (rt : Runtime) (sigs : Signatures) (policy : VerificationPolicy) (document : Fields)
    (proof : OatiJwsProof) (key : VerificationKey) (issues : Issues)
    → (check_with_key rt sigs policy document proof key issues).1 ≡ []
    → (issues ≡ []) × TrustedBy rt sigs policy document proof key
unfolding check_with_key check_signer_binding
check_with_key-TrustedBy rt sigs policy document proof key issues h =
    let (h1, signed) = check_signature-Signed sigs document proof key _ h in
    let (h2, bound) =
      issue_if-eq-nil (unbound (claimed_signer document) key.controller key.issuer) _ _ _ h1 in
    let (h3, clear_key, clear_issuer, clear_document) =
      check_revocation-Clear rt policy.trust key.id key.issuer
        (document_id (get document (text "id"))) _ h2 in
    let (h4, anchor, _, chain) =
      chain-Reaches rt policy.trust policy.max_trust_depth key.issuer
        (check_key rt key proof policy.trust.now policy.trust.skew issues) _ (chain_of _ h3) in
    let (h5, fits) = check_key-Fits rt policy proof key issues h4 in
    (
      h5,
      record {
        fits = fits;
        anchor = anchor;
        chain = chain;
        clear_key = clear_key;
        clear_issuer = clear_issuer;
        clear_document = clear_document;
        bound = unbound-BoundTo (claimed_signer document) key.controller key.issuer bound;
        signed = signed;
      },
    )

no_issues-issue :
    (code message : Text) (issues : Issues) → no_issues (issue code message issues) ≡ true → ⊥
no_issues-issue code message issues h =
    issue-ne-nil code message issues (nil_of (issue code message issues) h)
  where
    nil_of : (issues : Issues) → no_issues issues ≡ true → issues ≡ []
    nil_of [] h = refl
    nil_of (i ∷ issues) h = cc

-- The document has a proof of the OATI profile; its claims hold; its key is resolved and trusted; and
-- its nonce is one that the replay cache accepts.
pub record Verified {State : Type 0} (rt : Runtime) (sigs : Signatures) (replay : ReplayCache State)
    (policy : VerificationPolicy) (document : Fields) (state : State) : Type 0 where
  pub proof : OatiJwsProof
  pub key : VerificationKey
  pub parsed : parse_proof (get document (text "proof")) [] ≡ (some proof, [])
  pub claims : Claims rt policy document proof
  pub resolved : policy.trust.resolver.resolve_key proof.verification_method ≡ ok (some key)
  pub trusted : TrustedBy rt sigs policy document proof key
  pub fresh :
      (replay.check_and_store state
        (replay_key policy proof)
        (time_of (rt.parse_date proof.expires))
        policy.trust.now).0
      ≡ true

module _ {State : Type 0} (rt : Runtime) (sigs : Signatures) (replay : ReplayCache State)
    (policy : VerificationPolicy) (document : Fields) (state : State) where
  check_replay-fresh :
      (proof : OatiJwsProof) (issuer : Option Text) (issues : Issues)
      → (check_replay rt sigs replay policy proof issuer issues state).0.verified ≡ true
      → (issues ≡ [])
        × ((replay.check_and_store state
              (replay_key policy proof)
              (time_of (rt.parse_date proof.expires))
              policy.trust.now).0
            ≡ true)
  unfolding check_replay verification_result issue
  check_replay-fresh proof issuer [] h = (refl, ground arith)
  check_replay-fresh proof issuer (i ∷ issues) h = cc

  verify_with-Verified :
      (proof : OatiJwsProof) (issues : Issues) (answer : Result (Option VerificationKey))
      → policy.trust.resolver.resolve_key proof.verification_method ≡ answer
      → (verify_with rt sigs replay policy document proof issues state answer).0.verified ≡ true
      → (issues ≡ [])
        × (key : VerificationKey) × (answer ≡ ok (some key))
        × TrustedBy rt sigs policy document proof key
        × ((replay.check_and_store state
              (replay_key policy proof)
              (time_of (rt.parse_date proof.expires))
              policy.trust.now).0
            ≡ true)
  unfolding verify_with verification_result
  verify_with-Verified proof issues (ok (some key)) e h =
      let (found, fresh) = check_replay-fresh proof _ _ h in
      let (start, trusted) =
        check_with_key-TrustedBy rt sigs policy document proof key issues found in
      (start, key, refl, trusted, fresh)
  verify_with-Verified proof issues (ok none) e h = absurd (no_issues-issue _ _ issues h)
  verify_with-Verified proof issues (throw x) e h = absurd (no_issues-issue _ _ issues h)

  verify_parsed-Verified :
      (parsed : Option OatiJwsProof × Issues)
      → parse_proof (get document (text "proof")) [] ≡ parsed
      → (verify_parsed rt sigs replay policy document parsed state).0.verified ≡ true
      → Verified rt sigs replay policy document state
  unfolding verify_parsed
  verify_parsed-Verified (none, issues) e h = cc
  verify_parsed-Verified (some proof, issues) e h =
      let (clean, key, resolved, trusted, fresh) =
        verify_with-Verified proof (check_claims rt policy document proof issues)
          (policy.trust.resolver.resolve_key proof.verification_method) refl h in
      let (start, claims) = check_claims-Claims rt policy document proof issues clean in
      record {
        proof = proof;
        key = key;
        parsed = e ∙ ap (λ (i : Issues). (some proof, i)) start;
        claims = claims;
        resolved = resolved;
        trusted = trusted;
        fresh = fresh;
      }

  -- A document that `verifyDocument` finds verified has a proof of the OATI profile, of an allowed
  -- algorithm, for the expected audience, timely, and the document has started and has not ended; the
  -- key that the proof names is resolved, is of its algorithm and of a JWK for it, has a supported
  -- status, was valid when the proof was created, has an end if it is retired, and is not revoked; its
  -- issuer is under a trust anchor; the resolver knows no revocation in effect of
  -- the key, its issuer and the document; a signer that the document names is the key's controller or
  -- issuer; the signature that the proof's detached text ends with is valid for the canonical text of
  -- the document without it, under the header that this text begins with, which is for this proof; and the replay cache accepts the nonce.
  pub verify_document-Verified :
      (verify_document rt sigs replay policy document state).0.verified ≡ true
      → Verified rt sigs replay policy document state
  unfolding verify_document
  verify_document-Verified h =
      verify_parsed-Verified (parse_proof (get document (text "proof")) []) refl h
