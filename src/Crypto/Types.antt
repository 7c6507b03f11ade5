-- ===== src/Crypto/Types.antt =====
-- The interfaces of sdk/typescript/src/crypto.ts that a verification reads. Instants are
-- milliseconds since the earliest that a `Date` can hold.
use oati.Json.{Fields}
use oati.Prelude.{◌&&◌, List, [], ◌∷◌, ◌++◌, Option, any, if◌then◌else◌, Text, ◌==◌, Result}

pub data IssuerStatus : Type 0 where
  issuer_active issuer_suspended issuer_revoked : IssuerStatus

pub data ProofStatus : Type 0 where
  verified invalid unavailable unknown : ProofStatus

pub record TrustedIssuer : Type 0 where
  pub id : Text
  pub parent : Option Text
  pub status : IssuerStatus
  pub valid_from : Option Text
  pub valid_until : Option Text
  pub revoked_at : Option Text
  pub proof_status : Option ProofStatus

pub data RevocationState : Type 0 where
  revocation_good revocation_suspended revocation_revoked : RevocationState

pub record RevocationStatus : Type 0 where
  pub target : Text
  pub status : RevocationState
  pub effective_at : Option Text

pub data KeyStatus : Type 0 where
  key_active key_retired key_revoked key_unsupported : KeyStatus

pub record VerificationKey : Type 0 where
  pub id : Text
  pub controller : Text
  pub issuer : Text
  pub algorithm : Text
  pub public_key_jwk : Fields
  pub status : KeyStatus
  pub valid_from : Text
  pub valid_until : Option Text
  pub revoked_at : Option Text
  pub proof_status : Option ProofStatus

-- The lookups of a `TrustResolver`; `throw` is a rejected promise.
pub record TrustResolver : Type 0 where
  pub resolve_key : Text → Result (Option VerificationKey)
  pub resolve_issuer : Text → Result (Option TrustedIssuer)
  pub resolve_revocation : Text → Result (Option RevocationStatus)

pub record VerificationIssue : Type 0 where
  pub code : Text
  pub message : Text

abbrev pub Issues : Type 0
Issues = List VerificationIssue

-- `issue`: an issue that is already there is not added again.
unfoldable pub issue : Text → Text → Issues → Issues
issue code message issues =
    if any (λ (i : VerificationIssue). (i.code == code) && (i.message == message)) issues
    then issues
    else issues ++ record { code = code; message = message } ∷ []
