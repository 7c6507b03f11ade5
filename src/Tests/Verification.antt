-- ===== src/Tests/Verification.antt =====
-- The theorems on a verified document, on the powers of `modPow` and on base64url, at examples.
use oati.Prelude.{
  ◌%◌, ◌^◌, false, [], ◌∷◌, none, some, ◌≡◌, refl, arith, Text, text, ◌==◌, if◌then◌else◌, ok,
}
use oati.Json.{bool, str, arr, obj, nil, cons, Fields, end, field}
use oati.Crypto.Types.{VerificationKey, key_active, verified}
use oati.Crypto.Base64.{base64url, from_base64url, from_base64url-base64url}
use oati.Crypto.Ed25519.{mod_pow}
use oati.Crypto.Ed25519.ModPow.{mod_pow-power}
use oati.Crypto.Replay.{Entries, check_and_store}
use oati.Crypto.Verify.{Signatures, ReplayCache, VerificationPolicy, verify_document}
use oati.Crypto.Verify.Verified.{Verified, verify_document-Verified}
use oati.Tests.Requests.{runtime, running}
use oati.Tests.Trust.{resolver, policy}

from_base64url-base64url_example :
    from_base64url (base64url (255 ∷ 0 ∷ 7 ∷ 128 ∷ [])) ≡ some (255 ∷ 0 ∷ 7 ∷ 128 ∷ [])
from_base64url-base64url_example =
    from_base64url-base64url 255 (0 ∷ 7 ∷ 128 ∷ [])
      (omega arith, (omega arith, (omega arith, (omega arith, tt))))

mod_pow-power_example : mod_pow 3 200 13 ≡ 3 ^ 200 % 13
mod_pow-power_example = mod_pow-power 3 200 13 (omega arith)

three_bytes : base64url (77 ∷ 97 ∷ 255 ∷ []) ≡ text "TWH_"
unfolding running base64url
three_bytes = refl

abbrev key : VerificationKey
key = record {
  id = text "oati:key:acme:1";
  controller = text "oati:org:acme";
  issuer = text "oati:issuer:acme";
  algorithm = text "ES256";
  public_key_jwk =
      field (text "kty") (str (text "EC")) (field (text "crv") (str (text "P-256")) end);
  status = key_active;
  valid_from = text "2026-01-01T00:00:00Z";
  valid_until = none;
  revoked_at = none;
  proof_status = some verified;
}

abbrev protected_header : Fields
protected_header = field (text "alg") (str (text "ES256")) (
    field (text "kid") (str (text "oati:key:acme:1")) (
      field (text "b64") (bool false) (
        field (text "typ") (str (text "oati+jws"))
          (field (text "crit") (arr (cons (str (text "b64")) nil)) end))))

-- A reader that knows one header, and an algorithm whose signatures are one byte.
abbrev pub signatures : Signatures
signatures = record {
  encode = λ s. s;
  decode = λ bytes. bytes;
  parse_json = λ t. if t == (77 ∷ 97 ∷ 255 ∷ []) then some (obj protected_header) else none;
  verify = λ algorithm jwk signature input. some (signature == (9 ∷ []));
}

abbrev pub verification_policy : VerificationPolicy
verification_policy = record {
  trust = record policy {
    resolver = record resolver {
      resolve_key = λ id. if id == text "oati:key:acme:1" then ok (some key) else ok none;
    };
  };
  max_trust_depth = none;
  expected_audience = text "oati:org:seller";
  allowed_algorithms = none;
  max_proof_age_ms = none;
}

abbrev memory_cache : ReplayCache Entries
memory_cache = record { check_and_store = check_and_store }

abbrev proof : Text → Fields
proof signature = field (text "type") (str (text "OatiJwsProof2026")) (
    field (text "cryptosuite") (str (text "ecdsa-jcs-2019")) (
      field (text "algorithm") (str (text "ES256")) (
        field (text "created") (str (text "2026-07-27T09:59:00Z")) (
          field (text "expires") (str (text "2026-07-27T10:02:00Z")) (
            field (text "verification_method") (str (text "oati:key:acme:1")) (
              field (text "proof_purpose") (str (text "assertionMethod")) (
                field (text "audience") (str (text "oati:org:seller")) (
                  field (text "nonce") (str (text "nonce-0123456789"))
                    (field (text "signature") (str signature) end)))))))))

abbrev pub passport : Text → Fields
passport signature = field (text "id") (str (text "oati:passport:1")) (
    field (text "issuer") (str (text "oati:issuer:acme")) (
      field (text "expires_at") (str (text "2026-08-27T09:00:00Z"))
        (field (text "proof") (obj (proof signature)) end)))

verify_document-Verified_example :
    Verified runtime signatures memory_cache verification_policy (passport (text "TWH_..CQ")) []
unfolding running verify_document check_and_store
verify_document-Verified_example =
    verify_document-Verified runtime signatures memory_cache verification_policy
      (passport (text "TWH_..CQ")) [] refl

-- The same proof is refused after it was verified once.
abbrev entries : Entries
entries =
    (verify_document runtime signatures memory_cache verification_policy
      (passport (text "TWH_..CQ")) []).1

replayed :
    (verify_document runtime signatures memory_cache verification_policy
      (passport (text "TWH_..CQ"))
      entries).0.verified
    ≡ false
unfolding running verify_document check_and_store
replayed = refl

-- A signature of other bytes is refused, and no nonce is stored.
forged :
    (verify_document runtime signatures memory_cache verification_policy
      (passport (text "TWH_..CA"))
      []).1
    ≡ []
unfolding running verify_document check_and_store
forged = refl
