-- ===== src/Tests/Resolvers.antt =====
-- The theorem on the resolver of a Passport, at a Passport with one key.
use oati.Prelude.{[], ◌∷◌, none, some, ◌≡◌, refl, ◌⊎◌, text, Result, ok, throw}
use oati.Json.{str, Fields, end, field}
use oati.Crypto.Types.{VerificationKey, key_revoked, verified, TrustResolver}
use oati.Crypto.Resolvers.{
  Passport, KeyOf, static_trust_resolver, passport_trust_resolver, passport_trust_resolver-KeyOf,
}
use oati.Tests.Requests.{running}

abbrev jwk : Fields
jwk = field (text "kty") (str (text "EC")) (field (text "crv") (str (text "P-256")) end)

abbrev passport : Passport
passport = record {
  id = text "oati:agent:a";
  organisation_id = text "oati:org:acme";
  issuer = text "oati:issuer:acme";
  status = text "suspended";
  display_name = none;
  capabilities = none;
  protocols = none;
  assurance_level = none;
  status_endpoint = none;
  proof = none;
  issued_at = text "2026-01-01T00:00:00Z";
  expires_at = text "2027-01-01T00:00:00Z";
  verification_methods =
      record {
        id = text "key-1";
        type = text "JsonWebKey";
        controller = text "oati:agent:a";
        public_key_jwk = jwk;
      }
      ∷ [];
}

abbrev key : VerificationKey
key = record {
  id = text "key-1";
  controller = text "oati:agent:a";
  issuer = text "oati:issuer:acme";
  algorithm = text "ES256";
  public_key_jwk = jwk;
  status = key_revoked;
  valid_from = text "2026-01-01T00:00:00Z";
  valid_until = some (text "2027-01-01T00:00:00Z");
  revoked_at = none;
  proof_status = some verified;
}

abbrev upstream : TrustResolver
unfolding static_trust_resolver
upstream = static_trust_resolver (record key { id = text "key-2" } ∷ []) [] []

abbrev resolver_or_upstream : Result TrustResolver → TrustResolver
resolver_or_upstream (ok r) = r
resolver_or_upstream (throw e) = upstream

passport_trust_resolver-KeyOf_example :
    ((text "key-1" ≡ text "key-1") × KeyOf passport key)
    ⊎ ((r : TrustResolver) × (some upstream ≡ some r)
        × (r.resolve_key (text "key-1") ≡ ok (some key)))
unfolding running passport_trust_resolver static_trust_resolver
passport_trust_resolver-KeyOf_example =
    passport_trust_resolver-KeyOf passport (some upstream)
      (resolver_or_upstream (passport_trust_resolver passport (some upstream))) (text "key-1") key
      refl refl
