-- ===== src/Crypto/Resolvers.antt =====
-- `StaticTrustResolver` and `passportTrustResolver` of sdk/typescript/src/crypto.ts.
use mathlib.Core.List.{mem-cons_self, mem-cons_of_mem}
use oati.Prelude.{
  ◌&&◌, Option, none, some, List, [], ◌∷◌, ◌++◌, ◌≡◌, refl, sym, ap, ◌∙◌, ◌⊎◌, inl, inr,
  if◌then◌else◌, Text, text, ◌==◌, ==_iff, keep, find_first, Mem, Result, ok, throw, plain_error,
  ◌>>=◌, ok-injective, >>=-eq-ok, Bool-cases,
}
use oati.Json.{Json, Fields, get}
use oati.Crypto.Types.{
  VerificationKey, key_active, key_revoked, KeyStatus, verified, TrustedIssuer, RevocationStatus,
  TrustResolver,
}
use oati.Crypto.Proof.{equals}
use oati.Objects.{Protocol}

abbrev one_status : Text → List RevocationStatus → Result (Option RevocationStatus)
one_status target [] = ok none
one_status target (r ∷ []) = ok (some r)
one_status target (r ∷ s ∷ rest) =
    throw (plain_error (text "ambiguous revocation status for " ++ target))

unfoldable pub static_trust_resolver :
    List VerificationKey → List TrustedIssuer → List RevocationStatus → TrustResolver
static_trust_resolver keys issuers revocations = record {
  resolve_key = λ id. ok (find_first (λ (k : VerificationKey). k.id == id) keys);
  resolve_issuer = λ id. ok (find_first (λ (i : TrustedIssuer). i.id == id) issuers);
  resolve_revocation =
      λ target. one_status target (keep (λ (r : RevocationStatus). r.target == target) revocations);
}

pub record VerificationMethod : Type 0 where
  pub id : Text
  pub type : Text
  pub controller : Text
  pub public_key_jwk : Fields

-- `AgentPassport`
pub record Passport : Type 0 where
  pub id : Text
  pub organisation_id : Text
  pub issuer : Text
  pub status : Text
  pub display_name : Option Text
  pub capabilities : Option (List Text)
  pub protocols : Option (List Protocol)
  pub assurance_level : Option Text
  pub verification_methods : List VerificationMethod
  pub issued_at : Text
  pub expires_at : Text
  pub status_endpoint : Option Text
  pub proof : Option Json

unfoldable pub algorithm_from_jwk : Fields → Result Text
algorithm_from_jwk jwk =
    if equals (get jwk (text "kty")) (text "OKP") && equals (get jwk (text "crv")) (text "Ed25519")
    then ok (text "EdDSA")
    else if equals (get jwk (text "kty")) (text "EC")
        && equals (get jwk (text "crv")) (text "P-256")
    then ok (text "ES256")
    else throw (plain_error (text "unsupported Passport JWK"))

abbrev pub passport_status : Text → KeyStatus
passport_status status = if status == text "active" then key_active else key_revoked

unfoldable pub key_of : Passport → VerificationMethod → Text → VerificationKey
key_of passport method algorithm = record {
  id = method.id;
  controller = method.controller;
  issuer = passport.issuer;
  algorithm = algorithm;
  public_key_jwk = method.public_key_jwk;
  status = passport_status passport.status;
  valid_from = passport.issued_at;
  valid_until = some passport.expires_at;
  revoked_at = none;
  proof_status = some verified;
}

unfoldable pub passport_keys : Passport → List VerificationMethod → Result (List VerificationKey)
unfolding key_of algorithm_from_jwk
passport_keys passport [] = ok []
passport_keys passport (method ∷ methods) =
    algorithm_from_jwk method.public_key_jwk >>= λ algorithm.
    passport_keys passport methods >>= λ keys. ok (key_of passport method algorithm ∷ keys)

-- The answer of the resolver behind this one.
abbrev from_upstream :
    {A : Type 0} → Option TrustResolver → (TrustResolver → Result (Option A)) → Result (Option A)
from_upstream none ask = ok none
from_upstream (some resolver) ask = ask resolver

abbrev own_or_upstream :
    Option VerificationKey → Option TrustResolver → Text → Result (Option VerificationKey)
own_or_upstream (some key) upstream id = ok (some key)
own_or_upstream none upstream id = from_upstream upstream (λ r. r.resolve_key id)

abbrev resolver_with : Option TrustResolver → List VerificationKey → TrustResolver
resolver_with upstream keys = record {
  resolve_key =
      λ id. own_or_upstream (find_first (λ (k : VerificationKey). k.id == id) keys) upstream id;
  resolve_issuer = λ id. from_upstream upstream (λ r. r.resolve_issuer id);
  resolve_revocation = λ target. from_upstream upstream (λ r. r.resolve_revocation target);
}

unfoldable pub passport_trust_resolver : Passport → Option TrustResolver → Result TrustResolver
unfolding passport_keys
passport_trust_resolver passport upstream =
    passport_keys passport passport.verification_methods >>= λ keys.
    ok (resolver_with upstream keys)

-- A key of the Passport: one of its verification methods, under its issuer, valid as long as it, and
-- active only while it is.
pub record KeyOf (passport : Passport) (key : VerificationKey) : Type 0 where
  pub method : VerificationMethod
  pub listed : Mem method passport.verification_methods
  pub id : key.id ≡ method.id
  pub controller : key.controller ≡ method.controller
  pub public_key_jwk : key.public_key_jwk ≡ method.public_key_jwk
  pub algorithm : algorithm_from_jwk method.public_key_jwk ≡ ok key.algorithm
  pub issuer : key.issuer ≡ passport.issuer
  pub valid_from : key.valid_from ≡ passport.issued_at
  pub valid_until : key.valid_until ≡ some passport.expires_at
  pub active : key.status ≡ key_active → passport.status ≡ text "active"
  pub never_revoked : key.revoked_at ≡ none
  pub proof_status : key.proof_status ≡ some verified

active_only : (s : Text) → passport_status s ≡ key_active → s ≡ text "active"
active_only s h = elim (Bool-cases (s == text "active")) [
  | inl same ↦ (==_iff s (text "active")).0 same
  | inr differs ↦ let e : key_revoked ≡ key_active = rw differs at h in cc
]

some_or : VerificationKey → Option VerificationKey → VerificationKey
some_or default none = default
some_or default (some k) = k

own_key-KeyOf :
    (passport : Passport) (method : VerificationMethod) (algorithm id : Text)
    (key : VerificationKey)
    → Mem method passport.verification_methods
    → algorithm_from_jwk method.public_key_jwk ≡ ok algorithm
    → method.id ≡ id
    → some (key_of passport method algorithm) ≡ some key
    → (key.id ≡ id) × KeyOf passport key
unfolding key_of some_or
own_key-KeyOf passport method algorithm id key listed algorithm_is same h =
    let e : key_of passport method algorithm ≡ key =
      ap (some_or (key_of passport method algorithm)) h in
    (
      ap (λ (k : VerificationKey). k.id) (sym e) ∙ same,
      record {
        method = method;
        listed = listed;
        id = ap (λ (k : VerificationKey). k.id) (sym e);
        controller = ap (λ (k : VerificationKey). k.controller) (sym e);
        public_key_jwk = ap (λ (k : VerificationKey). k.public_key_jwk) (sym e);
        algorithm = algorithm_is ∙ ap (λ (k : VerificationKey). ok k.algorithm) e;
        issuer = ap (λ (k : VerificationKey). k.issuer) (sym e);
        valid_from = ap (λ (k : VerificationKey). k.valid_from) (sym e);
        valid_until = ap (λ (k : VerificationKey). k.valid_until) (sym e);
        active = λ is_active.
            active_only passport.status (ap (λ (k : VerificationKey). k.status) e ∙ is_active);
        never_revoked = ap (λ (k : VerificationKey). k.revoked_at) (sym e);
        proof_status = ap (λ (k : VerificationKey). k.proof_status) (sym e);
      },
    )

find_key-KeyOf :
    (passport : Passport) (methods : List VerificationMethod) (keys : List VerificationKey)
    (id : Text) (key : VerificationKey)
    → ((method : VerificationMethod)
        → Mem method methods
        → Mem method passport.verification_methods)
    → passport_keys passport methods ≡ ok keys
    → find_first (λ (k : VerificationKey). k.id == id) keys ≡ some key
    → (key.id ≡ id) × KeyOf passport key
unfolding passport_keys key_of
find_key-KeyOf passport [] keys id key listed h found =
    let none_left : keys ≡ [] = sym (ok-injective h) in
    let nothing : none ≡ some key = rw none_left at found in cc
find_key-KeyOf passport (method ∷ methods) keys id key listed h found =
    let (algorithm, algorithm_is, h1) = >>=-eq-ok (algorithm_from_jwk method.public_key_jwk) _ h in
    let (rest, rest_is, h2) = >>=-eq-ok (passport_keys passport methods) _ h1 in
    let shape : keys ≡ key_of passport method algorithm ∷ rest = sym (ok-injective h2) in
    let first : (if method.id == id
          then some (key_of passport method algorithm)
          else find_first (λ (k : VerificationKey). k.id == id) rest)
        ≡ some key =
      rw shape at found in
    elim (Bool-cases (method.id == id)) [
      | inl same ↦
          own_key-KeyOf passport method algorithm id key (listed method mem-cons_self) algorithm_is
            ((==_iff method.id id).0 same) (rw same at first)
      | inr differ ↦
          find_key-KeyOf passport methods rest id key (λ m at. listed m (mem-cons_of_mem method at))
            rest_is (rw differ at first)
    ]

own_or_upstream-found :
    (own : Option VerificationKey) (upstream : Option TrustResolver) (id : Text)
    (key : VerificationKey)
    → own_or_upstream own upstream id ≡ ok (some key)
    → (own ≡ some key)
      ⊎ ((r : TrustResolver) × (upstream ≡ some r) × (r.resolve_key id ≡ ok (some key)))
own_or_upstream-found (some own) upstream id key h = inl (ok-injective h)
own_or_upstream-found none (some r) id key h = inr (r, refl, h)
own_or_upstream-found none none id key h = cc

-- A key that the resolver of a Passport finds has the identifier that was asked for, and it is one of
-- the Passport's verification methods, with the controller and the JWK of that method and the
-- algorithm that the JWK is for, under the Passport's issuer, valid as long as the Passport and active
-- only while it is; or the resolver behind it finds the key.
pub passport_trust_resolver-KeyOf :
    (passport : Passport) (upstream : Option TrustResolver) (resolver : TrustResolver) (id : Text)
    (key : VerificationKey)
    → passport_trust_resolver passport upstream ≡ ok resolver
    → resolver.resolve_key id ≡ ok (some key)
    → ((key.id ≡ id) × KeyOf passport key)
      ⊎ ((r : TrustResolver) × (upstream ≡ some r) × (r.resolve_key id ≡ ok (some key)))
unfolding passport_trust_resolver
passport_trust_resolver-KeyOf passport upstream resolver id key h found =
    let (keys, keys_are, h1) =
      >>=-eq-ok (passport_keys passport passport.verification_methods) _ h in
    let same : resolver ≡ resolver_with upstream keys = sym (ok-injective h1) in
    elim (own_or_upstream-found (find_first (λ (k : VerificationKey). k.id == id) keys) upstream id
      key (ap (λ (r : TrustResolver). r.resolve_key id) (sym same) ∙ found)) [
        | inl own ↦ inl (
            find_key-KeyOf passport passport.verification_methods keys id key (λ m at. at) keys_are
              own)
        | inr behind ↦ inr behind
      ]
