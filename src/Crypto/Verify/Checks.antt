-- ===== src/Crypto/Verify/Checks.antt =====
-- What claims, keys and signatures satisfy that raised no issue.
use oati.Prelude.{
  ℕ, ◌+◌, ◌≤◌, ◌≢◌, ◌⊎◌, sym, ◌∙◌, split, or_false, true, false, not, ◌&&◌, Option, none, some,
  List, [], ◌∷◌, ◌≡◌, refl, ap, Text, text, ==_iff, ◌==◌, and_parts, includes, arith, Bool-cases,
  inl, inr,
}
use oati.Json.{Json, null, bool, num, str, arr, obj, nil, cons, Fields, get}
use oati.Evaluator.Conditions.{Runtime}
use oati.Crypto.Ed25519.{is_valid_ed25519_public_key}
use oati.Crypto.Trust.Chain.{AfterIfGiven, Proved, Proved-of}
use oati.Crypto.Types.{key_retired, key_revoked, key_unsupported, VerificationKey, Issues}
use oati.Crypto.Period.{check_proof_time, check_document_time, start_of, end_of, starts_late, ended}
use oati.Crypto.Period.Timely.{
  TimelyAt, Started, NotEnded, issue_if-eq-nil, check_instants-TimelyAt, starts_late-Started,
  ended-NotEnded,
}
use oati.Crypto.Base64.{from_base64url}
use oati.Crypto.Proof.{OatiJwsProof, equals}
use oati.Crypto.Key.{
  jwk_matches, key_mismatch, key_not_valid, key_is_revoked, check_key, is_revoked, text_of,
  starts_after, past_end, is_retired, is_supported, revoked_when,
}
use oati.Crypto.Trust.{present, unparsed, at_or_before}
use oati.Crypto.Verify.{
  Signatures, VerificationPolicy, allowed_of, max_age_of, check_claims, header_matches,
  signing_input, decoded_header, verified_by, check_parts, is_false, critical,
}

-- The claims of the proof and the document hold at the time of the policy.
pub record Claims (rt : Runtime) (policy : VerificationPolicy) (document : Fields)
    (proof : OatiJwsProof) : Type 0 where
  pub allowed : includes (allowed_of policy.allowed_algorithms) proof.algorithm ≡ true
  pub audience : includes proof.audience policy.expected_audience ≡ true
  pub timely :
      TimelyAt
        (rt.parse_date proof.created)
        (rt.parse_date proof.expires)
        policy.trust.now
        policy.trust.skew
        (max_age_of policy.max_proof_age_ms)
  pub started : Started rt (start_of document) (policy.trust.now + policy.trust.skew)
  pub unended : NotEnded rt (end_of document) policy.trust.now policy.trust.skew

pub check_claims-Claims :
    (rt : Runtime) (policy : VerificationPolicy) (document : Fields) (proof : OatiJwsProof)
    (issues : Issues)
    → check_claims rt policy document proof issues ≡ []
    → (issues ≡ []) × Claims rt policy document proof
unfolding check_claims check_document_time check_proof_time
check_claims-Claims rt policy document proof issues h =
    let now = policy.trust.now in
    let skew = policy.trust.skew in
    let (h1, audience) =
      issue_if-eq-nil (not (includes proof.audience policy.expected_audience)) _ _ _ h in
    let (h2, unended) = issue_if-eq-nil (ended rt (end_of document) now skew) _ _ _ h1 in
    let (h3, begun) = issue_if-eq-nil (starts_late rt (start_of document) now skew) _ _ _ h2 in
    let (h4, timely) =
      check_instants-TimelyAt (rt.parse_date proof.created) (rt.parse_date proof.expires) now skew
        (max_age_of policy.max_proof_age_ms) _ h3 in
    let (h5, allowed) =
      issue_if-eq-nil (not (includes (allowed_of policy.allowed_algorithms) proof.algorithm)) _ _ _
        h4 in
    (
      h5,
      record {
        allowed = ground arith;
        audience = ground arith;
        timely = timely;
        started = starts_late-Started rt (start_of document) now skew begun;
        unended = ended-NotEnded rt (end_of document) now skew unended;
      },
    )

equals-true : (v : Option Json) (t : Text) → equals v t ≡ true → v ≡ some (str t)
equals-true (some (str s)) t h = ap (λ (x : Text). some (str x)) ((==_iff s t).0 h)
equals-true none t h = cc
equals-true (some null) t h = cc
equals-true (some (bool b)) t h = cc
equals-true (some (num n)) t h = cc
equals-true (some (arr vs)) t h = cc
equals-true (some (obj fs)) t h = cc

-- A JWK for Ed25519, with a valid key, or one for P-256.
pub JwkFor : Text → Fields → Type 0
JwkFor algorithm jwk =
    ((algorithm ≡ text "EdDSA")
      × (get jwk (text "kty") ≡ some (str (text "OKP")))
      × (get jwk (text "crv") ≡ some (str (text "Ed25519")))
      × (is_valid_ed25519_public_key (text_of (get jwk (text "x"))) ≡ true))
    ⊎ ((algorithm ≢ text "EdDSA")
        × (get jwk (text "kty") ≡ some (str (text "EC")))
        × (get jwk (text "crv") ≡ some (str (text "P-256"))))

JwkFor_of :
    (algorithm : Text) (jwk : Fields) → jwk_matches jwk algorithm ≡ true → JwkFor algorithm jwk
unfolding jwk_matches JwkFor
JwkFor_of algorithm jwk h = elim (Bool-cases (algorithm == text "EdDSA")) [
  | inl same ↦
      let (kty, rest) = and_parts (equals (get jwk (text "kty")) (text "OKP")) _ (rw same at h) in
      let (crv, valid) = and_parts (equals (get jwk (text "crv")) (text "Ed25519")) _ rest in
      inl
        ((==_iff algorithm (text "EdDSA")).0 same, equals-true _ _ kty, equals-true _ _ crv, valid)
  | inr differs ↦
      let (kty, crv) = and_parts (equals (get jwk (text "kty")) (text "EC")) _ (rw differs at h) in
      inr (
        (λ e. let b : true ≡ false = sym ((==_iff algorithm (text "EdDSA")).1 e) ∙ differs in cc),
        equals-true _ _ kty,
        equals-true _ _ crv,
      )
]

-- The key's validity began by then, and had not ended, with the tolerance `skew` on both sides.
abbrev pub ValidAt : Runtime → VerificationKey → ℕ → ℕ → Type 0
ValidAt rt key created skew =
    ((from : ℕ) × (rt.parse_date key.valid_from ≡ some from) × (from ≤ created + skew))
    × AfterIfGiven rt key.valid_until created skew

revoked_after :
    (rt : Runtime) (revoked : Option Text) (now : ℕ)
    → revoked_when (λ s. at_or_before rt s now) revoked ≡ false
    → revoked_when (unparsed rt) revoked ≡ false
    → AfterIfGiven rt revoked now 0
revoked_after rt none now h k = tt
revoked_after rt (some []) now h k = tt
revoked_after rt (some (c ∷ s)) now h k = ground arith

starts_by :
    (from : Option ℕ) (created skew : ℕ)
    → starts_after from (some created) skew ≡ false
    → (t : ℕ) × (from ≡ some t) × (t ≤ created + skew)
starts_by none created skew h = cc
starts_by (some t) created skew h = (t, refl, ground arith)

ends_later :
    (rt : Runtime) (until : Option Text) (created skew : ℕ)
    → past_end rt until (some created) skew ≡ false
    → AfterIfGiven rt until created skew
ends_later rt none created skew h = tt
ends_later rt (some []) created skew h = tt
ends_later rt (some (c ∷ s)) created skew h = ground arith

key_match :
    (key : VerificationKey) (proof : OatiJwsProof)
    → key_mismatch key proof ≡ false
    → (key.id ≡ proof.verification_method)
      × (key.algorithm ≡ proof.algorithm)
      × Proved key.proof_status
      × (jwk_matches key.public_key_jwk proof.algorithm ≡ true)
unfolding key_mismatch
key_match key proof h = (
  (==_iff key.id proof.verification_method).0 (ground arith),
  (==_iff key.algorithm proof.algorithm).0 (ground arith),
  Proved-of key.proof_status (ground arith),
  ground arith,
)

key_unrevoked :
    (rt : Runtime) (key : VerificationKey) (now : ℕ)
    → key_is_revoked rt key now ≡ false
    → revoked_when (unparsed rt) key.revoked_at ≡ false
    → (key.status ≢ key_revoked) × AfterIfGiven rt key.revoked_at now 0
unfolding key_is_revoked
key_unrevoked rt key now h k =
    let (status, later) = or_false (is_revoked key.status) _ h in
    (
      (λ e. let b : true ≡ false = rw e at status in cc),
      revoked_after rt key.revoked_at now later k,
    )

key_valid :
    (rt : Runtime) (key : VerificationKey) (created skew : ℕ)
    → key_not_valid rt key (some created) skew ≡ false
    → ValidAt rt key created skew
unfolding key_not_valid
key_valid rt key created skew h =
    let (from, until) = or_false _ _ h in
    (
      starts_by (rt.parse_date key.valid_from) created skew from,
      ends_later rt key.valid_until created skew until,
    )

-- The key is the one that the proof names, of its algorithm, valid when it was created, not revoked.
pub record Fits (rt : Runtime) (policy : VerificationPolicy) (proof : OatiJwsProof)
    (key : VerificationKey) : Type 0 where
  pub id : key.id ≡ proof.verification_method
  pub algorithm : key.algorithm ≡ proof.algorithm
  pub proved : Proved key.proof_status
  pub jwk : JwkFor proof.algorithm key.public_key_jwk
  pub supported : key.status ≢ key_unsupported
  pub not_revoked : key.status ≢ key_revoked
  pub retired : key.status ≡ key_retired → present key.valid_until ≡ true
  pub revoked_later : AfterIfGiven rt key.revoked_at policy.trust.now 0
  pub valid :
      (created : ℕ)
      → rt.parse_date proof.created ≡ some created
      → ValidAt rt key created policy.trust.skew

pub check_key-Fits :
    (rt : Runtime) (policy : VerificationPolicy) (proof : OatiJwsProof) (key : VerificationKey)
    (issues : Issues)
    → check_key rt key proof policy.trust.now policy.trust.skew issues ≡ []
    → (issues ≡ []) × Fits rt policy proof key
unfolding check_key
check_key-Fits rt policy proof key issues h =
    let (h1, unrevoked) = issue_if-eq-nil (key_is_revoked rt key policy.trust.now) _ _ _ h in
    let (h2, readable) = issue_if-eq-nil (revoked_when (unparsed rt) key.revoked_at) _ _ _ h1 in
    let (h3, valid) =
      issue_if-eq-nil (key_not_valid rt key (rt.parse_date proof.created) policy.trust.skew) _ _ _
        h2 in
    let (h4, retired) =
      issue_if-eq-nil (is_retired key.status && not (present key.valid_until)) _ _ _ h3 in
    let (h5, supported) = issue_if-eq-nil (not (is_supported key.status)) _ _ _ h4 in
    let (h6, matches) = issue_if-eq-nil (key_mismatch key proof) _ _ _ h5 in
    let (id, algorithm, proved, jwk) = key_match key proof matches in
    let (not_revoked, later) = key_unrevoked rt key policy.trust.now unrevoked readable in
    (
      h6,
      record {
        id = id;
        algorithm = algorithm;
        proved = proved;
        jwk = JwkFor_of proof.algorithm key.public_key_jwk jwk;
        supported = λ e. let b : true ≡ false = rw e at supported in cc;
        not_revoked = not_revoked;
        retired = λ e.
            let b : (true && not (present key.valid_until)) ≡ false = rw e at retired in
            ground arith;
        revoked_later = later;
        valid = λ created at. key_valid rt key created policy.trust.skew (rw at at valid);
      },
    )

is_false-true : (v : Option Json) → is_false v ≡ true → v ≡ some (bool false)
is_false-true (some (bool false)) h = refl
is_false-true (some (bool true)) h = cc
is_false-true none h = cc
is_false-true (some null) h = cc
is_false-true (some (str s)) h = cc
is_false-true (some (num n)) h = cc
is_false-true (some (arr vs)) h = cc
is_false-true (some (obj fs)) h = cc

-- A protected header that names the algorithm and the key of the proof.
pub record HeaderFor (proof : OatiJwsProof) (header : Option Json) : Type 0 where
  pub fields : Fields
  pub decoded : header ≡ some (obj fields)
  pub alg : get fields (text "alg") ≡ some (str proof.algorithm)
  pub kid : get fields (text "kid") ≡ some (str proof.verification_method)
  pub b64 : get fields (text "b64") ≡ some (bool false)
  pub typ : get fields (text "typ") ≡ some (str (text "oati+jws"))
  pub crit : get fields (text "crit") ≡ some (arr (cons (str (text "b64")) nil))

critical-b64 : (v : Option Json) → critical v ≡ true → v ≡ some (arr (cons (str (text "b64")) nil))
critical-b64 (some (arr (cons (str s) nil))) h =
    ap (λ (t : Text). some (arr (cons (str t) nil))) ((==_iff s (text "b64")).0 h)
critical-b64 _ h = cc

header_matches-HeaderFor :
    (proof : OatiJwsProof) (header : Option Json)
    → header_matches proof header ≡ true
    → HeaderFor proof header
unfolding header_matches
header_matches-HeaderFor proof (some (obj fs)) h =
    let (alg, h1) = and_parts (equals (get fs (text "alg")) proof.algorithm) _ h in
    let (kid, h2) = and_parts (equals (get fs (text "kid")) proof.verification_method) _ h1 in
    let (b64, h3) = and_parts (is_false (get fs (text "b64"))) _ h2 in
    let (typ, crit) = and_parts (equals (get fs (text "typ")) (text "oati+jws")) _ h3 in
    record {
      fields = fs;
      decoded = refl;
      alg = equals-true _ _ alg;
      kid = equals-true _ _ kid;
      b64 = is_false-true _ b64;
      typ = equals-true _ _ typ;
      crit = critical-b64 _ crit;
    }
header_matches-HeaderFor proof none h = cc
header_matches-HeaderFor proof (some null) h = cc
header_matches-HeaderFor proof (some (bool b)) h = cc
header_matches-HeaderFor proof (some (num n)) h = cc
header_matches-HeaderFor proof (some (str s)) h = cc
header_matches-HeaderFor proof (some (arr vs)) h = cc

-- The text of the proof's signature is a header, no payload and a signature, which under the key is valid
-- for the document without it; and the header is the proof's.
pub record Signed (sigs : Signatures) (document : Fields) (proof : OatiJwsProof)
    (key : VerificationKey) : Type 0 where
  pub header : Text
  pub signature_text : Text
  pub more : List Text
  pub parts : split b'.' proof.signature ≡ header ∷ [] ∷ signature_text ∷ more
  pub signature : List ℕ
  pub signature_of : from_base64url signature_text ≡ some signature
  pub input : List ℕ
  pub header_for : HeaderFor proof (decoded_header sigs (from_base64url header))
  pub input_of : signing_input sigs document proof header ≡ some input
  pub valid : sigs.verify proof.algorithm key.public_key_jwk signature input ≡ some true

verified_by-true :
    (sigs : Signatures) (algorithm : Text) (jwk : Fields) (signature input : Option (List ℕ))
    → verified_by sigs algorithm jwk signature input ≡ some true
    → (s : List ℕ) × (i : List ℕ) × (signature ≡ some s)
      × (input ≡ some i)
      × (sigs.verify algorithm jwk s i ≡ some true)
verified_by-true sigs algorithm jwk (some s) (some i) h = (s, i, refl, refl, h)
verified_by-true sigs algorithm jwk (some s) none h = cc
verified_by-true sigs algorithm jwk none i h = cc

pub check_parts-Signed :
    (sigs : Signatures) (document : Fields) (proof : OatiJwsProof) (key : VerificationKey)
    (parts : List Text)
    → split b'.' proof.signature ≡ parts
    → check_parts sigs document proof key parts ≡ some true
    → Signed sigs document proof key
unfolding check_parts
check_parts-Signed sigs document proof key (header ∷ [] ∷ signature ∷ rest) e h =
    elim (Bool-cases (header_matches proof (decoded_header sigs (from_base64url header)))) [
      | inr differs ↦ absurd (none-ne-true (rw differs at h))
      | inl matches ↦
          let (s, i, decoded, input, valid) =
            verified_by-true sigs proof.algorithm key.public_key_jwk (from_base64url signature)
              (signing_input sigs document proof header) (rw matches at h) in
          record {
            header = header;
            signature_text = signature;
            more = rest;
            parts = e;
            signature = s;
            signature_of = decoded;
            input = i;
            header_for = header_matches-HeaderFor proof _ matches;
            input_of = input;
            valid = valid;
          }
    ]
  where
    none-ne-true : none ≡ some true → ⊥
    none-ne-true e = cc
check_parts-Signed sigs document proof key [] e h = cc
check_parts-Signed sigs document proof key (a ∷ []) e h = cc
check_parts-Signed sigs document proof key (a ∷ [] ∷ []) e h = cc
check_parts-Signed sigs document proof key (a ∷ (c ∷ s) ∷ rest) e h = cc
