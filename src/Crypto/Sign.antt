-- ===== src/Crypto/Sign.antt =====
-- `signPreparedDocument` of sdk/typescript/src/crypto.ts, which `signDocument` and
-- `signDocumentWithSigner` call with a signer. An `OatiError` of canonical.ts is here an error with its
-- code.
pub mod Parts
pub mod Verifiable
use oati.Prelude.{
  ℕ, Bool, true, false, not, Option, none, some, List, [], ◌∷◌, ◌++◌, if◌then◌else◌, ltb, leb, eqb,
  length, Text, text, ◌==◌, includes, Result, ok, throw, type_error, range_error, plain_error,
  ◌>>=◌,
}
use oati.Json.{Json, bool, str, arr, obj, nil, cons, Fields, end, field}
use oati.Evaluator.Conditions.{Runtime}
use oati.Canonical.{canonical_json}
use oati.Lookup.Records.{put}
use oati.Crypto.Base64.{base64url}
use oati.Crypto.Proof.{
  oati_supported_algorithms, oati_proof_type, suite, normalize_audience, is_empty,
}
use oati.Crypto.Verify.{Signatures, join_signing_input}

-- A `Date`, or a text.
pub data Instant : Type 0 where
  date : ℕ → Instant
  written : Text → Instant

pub record SigningOptions : Type 0 where
  pub algorithm : Text
  pub verification_method : Text
  pub audience : Json
  pub nonce : Text
  pub created : Option Instant
  pub expires : Instant

-- The clock, `toISOString` and `trim`.
pub record Clock : Type 0 where
  pub now : ℕ
  pub to_iso_string : ℕ → Text
  pub trim : Text → Text

abbrev valid_date : Option ℕ → Text → Result ℕ
valid_date none name = throw (type_error (name ++ text " must be a valid date"))
valid_date (some t) name = ok t

unfoldable pub instant : Runtime → Instant → Text → Result ℕ
instant rt (date t) name = ok t
instant rt (written s) name = valid_date (rt.parse_date s) name

abbrev pub created_or_now : Clock → Option Instant → Instant
created_or_now clock none = date clock.now
created_or_now clock (some created) = created

unfoldable pub proof_without_signature : Clock → SigningOptions → ℕ → ℕ → Fields
unfolding suite oati_proof_type
proof_without_signature clock options created expires = field (text "type") (str oati_proof_type) (
    field (text "cryptosuite") (str (suite options.algorithm)) (
      field (text "algorithm") (str options.algorithm) (
        field (text "created") (str (clock.to_iso_string created)) (
          field (text "expires") (str (clock.to_iso_string expires)) (
            field (text "verification_method") (str options.verification_method) (
              field (text "proof_purpose") (str (text "assertionMethod")) (
                field (text "audience") options.audience
                  (field (text "nonce") (str options.nonce) end))))))))

unfoldable pub protected_header : SigningOptions → Fields
protected_header options = field (text "alg") (str options.algorithm) (
    field (text "b64") (bool false) (
      field (text "crit") (arr (cons (str (text "b64")) nil)) (
        field (text "kid") (str options.verification_method)
          (field (text "typ") (str (text "oati+jws")) end))))

abbrev pub or_throw : Option Text → Result Text
or_throw none = throw (plain_error (text "INVALID_CANONICAL_VALUE"))
or_throw (some t) = ok t

module _ (sigs : Signatures) (signer : List ℕ → Result (List ℕ)) where
  -- The document with its whole proof.
  unfoldable pub attach : SigningOptions → Fields → Fields → Text → List ℕ → Result Fields
  unfolding put base64url
  attach options document proof header signature =
      if eqb (length signature) 64
      then ok (
          put (put document (text "proof") (some (obj proof))) (text "proof") (
            some (
              obj (
                put proof (text "signature")
                  (some (str (header ++ (b'.' ∷ b'.' ∷ base64url signature))))))))
      else throw
          (type_error (options.algorithm ++ text " signer must return a 64-byte JWS signature"))

  unfoldable pub sign_payload : SigningOptions → Fields → Fields → Text → Text → Result Fields
  unfolding attach join_signing_input base64url
  sign_payload options document proof header payload =
      let encoded = base64url (sigs.encode header) in
      signer (join_signing_input sigs encoded (sigs.encode payload)) >>= λ signature.
      attach options document proof encoded signature

  unfoldable pub sign_with : SigningOptions → Fields → Fields → Result Fields
  unfolding protected_header sign_payload canonical_json put
  sign_with options document proof =
      or_throw (canonical_json (obj (protected_header options))) >>= λ header.
      or_throw (canonical_json (obj (put document (text "proof") (some (obj proof)))))
      >>= λ payload. sign_payload options document proof header payload

  unfoldable pub sign_between : Clock → SigningOptions → Fields → ℕ → ℕ → Result Fields
  unfolding sign_with proof_without_signature
  sign_between clock options document created expires =
      if leb expires created
      then throw (range_error (text "expires must be after created"))
      else sign_with options document (proof_without_signature clock options created expires)

  -- `signPreparedDocument`
  unfoldable pub sign_prepared_document : Runtime → Clock → SigningOptions → Fields → Result Fields
  unfolding instant sign_between oati_supported_algorithms normalize_audience
  sign_prepared_document rt clock options document =
      if not (includes oati_supported_algorithms options.algorithm)
      then throw (range_error (text "Unsupported algorithm " ++ options.algorithm))
      else if clock.trim options.verification_method == []
      then throw (type_error (text "verificationMethod is required"))
      else if ltb (length options.nonce) 16
      then throw (type_error (text "nonce must contain at least 16 characters"))
      else if is_empty (normalize_audience (some options.audience))
      then throw (type_error (text "audience is required"))
      else instant rt (created_or_now clock options.created) (text "created") >>= λ created.
          instant rt options.expires (text "expires") >>= λ expires.
          sign_between clock options document created expires
