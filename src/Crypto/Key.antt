-- ===== src/Crypto/Key.antt =====
-- `checkKey` and `jwkMatches` of sdk/typescript/src/crypto.ts.
use oati.Prelude.{
  ℕ, ◌+◌, Bool, true, false, not, ◌&&◌, ◌||◌, Option, none, some, [], ◌∷◌, ltb, leb, if◌then◌else◌,
  Text, text, ◌==◌,
}
use oati.Json.{Json, str, Fields, get}
use oati.Evaluator.Conditions.{Runtime}
use oati.Crypto.Types.{
  KeyStatus, key_retired, key_revoked, key_unsupported, VerificationKey, Issues,
}
use oati.Crypto.Trust.{present, unparsed, at_or_before, unproved}
use oati.Crypto.Period.{issue_if}
use oati.Crypto.Ed25519.{is_valid_ed25519_public_key}
use oati.Crypto.Proof.{OatiJwsProof, equals}

abbrev pub text_of : Option Json → Option Text
text_of (some (str s)) = some s
text_of _ = none

unfoldable pub jwk_matches : Fields → Text → Bool
unfolding is_valid_ed25519_public_key
jwk_matches jwk algorithm =
    if algorithm == text "EdDSA"
    then equals (get jwk (text "kty")) (text "OKP")
      && (equals (get jwk (text "crv")) (text "Ed25519")
          && is_valid_ed25519_public_key (text_of (get jwk (text "x"))))
    else equals (get jwk (text "kty")) (text "EC") && equals (get jwk (text "crv")) (text "P-256")

unfoldable pub key_mismatch : VerificationKey → OatiJwsProof → Bool
unfolding jwk_matches
key_mismatch key proof =
    not (key.algorithm == proof.algorithm)
    || (not (key.id == proof.verification_method)
        || (unproved key.proof_status || not (jwk_matches key.public_key_jwk proof.algorithm)))

abbrev pub is_supported : KeyStatus → Bool
is_supported key_unsupported = false
is_supported _ = true

abbrev pub is_retired : KeyStatus → Bool
is_retired key_retired = true
is_retired _ = false

abbrev pub is_revoked : KeyStatus → Bool
is_revoked key_revoked = true
is_revoked _ = false

-- `created < from - skew` and `created >= until + skew`, which NaN fails
abbrev before : Option ℕ → ℕ → ℕ → Bool
before none from skew = false
before (some created) from skew = ltb (created + skew) from

abbrev after : Option ℕ → ℕ → ℕ → Bool
after none until skew = false
after (some created) until skew = leb (until + skew) created

abbrev pub starts_after : Option ℕ → Option ℕ → ℕ → Bool
starts_after none created skew = true
starts_after (some from) created skew = before created from skew

abbrev ends_before : Option ℕ → Option ℕ → ℕ → Bool
ends_before none created skew = true
ends_before (some until) created skew = after created until skew

-- The end of the key's validity, where it has one.
abbrev pub past_end : Runtime → Option Text → Option ℕ → ℕ → Bool
past_end rt none created skew = false
past_end rt (some []) created skew = false
past_end rt (some (c ∷ s)) created skew = ends_before (rt.parse_date (c ∷ s)) created skew

unfoldable pub key_not_valid : Runtime → VerificationKey → Option ℕ → ℕ → Bool
key_not_valid rt key created skew =
    starts_after (rt.parse_date key.valid_from) created skew
    || past_end rt key.valid_until created skew

-- Of a revocation time that is given.
abbrev pub revoked_when : (Text → Bool) → Option Text → Bool
revoked_when test none = false
revoked_when test (some []) = false
revoked_when test (some (c ∷ s)) = test (c ∷ s)

unfoldable pub key_is_revoked : Runtime → VerificationKey → ℕ → Bool
key_is_revoked rt key now =
    is_revoked key.status || revoked_when (λ s. at_or_before rt s now) key.revoked_at

unfoldable pub check_key : Runtime → VerificationKey → OatiJwsProof → ℕ → ℕ → Issues → Issues
unfolding issue_if key_mismatch key_not_valid key_is_revoked
check_key rt key proof now skew issues =
    issue_if (key_is_revoked rt key now) (text "KEY_REVOKED") (text "verification key is revoked") (
      issue_if (revoked_when (unparsed rt) key.revoked_at) (text "KEY_INVALID")
        (text "verification key has an invalid revocation timestamp")
        (issue_if (key_not_valid rt key (rt.parse_date proof.created) skew) (text "KEY_INVALID")
          (text "key was not valid when the proof was created")
          (issue_if (is_retired key.status && not (present key.valid_until)) (text "KEY_INVALID")
            (text "retired verification keys require validUntil")
            (issue_if (not (is_supported key.status)) (text "KEY_INVALID")
              (text "verification key has an unsupported status")
              (issue_if (key_mismatch key proof) (text "KEY_INVALID")
                (text "resolved key metadata does not match the proof") issues)))))
