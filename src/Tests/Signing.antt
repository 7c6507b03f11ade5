-- ===== src/Tests/Signing.antt =====
-- The theorem on signed documents, at a passport that is signed with a constant signature.
use oati.Prelude.{
  ℕ, true, List, [], ◌∷◌, Option, none, some, ◌≡◌, refl, sym, Text, text, Result, ok, ok-injective,
  All, ltb, ltb→lt, all, and_parts, replicate,
}
use oati.Json.{Json, str, obj, Fields, end, field, get}
use oati.Canonical.{canonical_json}
use oati.Lookup.Records.{put}
use oati.Crypto.Types.{VerificationKey, key_active}
use oati.Crypto.Base64.{IsByte}
use oati.Crypto.Proof.{proof_of}
use oati.Crypto.Verify.{Signatures, check_signature}
use oati.Crypto.Sign.{Clock, SigningOptions, written, protected_header, sign_prepared_document}
use oati.Crypto.Sign.Verifiable.{sign_prepared_document-verifies}
use oati.Tests.Requests.{runtime, running}

abbrev options : SigningOptions
options = record {
  algorithm = text "ES256";
  verification_method = text "oati:key:acme:1";
  audience = str (text "oati:org:seller");
  nonce = text "nonce-0123456789";
  created = none;
  expires = written (text "2026-07-27T10:02:00Z");
}

abbrev clock : Clock
clock = record { now = 20260727100000; to_iso_string = λ t. text "2026"; trim = λ s. s }

abbrev sixty_four : List ℕ
sixty_four = replicate 64 9

-- A reader that returns this header, and a key that verifies the constant signature.
abbrev signatures : Signatures
unfolding protected_header text
signatures = record {
  encode = λ s. s;
  decode = λ bytes. bytes;
  parse_json = λ t. some (obj (protected_header options));
  verify = λ algorithm jwk signature input. some true;
}

abbrev signer : List ℕ → Result (List ℕ)
signer input = ok sixty_four

abbrev key : VerificationKey
key = record {
  id = text "oati:key:acme:1";
  controller = text "oati:org:acme";
  issuer = text "oati:issuer:acme";
  algorithm = text "ES256";
  public_key_jwk = end;
  status = key_active;
  valid_from = text "2026-01-01T00:00:00Z";
  valid_until = none;
  revoked_at = none;
  proof_status = none;
}

IsByte-of_test : (s : List ℕ) → all (λ c. ltb c 256) s ≡ true → All IsByte s
IsByte-of_test [] h = tt
IsByte-of_test (c ∷ s) h =
    let (first, rest) = and_parts (ltb c 256) (all (λ c. ltb c 256) s) h in
    (ltb→lt c 256 first, IsByte-of_test s rest)

abbrev fields_or_end : Result Fields → Fields
fields_or_end (ok fs) = fs
fields_or_end _ = end

abbrev object_or_end : Option Json → Fields
object_or_end (some (obj fs)) = fs
object_or_end _ = end

abbrev document : Fields
document = field (text "id") (str (text "oati:passport:1")) end

abbrev signed : Fields
signed = fields_or_end (sign_prepared_document signatures signer runtime clock options document)

abbrev full : Fields
full = object_or_end (get signed (text "proof"))

abbrev header : Text
header =
    text
      "{\"alg\":\"ES256\",\"b64\":false,\"crit\":[\"b64\"],\"kid\":\"oati:key:acme:1\",\"typ\":\"oati+jws\"}"

abbrev header_tail : Text
header_tail =
    text
      "\"alg\":\"ES256\",\"b64\":false,\"crit\":[\"b64\"],\"kid\":\"oati:key:acme:1\",\"typ\":\"oati+jws\"}"

sign_prepared_document-verifies_example :
    check_signature signatures signed (proof_of full) key [] ≡ []
unfolding running sign_prepared_document canonical_json put
sign_prepared_document-verifies_example =
    sign_prepared_document-verifies signatures signer runtime clock options document signed full key
      b'{' header_tail header refl refl refl refl (IsByte-of_test (b'{' ∷ header_tail) refl) refl
      (λ input signature h. coe_bytes signature (IsByte-of_test sixty_four refl) (ok-injective h))
      (λ input signature h. refl)
  where
    coe_bytes :
        (signature : List ℕ) → All IsByte sixty_four → sixty_four ≡ signature → All IsByte signature
    coe_bytes signature h e = rw (sym e) h
