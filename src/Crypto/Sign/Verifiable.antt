-- ===== src/Crypto/Sign/Verifiable.antt =====
-- The signature of a document that was signed is found valid.
use oati.Prelude.{
  ℕ, true, Option, none, some, List, [], ◌∷◌, ◌++◌, ◌≡◌, refl, sym, ap, ◌∙◌, All, Text, text, ◌==◌,
  split, Result, ok,
}
use oati.Json.{Json, obj, str, Fields, end, get}
use oati.Lookup.Records.{put}
use oati.Evaluator.Conditions.{Runtime}
use oati.Canonical.{canonical_json}
use oati.Crypto.Types.{VerificationKey}
use oati.Crypto.Base64.{base64url, from_base64url, IsByte, from_base64url-base64url}
use oati.Crypto.Proof.{OatiJwsProof, proof_of}
use oati.Crypto.Verify.{
  Signatures, header_matches, check_parts, check_signature, report_signature, signing_input,
  join_signing_input, decoded_header,
}
use oati.Crypto.Sign.{
  SigningOptions, Clock, protected_header, proof_without_signature, sign_prepared_document,
}
use oati.Crypto.Sign.Parts.{
  put-put, get-put_same, detached-split, header_matches-own, from_base64url-signature, SignedFrom,
  sign_prepared_document-SignedFrom,
}

-- What `parseProof` reads of a proof that was made.
module _ (clock : Clock) (options : SigningOptions) (created expires : ℕ) (signature : Text) where
  made : OatiJwsProof
  unfolding put proof_of proof_without_signature text get
  made = proof_of (
      put (proof_without_signature clock options created expires) (text "signature")
        (some (str signature)))

  made-algorithm : made.algorithm ≡ options.algorithm
  unfolding made put proof_of proof_without_signature text get ◌==◌
  made-algorithm = refl

  made-method : made.verification_method ≡ options.verification_method
  unfolding made put proof_of proof_without_signature text get ◌==◌
  made-method = refl

  made-signature : made.signature ≡ signature
  unfolding made put proof_of proof_without_signature text get ◌==◌
  made-signature = refl

  made-unsigned : made.unsigned ≡ proof_without_signature clock options created expires
  unfolding made put proof_of proof_without_signature text get ◌==◌
  made-unsigned = refl

check_parts-valid :
    (sigs : Signatures) (signed : Fields) (proof : OatiJwsProof) (key : VerificationKey)
    (header text_of_signature : Text) (signature input : List ℕ)
    → header_matches proof (decoded_header sigs (from_base64url header)) ≡ true
    → from_base64url text_of_signature ≡ some signature
    → signing_input sigs signed proof header ≡ some input
    → sigs.verify proof.algorithm key.public_key_jwk signature input ≡ some true
    → check_parts sigs signed proof key (header ∷ [] ∷ text_of_signature ∷ []) ≡ some true
unfolding check_parts
check_parts-valid sigs signed proof key header text_of_signature signature input h k l valid =
    rw (h, k, l) valid

signing_input-payload :
    (sigs : Signatures) (signed : Fields) (proof : OatiJwsProof) (header payload : Text)
    → canonical_json (obj (put signed (text "proof") (some (obj proof.unsigned)))) ≡ some payload
    → signing_input sigs signed proof header
      ≡ some (join_signing_input sigs header (sigs.encode payload))
unfolding signing_input
signing_input-payload sigs signed proof header payload h = rw (signing_input, h) refl

check_signature-valid :
    (sigs : Signatures) (signed : Fields) (proof : OatiJwsProof) (key : VerificationKey)
    (parts : List Text)
    → split b'.' proof.signature ≡ parts
    → check_parts sigs signed proof key parts ≡ some true
    → check_signature sigs signed proof key [] ≡ []
unfolding check_signature report_signature
check_signature-valid sigs signed proof key parts h k = rw (h, k) refl

obj_fields : Option Json → Fields
obj_fields (some (obj fs)) = fs
obj_fields _ = end

or_empty : Option Text → Text
or_empty none = []
or_empty (some t) = t

module _ (sigs : Signatures) (signer : List ℕ → Result (List ℕ)) (options : SigningOptions)
    (document signed full : Fields) (f : SignedFrom sigs signer options document signed) where
  signature_text : Text
  signature_text = base64url (sigs.encode f.header) ++ (b'.' ∷ b'.' ∷ base64url f.signature)

  own_proof : OatiJwsProof
  own_proof = made f.clock options f.created f.expires signature_text

  full-own : get signed (text "proof") ≡ some (obj full) → proof_of full ≡ own_proof
  unfolding obj_fields made signature_text own_proof
  full-own found =
      let shape : some (obj full)
          ≡ some (obj (put f.proof (text "signature") (some (str signature_text)))) =
        sym found
        ∙ ap (λ (fs : Fields). get fs (text "proof")) f.result_is
        ∙ get-put_same (put document (text "proof") (some (obj f.proof))) (text "proof")
            (obj (put f.proof (text "signature") (some (str signature_text)))) in
      ap (λ (v : Option Json). proof_of (obj_fields v)) shape
      ∙ ap (λ (fs : Fields). proof_of (put fs (text "signature") (some (str signature_text))))
          f.proof_is

  same_payload :
      canonical_json (obj (put signed (text "proof") (some (obj own_proof.unsigned))))
      ≡ some f.payload
  unfolding own_proof signature_text
  same_payload =
      ap (λ (fs : Fields). canonical_json (obj fs))
        (ap (λ (fs : Fields). put fs (text "proof") (some (obj own_proof.unsigned))) f.result_is
          ∙ put-put (put document (text "proof") (some (obj f.proof))) (text "proof")
              (obj (put f.proof (text "signature") (some (str signature_text))))
              (obj own_proof.unsigned)
          ∙ put-put document (text "proof") (obj f.proof) (obj own_proof.unsigned)
          ∙ ap (λ (u : Fields). put document (text "proof") (some (obj u)))
              (made-unsigned f.clock options f.created f.expires signature_text ∙ sym f.proof_is))
      ∙ f.payload_is

  own_proof-valid :
      (key : VerificationKey) (b : ℕ) (bytes : List ℕ)
      → sigs.encode f.header ≡ b ∷ bytes
      → All IsByte (b ∷ bytes)
      → sigs.parse_json (sigs.decode (b ∷ bytes)) ≡ some (obj (protected_header options))
      → All IsByte f.signature
      → sigs.verify options.algorithm key.public_key_jwk f.signature
          (join_signing_input sigs (base64url (sigs.encode f.header)) (sigs.encode f.payload))
        ≡ some true
      → check_signature sigs signed own_proof key [] ≡ []
  unfolding own_proof signature_text
  own_proof-valid key b bytes encoded are_bytes decoded signature_bytes valid =
      let header = base64url (sigs.encode f.header) in
      let input = join_signing_input sigs header (sigs.encode f.payload) in
      let read : from_base64url header ≡ some (b ∷ bytes) =
        ap (λ (x : List ℕ). from_base64url (base64url x)) encoded
        ∙ from_base64url-base64url b bytes are_bytes in
      let algorithm : own_proof.algorithm ≡ options.algorithm =
        made-algorithm f.clock options f.created f.expires signature_text in
      let matches : header_matches own_proof (decoded_header sigs (from_base64url header)) ≡ true =
        ap (λ (x : Option (List ℕ)). header_matches own_proof (decoded_header sigs x)) read
        ∙ ap (header_matches own_proof) decoded
        ∙ header_matches-own options own_proof algorithm
            (made-method f.clock options f.created f.expires signature_text) in
      check_signature-valid sigs signed own_proof key (header ∷ [] ∷ base64url f.signature ∷ [])
        (ap (split b'.') (made-signature f.clock options f.created f.expires signature_text)
          ∙ detached-split (sigs.encode f.header) f.signature)
        (check_parts-valid sigs signed own_proof key header (base64url f.signature) f.signature
          input matches (from_base64url-signature f.signature f.size signature_bytes)
          (signing_input-payload sigs signed own_proof header f.payload same_payload)
          (ap (λ (a : Text). sigs.verify a key.public_key_jwk f.signature input) algorithm ∙ valid))

-- The signature that `signPreparedDocument` attaches is found valid by the check of `verifyDocument`,
-- where the protected header is read back from its bytes, and the key verifies what the signer signs.
pub sign_prepared_document-verifies :
    (sigs : Signatures) (signer : List ℕ → Result (List ℕ)) (rt : Runtime) (clock : Clock)
    (options : SigningOptions) (document signed full : Fields) (key : VerificationKey) (b : ℕ)
    (bytes : List ℕ) (header : Text)
    → sign_prepared_document sigs signer rt clock options document ≡ ok signed
    → get signed (text "proof") ≡ some (obj full)
    → canonical_json (obj (protected_header options)) ≡ some header
    → sigs.encode header ≡ b ∷ bytes
    → All IsByte (b ∷ bytes)
    → sigs.parse_json (sigs.decode (b ∷ bytes)) ≡ some (obj (protected_header options))
    → ((input signature : List ℕ) → signer input ≡ ok signature → All IsByte signature)
    → ((input signature : List ℕ)
        → signer input ≡ ok signature
        → sigs.verify options.algorithm key.public_key_jwk signature input ≡ some true)
    → check_signature sigs signed (proof_of full) key [] ≡ []
unfolding or_empty
sign_prepared_document-verifies sigs signer rt clock options document signed full key b bytes header
      h found header_is encoded are_bytes decoded signature_bytes verifies =
    let f = sign_prepared_document-SignedFrom sigs signer rt clock options document signed h in
    let same : some f.header ≡ some header = sym f.header_is ∙ header_is in
    let same_header : f.header ≡ header = ap (or_empty) same in
    ap (λ (proof : OatiJwsProof). check_signature sigs signed proof key [])
      (full-own sigs signer options document signed full f found)
    ∙ own_proof-valid sigs signer options document signed full f key b bytes
        (ap sigs.encode same_header ∙ encoded) are_bytes decoded
        (signature_bytes _ f.signature f.signature_is) (verifies _ f.signature f.signature_is)
