-- ===== src/Crypto/Sign/Parts.antt =====
-- The parts of a document that was signed, and how a detached signature is read back.
use oati.Prelude.{
  ℕ, ◌+◌, ◌*◌, ◌/◌, ◌%◌, Bool, true, false, not, Option, none, some, List, [], ◌∷◌, ◌++◌, ◌≡◌, refl,
  sym, ap, ◌∙◌, ◌≢◌, if◌then◌else◌, eqb, ltb, length, All, Text, text, ◌==◌, ==_iff, ==_refl,
  includes, split, split_first, split_none, Result, Error, ok, throw, >>=-eq-ok, ok-injective,
  eqb_iff, leb, arith,
}
use oati.Json.{Json, obj, str, Fields, end, field, get}
use oati.Lookup.Records.{put}
use oati.Evaluator.Conditions.{Runtime}
use oati.Canonical.{canonical_json}
use oati.Crypto.Base64.{base64url, from_base64url, digit_char, IsByte, from_base64url-base64url}
use oati.Crypto.Proof.{OatiJwsProof, oati_supported_algorithms, is_empty, normalize_audience}
use oati.Crypto.Verify.{Signatures, header_matches, join_signing_input}
use oati.Crypto.Sign.{
  SigningOptions, Clock, protected_header, proof_without_signature, or_throw, attach, sign_payload,
  sign_with, sign_between, sign_prepared_document, instant, created_or_now,
}

pub put-put :
    (fs : Fields) (key : Text) (v w : Json)
    → put (put fs key (some v)) key (some w) ≡ put fs key (some w)
unfolding put
put-put end key v w = ground (arith, ==_iff key key)
put-put (field k u fs) key v w = ground (arith, put-put fs key v w, ==_iff k key)

pub get-put_same :
    (fs : Fields) (key : Text) (value : Json) → get (put fs key (some value)) key ≡ some value
unfolding get put
get-put_same end key value = ground (arith, ==_iff key key)
get-put_same (field k v fs) key value = ground (arith, get-put_same fs key value, ==_iff k key)

digit_char-dotless : (n : ℕ) → digit_char n ≢ b'.'
unfolding digit_char
digit_char-dotless n h = ground arith

abbrev Dotless : Text → Type 0
Dotless = All (λ c. c ≢ b'.')

base64url-Dotless : (bytes : List ℕ) → Dotless (base64url bytes)
unfolding base64url
base64url-Dotless [] = tt
base64url-Dotless (a ∷ []) = (digit_char-dotless (a / 4), (digit_char-dotless (a % 4 * 16), tt))
base64url-Dotless (a ∷ b ∷ []) = (
  digit_char-dotless (a / 4),
  (digit_char-dotless (a % 4 * 16 + b / 16), (digit_char-dotless (b % 16 * 4), tt)),
)
base64url-Dotless (a ∷ b ∷ c ∷ bytes) = (
  digit_char-dotless (a / 4),
  (
    digit_char-dotless (a % 4 * 16 + b / 16),
    (
      digit_char-dotless (b % 16 * 4 + c / 64),
      (digit_char-dotless (c % 64), base64url-Dotless bytes),
    ),
  ),
)

pub detached-split :
    (header signature : List ℕ)
    → split b'.' (base64url header ++ (b'.' ∷ b'.' ∷ base64url signature))
      ≡ base64url header ∷ [] ∷ base64url signature ∷ []
unfolding split
detached-split header signature =
    split_first b'.' (base64url header) (b'.' ∷ base64url signature) (base64url-Dotless header)
    ∙ ap (λ (parts : List Text). base64url header ∷ [] ∷ parts)
        (split_none b'.' (base64url signature) (base64url-Dotless signature))

-- The header of a signature is for its proof.
pub header_matches-own :
    (options : SigningOptions) (proof : OatiJwsProof)
    → proof.algorithm ≡ options.algorithm
    → proof.verification_method ≡ options.verification_method
    → header_matches proof (some (obj (protected_header options))) ≡ true
unfolding header_matches protected_header get text ◌==◌
header_matches-own options proof h k =
    rw (h, k, ==_refl options.algorithm, ==_refl options.verification_method) refl

pub from_base64url-signature :
    (signature : List ℕ)
    → length signature ≡ 64
    → All IsByte signature
    → from_base64url (base64url signature) ≡ some signature
from_base64url-signature [] h k = absurd (omega (arith, h))
from_base64url-signature (b ∷ bytes) h k = from_base64url-base64url b bytes k

unless-ok :
    {A : Type 0} (test : Bool) (e : Error) (rest : Result A) {a : A}
    → (if test then throw e else rest) ≡ ok a
    → (test ≡ false) × (rest ≡ ok a)
unless-ok true e rest h = cc
unless-ok false e rest h = (refl, h)

only-ok :
    {A : Type 0} (test : Bool) (e : Error) (value : A) {a : A}
    → (if test then ok value else throw e) ≡ ok a
    → (test ≡ true) × (value ≡ a)
only-ok true e value h = (refl, ok-injective h)
only-ok false e value h = cc

or_throw-ok : (t : Option Text) (s : Text) → or_throw t ≡ ok s → t ≡ some s
or_throw-ok (some t) s h = ap (λ (x : Text). some x) (ok-injective h)
or_throw-ok none s h = cc

-- The signed document, by its parts.
pub record SignedFrom (sigs : Signatures) (signer : List ℕ → Result (List ℕ))
    (options : SigningOptions) (document signed : Fields) : Type 0 where
  pub proof : Fields
  pub clock : Clock
  pub created : ℕ
  pub expires : ℕ
  pub proof_is : proof ≡ proof_without_signature clock options created expires
  pub header : Text
  pub header_is : canonical_json (obj (protected_header options)) ≡ some header
  pub payload : Text
  pub payload_is :
      canonical_json (obj (put document (text "proof") (some (obj proof)))) ≡ some payload
  pub signature : List ℕ
  pub signature_is :
      signer (join_signing_input sigs (base64url (sigs.encode header)) (sigs.encode payload))
      ≡ ok signature
  pub size : length signature ≡ 64
  pub result_is :
      signed
      ≡ put (put document (text "proof") (some (obj proof))) (text "proof") (
          some (
            obj (
              put proof (text "signature") (
                some
                  (str (base64url (sigs.encode header) ++ (b'.' ∷ b'.' ∷ base64url signature)))))))

sign_with-SignedFrom :
    (sigs : Signatures) (signer : List ℕ → Result (List ℕ)) (clock : Clock)
    (options : SigningOptions) (document signed : Fields) (created expires : ℕ)
    → sign_with sigs signer options document (proof_without_signature clock options created expires)
      ≡ ok signed
    → SignedFrom sigs signer options document signed
unfolding sign_with sign_payload attach
sign_with-SignedFrom sigs signer clock options document signed created expires h =
    let proof = proof_without_signature clock options created expires in
    let (header, header_is, h1) =
      >>=-eq-ok (or_throw (canonical_json (obj (protected_header options)))) _ h in
    let (payload, payload_is, h2) =
      >>=-eq-ok (or_throw (canonical_json (obj (put document (text "proof") (some (obj proof)))))) _
        h1 in
    let (signature, signature_is, h3) =
      >>=-eq-ok
        (signer (join_signing_input sigs (base64url (sigs.encode header)) (sigs.encode payload))) _
        h2 in
    let (size, shape) = only-ok (eqb (length signature) 64) _ _ h3 in
    record {
      proof = proof;
      clock = clock;
      created = created;
      expires = expires;
      proof_is = refl;
      header = header;
      header_is = or_throw-ok _ header header_is;
      payload = payload;
      payload_is = or_throw-ok _ payload payload_is;
      signature = signature;
      signature_is = signature_is;
      size = (eqb_iff (length signature) 64).0 size;
      result_is = sym shape;
    }

pub sign_prepared_document-SignedFrom :
    (sigs : Signatures) (signer : List ℕ → Result (List ℕ)) (rt : Runtime) (clock : Clock)
    (options : SigningOptions) (document signed : Fields)
    → sign_prepared_document sigs signer rt clock options document ≡ ok signed
    → SignedFrom sigs signer options document signed
unfolding sign_prepared_document sign_between
sign_prepared_document-SignedFrom sigs signer rt clock options document signed h =
    let (_, h1) = unless-ok (not (includes oati_supported_algorithms options.algorithm)) _ _ h in
    let (_, h2) = unless-ok (clock.trim options.verification_method == []) _ _ h1 in
    let (_, h3) = unless-ok (ltb (length options.nonce) 16) _ _ h2 in
    let (_, h4) = unless-ok (is_empty (normalize_audience (some options.audience))) _ _ h3 in
    let (created, _, h5) =
      >>=-eq-ok (instant rt (created_or_now clock options.created) (text "created")) _ h4 in
    let (expires, _, h6) = >>=-eq-ok (instant rt options.expires (text "expires")) _ h5 in
    let (_, h7) = unless-ok (leb expires created) _ _ h6 in
    sign_with-SignedFrom sigs signer clock options document signed created expires h7
