-- ===== src/Crypto/Proof.antt =====
-- The proof of a document: `parseProof` of sdk/typescript/src/crypto.ts, and what it calls.
use oati.Prelude.{
  ℕ, Bool, true, false, not, ◌&&◌, ◌||◌, Option, none, some, List, [], ◌∷◌, if◌then◌else◌, leb, eqb,
  all, length, Text, text, ◌==◌, includes, split,
}
use oati.Json.{Json, null, str, arr, obj, Items, nil, cons, Fields, end, field, get}
use oati.Crypto.Types.{Issues, issue}

unfoldable pub oati_supported_algorithms : List Text
oati_supported_algorithms = text "EdDSA" ∷ text "ES256" ∷ []

unfoldable pub oati_proof_type : Text
oati_proof_type = text "OatiJwsProof2026"

-- `OatiJwsProof`, with its audience as `normalizeAudience` has it, and the object without its
-- signature.
pub record OatiJwsProof : Type 0 where
  pub algorithm : Text
  pub created : Text
  pub expires : Text
  pub verification_method : Text
  pub audience : List Text
  pub nonce : Text
  pub signature : Text
  pub unsigned : Fields

unfoldable pub suite : Text → Text
suite algorithm = if algorithm == text "EdDSA" then text "eddsa-jcs-2022" else text "ecdsa-jcs-2019"

abbrev keep_text : Text → List Text → List Text
keep_text [] rest = rest
keep_text (c ∷ s) rest = (c ∷ s) ∷ rest

abbrev audience_items : Items → List Text
audience_items nil = []
audience_items (cons (str s) vs) = keep_text s (audience_items vs)
audience_items (cons v vs) = audience_items vs

-- `normalizeAudience`
unfoldable pub normalize_audience : Option Json → List Text
normalize_audience (some (arr vs)) = audience_items vs
normalize_audience (some (str s)) = keep_text s []
normalize_audience _ = []

-- `Array.isArray(audience) && audience.some((item) => typeof item !== "string" || item.length === 0)`
abbrev bad_items : Items → Bool
bad_items nil = false
bad_items (cons (str (c ∷ s)) vs) = bad_items vs
bad_items (cons v vs) = true

unfoldable pub bad_audience : Option Json → Bool
bad_audience (some (arr vs)) = bad_items vs
bad_audience _ = false

-- `[A-Za-z0-9_-]`
abbrev is_url_char : ℕ → Bool
is_url_char c =
    (leb 65 c && leb c 90)
    || ((leb 97 c && leb c 122) || ((leb 48 c && leb c 57) || (eqb c b'_' || eqb c b'-')))

abbrev url_chars : Text → Bool
url_chars [] = false
url_chars (c ∷ s) = all is_url_char (c ∷ s)

abbrev are_detached_parts : List Text → Bool
are_detached_parts (header ∷ [] ∷ signature ∷ []) = url_chars header && url_chars signature
are_detached_parts _ = false

-- /^[A-Za-z0-9_-]+\.\.[A-Za-z0-9_-]+$/
unfoldable pub is_detached : Text → Bool
unfolding split
is_detached s = are_detached_parts (split b'.' s)

abbrev pub string_value : Option Json → Text
string_value (some (str s)) = s
string_value _ = []

abbrev pub is_string : Option Json → Bool
is_string (some (str s)) = true
is_string _ = false

abbrev pub equals : Option Json → Text → Bool
equals (some (str s)) t = s == t
equals _ t = false

abbrev pub is_empty : List Text → Bool
is_empty [] = true
is_empty _ = false

-- The tests of `parseProof` on an object.
unfoldable pub is_proof : Fields → Bool
unfolding suite normalize_audience bad_audience is_detached oati_supported_algorithms
    oati_proof_type
is_proof proof =
    let algorithm = get proof (text "algorithm") in
    let audience = get proof (text "audience") in
    let nonce = get proof (text "nonce") in
    equals (get proof (text "type")) oati_proof_type
    && ((is_string algorithm && includes oati_supported_algorithms (string_value algorithm))
        && (equals (get proof (text "cryptosuite")) (suite (string_value algorithm))
            && ((is_string (get proof (text "created")) && is_string (get proof (text "expires")))
                && (not (eqb (length (string_value (get proof (text "verification_method")))) 0)
                    && (equals (get proof (text "proof_purpose")) (text "assertionMethod")
                        && (not (is_empty (normalize_audience audience))
                            && (not (bad_audience audience)
                                && ((is_string nonce && leb 16 (length (string_value nonce)))
                                    && is_detached
                                        (string_value (get proof (text "signature")))))))))))

-- The fields without one key: `withoutSignature`.
unfoldable pub without : Fields → Text → Fields
without end key = end
without (field k v fs) key = let rest = without fs key in if k == key then rest else field k v rest

unfoldable pub proof_of : Fields → OatiJwsProof
unfolding normalize_audience without
proof_of proof = record {
  algorithm = string_value (get proof (text "algorithm"));
  created = string_value (get proof (text "created"));
  expires = string_value (get proof (text "expires"));
  verification_method = string_value (get proof (text "verification_method"));
  audience = normalize_audience (get proof (text "audience"));
  nonce = string_value (get proof (text "nonce"));
  signature = string_value (get proof (text "signature"));
  unsigned = without proof (text "signature");
}

abbrev malformed : Issues → Option OatiJwsProof × Issues
malformed issues = (
  none,
  issue (text "PROOF_MALFORMED") (text "proof does not conform to the OATI JWS profile") issues,
)

-- `parseProof`
unfoldable pub parse_proof : Option Json → Issues → Option OatiJwsProof × Issues
unfolding is_proof proof_of issue
parse_proof none issues =
    (none, issue (text "PROOF_MISSING") (text "OATI proof is required") issues)
parse_proof (some null) issues =
    (none, issue (text "PROOF_MISSING") (text "OATI proof is required") issues)
parse_proof (some (obj proof)) issues =
    if is_proof proof then (some (proof_of proof), issues) else malformed issues
parse_proof (some _) issues = malformed issues
