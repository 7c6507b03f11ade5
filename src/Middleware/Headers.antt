-- ===== src/Middleware/Headers.antt =====
-- The headers and the digest of a request, and random identifiers, of middleware.ts.
use oati.Prelude.{
  ℕ, ◌+◌, ◌/◌, ◌%◌, Bool, true, false, not, ◌&&◌, ◌||◌, Option, none, some, List, [], ◌∷◌, ◌++◌,
  if◌then◌else◌, leb, ltb, eqb, all, length, take, drop, Text, text, ◌==◌,
}
use oati.Json.{Json, str, obj, Fields, end, field}
use oati.Canonical.{canonical_json}
use oati.Crypto.Base64.{base64url, from_base64url}
use oati.Middleware.Types.{
  oati_error, Try, threw, got, Request, Documents, Action, ◌>>=◌, ◌>>◌, pure, raise, raise_if, lift,
  asks, Host, Log, made_uuid,
}

-- `OATI_HTTP_HEADERS`
abbrev pub envelope_header : Text
envelope_header = text "OATI-Envelope"

abbrev pub mandate_header : Text
mandate_header = text "OATI-Mandate"

abbrev pub parent_mandate_header : Text
parent_mandate_header = text "OATI-Parent-Mandate"

abbrev pub transaction_id_header : Text
transaction_id_header = text "OATI-Transaction-ID"

abbrev pub correlation_id_header : Text
correlation_id_header = text "OATI-Correlation-ID"

abbrev pub receipt_header : Text
receipt_header = text "OATI-Receipt"

abbrev pub receipt_id_header : Text
receipt_id_header = text "OATI-Receipt-ID"

-- `a ?? b`
abbrev pub or_default {ℓ} : {A : Type ℓ} → Option A → A → A
or_default none default = default
or_default (some a) default = a

-- A text in a test: `undefined`, `null` and the empty text fail.
abbrev pub non_empty : Option Text → Bool
non_empty none = false
non_empty (some []) = false
non_empty (some (c ∷ s)) = true

abbrev hex_digit : ℕ → ℕ
hex_digit n = if ltb n 10 then 48 + n else 87 + n

-- `hex`
unfoldable pub hex : List ℕ → Text
hex [] = []
hex (b ∷ bytes) = hex_digit (b / 16) ∷ hex_digit (b % 16) ∷ hex bytes

-- Byte 6 and byte 8 have the version and the variant of the UUID.
unfoldable pub with_version : List ℕ → List ℕ
with_version (a ∷ b ∷ c ∷ d ∷ e ∷ f ∷ g ∷ h ∷ i ∷ bytes) =
    a ∷ b ∷ c ∷ d ∷ e ∷ f ∷ (g % 16 + 64) ∷ h ∷ (i % 64 + 128) ∷ bytes
with_version bytes = bytes

-- The digits in groups of 8, 4, 4, 4 and 12.
unfoldable pub grouped : Text → Text
grouped s =
    take 8 s
    ++ (b'-'
        ∷ (take 4 (drop 8 s)
            ++ (b'-'
                ∷ (take 4 (drop 12 s) ++ (b'-' ∷ (take 4 (drop 16 s) ++ (b'-' ∷ drop 20 s)))))))

abbrev pub uuid_of_bytes : Option (Log → List ℕ) → Action Text
uuid_of_bytes none log = raise (text "MIDDLEWARE_UNAVAILABLE") log
uuid_of_bytes (some random) log = (got (grouped (hex (with_version (random log)))), made_uuid ∷ log)

-- `safeUuid`
unfoldable pub safe_uuid : Host → Action Text
unfolding hex with_version grouped
safe_uuid host log = elim host.random_uuid [
  | some random ↦ (got (random log), made_uuid ∷ log)
  | none ↦ uuid_of_bytes host.random_values log
]

-- `[A-Za-z0-9._:-]`
abbrev is_correlation_char : ℕ → Bool
is_correlation_char c =
    (leb 65 c && leb c 90)
    || ((leb 97 c && leb c 122)
        || ((leb 48 c && leb c 58) || (eqb c b'.' || (eqb c b'_' || eqb c b'-'))))

-- /^[A-Za-z0-9._:-]{1,128}$/
unfoldable pub is_correlation : Text → Bool
is_correlation s = leb 1 (length s) && (leb (length s) 128 && all is_correlation_char s)

abbrev pub generated : Host → Option (Log → Text) → Action Text
generated host none = safe_uuid host
generated host (some generate) = asks generate

-- `correlation`
unfoldable pub correlation : Host → Option Text → Option (Log → Text) → Action Text
unfolding is_correlation safe_uuid
correlation host (some value) generator =
    raise_if (not (is_correlation value)) (text "MIDDLEWARE_BAD_REQUEST") >> pure value
correlation host none generator = do
  value ← generated host generator
  raise_if (not (is_correlation value)) (text "MIDDLEWARE_UNAVAILABLE")
  pure value

-- The object of an encoded document. A value that is no object fails its schema, so it is refused here.
abbrev pub object_or_fail : Option Json → Action Fields
object_or_fail (some (obj fs)) = pure fs
object_or_fail _ = raise (text "MIDDLEWARE_BAD_REQUEST")

abbrev pub parsed_bytes : Host → Option (List ℕ) → Option Json
parsed_bytes host none = none
parsed_bytes host (some bytes) = host.signatures.parse_json (host.signatures.decode bytes)

-- `decodeHeader`
unfoldable pub decode_header : Host → Option Text → ℕ → Action Fields
unfolding from_base64url
decode_header host none max_bytes = raise (text "MIDDLEWARE_BAD_REQUEST")
decode_header host (some value) max_bytes = do
  raise_if (value == []) (text "MIDDLEWARE_BAD_REQUEST")
  raise_if (ltb max_bytes (length value)) (text "MIDDLEWARE_BAD_REQUEST")
  object_or_fail (parsed_bytes host (from_base64url value))

abbrev pub decode_parent : Host → Option Text → ℕ → Action (Option Fields)
decode_parent host value max_bytes =
    if non_empty value
    then (do parent ← decode_header host value max_bytes; pure (some parent))
    else pure none

-- `extractOatiHeaders`
unfoldable pub extract_oati_headers : Host → Request → Option ℕ → Action Documents
unfolding decode_header
extract_oati_headers host request max_header_bytes = do
  let max_bytes = or_default max_header_bytes 65536
  envelope ← decode_header host (request.headers envelope_header) max_bytes
  mandate ← decode_header host (request.headers mandate_header) max_bytes
  parent ← decode_parent host (request.headers parent_mandate_header) max_bytes
  pure (record { envelope = envelope; mandate = mandate; parent_mandate = parent })

abbrev pub canonical_or_fail : Option Text → Try Text
canonical_or_fail none = threw (oati_error (text "INVALID_CANONICAL_VALUE"))
canonical_or_fail (some t) = got t

-- `encodeOatiHeader`
unfoldable pub encode_oati_header : Host → Fields → Action Text
unfolding canonical_json base64url
encode_oati_header host value = do
  canonical ← lift (canonical_or_fail (canonical_json (obj value)))
  pure (base64url (host.signatures.encode canonical))

-- `sha256:` and the digest in hexadecimal digits
unfoldable pub digest_text : Host → List ℕ → Text
unfolding hex text
digest_text host bytes = text "sha256:" ++ hex (host.sha256 bytes)

unfoldable pub http_binding : Host → Request → Fields
unfolding digest_text
http_binding host request = field (text "method") (str (host.to_upper_case request.method)) (
    field (text "target") (str (request.pathname ++ request.search))
      (field (text "body_sha256") (str (digest_text host request.body)) end))

-- `httpRequestDigest`
unfoldable pub http_request_digest : Host → Request → Option ℕ → Action Text
unfolding http_binding digest_text canonical_json
http_request_digest host request max_body_bytes = do
  raise_if (ltb (or_default max_body_bytes 1048576) (length request.body))
      (text "MIDDLEWARE_BAD_REQUEST")
  binding ← lift (canonical_or_fail (canonical_json (obj (http_binding host request))))
  pure (digest_text host (host.signatures.encode binding))
