-- ===== src/Tests/Projections.antt =====
-- The theorems on the public projection at the record of a key.
use oati.Prelude.{
  ◌+◌, ◌≤◌, true, false, ◌&&◌, List, [], none, some, ◌≡◌, refl, ◌⊎◌, Text, text, ◌==◌, includes,
  if◌then◌else◌, leb, map,
}
use oati.Json.{str, arr, obj, nil, cons, Fields, end, field, get}
use oati.Projection.{
  Platform, refused, projected, forbidden_field, private_jwk, project_public_record, public_fields,
  allowed_attributes,
}
use oati.Projection.Inside.{here, in_property, first_property, later_property}
use oati.Projection.Allowed.{
  sensitive_names, project_public_record-Listed, project_public_record-Attributes,
  project_public_record-Harmless,
}
use oati.Tests.Requests.{running}

abbrev jwk : Fields
jwk = field (text "kty") (str (text "EC")) (field (text "crv") (str (text "P-256")) end)

abbrev secret_jwk : Fields
secret_jwk = field (text "kty") (str (text "EC")) (field (text "d") (str (text "x")) end)

-- A parser that knows three texts, and the letters of ASCII.
abbrev platform : Platform
platform = record {
  parse_json = λ t.
      if t == text "J"
      then some (obj (field (text "key") (obj jwk) end))
      else if t == text "D"
      then some (arr (cons (obj secret_jwk) nil))
      else if t == text "S"
      then some (obj (field (text "Api_Key") (str []) end))
      else none;
  to_lower_case = map (λ c. if leb 65 c && leb c 90 then c + 32 else c);
}

abbrev attributes : Text → Fields
attributes jwk_text =
    field (text "controller") (str (text "oati:org:acme"))
      (field (text "public_key_jwk") (str jwk_text) end)

abbrev source : Text → Fields
source jwk_text = field (text "tenant_id") (str (text "t-1")) (
    field (text "type") (str (text "key")) (
      field (text "id") (str (text "oati:key:1")) (
        field (text "display_name") (str (text "Key")) (
          field (text "status") (str (text "active")) (
            field (text "issuer") (str (text "oati:issuer:acme")) (
              field (text "proof_status") (str (text "verified")) (
                field (text "public_attributes")
                  (obj (field (text "kms_key") (str (text "k")) (attributes jwk_text))) end)))))))

abbrev public : Fields
public = field (text "type") (str (text "key")) (
    field (text "id") (str (text "oati:key:1")) (
      field (text "display_name") (str (text "Key")) (
        field (text "status") (str (text "active")) (
          field (text "issuer") (str (text "oati:issuer:acme")) (
            field (text "proof_status") (str (text "verified"))
              (field (text "public_attributes") (obj (attributes (text "J"))) end))))))

is_projected : project_public_record platform (source (text "J")) ≡ projected public
unfolding running project_public_record
is_projected = refl

private_key :
    project_public_record platform (source (text "D"))
    ≡ refused (private_jwk (text "public_key_jwk"))
unfolding running project_public_record
private_key = refl

sensitive :
    project_public_record platform (source (text "S"))
    ≡ refused (forbidden_field (text "public_key_jwk") (text "Api_Key"))
unfolding running project_public_record
sensitive = refl

project_public_record-Listed_example :
    (includes public_fields (text "id") ≡ true)
    × ((get (source (text "J")) (text "id") ≡ some (str (text "oati:key:1")))
        ⊎ (text "id" ≡ text "public_attributes"))
unfolding running project_public_record
project_public_record-Listed_example =
    project_public_record-Listed platform (source (text "J")) public (text "id")
      (str (text "oati:key:1")) is_projected refl

project_public_record-Attributes_example :
    (names : List Text) × (allowed_attributes (get public (text "type")) ≡ some names)
    × (includes names (text "controller") ≡ true)
    × (given : Fields) × (get (source (text "J")) (text "public_attributes") ≡ some (obj given))
    × (get given (text "controller") ≡ some (str (text "oati:org:acme")))
    × (content : Text) × (str (text "oati:org:acme") ≡ str content)
unfolding running project_public_record
project_public_record-Attributes_example =
    project_public_record-Attributes platform (source (text "J")) public (attributes (text "J"))
      (text "controller") (str (text "oati:org:acme")) is_projected refl refl

project_public_record-Harmless_example :
    (1 ≤ 32)
    × (includes sensitive_names (platform.to_lower_case (text "crv")) ≡ false)
    × ((kty : Text) → get jwk (text "kty") ≡ some (str kty) → get jwk (text "d") ≡ none)
unfolding running project_public_record
project_public_record-Harmless_example =
    project_public_record-Harmless platform (source (text "J")) public (attributes (text "J"))
      (text "public_key_jwk") (text "J") (text "crv") (obj (field (text "key") (obj jwk) end))
      (str (text "P-256")) 1 jwk is_projected refl refl refl refl (in_property first_property here)
      (later_property first_property)
