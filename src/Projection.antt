-- ===== src/Projection.antt =====
-- sdk/typescript/src/projection.ts: the record that the public lookup exposes of a registry's source.
-- Properties that a plain object inherits are left out, for the names of the types too.
pub mod Inside
pub mod Attributes
pub mod Allowed
use oati.Prelude.{
  ℕ, suc, Bool, true, false, ◌&&◌, Option, none, some, List, [], ◌∷◌, if◌then◌else◌, ltb, Text,
  text, ◌==◌, includes,
}
use oati.Json.{Json, null, bool, num, str, arr, obj, Items, nil, cons, Fields, end, field, get}
use oati.Lookup.Records.{put}

-- `JSON.parse`, where `none` is an exception, and `toLowerCase`
pub record Platform : Type 0 where
  pub parse_json : Text → Option Json
  pub to_lower_case : Text → Text

-- An `OatiValidationError`, by its message and its details.
pub data Refusal : Type 0 where
  invalid_json nesting_limit private_jwk not_a_string : Text → Refusal
  forbidden_field : Text → Text → Refusal
  unsupported_type attributes_not_an_object not_a_record : Refusal

-- `publicFields`
unfoldable pub public_fields : List Text
public_fields =
    text "type"
    ∷ text "id"
    ∷ text "display_name"
    ∷ text "status"
    ∷ text "issuer"
    ∷ text "organisation_id"
    ∷ text "issued_at"
    ∷ text "expires_at"
    ∷ text "assurance_level"
    ∷ text "proof_status"
    ∷ text "public_attributes"
    ∷ []

abbrev Allowances : Type 0
Allowances = List (Text × List Text)

-- `publicAttributesByType`
abbrev attributes_by_type : Allowances
attributes_by_type =
    (
      text "organisation",
      text "environment" ∷ text "website" ∷ text "jurisdiction" ∷ text "signed_document" ∷ [],
    )
    ∷ (
      text "issuer",
      text "environment" ∷ text "parent" ∷ text "revoked_at" ∷ text "signed_document" ∷ [],
    )
    ∷ (
      text "key",
      text "controller"
          ∷ text "algorithm"
          ∷ text "public_key_jwk"
          ∷ text "revoked_at"
          ∷ text "signed_document"
          ∷ [],
    )
    ∷ (text "agent", text "protocol" ∷ text "protocols" ∷ text "signed_document" ∷ [])
    ∷ (text "passport", text "subject" ∷ text "signed_document" ∷ [])
    ∷ (text "mandate", text "subject" ∷ text "signed_document" ∷ [])
    ∷ (
      text "receipt",
      text "transaction_id" ∷ text "mandate_id" ∷ text "outcome" ∷ text "signed_document" ∷ [],
    )
    ∷ (
      text "revocation",
      text "target" ∷ text "revocation_status" ∷ text "effective_at" ∷ text "signed_document" ∷ [],
    )
    ∷ (text "service", text "document" ∷ text "signed_document" ∷ [])
    ∷ (text "profile", text "document" ∷ text "signed_document" ∷ [])
    ∷ []

abbrev find_allowed : Allowances → Text → Option (List Text)
find_allowed [] type = none
find_allowed ((t, names) ∷ ts) type =
    let rest = find_allowed ts type in if t == type then some names else rest

unfoldable pub allowed_attributes : Option Json → Option (List Text)
allowed_attributes (some (str type)) = find_allowed attributes_by_type type
allowed_attributes _ = none

-- `sensitiveNestedFields`
unfoldable pub sensitive_nested_fields : List Text
sensitive_nested_fields =
    text "access_token"
    ∷ text "api_key"
    ∷ text "credential"
    ∷ text "internal_id"
    ∷ text "kms_key"
    ∷ text "operator_notes"
    ∷ text "password"
    ∷ text "private_attributes"
    ∷ text "private_key"
    ∷ text "refresh_token"
    ∷ text "secret"
    ∷ text "tenant_id"
    ∷ []

abbrev pub or_next : Option Refusal → Option Refusal → Option Refusal
or_next none next = next
or_next (some refusal) next = some refusal

abbrev pub is_some : Option Json → Bool
is_some none = false
is_some (some v) = true

abbrev pub is_string : Option Json → Bool
is_string (some (str s)) = true
is_string _ = false

-- `typeof record.kty === "string" && "d" in record`
abbrev pub is_private_jwk : Fields → Bool
is_private_jwk fs = is_string (get fs (text "kty")) && is_some (get fs (text "d"))

unfoldable pub check_jwk : Text → Fields → Option Refusal
check_jwk attribute fs = if is_private_jwk fs then some (private_jwk attribute) else none

unfoldable pub check_key_name : Platform → Text → Text → Option Refusal
unfolding sensitive_nested_fields
check_key_name p attribute key =
    if includes sensitive_nested_fields (p.to_lower_case key)
    then some (forbidden_field attribute key)
    else none

unfoldable pub check_depth : Text → ℕ → Option Refusal
check_depth attribute depth = if ltb 32 depth then some (nesting_limit attribute) else none

-- `visit` of `assertPublicJson`: the first refusal, if there is one
unfoldable mutual
  unfolding check_jwk check_key_name check_depth

  pub visit : Platform → Text → ℕ → Json → Option Refusal
  visit p attribute depth (arr vs) =
      or_next (check_depth attribute depth) (visit_items p attribute (suc depth) vs)
  visit p attribute depth (obj fs) =
      or_next (check_depth attribute depth)
        (or_next (visit_fields p attribute (suc depth) fs) (check_jwk attribute fs))
  visit p attribute depth value = check_depth attribute depth

  pub visit_items : Platform → Text → ℕ → Items → Option Refusal
  visit_items p attribute depth nil = none
  visit_items p attribute depth (cons v vs) =
      or_next (visit p attribute depth v) (visit_items p attribute depth vs)

  pub visit_fields : Platform → Text → ℕ → Fields → Option Refusal
  visit_fields p attribute depth end = none
  visit_fields p attribute depth (field key v fs) =
      or_next (check_key_name p attribute key)
        (or_next (visit p attribute depth v) (visit_fields p attribute depth fs))

abbrev pub visit_parsed : Platform → Text → Option Json → Option Refusal
visit_parsed p attribute none = some (invalid_json attribute)
visit_parsed p attribute (some document) = visit p attribute 0 document

unfoldable pub assert_public_json : Platform → Text → Text → Option Refusal
unfolding visit
assert_public_json p value attribute = visit_parsed p attribute (p.parse_json value)

unfoldable pub json_attributes : List Text
json_attributes = text "document" ∷ text "public_key_jwk" ∷ text "signed_document" ∷ []

-- What a projection gives.
pub data Projection : Type 0 where
  refused : Refusal → Projection
  projected : Fields → Projection

unfoldable pub check_attribute : Platform → Text → Text → Option Refusal
unfolding assert_public_json json_attributes
check_attribute p name value =
    if includes json_attributes name then assert_public_json p value name else none

abbrev pub add_attribute : Option Refusal → Text → Text → Projection → Projection
add_attribute (some refusal) name value rest = refused refusal
add_attribute none name value (refused refusal) = refused refusal
add_attribute none name value (projected fs) = projected (field name (str value) fs)

abbrev pub filter_attribute : Platform → Text → Option Json → Projection → Projection
filter_attribute p name none rest = rest
filter_attribute p name (some (str s)) rest = add_attribute (check_attribute p name s) name s rest
filter_attribute p name (some v) rest = refused (not_a_string name)

-- The attributes of the names, in their order.
unfoldable pub filter_attributes : Platform → Fields → List Text → Projection
unfolding check_attribute
filter_attributes p attributes [] = projected end
filter_attributes p attributes (name ∷ names) =
    filter_attribute p name (get attributes name) (filter_attributes p attributes names)

abbrev pub keep_field : Text → Option Json → Fields → Fields
keep_field name none rest = rest
keep_field name (some v) rest = field name v rest

-- The fields of the names that are not undefined.
unfoldable pub project_fields : Fields → List Text → Fields
project_fields source [] = end
project_fields source (name ∷ names) =
    keep_field name (get source name) (project_fields source names)

unfoldable pub is_record : Fields → Bool
is_record fs =
    is_string (get fs (text "type"))
    && (is_string (get fs (text "id"))
        && (is_string (get fs (text "display_name"))
            && (is_string (get fs (text "status"))
                && (is_string (get fs (text "issuer"))
                    && is_string (get fs (text "proof_status"))))))

abbrev pub accept : Fields → Projection
accept fs = if is_record fs then projected fs else refused not_a_record

abbrev pub with_attributes : Fields → Projection → Projection
with_attributes fs (refused refusal) = refused refusal
with_attributes fs (projected attributes) =
    accept (put fs (text "public_attributes") (some (obj attributes)))

abbrev pub project_with : Platform → Fields → Option (List Text) → Option Json → Projection
project_with p fs none attributes = refused unsupported_type
project_with p fs (some names) (some (obj attributes)) =
    with_attributes fs (filter_attributes p attributes names)
project_with p fs (some names) _ = refused attributes_not_an_object

-- `projectPublicRecord`
unfoldable pub project_public_record : Platform → Fields → Projection
unfolding filter_attributes project_fields is_record allowed_attributes public_fields put
project_public_record p source =
    let fs = project_fields source public_fields in
    project_with p fs (allowed_attributes (get fs (text "type")))
      (get fs (text "public_attributes"))
