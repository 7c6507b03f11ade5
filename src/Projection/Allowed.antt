-- ===== src/Projection/Allowed.antt =====
-- What a public record holds of its source.
use oati.Prelude.{
  ◌&&◌, ℕ, ◌+◌, ◌≤◌, true, false, Option, none, some, List, [], ◌∷◌, ◌≡◌, refl, sym, ◌∙◌, ap, ◌⊎◌,
  inl, inr, Text, text, ◌==◌, ==_iff, includes, arith, Bool-cases,
}
use oati.Json.{Json, str, obj, Fields, end, field, get}
use oati.Lookup.Records.{put}
use oati.Lookup.Records.Asked.{get-put}
use oati.Projection.{
  Platform, projected, visit, assert_public_json, json_attributes, check_attribute,
  filter_attributes, keep_field, project_fields, project_public_record, public_fields,
  allowed_attributes, sensitive_nested_fields, is_private_jwk, is_some,
}
use oati.Projection.Inside.{Inside, PropertyOf, visit-Inside, visit-fine}
use oati.Projection.Attributes.{filtered-Checked, project_with-projected}

Kept : Fields → List Text → Text → Json → Type 0
Kept source names key value = (includes names key ≡ true) × (get source key ≡ some value)

keep_field-Kept :
    (source : Fields) (name : Text) (names : List Text) (found : Option Json) (rest : Fields)
    (key : Text) (value : Json)
    → get source name ≡ found
    → (get rest key ≡ some value → Kept source names key value)
    → get (keep_field name found rest) key ≡ some value
    → Kept source (name ∷ names) key value
unfolding get includes Kept
keep_field-Kept source name names none rest key value e step h =
    let (listed, same) = step h in (ground arith, same)
keep_field-Kept source name names (some v) rest key value e step h =
    elim (Bool-cases (name == key)) [
      | inl same ↦
          let equal : name ≡ key = (==_iff name key).0 same in
          let found : some v ≡ some value = rw same at h in (ground arith, cc)
      | inr differ ↦ let (listed, kept) = step (rw differ at h) in (ground arith, kept)
    ]

project_fields-Kept :
    (source : Fields) (names : List Text) (key : Text) (value : Json)
    → get (project_fields source names) key ≡ some value
    → Kept source names key value
unfolding project_fields get
project_fields-Kept source [] key value h = cc
project_fields-Kept source (name ∷ names) key value h =
    keep_field-Kept source name names (get source name) (project_fields source names) key value refl
      (project_fields-Kept source names key value) h

get-put_same :
    (fs : Fields) (key : Text) (value : Json) → get (put fs key (some value)) key ≡ some value
unfolding get put
get-put_same end key value = ground (arith, ==_iff key key)
get-put_same (field k v fs) key value = ground (arith, get-put_same fs key value, ==_iff k key)

listed_attributes : includes public_fields (text "public_attributes") ≡ true
unfolding includes public_fields text ◌==◌
listed_attributes = refl

differ : (text "public_attributes" == text "type") ≡ false
unfolding text ◌==◌
differ = refl

-- A property of the public record is on the list of public fields, and is the source's, save
-- `public_attributes`, which is filtered.
pub project_public_record-Listed :
    (p : Platform) (source out : Fields) (key : Text) (value : Json)
    → project_public_record p source ≡ projected out
    → get out key ≡ some value
    → (includes public_fields key ≡ true)
      × ((get source key ≡ some value) ⊎ (key ≡ text "public_attributes"))
unfolding project_public_record Kept
project_public_record-Listed p source out key value h k =
    let fs = project_fields source public_fields in
    let (names, given, kept, allowed, of_source, filtered, shape) =
      project_with-projected p fs (allowed_attributes (get fs (text "type")))
        (get fs (text "public_attributes")) out h in
    elim (Bool-cases (text "public_attributes" == key)) [
      | inl same ↦
          let equal : text "public_attributes" ≡ key = (==_iff _ key).0 same in
          (ap (includes public_fields) (sym equal) ∙ listed_attributes, inr (sym equal))
      | inr differ ↦
          let (listed, found) = project_fields-Kept source public_fields key value (
            sym (get-put fs (text "public_attributes") key (some (obj kept)) differ)
            ∙ ap (λ (f : Fields). get f key) (sym shape)
            ∙ k) in
          (listed, inl found)
    ]

-- The attributes of a public record were filtered.
record Filtered (p : Platform) (source out attributes : Fields) : Type 0 where
  names : List Text
  given : Fields
  allowed : allowed_attributes (get out (text "type")) ≡ some names
  of_source : get source (text "public_attributes") ≡ some (obj given)
  filtered : filter_attributes p given names ≡ projected attributes

project_public_record-Filtered :
    (p : Platform) (source out attributes : Fields)
    → project_public_record p source ≡ projected out
    → get out (text "public_attributes") ≡ some (obj attributes)
    → Filtered p source out attributes
unfolding project_public_record Kept
project_public_record-Filtered p source out attributes h k =
    let fs = project_fields source public_fields in
    let (names, given, kept, allowed, of_source, filtered, shape) =
      project_with-projected p fs (allowed_attributes (get fs (text "type")))
        (get fs (text "public_attributes")) out h in
    let found : some (obj kept) ≡ some (obj attributes) =
      sym (get-put_same fs (text "public_attributes") (obj kept))
      ∙ ap (λ (f : Fields). get f (text "public_attributes")) (sym shape)
      ∙ k in
    let same : kept ≡ attributes = cc in
    let type : get out (text "type") ≡ get fs (text "type") =
      ap (λ (f : Fields). get f (text "type")) shape
      ∙ get-put fs (text "public_attributes") (text "type") (some (obj kept)) differ in
    record {
      names = names;
      given = given;
      allowed = ap allowed_attributes type ∙ allowed;
      of_source =
          (project_fields-Kept source public_fields (text "public_attributes") (obj given)
            of_source).1;
      filtered = filtered ∙ ap projected same;
    }

-- An attribute of the public record is one that its type allows, and is the text that the source has
-- for it.
pub project_public_record-Attributes :
    (p : Platform) (source out attributes : Fields) (name : Text) (value : Json)
    → project_public_record p source ≡ projected out
    → get out (text "public_attributes") ≡ some (obj attributes)
    → get attributes name ≡ some value
    → (names : List Text) × (allowed_attributes (get out (text "type")) ≡ some names)
      × (includes names name ≡ true)
      × (given : Fields) × (get source (text "public_attributes") ≡ some (obj given))
      × (get given name ≡ some value)
      × (content : Text) × (value ≡ str content)
project_public_record-Attributes p source out attributes name value h k found =
    let f = project_public_record-Filtered p source out attributes h k in
    let c = filtered-Checked p f.given f.names attributes f.filtered name value found in
    (f.names, f.allowed, c.listed, f.given, f.of_source, c.of_source, c.content, c.is_text)

str_text : Json → Text
str_text (str s) = s
str_text _ = []

-- The names of secrets and internal data, in lower case
abbrev pub sensitive_names : List Text
sensitive_names =
    text "access_token"
    ∷ text "api_key"
    ∷ text "credential"
    ∷ text "internal_id"
    ∷ text "kms_key"
    ∷ text "operator_notes"
    ∷ text "password"
    ∷ text "private_attributes"
    ∷ text "private_key"
    ∷ text "refresh_token"
    ∷ text "secret"
    ∷ text "tenant_id"
    ∷ []

sensitive_names_all : sensitive_names ≡ sensitive_nested_fields
unfolding sensitive_nested_fields
sensitive_names_all = refl

no_private_part :
    (fs : Fields) (kty : Text)
    → is_private_jwk fs ≡ false
    → get fs (text "kty") ≡ some (str kty)
    → get fs (text "d") ≡ none
no_private_part fs kty h at = no_value (get fs (text "d")) (rw at at h)
  where
    no_value : (d : Option Json) → (true && is_some d) ≡ false → d ≡ none
    no_value none h = refl
    no_value (some v) h = cc

-- A document that is published as JSON text is harmless: inside it, at any depth, there is no
-- property with the name of a secret or of internal data (access_token, api_key, credential,
-- internal_id, kms_key, operator_notes, password, private_attributes, private_key, refresh_token,
-- secret, tenant_id), in any case of its letters; no object with a text for `kty` has a `d`, where a
-- JWK of an elliptic curve or of RSA has its private key; and no object with properties is deeper
-- than 32 levels.
pub project_public_record-Harmless :
    (p : Platform) (source out attributes : Fields) (name content key : Text)
    (document value : Json) (n : ℕ) (fs : Fields)
    → project_public_record p source ≡ projected out
    → get out (text "public_attributes") ≡ some (obj attributes)
    → get attributes name ≡ some (str content)
    → includes json_attributes name ≡ true
    → p.parse_json content ≡ some document
    → Inside document n (obj fs)
    → PropertyOf fs key value
    → (n ≤ 32)
      × (includes sensitive_names (p.to_lower_case key) ≡ false)
      × ((kty : Text) → get fs (text "kty") ≡ some (str kty) → get fs (text "d") ≡ none)
unfolding check_attribute assert_public_json str_text
project_public_record-Harmless p source out attributes name content key document value n fs h k
      found json parsed inside m =
    let f = project_public_record-Filtered p source out attributes h k in
    let c = filtered-Checked p f.given f.names attributes f.filtered name (str content) found in
    let same : c.content ≡ content = sym (ap str_text c.is_text) in
    let visited : visit p name 0 document ≡ none = rw (json, same, parsed) at c.checked in
    let level : n ≡ 0 + n = omega arith in
    let (levels, fine, public_jwk) =
      visit-fine p name n fs m (rw level (visit-Inside p name 0 n inside visited)) in
    (levels, rw sensitive_names_all fine, λ kty at. no_private_part fs kty public_jwk at)
