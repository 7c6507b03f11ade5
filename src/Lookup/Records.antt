-- ===== src/Lookup/Records.antt =====
-- Which values a resolver's answer is accepted for: `isPublicRecord` and what follows it.
pub mod Asked
use oati.Prelude.{
  Bool, true, false, not, ◌&&◌, ◌||◌, Option, none, some, List, [], ◌∷◌, if◌then◌else◌, all, Text,
  text, ◌==◌, includes,
}
use oati.Json.{Json, null, bool, num, str, arr, obj, Fields, end, field, get, strict_eq, to_text}
use oati.Lookup.Types.{oati_record_types, Query, Selector, by_id, by_target}

-- What is taken from the runtime: `JSON.parse`, where `none` is an exception.
abbrev pub Parser : Type 0
Parser = Text → Option Json

abbrev pub is_string : Option Json → Bool
is_string (some (str s)) = true
is_string _ = false

-- `nonEmpty`
unfoldable pub non_empty : Option Json → Bool
non_empty (some (str (c ∷ s))) = true
non_empty _ = false

-- `["…", …].includes(value)` of any value
unfoldable pub one_of : List Text → Option Json → Bool
one_of texts (some (str s)) = includes texts s
one_of texts _ = false

-- `Object.values(fields).every((entry) => typeof entry === "string")`
unfoldable pub all_strings : Fields → Bool
all_strings end = true
all_strings (field k v fs) = is_string (some v) && all_strings fs

-- `a ?? b`
abbrev pub or_else : Option Json → Option Json → Option Json
or_else none b = b
or_else (some null) b = b
or_else (some a) b = some a

abbrev pub fields_of : Option Json → Option Fields
fields_of (some (obj fs)) = some fs
fields_of _ = none

-- The published document of a service or a profile, which names the record and its organisation.
unfoldable pub document_matches : Fields → Option Json → Bool
unfolding strict_eq get
document_matches item (some (obj document)) =
    strict_eq (get document (text "id")) (get item (text "id"))
    && strict_eq (get document (text "organisation_id")) (get item (text "organisation_id"))
document_matches item _ = false

abbrev text_of : Option Json → Text
text_of (some (str s)) = s
text_of _ = []

unfoldable pub valid_document : Parser → Fields → Fields → Bool
unfolding document_matches non_empty
valid_document parse item attributes =
    let document = get attributes (text "document") in
    non_empty document && document_matches item (parse (text_of document))

unfoldable pub valid_key : Fields → Fields → Bool
unfolding non_empty one_of
valid_key item attributes =
    ((non_empty (get attributes (text "controller"))
        && non_empty (get attributes (text "algorithm")))
      && non_empty (get attributes (text "public_key_jwk")))
    && (one_of (text "EdDSA" ∷ text "ES256" ∷ []) (get attributes (text "algorithm"))
        && (non_empty (or_else (get item (text "issued_at")) (get attributes (text "valid_from")))
            && non_empty
                (or_else (get item (text "expires_at")) (get attributes (text "valid_until")))))

-- `validTypedRecord`
unfoldable pub valid_typed_record : Parser → Fields → Fields → Bool
unfolding valid_document valid_key one_of
valid_typed_record parse item attributes =
    let type = get item (text "type") in
    if one_of (text "service" ∷ text "profile" ∷ []) type
    then valid_document parse item attributes
    else if one_of (text "key" ∷ []) type
    then valid_key item attributes
    else true

unfoldable pub valid_attributes : Parser → Fields → Option Fields → Bool
unfolding all_strings valid_typed_record
valid_attributes parse item none = false
valid_attributes parse item (some attributes) =
    all_strings attributes && valid_typed_record parse item attributes

unfoldable pub proof_statuses : List Text
proof_statuses = text "verified" ∷ text "invalid" ∷ text "unavailable" ∷ text "unknown" ∷ []

unfoldable pub is_public_fields : Parser → Fields → Bool
unfolding one_of valid_attributes to_text proof_statuses oati_record_types
is_public_fields parse item =
    one_of oati_record_types (get item (text "type"))
    && (is_string (get item (text "id"))
        && (is_string (get item (text "status"))
            && (is_string (get item (text "issuer"))
                && (includes proof_statuses (to_text (get item (text "proof_status")))
                    && valid_attributes parse item
                        (fields_of (get item (text "public_attributes")))))))

-- `isPublicRecord`: the object, if it is one.
unfoldable pub is_public_record : Parser → Option Json → Option Fields
unfolding is_public_fields
is_public_record parse (some (obj item)) = if is_public_fields parse item then some item else none
is_public_record parse _ = none

-- `{ ...fields, [key]: value }`; a property whose value is undefined is left out.
unfoldable pub put : Fields → Text → Option Json → Fields
put end key none = end
put end key (some value) = field key value end
put (field k v fs) key value =
    let rest = put fs key value in
    if k == key then elim value [ none ↦ fs | some value ↦ field k value fs ] else field k v rest

abbrev pub attribute : Fields → Text → Option Json
attribute item name = elim (fields_of (get item (text "public_attributes"))) [
  | none ↦ none
  | some attributes ↦ get attributes name
]

-- `normalizePublicRecord`
unfoldable pub normalize_public_record : Fields → Fields
unfolding put one_of
normalize_public_record item =
    if one_of (text "key" ∷ []) (get item (text "type"))
    then put
        (put item (text "issued_at")
          (or_else (get item (text "issued_at")) (attribute item (text "valid_from"))))
        (text "expires_at")
        (or_else (get item (text "expires_at")) (attribute item (text "valid_until")))
    else item

-- `validRevocationStatus`
unfoldable pub valid_revocation_status : Option Json → Bool
unfolding one_of
valid_revocation_status value =
    one_of (text "good" ∷ text "suspended" ∷ text "revoked" ∷ text "unknown" ∷ []) value

-- `selectorMatches`
unfoldable pub selector_matches : Selector → Text → Fields → Bool
unfolding valid_revocation_status one_of
selector_matches by_id value item = one_of (value ∷ []) (get item (text "id"))
selector_matches by_target value item =
    one_of (text "revocation" ∷ []) (get item (text "type"))
    && (one_of (value ∷ []) (attribute item (text "target"))
        && valid_revocation_status (attribute item (text "revocation_status")))

-- The record is the one that was asked for.
unfoldable pub answers : Query → Fields → Bool
unfolding selector_matches one_of
answers query item =
    selector_matches query.selector query.value item
    && one_of (query.type ∷ []) (get item (text "type"))
