-- ===== src/Canonical.antt =====
-- sdk/typescript/src/canonical.ts: the canonical text of a JSON value, which is signed and hashed.
-- Values are those that `JSON.parse` makes, with integers for numbers, so that the cases of cycles,
-- functions, undefined properties and other prototypes do not arise. `none` is an `OatiError` of the
-- code INVALID_CANONICAL_VALUE, whose message is left out.
pub mod Order
pub mod Reordering
pub mod Acceptance
use oati.Prelude.{
  ℕ, zero, suc, ◌+◌, ◌-◌, ◌/◌, ◌%◌, Bool, true, false, not, ◌&&◌, Option, none, some, List, [], ◌∷◌,
  ◌++◌, if◌then◌else◌, leb, ltb, eqb, Text, text, ◌==◌,
}
use oati.Json.{Json, null, bool, num, str, arr, obj, Items, nil, cons, Fields, end, field, print_ℤ}
use oati.Evaluator.Reasons.{text_lt}

abbrev is_high : ℕ → Bool
is_high c = leb 0xd800 c && leb c 0xdbff

abbrev is_low : ℕ → Bool
is_low c = leb 0xdc00 c && leb c 0xdfff

-- `assertUnicodeScalarString`, behind a leading surrogate or not
unfoldable pub scan : Bool → Text → Bool
scan false [] = true
scan true [] = false
scan false (c ∷ s) =
    let pair = scan true s in
    let rest = scan false s in if is_high c then pair else not (is_low c) && rest
scan true (c ∷ s) = is_low c && scan false s

unfoldable pub is_scalar_string : Text → Bool
unfolding scan
is_scalar_string s = scan false s

abbrev pub too_deep : ℕ → Bool
too_deep depth = ltb 256 depth

-- The value, unless it is nested too deeply.
abbrev pub within : ℕ → Option Json → Option Json
within depth v = if too_deep depth then none else v

abbrev pub add_item : Option Json → Option Items → Option Items
add_item (some v) (some vs) = some (cons v vs)
add_item _ _ = none

-- The properties in the order of their keys
unfoldable pub insert_field : Text → Json → Fields → Fields
insert_field key v end = field key v end
insert_field key v (field k w fs) =
    let rest = insert_field key v fs in
    if text_lt k key then field k w rest else field key v (field k w fs)

-- `target[key] = value` of a plain object; the key `__proto__` sets its prototype and no property.
unfoldable pub assign : Text → Json → Fields → Fields
unfolding insert_field
assign key v fs = if key == text "__proto__" then fs else insert_field key v fs

abbrev pub add_field : Text → Option Json → Option Fields → Option Fields
add_field key (some v) (some fs) = if is_scalar_string key then some (assign key v fs) else none
add_field key _ _ = none

abbrev pub an_array : Option Items → Option Json
an_array none = none
an_array (some vs) = some (arr vs)

abbrev pub an_object : Option Fields → Option Json
an_object none = none
an_object (some fs) = some (obj fs)

-- `canonicalValue`
unfoldable mutual
  unfolding is_scalar_string assign

  pub canonical_value : Json → ℕ → Option Json
  canonical_value null depth = within depth (some null)
  canonical_value (bool b) depth = within depth (some (bool b))
  canonical_value (num n) depth = within depth (some (num n))
  canonical_value (str s) depth = within depth (if is_scalar_string s then some (str s) else none)
  canonical_value (arr vs) depth = within depth (an_array (canonical_items vs (suc depth)))
  canonical_value (obj fs) depth = within depth (an_object (canonical_fields fs (suc depth)))

  pub canonical_items : Items → ℕ → Option Items
  canonical_items nil depth = some nil
  canonical_items (cons v vs) depth = add_item (canonical_value v depth) (canonical_items vs depth)

  pub canonical_fields : Fields → ℕ → Option Fields
  canonical_fields end depth = some end
  canonical_fields (field key v fs) depth =
      add_field key (canonical_value v depth) (canonical_fields fs depth)

-- `canonicalize`
unfoldable pub canonicalize : Json → Option Json
unfolding canonical_value
canonicalize value = canonical_value value 0

abbrev hex_digit : ℕ → ℕ
hex_digit n = if ltb n 10 then 48 + n else 87 + n

-- One code unit in a JSON string; a pair of surrogates stays as it is.
abbrev escaped : ℕ → Text
escaped c =
    if eqb c 34
    then text "\\\""
    else if eqb c 92
    then text "\\\\"
    else if eqb c 8
    then text "\\b"
    else if eqb c 9
    then text "\\t"
    else if eqb c 10
    then text "\\n"
    else if eqb c 12
    then text "\\f"
    else if eqb c 13
    then text "\\r"
    else if ltb c 32
    then text "\\u00" ++ hex_digit (c / 16) ∷ hex_digit (c % 16) ∷ []
    else c ∷ []

abbrev escape_all : Text → Text
escape_all [] = []
escape_all (c ∷ s) = escaped c ++ escape_all s

-- `JSON.stringify` of a string without a lone surrogate
unfoldable pub quote : Text → Text
unfolding text
quote s = 34 ∷ (escape_all s ++ (34 ∷ []))

abbrev pub Member : Type 0
Member = Text × Text

-- `Object.keys(value).sort()`, of the members with their texts
unfoldable pub insert_member : Member → List Member → List Member
unfolding text_lt
insert_member m [] = m ∷ []
insert_member m (n ∷ ns) =
    let rest = insert_member m ns in if text_lt n.0 m.0 then n ∷ rest else m ∷ n ∷ ns

abbrev join_texts : List Text → Text
join_texts [] = []
join_texts (s ∷ []) = s
join_texts (s ∷ t ∷ ts) = s ++ (b',' ∷ join_texts (t ∷ ts))

abbrev texts_of : List Member → List Text
texts_of [] = []
texts_of (m ∷ ms) = m.1 ∷ texts_of ms

-- `serializeCanonical`
unfoldable mutual
  unfolding quote insert_member text

  pub serialize_canonical : Json → Text
  serialize_canonical null = text "null"
  serialize_canonical (bool true) = text "true"
  serialize_canonical (bool false) = text "false"
  serialize_canonical (num n) = print_ℤ n
  serialize_canonical (str s) = quote s
  serialize_canonical (arr vs) = b'[' ∷ (join_texts (serialize_items vs) ++ (b']' ∷ []))
  serialize_canonical (obj fs) = b'{' ∷ (join_texts (texts_of (serialize_fields fs)) ++ (b'}' ∷ []))

  pub serialize_items : Items → List Text
  serialize_items nil = []
  serialize_items (cons v vs) = serialize_canonical v ∷ serialize_items vs

  pub serialize_fields : Fields → List Member
  serialize_fields end = []
  serialize_fields (field key v fs) =
      insert_member (key, quote key ++ (b':' ∷ serialize_canonical v)) (serialize_fields fs)

abbrev serialized : Option Json → Option Text
serialized none = none
serialized (some v) = some (serialize_canonical v)

-- `canonicalJson`
unfoldable pub canonical_json : Json → Option Text
unfolding canonical_value serialize_canonical
canonical_json value = serialized (canonical_value value 0)
