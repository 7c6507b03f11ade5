-- ===== src/Canonical/Acceptance.antt =====
-- Which values have a canonical text.
use oati.Prelude.{
  ℕ, suc, not, [], ◌∷◌, ◌+◌, max, Bool, true, false, ◌&&◌, ◌||◌, eqb, Option, none, some, ◌≡◌, refl,
  ap, ◌∙◌, leb, Text, arith,
}
use oati.Json.{Json, null, bool, num, str, arr, obj, Items, nil, cons, Fields, end, field}
use oati.Canonical.{
  is_scalar_string, scan, within, add_item, add_field, an_array, an_object, canonical_value,
  canonical_items, canonical_fields, canonical_json, serialized,
}

abbrev pub is_some {ℓ} : {A : Type ℓ} → Option A → Bool
is_some none = false
is_some (some a) = true

-- How many arrays and objects stand around the innermost value.
mutual
  pub nesting : Json → ℕ
  nesting (arr vs) = nesting_items vs
  nesting (obj fs) = nesting_fields fs
  nesting _ = 0

  pub nesting_items : Items → ℕ
  nesting_items nil = 0
  nesting_items (cons v vs) = max (suc (nesting v)) (nesting_items vs)

  pub nesting_fields : Fields → ℕ
  nesting_fields end = 0
  nesting_fields (field key v fs) = max (suc (nesting v)) (nesting_fields fs)

abbrev eqb_bool : Bool → Bool → Bool
eqb_bool true b = b
eqb_bool false b = not b

abbrev is_high_surrogate : ℕ → Bool
is_high_surrogate c = leb 55296 c && leb c 56319

abbrev is_low_surrogate : ℕ → Bool
is_low_surrogate c = leb 56320 c && leb c 57343

-- Every high surrogate is followed by a low one, and every low one follows a high one; `after_high` is
-- whether a high one stands before the text.
unfoldable pub surrogates_paired : Bool → Text → Bool
surrogates_paired after_high [] = not after_high
surrogates_paired after_high (c ∷ s) =
    eqb_bool after_high (is_low_surrogate c) && surrogates_paired (is_high_surrogate c) s

abbrev pub scalar_text : Text → Bool
scalar_text s = surrogates_paired false s

-- All strings and keys are without a lone surrogate.
mutual
  pub scalar_strings : Json → Bool
  scalar_strings (str s) = scalar_text s
  scalar_strings (arr vs) = scalar_items vs
  scalar_strings (obj fs) = scalar_fields fs
  scalar_strings _ = true

  pub scalar_items : Items → Bool
  scalar_items nil = true
  scalar_items (cons v vs) = scalar_strings v && scalar_items vs

  pub scalar_fields : Fields → Bool
  scalar_fields end = true
  scalar_fields (field key v fs) = scalar_text key && (scalar_strings v && scalar_fields fs)

-- What is left of an array or an object that is not too deep itself.
abbrev fits : ℕ → ℕ → Bool
fits depth n = eqb n 0 || leb (depth + n) 256

scan-paired : (after_high : Bool) (s : Text) → scan after_high s ≡ surrogates_paired after_high s
unfolding scan surrogates_paired
scan-paired false [] = refl
scan-paired true [] = refl
scan-paired false (c ∷ s) = ground (arith, scan-paired true s, scan-paired false s)
scan-paired true (c ∷ s) = ground (arith, scan-paired true s, scan-paired false s)

is_scalar_string-scalar_text : (s : Text) → is_scalar_string s ≡ scalar_text s
unfolding is_scalar_string
is_scalar_string-scalar_text s = scan-paired false s

is_some-add_item :
    (v : Option Json) (vs : Option Items) → is_some (add_item v vs) ≡ (is_some v && is_some vs)
is_some-add_item v vs = ground arith

is_some-add_field :
    (key : Text) (v : Option Json) (fs : Option Fields)
    → is_some (add_field key v fs) ≡ (is_scalar_string key && (is_some v && is_some fs))
is_some-add_field key v fs = ground arith

is_some-array :
    (depth : ℕ) (vs : Option Items)
    → is_some (within depth (an_array vs)) ≡ (leb depth 256 && is_some vs)
is_some-array depth vs = ground arith

is_some-object :
    (depth : ℕ) (fs : Option Fields)
    → is_some (within depth (an_object fs)) ≡ (leb depth 256 && is_some fs)
is_some-object depth fs = ground arith

-- The test of the depth and those of the members are one test.
array_fits :
    (depth n : ℕ) (good : Bool)
    → (leb depth 256 && (fits depth n && good)) ≡ (leb (depth + n) 256 && good)
array_fits depth n good = ground arith

member_fits :
    (depth m n : ℕ) (good others : Bool)
    → ((leb (suc depth + m) 256 && good) && (fits depth n && others))
      ≡ (fits depth (max (suc m) n) && (good && others))
member_fits depth m n good others = ground arith

field_fits :
    (depth m n : ℕ) (key good others : Bool)
    → (key && ((leb (suc depth + m) 256 && good) && (fits depth n && others)))
      ≡ (fits depth (max (suc m) n) && (key && (good && others)))
field_fits depth m n key good others = ground arith

mutual
  unfolding canonical_value nesting scalar_strings

  is_some-canonical_value :
      (v : Json) (depth : ℕ)
      → is_some (canonical_value v depth) ≡ (leb (depth + nesting v) 256 && scalar_strings v)
  is_some-canonical_value null depth = ground arith
  is_some-canonical_value (bool b) depth = ground arith
  is_some-canonical_value (num n) depth = ground arith
  is_some-canonical_value (str s) depth = ground (arith, is_scalar_string-scalar_text s)
  is_some-canonical_value (arr vs) depth =
      is_some-array depth (canonical_items vs (suc depth))
      ∙ ap (λ (b : Bool). leb depth 256 && b) (is_some-canonical_items vs depth)
      ∙ array_fits depth (nesting_items vs) (scalar_items vs)
  is_some-canonical_value (obj fs) depth =
      is_some-object depth (canonical_fields fs (suc depth))
      ∙ ap (λ (b : Bool). leb depth 256 && b) (is_some-canonical_fields fs depth)
      ∙ array_fits depth (nesting_fields fs) (scalar_fields fs)

  is_some-canonical_items :
      (vs : Items) (depth : ℕ)
      → is_some (canonical_items vs (suc depth))
        ≡ (fits depth (nesting_items vs) && scalar_items vs)
  is_some-canonical_items nil depth = ground arith
  is_some-canonical_items (cons v vs) depth =
      is_some-add_item (canonical_value v (suc depth)) (canonical_items vs (suc depth))
      ∙ ap (λ (b : Bool). b && is_some (canonical_items vs (suc depth)))
          (is_some-canonical_value v (suc depth))
      ∙ ap (λ (b : Bool). (leb (suc depth + nesting v) 256 && scalar_strings v) && b)
          (is_some-canonical_items vs depth)
      ∙ member_fits depth (nesting v) (nesting_items vs) (scalar_strings v) (scalar_items vs)

  is_some-canonical_fields :
      (fs : Fields) (depth : ℕ)
      → is_some (canonical_fields fs (suc depth))
        ≡ (fits depth (nesting_fields fs) && scalar_fields fs)
  is_some-canonical_fields end depth = ground arith
  is_some-canonical_fields (field key v fs) depth =
      is_some-add_field key (canonical_value v (suc depth)) (canonical_fields fs (suc depth))
      ∙ ap (λ (b : Bool). is_scalar_string key && (b && is_some (canonical_fields fs (suc depth))))
          (is_some-canonical_value v (suc depth))
      ∙ ap
          (λ (b : Bool).
            is_scalar_string key && ((leb (suc depth + nesting v) 256 && scalar_strings v) && b))
          (is_some-canonical_fields fs depth)
      ∙ ap
          (λ (b : Bool).
            b
            && ((leb (suc depth + nesting v) 256 && scalar_strings v)
                && (fits depth (nesting_fields fs) && scalar_fields fs)))
          (is_scalar_string-scalar_text key)
      ∙ field_fits depth (nesting v) (nesting_fields fs) (scalar_text key) (scalar_strings v)
          (scalar_fields fs)

is_some-serialized : (v : Option Json) → is_some (serialized v) ≡ is_some v
is_some-serialized none = refl
is_some-serialized (some v) = refl

-- A JSON value has a canonical text exactly if at most 256 arrays and objects stand around each value
-- in it and no string and no key in it has a lone surrogate; every other value is refused.
pub is_some-canonical_json :
    (v : Json) → is_some (canonical_json v) ≡ (leb (nesting v) 256 && scalar_strings v)
unfolding canonical_json
is_some-canonical_json v =
    is_some-serialized (canonical_value v 0) ∙ is_some-canonical_value v 0 ∙ ground arith
