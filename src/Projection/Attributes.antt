-- ===== src/Projection/Attributes.antt =====
-- The attributes that pass the filter of a projection.
use oati.Prelude.{
  true, Option, none, some, List, [], ◌∷◌, ◌≡◌, refl, Text, text, ◌==◌, ==_iff, includes, arith,
  Bool-cases, inl, inr,
}
use oati.Json.{Json, null, bool, num, str, arr, obj, Fields, end, field, get}
use oati.Lookup.Records.{put}
use oati.Projection.{
  Platform, Refusal, Projection, refused, projected, check_attribute, add_attribute,
  filter_attribute, filter_attributes, with_attributes, is_record, project_with,
}

-- An attribute of the public record, which was one of the source and was checked.
pub record Checked (p : Platform) (attributes : Fields) (names : List Text) (name : Text)
    (value : Json) : Type 0 where
  pub content : Text
  pub is_text : value ≡ str content
  pub of_source : get attributes name ≡ some value
  pub listed : includes names name ≡ true
  pub checked : check_attribute p name content ≡ none

later_name :
    (p : Platform) (attributes : Fields) (names : List Text) (other name : Text) (value : Json)
    → Checked p attributes names name value
    → Checked p attributes (other ∷ names) name value
unfolding includes
later_name p attributes names other name value c = record {
  content = c.content;
  is_text = c.is_text;
  of_source = c.of_source;
  listed = let listed = c.listed in ground arith;
  checked = c.checked;
}

add_attribute-projected :
    (refusal : Option Refusal) (name value : Text) (rest : Projection) (out : Fields)
    → add_attribute refusal name value rest ≡ projected out
    → (refusal ≡ none) × (fs : Fields) × (rest ≡ projected fs) × (out ≡ field name (str value) fs)
add_attribute-projected (some r) name value rest out h = cc
add_attribute-projected none name value (refused r) out h = cc
add_attribute-projected none name value (projected fs) out h = (refl, fs, refl, cc)

module _ (p : Platform) (attributes : Fields) where
  added-Checked :
      (names : List Text) (n content : Text) (fs : Fields)
      → get attributes n ≡ some (str content)
      → check_attribute p n content ≡ none
      → ((name : Text) (value : Json)
          → get fs name ≡ some value
          → Checked p attributes names name value)
      → (name : Text) (value : Json) → get (field n (str content) fs) name ≡ some value
      → Checked p attributes (n ∷ names) name value
  unfolding get includes
  added-Checked names n content fs source checked k name value h = elim (Bool-cases (n == name)) [
    | inl same ↦
        let e : n ≡ name = (==_iff n name).0 same in
        let found : some (str content) ≡ some value = rw same at h in
        let is_text : value ≡ str content = cc in
        record {
          content = content;
          is_text = is_text;
          of_source = cc;
          listed = ground arith;
          checked = cc;
        }
    | inr differ ↦ later_name p attributes names n name value (k name value (rw differ at h))
  ]

  abbrev pub AllChecked : List Text → Fields → Type 0
  AllChecked names out =
      (name : Text) (value : Json)
      → get out name ≡ some value
      → Checked p attributes names name value

  filtered_step :
      (names : List Text) (n : Text) (found : Option Json) (rest : Projection) (out : Fields)
      → get attributes n ≡ found
      → ((fs : Fields) → rest ≡ projected fs → AllChecked names fs)
      → filter_attribute p n found rest ≡ projected out
      → AllChecked (n ∷ names) out
  filtered_step names n none rest out e step h name value k =
      later_name p attributes names n name value (step out h name value k)
  filtered_step names n (some (str s)) rest out e step h name value k =
      let (checked, fs, shape_of, shape) = add_attribute-projected _ n s rest out h in
      added-Checked names n s fs e checked (step fs shape_of) name value (rw shape at k)
  filtered_step names n (some null) rest out e step h name value k = cc
  filtered_step names n (some (bool b)) rest out e step h name value k = cc
  filtered_step names n (some (num i)) rest out e step h name value k = cc
  filtered_step names n (some (arr vs)) rest out e step h name value k = cc
  filtered_step names n (some (obj fs)) rest out e step h name value k = cc

  pub filtered-Checked :
      (names : List Text) (out : Fields)
      → filter_attributes p attributes names ≡ projected out
      → AllChecked names out
  unfolding filter_attributes get
  filtered-Checked [] end h name value k = cc
  filtered-Checked [] (field key v fs) h name value k = cc
  filtered-Checked (n ∷ names) out h name value k =
      filtered_step names n (get attributes n) (filter_attributes p attributes names) out refl
        (filtered-Checked names) h name value k

with_attributes-projected :
    (fs : Fields) (attributes : Projection) (out : Fields)
    → with_attributes fs attributes ≡ projected out
    → (kept : Fields) × (attributes ≡ projected kept)
      × (out ≡ put fs (text "public_attributes") (some (obj kept)))
with_attributes-projected fs (refused r) out h = cc
with_attributes-projected fs (projected kept) out h =
    elim (Bool-cases (is_record (put fs (text "public_attributes") (some (obj kept))))) [
      | inl complete ↦
          let e : projected (put fs (text "public_attributes") (some (obj kept))) ≡ projected out =
            rw complete at h in
          (kept, refl, cc)
      | inr differs ↦ let e : refused _ ≡ projected out = rw differs at h in cc
    ]

pub project_with-projected :
    (p : Platform) (fs : Fields) (allowed : Option (List Text)) (attributes : Option Json)
    (out : Fields)
    → project_with p fs allowed attributes ≡ projected out
    → (names : List Text) × (source kept : Fields) × (allowed ≡ some names)
      × (attributes ≡ some (obj source))
      × (filter_attributes p source names ≡ projected kept)
      × (out ≡ put fs (text "public_attributes") (some (obj kept)))
project_with-projected p fs (some names) (some (obj source)) out h =
    let (kept, e, shape) = with_attributes-projected fs (filter_attributes p source names) out h in
    (names, source, kept, refl, refl, e, shape)
project_with-projected p fs none attributes out h = cc
project_with-projected p fs (some names) none out h = cc
project_with-projected p fs (some names) (some null) out h = cc
project_with-projected p fs (some names) (some (bool b)) out h = cc
project_with-projected p fs (some names) (some (num i)) out h = cc
project_with-projected p fs (some names) (some (str s)) out h = cc
project_with-projected p fs (some names) (some (arr vs)) out h = cc
