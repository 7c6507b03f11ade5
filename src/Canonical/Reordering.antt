-- ===== src/Canonical/Reordering.antt =====
-- The canonical text does not depend on the order of properties.
use oati.Prelude.{ℕ, suc, false, Option, none, some, ◌≡◌, refl, ap, ◌∙◌, Text, ◌==◌, arith}
use oati.Json.{Json, arr, obj, Items, nil, cons, Fields, end, field}
use oati.Canonical.{
  within, add_field, an_array, an_object, canonical_value, canonical_items, canonical_fields,
  canonical_json, serialized,
}
use oati.Canonical.Order.{assign_comm}

-- Two values that differ in the order of the properties of their objects, at any depth.
mutual
  pub data Reordered : Json → Json → Type 0 where
    same : {v : Json} → Reordered v v
    array : {vs ws : Items} → ReorderedItems vs ws → Reordered (arr vs) (arr ws)
    object : {fs gs : Fields} → ReorderedFields fs gs → Reordered (obj fs) (obj gs)

  pub data ReorderedItems : Items → Items → Type 0 where
    no_item : ReorderedItems nil nil
    item :
        {v w : Json} {vs ws : Items}
        → Reordered v w
        → ReorderedItems vs ws
        → ReorderedItems (cons v vs) (cons w ws)

  pub data ReorderedFields : Fields → Fields → Type 0 where
    no_property : ReorderedFields end end
    property :
        {key : Text} {v w : Json} {fs gs : Fields}
        → Reordered v w
        → ReorderedFields fs gs
        → ReorderedFields (field key v fs) (field key w gs)
    swap :
        {k j : Text} {v w : Json} {fs : Fields}
        → (k == j) ≡ false
        → ReorderedFields (field k v (field j w fs)) (field j w (field k v fs))
    chained :
        {fs gs hs : Fields} → ReorderedFields fs gs → ReorderedFields gs hs → ReorderedFields fs hs

add_field_comm :
    (k j : Text) (v w : Option Json) (fs : Option Fields)
    → (k == j) ≡ false
    → add_field k v (add_field j w fs) ≡ add_field j w (add_field k v fs)
add_field_comm k j (some v) (some w) (some fs) h = ground (arith, assign_comm k j v w fs h)
add_field_comm k j none none none h = refl
add_field_comm k j none none (some fs) h = refl
add_field_comm k j none (some w) none h = refl
add_field_comm k j none (some w) (some fs) h = ground arith
add_field_comm k j (some v) none none h = refl
add_field_comm k j (some v) none (some fs) h = ground arith
add_field_comm k j (some v) (some w) none h = refl

mutual
  unfolding canonical_value

  canonical_value-Reordered :
      {v w : Json} → Reordered v w → (depth : ℕ) → canonical_value v depth ≡ canonical_value w depth
  canonical_value-Reordered same depth = refl
  canonical_value-Reordered (array r) depth =
      ap (λ (vs : Option Items). within depth (an_array vs))
        (canonical_items-Reordered r (suc depth))
  canonical_value-Reordered (object r) depth =
      ap (λ (fs : Option Fields). within depth (an_object fs))
        (canonical_fields-Reordered r (suc depth))

  canonical_items-Reordered :
      {vs ws : Items}
      → ReorderedItems vs ws
      → (depth : ℕ) → canonical_items vs depth ≡ canonical_items ws depth
  canonical_items-Reordered no_item depth = refl
  canonical_items-Reordered (item r s) depth =
      rw (canonical_value-Reordered r depth, canonical_items-Reordered s depth) refl

  canonical_fields-Reordered :
      {fs gs : Fields}
      → ReorderedFields fs gs
      → (depth : ℕ) → canonical_fields fs depth ≡ canonical_fields gs depth
  canonical_fields-Reordered no_property depth = refl
  canonical_fields-Reordered (property r s) depth =
      rw (canonical_value-Reordered r depth, canonical_fields-Reordered s depth) refl
  canonical_fields-Reordered (swap h) depth = add_field_comm _ _ _ _ _ h
  canonical_fields-Reordered (chained r s) depth =
      canonical_fields-Reordered r depth ∙ canonical_fields-Reordered s depth

-- Two JSON values that differ only in the order of the properties of their objects, at any depth, have
-- the same canonical text, or are both refused.
pub canonical_json-Reordered : (v w : Json) → Reordered v w → canonical_json v ≡ canonical_json w
unfolding canonical_json
canonical_json-Reordered v w r = ap serialized (canonical_value-Reordered r 0)
