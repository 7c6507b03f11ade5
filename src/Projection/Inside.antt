-- ===== src/Projection/Inside.antt =====
-- The values inside a JSON value, at their depth, and what `visit` has established of them.
use oati.Prelude.{
  ℕ, zero, suc, ◌+◌, ◌≤◌, false, Option, none, some, ◌≡◌, refl, Text, includes, arith, Bool-cases,
  inl, inr,
}
use oati.Json.{Json, arr, obj, Items, nil, cons, Fields, end, field}
use oati.Projection.{
  Platform, Refusal, or_next, visit, visit_items, visit_fields, check_depth, check_key_name,
  check_jwk, is_private_jwk, sensitive_nested_fields,
}

pub data ItemOf : Items → Json → Type 0 where
  first_item : {v : Json} {vs : Items} → ItemOf (cons v vs) v
  later_item : {v w : Json} {vs : Items} → ItemOf vs w → ItemOf (cons v vs) w

pub data PropertyOf : Fields → Text → Json → Type 0 where
  first_property : {key : Text} {v : Json} {fs : Fields} → PropertyOf (field key v fs) key v
  later_property :
      {key other : Text} {v w : Json} {fs : Fields}
      → PropertyOf fs key v
      → PropertyOf (field other w fs) key v

-- A value, at so many levels, is inside a value.
pub data Inside : Json → ℕ → Json → Type 0 where
  here : {v : Json} → Inside v 0 v
  in_item :
      {vs : Items} {w u : Json} {n : ℕ} → ItemOf vs w → Inside w n u → Inside (arr vs) (suc n) u
  in_property :
      {fs : Fields} {key : Text} {w u : Json} {n : ℕ}
      → PropertyOf fs key w
      → Inside w n u
      → Inside (obj fs) (suc n) u

or_next-eq-none : (a b : Option Refusal) → or_next a b ≡ none → (a ≡ none) × (b ≡ none)
or_next-eq-none none b h = (refl, h)
or_next-eq-none (some r) b h = cc

check_depth-le : (attribute : Text) (depth : ℕ) → check_depth attribute depth ≡ none → depth ≤ 32
unfolding check_depth
check_depth-le attribute depth h = ground arith

check_key_name-fine :
    (p : Platform) (attribute key : Text)
    → check_key_name p attribute key ≡ none
    → includes sensitive_nested_fields (p.to_lower_case key) ≡ false
unfolding check_key_name
check_key_name-fine p attribute key h =
    elim (Bool-cases (includes sensitive_nested_fields (p.to_lower_case key))) [
      | inl found ↦ let e : some _ ≡ none = rw found at h in cc
      | inr fine ↦ fine
    ]

check_jwk-fine :
    (attribute : Text) (fs : Fields) → check_jwk attribute fs ≡ none → is_private_jwk fs ≡ false
unfolding check_jwk
check_jwk-fine attribute fs h = elim (Bool-cases (is_private_jwk fs)) [
  | inl found ↦ let e : some _ ≡ none = rw found at h in cc
  | inr fine ↦ fine
]

module _ (p : Platform) (attribute : Text) where
  visited_item :
      (depth : ℕ) {vs : Items} {w : Json}
      → ItemOf vs w
      → visit_items p attribute depth vs ≡ none
      → visit p attribute depth w ≡ none
  unfolding visit
  visited_item depth {vs = nil} m h = elim m [ ]
  visited_item depth {vs = cons v vs} first_item h =
      (or_next-eq-none (visit p attribute depth v) (visit_items p attribute depth vs) h).0
  visited_item depth {vs = cons v vs} (later_item m) h =
      visited_item depth m
        (or_next-eq-none (visit p attribute depth v) (visit_items p attribute depth vs) h).1

  visited_property :
      (depth : ℕ) {fs : Fields} {key : Text} {w : Json}
      → PropertyOf fs key w
      → visit_fields p attribute depth fs ≡ none
      → (includes sensitive_nested_fields (p.to_lower_case key) ≡ false)
        × (visit p attribute depth w ≡ none)
  unfolding visit
  visited_property depth {fs = end} m h = elim m [ ]
  visited_property depth {fs = field key v fs} first_property h =
      let (name, rest) = or_next-eq-none (check_key_name p attribute key) _ h in
      (
        check_key_name-fine p attribute key name,
        (or_next-eq-none (visit p attribute depth v) (visit_fields p attribute depth fs) rest).0,
      )
  visited_property depth {fs = field key v fs} (later_property m) h =
      let (name, rest) = or_next-eq-none (check_key_name p attribute key) _ h in
      visited_property depth m
        (or_next-eq-none (visit p attribute depth v) (visit_fields p attribute depth fs) rest).1

  -- What is visited without a refusal has the same of every value inside it.
  pub visit-Inside :
      (depth n : ℕ) {v u : Json}
      → Inside v n u
      → visit p attribute depth v ≡ none
      → visit p attribute (depth + n) u ≡ none
  unfolding visit
  visit-Inside depth zero here h = let same : depth + 0 ≡ depth = omega arith in rw same h
  visit-Inside depth (suc n) (in_item m inside) h =
      let (start, rest) = or_next-eq-none (check_depth attribute depth) _ h in
      let deeper : depth + suc n ≡ suc depth + n = omega arith in
      rw deeper (visit-Inside (suc depth) n inside (visited_item (suc depth) m rest))
  visit-Inside depth (suc n) (in_property {fs = fs} m inside) h =
      let (start, rest) = or_next-eq-none (check_depth attribute depth) _ h in
      let (fields, _) = or_next-eq-none (visit_fields p attribute (suc depth) fs) _ rest in
      let deeper : depth + suc n ≡ suc depth + n = omega arith in
      rw deeper (visit-Inside (suc depth) n inside (visited_property (suc depth) m fields).1)

  pub visit-fine :
      (depth : ℕ) (fs : Fields) {key : Text} {w : Json}
      → PropertyOf fs key w
      → visit p attribute depth (obj fs) ≡ none
      → (depth ≤ 32)
        × (includes sensitive_nested_fields (p.to_lower_case key) ≡ false)
        × (is_private_jwk fs ≡ false)
  unfolding visit
  visit-fine depth fs m h =
      let (start, rest) = or_next-eq-none (check_depth attribute depth) _ h in
      let (fields, jwk) = or_next-eq-none (visit_fields p attribute (suc depth) fs) _ rest in
      (
        check_depth-le attribute depth start,
        (visited_property (suc depth) m fields).0,
        check_jwk-fine attribute fs jwk,
      )
