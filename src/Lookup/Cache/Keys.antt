-- ===== src/Lookup/Cache/Keys.antt =====
-- The key of a cache entry determines its query.
use oati.Prelude.{
  Bool, true, not, ◌&&◌, List, [], ◌∷◌, ◌++◌, ◌≡◌, refl, eqb, all, Text, text, ==_iff, includes,
  arith,
}
use oati.Lookup.Types.{oati_record_types, Query, Selector, by_id, by_target}
use oati.Lookup.Cache.{cache_key, selector_text}

-- A text without the separator of the key.
plain : Text → Bool
plain [] = true
plain (c ∷ s) = not (eqb c 0) && plain s

first_parts :
    (s t u v : Text) → plain s ≡ true → plain t ≡ true → s ++ 0 ∷ u ≡ t ++ 0 ∷ v → (s ≡ t) × (u ≡ v)
unfolding plain
first_parts [] [] u v h k e = ground arith
first_parts [] (c ∷ t) u v h k e = ground arith
first_parts (c ∷ s) [] u v h k e = ground arith
first_parts (c ∷ s) (d ∷ t) u v h k e = ground (arith, first_parts s t u v)

plain_of_includes :
    (ss : List Text) (t : Text) → all plain ss ≡ true → includes ss t ≡ true → plain t ≡ true
unfolding includes
plain_of_includes [] t h k = cc
plain_of_includes (s ∷ ss) t h k = ground (arith, plain_of_includes ss t, ==_iff s t)

record_types_are_plain : all plain oati_record_types ≡ true
unfolding oati_record_types text plain
record_types_are_plain = refl

selectors_are_plain : (s : Selector) → plain (selector_text s) ≡ true
unfolding text plain
selectors_are_plain by_id = refl
selectors_are_plain by_target = refl

selector_text-injective : (s t : Selector) → selector_text s ≡ selector_text t → s ≡ t
unfolding text
selector_text-injective by_id by_id h = refl
selector_text-injective by_target by_target h = refl
selector_text-injective by_id by_target h = cc
selector_text-injective by_target by_id h = cc

abbrev pub IsSupported : Query → Type 0
IsSupported query = includes oati_record_types query.type ≡ true

-- Queries of supported types have different keys, whatever their values are.
pub cache_key-injective :
    (q r : Query)
    → IsSupported q
    → IsSupported r
    → cache_key q ≡ cache_key r
    → (q.type ≡ r.type) × (q.selector ≡ r.selector) × (q.value ≡ r.value)
unfolding cache_key
cache_key-injective q r h k e =
    let (type, rest) =
      first_parts q.type r.type (selector_text q.selector ++ (0 ∷ q.value))
        (selector_text r.selector ++ (0 ∷ r.value))
        (plain_of_includes oati_record_types q.type record_types_are_plain h)
        (plain_of_includes oati_record_types r.type record_types_are_plain k) e in
    let (selector, value) =
      first_parts (selector_text q.selector) (selector_text r.selector) q.value r.value
        (selectors_are_plain q.selector) (selectors_are_plain r.selector) rest in
    (type, selector_text-injective q.selector r.selector selector, value)
