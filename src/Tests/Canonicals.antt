-- ===== src/Tests/Canonicals.antt =====
-- Canonical texts, and the theorems on them at a small document.
use oati.Prelude.{◌≡◌, refl, ◌&&◌, none, some, [], ◌∷◌, leb, text}
use oati.Prelude.Ints.{negsuc}
use oati.Json.{Json, num, str, arr, obj, nil, cons, Fields, end, field, null}
use oati.Canonical.{canonical_json}
use oati.Canonical.Reordering.{array, object, item, no_item, swap, canonical_json-Reordered}
use oati.Canonical.Acceptance.{is_some, nesting, scalar_strings, is_some-canonical_json}
use oati.Tests.Requests.{running}

abbrev one_way : Fields
one_way = field (text "b") (str (text "x\"y")) (field (text "a") (num (negsuc 4)) end)

abbrev other_way : Fields
other_way = field (text "a") (num (negsuc 4)) (field (text "b") (str (text "x\"y")) end)

canonical_json-Reordered_example :
    canonical_json (arr (cons (obj one_way) nil)) ≡ canonical_json (arr (cons (obj other_way) nil))
unfolding running
canonical_json-Reordered_example =
    canonical_json-Reordered (arr (cons (obj one_way) nil)) (arr (cons (obj other_way) nil))
      (array (item (object (swap refl)) no_item))

canonical_text : canonical_json (obj one_way) ≡ some (text "{\"a\":-5,\"b\":\"x\\\"y\"}")
unfolding running canonical_json
canonical_text = refl

-- A lone surrogate in a nested key.
abbrev lone : Json
lone = arr (cons (obj (field (0xd800 ∷ 97 ∷ []) null end)) nil)

is_some-canonical_json_example :
    is_some (canonical_json lone) ≡ (leb (nesting lone) 256 && scalar_strings lone)
is_some-canonical_json_example = is_some-canonical_json lone

lone_is_refused : canonical_json lone ≡ none
unfolding running canonical_json
lone_is_refused = refl

-- The property `__proto__` is not in the canonical text: two documents share one.
abbrev with_proto : Fields
with_proto = field (text "__proto__") (obj (field (text "role") (str (text "admin")) end)) one_way

proto_is_lost : canonical_json (obj with_proto) ≡ canonical_json (obj one_way)
unfolding running canonical_json
proto_is_lost = refl
