-- ===== src/Lookup/Records/Asked.antt =====
-- Which query a record answers, and that making a record uniform keeps that.
use oati.Prelude.{
  true, false, Option, none, some, [], ◌∷◌, ◌≡◌, refl, ◌∙◌, if_holds, Text, text, ◌==◌, ==_iff,
  includes, arith, and_parts,
}
use oati.Json.{Json, str, Fields, end, field, get}
use oati.Lookup.Types.{Query, Selector, by_id, by_target}
use oati.Lookup.Records.{
  one_of, put, attribute, normalize_public_record, valid_revocation_status, selector_matches,
  answers,
}

-- The record is named by the selector: by its identifier, or by the target that it revokes.
abbrev pub Selected : Selector → Text → Fields → Type 0
Selected by_id value item = get item (text "id") ≡ some (str value)
Selected by_target value item =
    (attribute item (text "target") ≡ some (str value))
    × (valid_revocation_status (attribute item (text "revocation_status")) ≡ true)

-- The record is of the type that was asked for and is named by the selector.
abbrev pub Answers : Query → Fields → Type 0
Answers query item =
    (get item (text "type") ≡ some (str query.type)) × Selected query.selector query.value item

is_text_of : (t : Text) (value : Option Json) → one_of (t ∷ []) value ≡ true → value ≡ some (str t)
unfolding one_of includes
is_text_of t (some (str s)) h = let same : t ≡ s = (==_iff t s).0 (ground arith) in rw same refl
is_text_of t none h = cc
is_text_of t (some _) h = cc

Selected-of_matches :
    (selector : Selector) (value : Text) (item : Fields)
    → selector_matches selector value item ≡ true
    → Selected selector value item
unfolding selector_matches
Selected-of_matches by_id value item h = is_text_of value _ h
Selected-of_matches by_target value item h =
    let (_, rest) = and_parts _ _ h in
    let (target, status) = and_parts _ _ rest in (is_text_of value _ target, status)

pub Answers-of_answers :
    (query : Query) (item : Fields) → answers query item ≡ true → Answers query item
unfolding answers
Answers-of_answers query item h =
    let (selected, type) =
      and_parts (selector_matches query.selector query.value item)
        (one_of (query.type ∷ []) (get item (text "type"))) h in
    (is_text_of query.type _ type, Selected-of_matches query.selector query.value item selected)

pub get-put :
    (fs : Fields) (key other : Text) (value : Option Json)
    → (key == other) ≡ false
    → get (put fs key value) other ≡ get fs other
unfolding get put
get-put end key other none h = refl
get-put end key other (some value) h = ground arith
get-put (field k v fs) key other none h =
    ground (arith, get-put fs key other none h, ==_iff k key, ==_iff k other, ==_iff key other)
get-put (field k v fs) key other (some value) h =
    ground
      (arith, get-put fs key other (some value) h, ==_iff k key, ==_iff k other, ==_iff key other)

get-normalize :
    (item : Fields) (other : Text)
    → (text "issued_at" == other) ≡ false
    → (text "expires_at" == other) ≡ false
    → get (normalize_public_record item) other ≡ get item other
unfolding normalize_public_record
get-normalize item other h k =
    if_holds (λ (r : Fields). get r other ≡ get item other) _
      (get-put _ (text "expires_at") other _ k ∙ get-put item (text "issued_at") other _ h) refl

attribute-normalize :
    (item : Fields) (name : Text)
    → attribute (normalize_public_record item) name ≡ attribute item name
unfolding text
attribute-normalize item name =
    rw
      (
        attribute,
        get-normalize item (text "public_attributes") (unfold ◌==◌ in refl) (unfold ◌==◌ in refl),
      )
      refl

Selected-normalize :
    (selector : Selector) (value : Text) (item : Fields)
    → Selected selector value item
    → Selected selector value (normalize_public_record item)
unfolding text
Selected-normalize by_id value item h =
    get-normalize item (text "id") (unfold ◌==◌ in refl) (unfold ◌==◌ in refl) ∙ h
Selected-normalize by_target value item (target, status) = (
  attribute-normalize item (text "target") ∙ target,
  rw (attribute-normalize item (text "revocation_status")) status,
)

pub Answers-normalize :
    (query : Query) (item : Fields)
    → Answers query item
    → Answers query (normalize_public_record item)
unfolding text
Answers-normalize query item (type, selected) = (
  get-normalize item (text "type") (unfold ◌==◌ in refl) (unfold ◌==◌ in refl) ∙ type,
  Selected-normalize query.selector query.value item selected,
)
