-- ===== src/Evaluator/Conditions.antt =====
-- The tests at the end of evaluator.ts that the checks share.
use oati.Prelude.{
  ℕ, Bool, true, false, not, ◌&&◌, List, [], ◌++◌, Option, none, some, if◌then◌else◌, all, Text,
  text, ◌==◌, includes, Result, ok, throw, type_error, ◌>>=◌,
}
use oati.Prelude.Ints.{ℤ, leb_ℤ}
use oati.Json.{
  Json, null, bool, num, str, arr, obj, Items, nil, cons, Fields, end, field, get, identical,
  strict_eq,
}
use oati.Evaluator.Decimal.{
  at_most_zero, above_zero, is_decimal, read, compare_aligned, compare_decimal,
}

-- What the evaluator takes from the language's runtime: `Date.parse`, as the milliseconds since the
-- earliest instant that a `Date` can hold (`none` is NaN), and `Number` of a string.
pub record Runtime : Type 0 where
  pub parse_date : Text → Option ℕ
  pub number_of_text : Text → Option ℤ

unfoldable pub timestamp : Runtime → Text → Result ℕ
timestamp rt value = elim (rt.parse_date value) [
  | none ↦ throw (type_error (text "Invalid RFC 3339 timestamp: " ++ value))
  | some parsed ↦ ok parsed
]

-- `checkSetConstraint`, without the report
unfoldable pub violates_set : Option (List Text) → Option Text → Bool
violates_set none actual = false
violates_set (some allowed) none = true
violates_set (some allowed) (some []) = true
violates_set (some allowed) (some actual) = not (includes allowed actual)

unfoldable pub subset : List Text → List Text → Bool
subset child parent = all (includes parent) child

unfoldable pub constrained_subset : Option (List Text) → Option (List Text) → Bool
unfolding subset
constrained_subset child none = true
constrained_subset none (some parent) = false
constrained_subset (some child) (some parent) = subset child parent

unfoldable pub same_fields : Fields → Fields → List Text → Bool
same_fields child parent fields = all (λ f. strict_eq (get child f) (get parent f)) fields

unfoldable pub same_mapped_fields : Fields → Fields → List (Text × Text) → Bool
same_mapped_fields left right fields = all (λ f. strict_eq (get left f.0) (get right f.1)) fields

unfoldable pub number_at_most : Option Json → Option Json → Bool
number_at_most (some (num child)) (some (num parent)) = leb_ℤ child parent
number_at_most _ _ = false

unfoldable pub number_at_least : Option Json → Option Json → Bool
number_at_least (some (num child)) (some (num parent)) = leb_ℤ parent child
number_at_least _ _ = false

unfoldable pub decimal_at_most : Option Json → Option Json → Result Bool
unfolding compare_decimal
decimal_at_most (some (str child)) (some (str parent)) = do
  s ← compare_decimal child parent
  ok (at_most_zero s)
decimal_at_most _ _ = ok false

-- `a > b` of decimal strings
unfoldable pub exceeds : Text → Text → Result Bool
unfolding compare_decimal
exceeds a b = do s ← compare_decimal a b; ok (above_zero s)

-- `items.includes(item)`
unfoldable pub holds_item : Items → Json → Bool
holds_item nil v = false
holds_item (cons w ws) v = if identical w v then true else holds_item ws v

unfoldable pub all_held : Items → Items → Bool
unfolding holds_item
all_held nil parent = true
all_held (cons v vs) parent = holds_item parent v && all_held vs parent

-- `narrowerObject` of a parent that is an object, and its test of one value. Both texts are decimal
-- where they are compared, so that `compareDecimal` does not throw.
unfoldable mutual
  pub narrower_value : Json → Option Json → Bool
  narrower_value (num p) (some (num c)) = leb_ℤ c p
  narrower_value (num p) child = false
  narrower_value (str p) (some (str c)) =
      if is_decimal p
      then is_decimal c && at_most_zero (compare_aligned (read c) (read p))
      else c == p
  narrower_value (str p) child = false
  narrower_value (arr ps) (some (arr cs)) = all_held cs ps
  narrower_value (arr ps) child = false
  narrower_value (obj ps) (some (obj cs)) = narrower_fields ps cs
  narrower_value (obj ps) child = false
  narrower_value null child = strict_eq child (some null)
  narrower_value (bool b) child = strict_eq child (some (bool b))

  pub narrower_fields : Fields → Fields → Bool
  narrower_fields end child = true
  narrower_fields (field k v fs) child = narrower_value v (get child k) && narrower_fields fs child

unfoldable pub narrower_object : Option Fields → Option Fields → Bool
unfolding narrower_value
narrower_object child none = true
narrower_object none (some parent) = false
narrower_object (some child) (some parent) = narrower_fields parent child
