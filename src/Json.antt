-- ===== src/Json.antt =====
-- JSON values as the TypeScript SDK reads them: `unknown`, and `Record<string, unknown>` as `Fields`.
-- Numbers are integers; fractions and rounding beyond 2^53 are left out. An absent property is
-- `none`. Properties that a plain object inherits (`toString` and the like) are left out.
pub mod Printing
use oati.Prelude.{
  ℕ, zero, suc, ◌+◌, ◌/◌, ◌%◌, Bool, true, false, not, List, [], ◌∷◌, ◌++◌, Option, none, some, ltb,
  if◌then◌else◌, Text, text, ◌==◌,
}
use oati.Prelude.Ints.{ℤ, pos, negsuc, eqb_ℤ}

mutual
  pub data Json : Type 0 where
    null : Json
    bool : Bool → Json
    num : ℤ → Json
    str : Text → Json
    arr : Items → Json
    obj : Fields → Json

  pub data Items : Type 0 where
    nil : Items
    cons : Json → Items → Items

  pub data Fields : Type 0 where
    end : Fields
    field : Text → Json → Fields → Fields

-- `value[key]`
unfoldable pub get : Fields → Text → Option Json
get end key = none
get (field k v fs) key = let rest = get fs key in if k == key then some v else rest

-- `objectAt` of evaluator.ts
as_object : Option Json → Option Fields
as_object (some (obj fs)) = some fs
as_object _ = none

unfoldable pub object_at : Option Fields → Text → Option Fields
unfolding as_object
object_at none key = none
object_at (some fs) key = as_object (get fs key)

-- `stringArray` of evaluator.ts
strings : Items → List Text
strings nil = []
strings (cons (str s) vs) = s ∷ strings vs
strings (cons _ vs) = strings vs

unfoldable pub string_array : Option Json → List Text
unfolding strings
string_array (some (arr vs)) = strings vs
string_array _ = []

-- `===`. Objects and arrays are compared by identity: those of two documents are never identical.
unfoldable pub identical : Json → Json → Bool
identical null null = true
identical (bool true) (bool b) = b
identical (bool false) (bool b) = not b
identical (num a) (num b) = eqb_ℤ a b
identical (str s) (str t) = s == t
identical _ _ = false

unfoldable pub strict_eq : Option Json → Option Json → Bool
unfolding identical
strict_eq none none = true
strict_eq (some a) (some b) = identical a b
strict_eq _ _ = false

-- A value in a test.
unfoldable pub truthy : Option Json → Bool
truthy none = false
truthy (some null) = false
truthy (some (bool b)) = b
truthy (some (num n)) = not (eqb_ℤ n (pos zero))
truthy (some (str [])) = false
truthy (some _) = true

-- The decimal digits of a number, most significant first, in front of `out`; the fuel is the number.
pub digits : ℕ → ℕ → Text → Text
digits zero n out = (48 + n % 10) ∷ out
digits (suc f) n out =
    let rest = digits f (n / 10) ((48 + n % 10) ∷ out) in
    if ltb n 10 then (48 + n % 10) ∷ out else rest

-- `toString` of a non-negative integer
unfoldable pub print : ℕ → Text
unfolding digits
print n = digits n n []

abbrev pub print_ℤ : ℤ → Text
print_ℤ (pos n) = print n
print_ℤ (negsuc n) = 45 ∷ print (suc n)

-- `String(value)`; the elements of an array are joined by commas, where `null` is empty.
unfoldable mutual
  pub string_of : Json → Text
  string_of null = text "null"
  string_of (bool true) = text "true"
  string_of (bool false) = text "false"
  string_of (num n) = print_ℤ n
  string_of (str s) = s
  string_of (arr vs) = string_of_items vs
  string_of (obj fs) = text "[object Object]"

  pub string_of_items : Items → Text
  string_of_items nil = []
  string_of_items (cons null nil) = []
  string_of_items (cons v nil) = string_of v
  string_of_items (cons null vs) = 44 ∷ string_of_items vs
  string_of_items (cons v vs) = string_of v ++ 44 ∷ string_of_items vs

unfoldable pub to_text : Option Json → Text
to_text none = text "undefined"
to_text (some v) = string_of v
