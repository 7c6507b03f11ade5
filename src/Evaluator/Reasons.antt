-- ===== src/Evaluator/Reasons.antt =====
-- The `Set` of reason codes that an evaluation fills, the sorted list that it returns, and the
-- conditions of evaluator.ts, which may throw.
pub mod Order
use oati.Prelude.{
  ℕ, Bool, true, false, not, ◌&&◌, List, [], ◌∷◌, ◌++◌, Option, none, some, ◌≡◌, ◌≢◌, refl, ltb,
  eqb, if◌then◌else◌, All, Text, text, includes, Result, ok, throw, type_error, arith, ◌⊎◌,
}

abbrev pub Reasons : Type 0
Reasons = List Text

-- `reasons.add(code)`
unfoldable pub add : Text → Reasons → Reasons
add code reasons = if includes reasons code then reasons else reasons ++ code ∷ []

-- A run of statements `if (test) reasons.add(code)`.
unfoldable pub report : List (Bool × Text) → Reasons → Reasons
unfolding add
report [] reasons = reasons
report ((test, code) ∷ rest) reasons = report rest (if test then add code reasons else reasons)

-- `a || b || …` where an operand may throw: the first that is true or throws ends it.
unfoldable pub first_true : List (Result Bool) → Result Bool
first_true [] = ok false
first_true (ok true ∷ rest) = ok true
first_true (ok false ∷ rest) = first_true rest
first_true (throw e ∷ rest) = throw e

-- `<` on strings: by UTF-16 code units.
unfoldable pub text_lt : Text → Text → Bool
text_lt [] [] = false
text_lt [] (b ∷ t) = true
text_lt (a ∷ s) [] = false
text_lt (a ∷ s) (b ∷ t) = if eqb a b then text_lt s t else ltb a b

-- `sort()` of an array of strings; equal strings cannot be told apart.
unfoldable pub insert : Text → List Text → List Text
insert s [] = s ∷ []
insert s (t ∷ ts) = let rest = insert s ts in if text_lt t s then t ∷ rest else s ∷ t ∷ ts

unfoldable pub sort : List Text → List Text
unfolding insert text_lt
sort [] = []
sort (s ∷ ss) = insert s (sort ss)

add-ne-nil : (code : Text) (reasons : Reasons) → add code reasons ≢ []
unfolding add includes
add-ne-nil code [] h = ground arith
add-ne-nil code (s ∷ ss) h = ground arith

-- Nothing is reported exactly if nothing was and every test fails.
pub report-eq-nil :
    (tests : List (Bool × Text)) (reasons : Reasons)
    → report tests reasons ≡ []
    → (reasons ≡ []) × All (λ t. t.0 ≡ false) tests
unfolding report
report-eq-nil [] reasons h = (h, tt)
report-eq-nil ((true, code) ∷ rest) reasons h =
    absurd (add-ne-nil code reasons (report-eq-nil rest (add code reasons) h).0)
report-eq-nil ((false, code) ∷ rest) reasons h =
    let (none_before, later) = report-eq-nil rest reasons h in (none_before, (refl, later))

pub report_nothing :
    (tests : List (Bool × Text)) → All (λ t. t.0 ≡ false) tests → report tests [] ≡ []
unfolding report
report_nothing [] h = refl
report_nothing ((test, code) ∷ rest) (e, h) = rw e (report_nothing rest h)

pub first_true-eq-false :
    (tests : List (Result Bool)) → first_true tests ≡ ok false → All (λ t. t ≡ ok false) tests
unfolding first_true
first_true-eq-false [] h = tt
first_true-eq-false (ok true ∷ rest) h = ground arith
first_true-eq-false (ok false ∷ rest) h = (refl, first_true-eq-false rest h)
first_true-eq-false (throw e ∷ rest) h = ground arith
