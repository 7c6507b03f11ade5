-- ===== src/Json/Printing.antt =====
-- The decimal digits that `toString` prints for a number.
use oati.Prelude.{
  ℕ, zero, suc, ◌+◌, ◌/◌, ◌%◌, ◌≤◌, ◌<◌, [], ◌∷◌, ◌++◌, append_assoc, ◌≡◌, refl, length,
  length-append, Text, arith,
}
use native.Mathlib.Decide.{dec_lt}
use oati.Json.{digits, print}

digits-append : (f n : ℕ) (out : Text) → digits f n out ≡ digits f n [] ++ out
unfolding digits
digits-append zero n out = refl
digits-append (suc f) n out = ground (
  arith,
  digits-append f (n / 10) ((48 + n % 10) ∷ out),
  digits-append f (n / 10) ((48 + n % 10) ∷ []),
  append_assoc (digits f (n / 10) []) ((48 + n % 10) ∷ []) out,
)

digits_fuel : (f g n : ℕ) (out : Text) → n ≤ f → n ≤ g → digits f n out ≡ digits g n out
unfolding digits
digits_fuel zero zero n out p q = refl
digits_fuel zero (suc g) n out p q = ground arith
digits_fuel (suc f) zero n out p q = ground arith
digits_fuel (suc f) (suc g) n out p q =
    ground (arith, digits_fuel f g (n / 10) ((48 + n % 10) ∷ out))

-- A number of one digit.
pub print_small : (n : ℕ) → n < 10 → print n ≡ (48 + n) ∷ []
unfolding print
print_small zero h = refl
print_small (suc n) h = ground arith

-- The last digit stands behind those of the tenth.
pub print_snoc : (n : ℕ) → 10 ≤ n → print n ≡ print (n / 10) ++ (48 + n % 10) ∷ []
unfolding print
print_snoc zero h = absurd (omega arith)
print_snoc (suc n) h = ground (
  arith,
  digits-append n (suc n / 10) ((48 + suc n % 10) ∷ []),
  digits_fuel n (suc n / 10) (suc n / 10) [],
)

-- Induction on the digits of a number.
module _ {ℓ} (P : ℕ → Type ℓ) (small : (n : ℕ) → n < 10 → P n)
    (more : (n : ℕ) → 10 ≤ n → P (n / 10) → P n) where
  digit_induction_to : (f n : ℕ) → n ≤ f → P n
  digit_induction_to zero n h = small n (omega arith)
  digit_induction_to (suc f) n h = elim (dec_lt n 10) [
    | yes p ↦ small n p
    | no p ↦ more n (omega arith) (digit_induction_to f (n / 10) (omega arith))
  ]

  pub digit_induction : (n : ℕ) → P n
  digit_induction n = digit_induction_to n n (omega arith)

pub length-print-pos : (n : ℕ) → 1 ≤ length (print n)
length-print-pos =
    digit_induction (λ n. 1 ≤ length (print n)) (λ n h. rw (print_small n h) (omega arith))
      λ n h ih.
        rw (print_snoc n h) (omega (arith, length-append {0} (print (n / 10)) ((48 + n % 10) ∷ [])))
