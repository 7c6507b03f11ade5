-- ===== src/Evaluator/Decimal/Value.antt =====
-- The number that a decimal string stands for: its coefficient over a power of ten. Sums, products
-- and comparisons of evaluator.ts are those of the numbers, with no rounding.
use oati.Prelude.{
  ℕ, zero, suc, ◌+◌, ◌-◌, ◌*◌, ◌^◌, ◌≤◌, ◌<◌, max, true, false, ◌≡◌, sym, ap, arith, Text, ok,
}
use native.Mathlib.Nat.{
  pow-suc, pow-zero, add-zero, add-suc, mul-one, mul_assoc, one-le-pow, one-le-mul,
  le_of_mul-le-mul_right, mul-le-mul_right, lt_of_mul-lt-mul_right, mul-lt-mul_of_pos_right,
  le_antisymm, le_of_eq,
}
use oati.Evaluator.Decimal.{
  at_most_zero, not_zero, Decimal, is_decimal, read, parse_decimal, align, Sign, less, equal,
  greater, sign, compare_aligned, compare_decimal, format_decimal, add_aligned, add_decimal,
  multiply_decimal,
}
use oati.Evaluator.Decimal.Format.{is_decimal-format_decimal, read-format_decimal}

-- `x` is at most, or is, `y`: the fractions compared by cross multiplication.
abbrev pub AtMost : Decimal → Decimal → Type 0
AtMost x y = x.coefficient * 10 ^ y.scale ≤ y.coefficient * 10 ^ x.scale

abbrev pub SameValue : Decimal → Decimal → Type 0
SameValue x y = x.coefficient * 10 ^ y.scale ≡ y.coefficient * 10 ^ x.scale

-- `z` is the sum of `x` and `y`.
abbrev pub IsSum : Decimal → Decimal → Decimal → Type 0
IsSum x y z =
    z.coefficient * (10 ^ x.scale * 10 ^ y.scale)
    ≡ (x.coefficient * 10 ^ y.scale + y.coefficient * 10 ^ x.scale) * 10 ^ z.scale

pub pow-add : (b m n : ℕ) → b ^ (m + n) ≡ b ^ m * b ^ n
pow-add b m zero = rw (add-zero, pow-zero, mul-one)
pow-add b m (suc n) = rw (add-suc, pow-suc, pow-suc, pow-add b m n, mul_assoc)

pub ten_pow_pos : (n : ℕ) → 1 ≤ 10 ^ n
ten_pow_pos n = one-le-pow n 10 (omega arith)

pow-sub : (s t : ℕ) → s ≤ t → 10 ^ (t - s) * 10 ^ s ≡ 10 ^ t
pow-sub s t h = let total : t - s + s ≡ t = omega arith in rw (← pow-add, total)

-- `a` and `b` are `x / p` and `y / q` at the common denominator `r`.
module _ (a b x y p q r : ℕ) (left : a * p ≡ x * r) (right : b * q ≡ y * r) (pos_r : 1 ≤ r) where
  aligned-le : a ≤ b → x * q ≤ y * p
  aligned-le h =
      le_of_mul-le-mul_right
        (omega (
          arith,
          ap (λ (t : ℕ). t * q) left,
          ap (λ (t : ℕ). t * p) right,
          mul-le-mul_right (p * q) h,
        ))
        pos_r

  aligned-lt : 1 ≤ p → 1 ≤ q → a < b → x * q < y * p
  aligned-lt pos_p pos_q h = lt_of_mul-lt-mul_right r (
      omega (
        arith,
        ap (λ (t : ℕ). t * q) left,
        ap (λ (t : ℕ). t * p) right,
        mul-lt-mul_of_pos_right h (one-le-mul pos_p pos_q),
      ))

  aligned-sum : (a + b) * (p * q) ≡ (x * q + y * p) * r
  aligned-sum = omega (arith, ap (λ (t : ℕ). t * q) left, ap (λ (t : ℕ). t * p) right)

align_left : (x y : Decimal) → (align x y).0 * 10 ^ x.scale ≡ x.coefficient * 10 ^ (align x y).2
unfolding align
align_left x y =
    omega (
      arith,
      ap (λ (t : ℕ). x.coefficient * t) (pow-sub x.scale (max x.scale y.scale) (omega arith)),
    )

align_right : (x y : Decimal) → (align x y).1 * 10 ^ y.scale ≡ y.coefficient * 10 ^ (align x y).2
unfolding align
align_right x y =
    omega (
      arith,
      ap (λ (t : ℕ). y.coefficient * t) (pow-sub y.scale (max x.scale y.scale) (omega arith)),
    )

-- What each result of a comparison says.
abbrev pub SignOf : Sign → Decimal → Decimal → Type 0
SignOf less x y = x.coefficient * 10 ^ y.scale < y.coefficient * 10 ^ x.scale
SignOf equal x y = SameValue x y
SignOf greater x y = y.coefficient * 10 ^ x.scale < x.coefficient * 10 ^ y.scale

-- The three results of `sign` and what they say of the numbers.
abbrev Signed : Sign → ℕ → ℕ → Type 0
Signed less a b = a < b
Signed equal a b = a ≡ b
Signed greater a b = b < a

sign-Signed : (a b : ℕ) → Signed (sign a b) a b
unfolding sign
sign-Signed a b = ground arith

module _ (x y : Decimal) where
  SignOf-of_Signed : (s : Sign) → Signed s (align x y).0 (align x y).1 → SignOf s x y
  SignOf-of_Signed less h =
      aligned-lt _ _ _ _ _ _ _ (align_left x y) (align_right x y) (ten_pow_pos _)
        (ten_pow_pos x.scale) (ten_pow_pos y.scale) h
  SignOf-of_Signed equal h =
      le_antisymm
        (aligned-le _ _ _ _ _ _ _ (align_left x y) (align_right x y) (ten_pow_pos _) (le_of_eq h))
        (aligned-le _ _ _ _ _ _ _ (align_right x y) (align_left x y) (ten_pow_pos _)
          (le_of_eq (sym h)))
  SignOf-of_Signed greater h =
      aligned-lt _ _ _ _ _ _ _ (align_right x y) (align_left x y) (ten_pow_pos _)
        (ten_pow_pos y.scale) (ten_pow_pos x.scale) h

  pub compare_aligned-SignOf : SignOf (compare_aligned x y) x y
  unfolding compare_aligned
  compare_aligned-SignOf =
      let (a, b, _) = align x y in SignOf-of_Signed (sign a b) (sign-Signed a b)

  add_aligned-IsSum : IsSum x y (read (add_aligned x y))
  unfolding add_aligned
  add_aligned-IsSum =
      rw read-format_decimal
        (aligned-sum _ _ _ _ _ _ _ (align_left x y) (align_right x y) (ten_pow_pos _))

pub parse_decimal_of : (s : Text) → is_decimal s ≡ true → parse_decimal s ≡ ok (read s)
unfolding parse_decimal
parse_decimal_of s h = rw h

-- Comparing two decimal strings returns a result, and it is the order of the numbers that they stand
-- for: `less`, `equal` or `greater`.
pub compare_decimal-SignOf :
    (s t : Text)
    → is_decimal s ≡ true
    → is_decimal t ≡ true
    → (r : Sign) × (compare_decimal s t ≡ ok r) × SignOf r (read s) (read t)
unfolding compare_decimal
compare_decimal-SignOf s t h k = (
  compare_aligned (read s) (read t),
  rw (parse_decimal_of s h, parse_decimal_of t k),
  compare_aligned-SignOf (read s) (read t),
)

-- Adding two decimal strings returns a decimal string that stands for exactly the sum of their
-- numbers.
pub add_decimal-IsSum :
    (s t : Text)
    → is_decimal s ≡ true
    → is_decimal t ≡ true
    → (u : Text) × (add_decimal s t ≡ ok u)
      × (is_decimal u ≡ true)
      × IsSum (read s) (read t) (read u)
unfolding add_decimal
add_decimal-IsSum s t h k = (
  add_aligned (read s) (read t),
  rw (parse_decimal_of s h, parse_decimal_of t k),
  unfold add_aligned in is_decimal-format_decimal _ _,
  add_aligned-IsSum (read s) (read t),
)

-- Multiplying a decimal string by a count returns a decimal string that has the product as its
-- coefficient, at the same scale.
pub multiply_decimal_exact :
    (s : Text) (n : ℕ)
    → is_decimal s ≡ true
    → (u : Text) × (multiply_decimal s n ≡ ok u)
      × (is_decimal u ≡ true)
      × ((read u).coefficient ≡ (read s).coefficient * n)
      × ((read u).scale ≡ (read s).scale)
unfolding multiply_decimal
multiply_decimal_exact s n h = (
  format_decimal ((read s).coefficient * n) (read s).scale,
  rw (parse_decimal_of s h),
  is_decimal-format_decimal _ _,
  ap (λ (d : Decimal). d.coefficient) (read-format_decimal _ _),
  ap (λ (d : Decimal). d.scale) (read-format_decimal _ _),
)

-- Whatever was parsed without an exception is a decimal string.
pub is_decimal_of_parse :
    (s : Text) {x : Decimal} → parse_decimal s ≡ ok x → (is_decimal s ≡ true) × (x ≡ read s)
unfolding parse_decimal
is_decimal_of_parse s h = ground arith

AtMost-of_SignOf : (x y : Decimal) (s : Sign) → SignOf s x y → at_most_zero s ≡ true → AtMost x y
AtMost-of_SignOf x y less h k = omega arith
AtMost-of_SignOf x y equal h k = omega arith
AtMost-of_SignOf x y greater h k = cc

-- A comparison whose result is at most zero is an order of the values, and one above zero refutes it.
pub AtMost-of_sign : (x y : Decimal) → at_most_zero (compare_aligned x y) ≡ true → AtMost x y
AtMost-of_sign x y h = AtMost-of_SignOf x y (compare_aligned x y) (compare_aligned-SignOf x y) h

SameValue-of_SignOf : (x y : Decimal) (s : Sign) → SignOf s x y → not_zero s ≡ false → SameValue x y
SameValue-of_SignOf x y less h k = cc
SameValue-of_SignOf x y equal h k = h
SameValue-of_SignOf x y greater h k = cc

pub SameValue-of_sign : (x y : Decimal) → not_zero (compare_aligned x y) ≡ false → SameValue x y
SameValue-of_sign x y h =
    SameValue-of_SignOf x y (compare_aligned x y) (compare_aligned-SignOf x y) h

-- A number of the same value is below the same numbers.
pub AtMost-of_SameValue : (z x m : Decimal) → SameValue z x → AtMost x m → AtMost z m
AtMost-of_SameValue z x m e h =
    le_of_mul-le-mul_right
      (omega (arith, ap (λ (t : ℕ). t * 10 ^ m.scale) e, mul-le-mul_right (10 ^ z.scale) h))
      (ten_pow_pos x.scale)

-- Adding a zero without a fraction keeps the value.
pub SameValue-of_IsSum_zero :
    (x y z : Decimal) → y.coefficient ≡ 0 → y.scale ≡ 0 → IsSum x y z → SameValue z x
SameValue-of_IsSum_zero x y z c s h =
    let h' : z.coefficient * (10 ^ x.scale * 10 ^ 0)
        ≡ (x.coefficient * 10 ^ 0 + 0 * 10 ^ x.scale) * 10 ^ z.scale =
      cc in
    omega arith

-- The order of the numbers is transitive, whatever their scales.
pub AtMost-trans : (x y z : Decimal) → AtMost x y → AtMost y z → AtMost x z
AtMost-trans x y z h k =
    le_of_mul-le-mul_right
      (omega (arith, mul-le-mul_right (10 ^ z.scale) h, mul-le-mul_right (10 ^ x.scale) k))
      (ten_pow_pos y.scale)
