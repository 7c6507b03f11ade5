-- ===== src/Objects/Decimals/Agree.antt =====
-- The decimals of index.ts, digit by digit, against those of evaluator.ts, over scaled integers.
use oati.Prelude.{
  ℕ, ◌*◌, ◌≤◌, ◌<◌, max, true, Option, none, some, [], ◌∷◌, ◌++◌, ◌≡◌, refl, sym, ap, length,
  length-append, Text, ==_iff, arith, Result, ok, throw, Bool-cases, inl, inr,
}
use native.Mathlib.Decide.{dec_lt}
use oati.Prelude.Ints.{pos}
use oati.Evaluator.Decimal.{
  all_digits, is_decimal, big_int, whole_part, fraction_part, read, parse_decimal, align, sign,
  compare_aligned, compare_decimal, format_decimal, multiply_decimal,
}
use oati.Evaluator.Decimal.Format.{all_digits-append}
use oati.Objects.Decimals.{
  pad_end, compare_fractions, compare_parts, compare_decimal_text, is_safe, print_product,
  multiply_decimal_text,
}
use oati.Evaluator.Decimal.Format.{is_decimal-format_decimal, read-format_decimal}
use oati.Objects.Decimals.Digits.{
  text_sign-sign, text_sign-append, IsParted, parted, big_int-pad_end, pad_end-digits,
  length-pad_end, longer_whole, sign_below,
}

module _ (s t : Text) (left : IsParted s) (right : IsParted t) where
  abbrev width : ℕ
  width = max (length (fraction_part s)) (length (fraction_part t))

  abbrev padded : Text
  padded = whole_part s ++ pad_end width (fraction_part s)

  abbrev padded' : Text
  padded' = whole_part t ++ pad_end width (fraction_part t)

  same_ends : length (pad_end width (fraction_part s)) ≡ length (pad_end width (fraction_part t))
  same_ends = omega (
    arith,
    length-pad_end width (fraction_part s) (omega arith),
    length-pad_end width (fraction_part t) (omega arith),
  )

  padded_digits : all_digits padded ≡ true
  padded_digits =
      all_digits-append (whole_part s) _ left.whole (pad_end-digits width _ left.fraction)

  padded_digits' : all_digits padded' ≡ true
  padded_digits' =
      all_digits-append (whole_part t) _ right.whole (pad_end-digits width _ right.fraction)

  same_length :
      length (whole_part s) ≡ length (whole_part t)
      → compare_parts (whole_part s) (whole_part t) (fraction_part s) (fraction_part t)
        ≡ sign (big_int padded) (big_int padded')
  unfolding compare_parts compare_fractions big_int
  same_length h = ground (
    arith,
    ==_iff (whole_part s) (whole_part t),
    text_sign-append (whole_part s) (whole_part t) (pad_end width (fraction_part s))
        (pad_end width (fraction_part t)) h,
    text_sign-sign padded padded' 0
        (omega (
          arith,
          same_ends,
          length-append {0} (whole_part s) (pad_end width (fraction_part s)),
          length-append {0} (whole_part t) (pad_end width (fraction_part t)),
        ))
        padded_digits padded_digits',
  )

  shorter_whole :
      length (whole_part s) < length (whole_part t)
      → compare_parts (whole_part s) (whole_part t) (fraction_part s) (fraction_part t)
        ≡ sign (big_int padded) (big_int padded')
  unfolding compare_parts
  shorter_whole h = ground (
    arith,
    sign_below (big_int padded) (big_int padded') (
        longer_whole (whole_part t) (whole_part s) _ _ h same_ends padded_digits
          (right.leading (omega (arith, left.some_digit)))),
  )

  longer_than :
      length (whole_part t) < length (whole_part s)
      → compare_parts (whole_part s) (whole_part t) (fraction_part s) (fraction_part t)
        ≡ sign (big_int padded) (big_int padded')
  unfolding compare_parts
  longer_than h = ground (
    arith,
    sign_below (big_int padded') (big_int padded) (
        longer_whole (whole_part s) (whole_part t) _ _ h (sym same_ends) padded_digits'
          (left.leading (omega (arith, right.some_digit)))),
  )

  compare_parts-sign :
      compare_parts (whole_part s) (whole_part t) (fraction_part s) (fraction_part t)
      ≡ sign (big_int padded) (big_int padded')
  compare_parts-sign = elim (dec_lt (length (whole_part s)) (length (whole_part t))) [
    | yes below ↦ shorter_whole below
    | no other ↦ elim (dec_lt (length (whole_part t)) (length (whole_part s))) [
      | yes above ↦ longer_than above
      | no neither ↦ same_length (omega arith)
    ]
  ]

  compare_parts-compare_aligned :
      compare_parts (whole_part s) (whole_part t) (fraction_part s) (fraction_part t)
      ≡ compare_aligned (read s) (read t)
  unfolding compare_aligned align read
  compare_parts-compare_aligned = rw (compare_parts-sign, big_int-pad_end, big_int-pad_end) refl

-- The result of a call, or NaN.
abbrev pub or_nan {ℓ} : {A : Type ℓ} → Result A → Option A
or_nan (throw e) = none
or_nan (ok a) = some a

-- The two comparisons of decimal strings agree on any two texts: that of index.ts, digit by digit,
-- is the result of that of evaluator.ts, over scaled integers, and NaN exactly where that throws.
pub compare_decimal_text-agrees :
    (s t : Text) → compare_decimal_text s t ≡ or_nan (compare_decimal s t)
unfolding compare_decimal_text compare_decimal parse_decimal
compare_decimal_text-agrees s t = elim (Bool-cases (is_decimal s)) [
  | inr bad ↦ rw bad refl
  | inl good ↦ elim (Bool-cases (is_decimal t)) [
    | inr bad ↦ rw (good, bad) refl
    | inl fine ↦
        rw (good, fine)
          (ap some (compare_parts-compare_aligned s t (parted s good) (parted t fine)))
  ]
]

print_product-format_decimal : (n : ℕ) (f : Text) → print_product n f ≡ format_decimal n (length f)
unfolding print_product format_decimal
print_product-format_decimal n [] = refl
print_product-format_decimal n (c ∷ f) = refl

-- The two products of a decimal string and a count that a double holds exactly agree: evaluator.ts
-- returns the text that index.ts makes.
pub multiply_decimal_text-agrees :
    (s : Text) (n : ℕ)
    → is_decimal s ≡ true
    → n ≤ 9007199254740991
    → multiply_decimal s n ≡ ok (multiply_decimal_text s (pos n))
unfolding multiply_decimal multiply_decimal_text parse_decimal read
multiply_decimal_text-agrees s n h k =
    let safe : is_safe n ≡ true = ground arith in rw (h, safe, print_product-format_decimal) refl

-- The comparison of two decimal strings is the order of their numbers.
pub compare_decimal_text_of :
    (s t : Text)
    → is_decimal s ≡ true
    → is_decimal t ≡ true
    → compare_decimal_text s t ≡ some (compare_aligned (read s) (read t))
unfolding compare_decimal_text
compare_decimal_text_of s t h k =
    rw (h, k) (ap some (compare_parts-compare_aligned s t (parted s h) (parted t k)))

-- The product is a decimal string that has the product of the coefficient, at the same scale.
pub read-multiply_decimal_text :
    (s : Text) (n : ℕ)
    → is_decimal s ≡ true
    → n ≤ 9007199254740991
    → (is_decimal (multiply_decimal_text s (pos n)) ≡ true)
      × (read (multiply_decimal_text s (pos n))
          ≡ record { coefficient = (read s).coefficient * n; scale = (read s).scale })
unfolding multiply_decimal_text
read-multiply_decimal_text s n h k =
    let safe : is_safe n ≡ true = ground arith in
    rw (h, safe, print_product-format_decimal)
      (unfold read in (is_decimal-format_decimal _ _, unfold read in read-format_decimal _ _))
