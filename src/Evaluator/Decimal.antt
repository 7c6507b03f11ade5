-- ===== src/Evaluator/Decimal.antt =====
-- The decimal arithmetic at the end of sdk/typescript/src/evaluator.ts: non-negative decimal
-- strings, computed with integers of any size. `bigint` is the native ℕ.
pub mod Format
pub mod Value
use oati.Prelude.{
  ℕ, zero, suc, ◌+◌, ◌-◌, ◌*◌, ◌^◌, max, Bool, true, false, ◌&&◌, List, [], ◌∷◌, ◌++◌, ltb, leb,
  eqb, if◌then◌else◌, length, get_or, take, drop, replicate, Text, text, split, Result, ok, throw,
  type_error, ◌>>=◌,
}
use oati.Json.{print}

abbrev pub dot : ℕ
dot = b'.'

unfoldable pub is_digit : ℕ → Bool
is_digit c = leb b'0' c && leb c b'9'

-- `[0-9]+` to the end of the text
unfoldable pub all_digits : Text → Bool
unfolding is_digit
all_digits [] = true
all_digits (c ∷ s) = is_digit c && all_digits s

abbrev non_empty : Text → Bool
non_empty [] = false
non_empty (c ∷ s) = true

-- `(\.[0-9]+)?$`
unfoldable pub is_fraction : Text → Bool
unfolding all_digits
is_fraction [] = true
is_fraction (c ∷ s) = eqb c dot && (non_empty s && all_digits s)

-- `[0-9]*(\.[0-9]+)?$`
unfoldable pub is_rest : Text → Bool
unfolding is_fraction
is_rest [] = true
is_rest (c ∷ s) = if is_digit c then is_rest s else is_fraction (c ∷ s)

-- `isDecimal`: /^(0|[1-9][0-9]*)(\.[0-9]+)?$/
unfoldable pub is_decimal : Text → Bool
unfolding is_rest
is_decimal [] = false
is_decimal (c ∷ s) = if eqb c b'0' then is_fraction s else is_digit c && is_rest s

-- `BigInt` of a text of digits, in front of which `n` has been read
unfoldable pub big_int_from : ℕ → Text → ℕ
big_int_from n [] = n
big_int_from n (c ∷ s) = big_int_from (n * 10 + (c - b'0')) s

unfoldable pub big_int : Text → ℕ
unfolding big_int_from
big_int s = big_int_from 0 s

pub record Decimal : Type 0 where
  pub coefficient : ℕ
  pub scale : ℕ

-- `const [whole, fraction = ""] = value.split(".")`
unfoldable pub whole_part : Text → Text
unfolding split
whole_part s = get_or (split dot s) 0 []

unfoldable pub fraction_part : Text → Text
unfolding split
fraction_part s = get_or (split dot s) 1 []

unfoldable pub read : Text → Decimal
unfolding whole_part fraction_part big_int
read s = record {
  coefficient = big_int (whole_part s ++ fraction_part s);
  scale = length (fraction_part s);
}

unfoldable pub parse_decimal : Text → Result Decimal
unfolding is_decimal read
parse_decimal s =
    if is_decimal s then ok (read s) else throw (type_error (text "Invalid decimal: " ++ s))

-- `align`: both coefficients at the greater of the two scales
unfoldable pub align : Decimal → Decimal → ℕ × ℕ × ℕ
align left right =
    let scale = max left.scale right.scale in
    (
      left.coefficient * 10 ^ (scale - left.scale),
      right.coefficient * 10 ^ (scale - right.scale),
      scale,
    )

-- The results -1, 0 and 1 of a comparison.
pub data Sign : Type 0 where
  less equal greater : Sign

-- The comparisons `<= 0`, `> 0` and `!== 0` of a result of `compareDecimal`.
abbrev pub at_most_zero : Sign → Bool
at_most_zero greater = false
at_most_zero _ = true

abbrev pub above_zero : Sign → Bool
above_zero greater = true
above_zero _ = false

abbrev pub not_zero : Sign → Bool
not_zero equal = false
not_zero _ = true

unfoldable pub sign : ℕ → ℕ → Sign
sign a b = if eqb a b then equal else if ltb b a then greater else less

unfoldable pub compare_aligned : Decimal → Decimal → Sign
unfolding align sign
compare_aligned x y = let (a, b, _) = align x y in sign a b

unfoldable pub compare_decimal : Text → Text → Result Sign
unfolding compare_aligned parse_decimal
compare_decimal left right = do
  x ← parse_decimal left
  y ← parse_decimal right
  ok (compare_aligned x y)

-- `padStart(width, "0")`
unfoldable pub pad_start : ℕ → Text → Text
pad_start width s = replicate (width - length s) b'0' ++ s

-- `formatDecimal`; `slice(0, -scale)` and `slice(-scale)` count from the end.
unfoldable pub format_decimal : ℕ → ℕ → Text
unfolding pad_start
format_decimal coefficient zero = print coefficient
format_decimal coefficient (suc n) =
    let scale = suc n in
    let digits = pad_start (scale + 1) (print coefficient) in
    take (length digits - scale) digits ++ dot ∷ drop (length digits - scale) digits

unfoldable pub add_aligned : Decimal → Decimal → Text
unfolding align format_decimal
add_aligned x y = let (a, b, scale) = align x y in format_decimal (a + b) scale

unfoldable pub add_decimal : Text → Text → Result Text
unfolding add_aligned parse_decimal
add_decimal left right = do x ← parse_decimal left; y ← parse_decimal right; ok (add_aligned x y)

unfoldable pub multiply_decimal : Text → ℕ → Result Text
unfolding parse_decimal format_decimal
multiply_decimal value multiplier = do
  parsed ← parse_decimal value
  ok (format_decimal (parsed.coefficient * multiplier) parsed.scale)
