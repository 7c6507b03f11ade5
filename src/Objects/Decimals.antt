-- ===== src/Objects/Decimals.antt =====
-- `compareDecimal` and `multiplyDecimal` of sdk/typescript/src/index.ts, which compare and multiply
-- decimal strings digit by digit and by `BigInt`; evaluator.ts has its own, over scaled integers.
pub mod Digits
pub mod Agree
use oati.Prelude.{
  ℕ, zero, suc, ◌+◌, ◌-◌, ◌*◌, max, Bool, true, false, not, ◌&&◌, ◌||◌, Option, none, some, [], ◌∷◌,
  ◌++◌, length, take, drop, replicate, if◌then◌else◌, ltb, leb, eqb, Text, text, ◌==◌,
}
use oati.Prelude.Ints.{ℤ, pos, negsuc}
use oati.Json.{print}
use oati.Evaluator.Decimal.{
  dot, is_decimal, whole_part, fraction_part, big_int, pad_start, Sign, less, equal, greater,
}

-- `left > right` of two strings: the order of their code units.
unfoldable pub text_above : Text → Text → Bool
text_above [] t = false
text_above (c ∷ s) [] = true
text_above (c ∷ s) (d ∷ t) = let rest = text_above s t in if eqb c d then rest else ltb d c

-- `padEnd(width, "0")`
unfoldable pub pad_end : ℕ → Text → Text
pad_end width s = s ++ replicate (width - length s) b'0'

-- The comparison of two strings of the same length.
unfoldable pub text_sign : Text → Text → Sign
unfolding text_above
text_sign a b = if a == b then equal else if text_above a b then greater else less

unfoldable pub compare_fractions : Text → Text → Sign
unfolding pad_end text_sign
compare_fractions left right =
    let width = max (length left) (length right) in
    text_sign (pad_end width left) (pad_end width right)

unfoldable pub compare_parts : Text → Text → Text → Text → Sign
unfolding compare_fractions text_above
compare_parts whole whole' fraction fraction' =
    if not (eqb (length whole) (length whole'))
    then (if ltb (length whole') (length whole) then greater else less)
    else if not (whole == whole')
    then (if text_above whole whole' then greater else less)
    else compare_fractions fraction fraction'

-- `compareDecimal`; `none` is NaN.
unfoldable pub compare_decimal_text : Text → Text → Option Sign
unfolding compare_parts
compare_decimal_text left right =
    if not (is_decimal left) || not (is_decimal right)
    then none
    else some (
        compare_parts (whole_part left) (whole_part right) (fraction_part left)
          (fraction_part right))

-- `Number.isSafeInteger(multiplier)`, of an integer that is not negative
abbrev pub is_safe : ℕ → Bool
is_safe n = leb n 9007199254740991

-- The product with `length fraction` digits behind the point.
unfoldable pub print_product : ℕ → Text → Text
unfolding pad_start
print_product coefficient [] = print coefficient
print_product coefficient (c ∷ s) =
    let scale = length (c ∷ s) in
    let digits = pad_start (scale + 1) (print coefficient) in
    take (length digits - scale) digits ++ dot ∷ drop (length digits - scale) digits

unfoldable pub multiply_decimal_text : Text → ℤ → Text
unfolding print_product
multiply_decimal_text value (negsuc n) = text "invalid"
multiply_decimal_text value (pos n) =
    if not (is_decimal value) || not (is_safe n)
    then text "invalid"
    else print_product (big_int (whole_part value ++ fraction_part value) * n) (fraction_part value)
