-- ===== src/Evaluator/Guarantees/Amounts.antt =====
-- The decimal tests of the evaluator as statements on the values of the strings.
use oati.Prelude.{
  ℕ, ◌*◌, true, false, Option, ◌≡◌, refl, sym, ◌∙◌, Text, ok, ◌>>=◌, >>=-eq-ok, ok-injective,
}
use oati.Json.{Json, to_text}
use oati.Evaluator.Decimal.{
  Sign, is_decimal, read, parse_decimal, compare_aligned, compare_decimal, at_most_zero, above_zero,
  not_zero, less, equal, greater, add_aligned, add_decimal, multiply_decimal, format_decimal,
}
use oati.Evaluator.Decimal.Value.{
  AtMost, SameValue, IsSum, AtMost-of_sign, SameValue-of_sign, add_decimal-IsSum,
  multiply_decimal_exact, is_decimal_of_parse,
}
use oati.Evaluator.Conditions.{exceeds}
use oati.Evaluator.Commerce.{total_invalid, sum_exceeds}
use oati.Evaluator.Types.{CommerceContext}

-- `total` is a decimal string that stands for the exact sum of the decimal strings `s` and `t`.
pub record IsTotal (s t total : Text) : Type 0 where
  pub left : is_decimal s ≡ true
  pub right : is_decimal t ≡ true
  pub decimal : is_decimal total ≡ true
  pub sum : IsSum (read s) (read t) (read total)

-- Both are decimal strings, and `s` stands for at most what `t` does.
abbrev pub Bounds : Text → Text → Type 0
Bounds s t = (is_decimal s ≡ true) × (is_decimal t ≡ true) × AtMost (read s) (read t)

pub add_decimal-IsTotal : (s t : Text) {u : Text} → add_decimal s t ≡ ok u → IsTotal s t u
unfolding add_decimal
add_decimal-IsTotal s t {u} h =
    let (x, p, h1) =
      >>=-eq-ok (parse_decimal s) (λ x. do y ← parse_decimal t; ok (add_aligned x y)) h in
    let (y, q, _) = >>=-eq-ok (parse_decimal t) (λ y. ok (add_aligned x y)) h1 in
    let s_decimal = (is_decimal_of_parse s p).0 in
    let t_decimal = (is_decimal_of_parse t q).0 in
    let (v, e, v_decimal, sum) = add_decimal-IsSum s t s_decimal t_decimal in
    let same : v ≡ u = ok-injective (sym e ∙ h) in
    record {
      left = s_decimal;
      right = t_decimal;
      decimal = rw same at v_decimal;
      sum = rw same at sum;
    }

at_most_of_above : (r : Sign) → above_zero r ≡ false → at_most_zero r ≡ true
at_most_of_above less h = refl
at_most_of_above equal h = refl
at_most_of_above greater h = cc

pub compared_parts :
    (s t : Text) {r : Sign}
    → compare_decimal s t ≡ ok r
    → (is_decimal s ≡ true) × (is_decimal t ≡ true) × (compare_aligned (read s) (read t) ≡ r)
unfolding compare_decimal
compared_parts s t h =
    let (x, p, h1) =
      >>=-eq-ok (parse_decimal s) (λ x. do y ← parse_decimal t; ok (compare_aligned x y)) h in
    let (y, q, h2) = >>=-eq-ok (parse_decimal t) (λ y. ok (compare_aligned x y)) h1 in
    let (s_decimal, at_x) = is_decimal_of_parse s p in
    let (t_decimal, at_y) = is_decimal_of_parse t q in
    let result = ok-injective h2 in (s_decimal, t_decimal, cc)

pub exceeds-Bounds : (s t : Text) → exceeds s t ≡ ok false → Bounds s t
unfolding exceeds
exceeds-Bounds s t h =
    let (r, p, h1) = >>=-eq-ok (compare_decimal s t) (λ r. ok (above_zero r)) h in
    let (s_decimal, t_decimal, e) = compared_parts s t p in
    (
      s_decimal,
      t_decimal,
      AtMost-of_sign (read s) (read t) (rw e (at_most_of_above r (ok-injective h1))),
    )

-- The total that a limit is compared with.
pub sum_exceeds-Bounds :
    (s t : Text) (limit : Option Json)
    → sum_exceeds s t limit ≡ ok false
    → (total : Text) × IsTotal s t total × Bounds total (to_text limit)
unfolding sum_exceeds
sum_exceeds-Bounds s t limit h =
    let (total, p, h1) = >>=-eq-ok (add_decimal s t) (λ total. exceeds total (to_text limit)) h in
    (total, add_decimal-IsTotal s t p, exceeds-Bounds total (to_text limit) h1)

-- The total stands for exactly `quantity` times the unit price.
abbrev pub IsPriceOf : Text → ℕ → Text → Type 0
IsPriceOf price quantity total =
    SameValue (read total)
      (record { coefficient = (read price).coefficient * quantity; scale = (read price).scale })

multiplied_is_decimal :
    (s : Text) (n : ℕ) {u : Text} → multiply_decimal s n ≡ ok u → is_decimal s ≡ true
unfolding multiply_decimal
multiplied_is_decimal s n h =
    let (x, p, _) =
      >>=-eq-ok (parse_decimal s) (λ x. ok (format_decimal (x.coefficient * n) x.scale)) h in
    (is_decimal_of_parse s p).0

multiplied_parts :
    (s : Text) (n : ℕ) {u : Text}
    → multiply_decimal s n ≡ ok u
    → ((read u).coefficient ≡ (read s).coefficient * n) × ((read u).scale ≡ (read s).scale)
multiplied_parts s n {u} h =
    let (v, e, _, coefficient, scale) = multiply_decimal_exact s n (multiplied_is_decimal s n h) in
    let same : v ≡ u = ok-injective (sym e ∙ h) in (rw same at coefficient, rw same at scale)

pub total_invalid-IsPriceOf :
    (c : CommerceContext)
    → total_invalid c ≡ ok false
    → IsPriceOf c.unit_price c.quantity c.total_amount
unfolding total_invalid
total_invalid-IsPriceOf c h =
    let (product, p, h1) =
      >>=-eq-ok (multiply_decimal c.unit_price c.quantity)
        (λ product. do s ← compare_decimal c.total_amount product; ok (not_zero s)) h in
    let (r, q, h2) = >>=-eq-ok (compare_decimal c.total_amount product) (λ r. ok (not_zero r)) h1 in
    let (_, _, e) = compared_parts c.total_amount product q in
    let (coefficient, scale) = multiplied_parts c.unit_price c.quantity p in
    let same = SameValue-of_sign (read c.total_amount) (read product) (rw e (ok-injective h2)) in
    rw (← coefficient, ← scale) same
