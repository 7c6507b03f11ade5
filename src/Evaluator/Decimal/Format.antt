-- ===== src/Evaluator/Decimal/Format.antt =====
-- What `formatDecimal` prints is read back.
use oati.Prelude.{
  ℕ, zero, suc, ◌+◌, ◌-◌, ◌*◌, ◌/◌, ◌%◌, ◌≤◌, ◌<◌, true, [], ◌∷◌, ◌++◌, append_assoc, append-nil,
  ◌≡◌, refl, sym, ap, ◌∙◌, length, take, drop, replicate, length-append, replicate_snoc,
  take-append, drop-append, Text, arith, split, ok,
}
use native.Mathlib.Decide.{dec_lt}
use native.Mathlib.Numerals.{add-one}
use oati.Json.{print}
use oati.Json.Printing.{print_small, print_snoc, digit_induction, length-print-pos}
use oati.Evaluator.Decimal.{
  dot, all_digits, is_fraction, is_rest, is_decimal, big_int_from, big_int, whole_part,
  fraction_part, read, parse_decimal, pad_start, format_decimal,
}

-- Reading is a fold: what follows is read from what has been read.
pub big_int_from-append :
    (n : ℕ) (s t : Text) → big_int_from n (s ++ t) ≡ big_int_from (big_int_from n s) t
unfolding big_int_from
big_int_from-append n [] t = refl
big_int_from-append n (c ∷ s) t = big_int_from-append (n * 10 + (c - b'0')) s t

big_int_snoc : (s : Text) (d : ℕ) → big_int (s ++ (48 + d) ∷ []) ≡ big_int s * 10 + d
unfolding big_int
big_int_snoc s d = omega (arith, big_int_from-append 0 s ((48 + d) ∷ []))

big_int-print : (n : ℕ) → big_int (print n) ≡ n
big_int-print =
    digit_induction (λ n. big_int (print n) ≡ n)
      (λ n h. rw (print_small n h) (unfold big_int in omega arith))
      λ n h ih. rw (print_snoc n h) (omega (arith, big_int_snoc (print (n / 10)) (n % 10), ih))

big_int_from-zeros : (k : ℕ) → big_int_from 0 (replicate k b'0') ≡ 0
unfolding big_int_from
big_int_from-zeros zero = refl
big_int_from-zeros (suc k) = big_int_from-zeros k

big_int-pad_start : (k : ℕ) (s : Text) → big_int (pad_start k s) ≡ big_int s
unfolding big_int pad_start
big_int-pad_start k s =
    big_int_from-append 0 (replicate (k - length s) b'0') s
    ∙ ap (λ (n : ℕ). big_int_from n s) (big_int_from-zeros (k - length s))

-- The last `k` digits of a number, and the number without them.
pub last_digits : ℕ → ℕ → Text
last_digits zero n = []
last_digits (suc k) n = last_digits k (n / 10) ++ (48 + n % 10) ∷ []

pub without_last : ℕ → ℕ → ℕ
without_last zero n = n
without_last (suc k) n = without_last k (n / 10)

length-last_digits : (k n : ℕ) → length (last_digits k n) ≡ k
unfolding last_digits
length-last_digits zero n = refl
length-last_digits (suc k) n = omega (
  arith,
  length-append {0} (last_digits k (n / 10)) ((48 + n % 10) ∷ []),
  length-last_digits k (n / 10),
)

pad_start_short : (k : ℕ) (s : Text) → k ≤ length s → pad_start k s ≡ s
unfolding pad_start
pad_start_short k s h = let none_left : k - length s ≡ 0 = omega arith in rw none_left

pad_start_snoc :
    (k : ℕ) (s : Text) (c : ℕ) → pad_start (suc k) (s ++ c ∷ []) ≡ pad_start k s ++ c ∷ []
unfolding pad_start
pad_start_snoc k s c =
    let gap : suc k - length (s ++ c ∷ []) ≡ k - length s =
      omega (arith, length-append {0} s (c ∷ [])) in
    rw (gap, append_assoc)

pad_digits_small :
    (k n : ℕ)
    → n < 10
    → pad_start (suc (suc k)) (print n) ≡ pad_start (suc k) (print (n / 10)) ++ (48 + n % 10) ∷ []
unfolding pad_start
pad_digits_small k n h =
    let tenth : n / 10 ≡ 0 = omega arith in
    let unit : n % 10 ≡ n = omega arith in
    let long : suc (suc k) - 1 ≡ suc k = omega arith in
    let short : suc k - 1 ≡ k = omega arith in
    rw (print_small n h, tenth, unit, print_small 0 (omega arith), long, short)
      (ap (λ (s : Text). s ++ (48 + n) ∷ []) (sym (replicate_snoc k b'0')))

-- A padded text of digits is that of the tenth, with the last digit behind it.
pad_digits_snoc :
    (k n : ℕ)
    → pad_start (suc (suc k)) (print n) ≡ pad_start (suc k) (print (n / 10)) ++ (48 + n % 10) ∷ []
pad_digits_snoc k n = elim (dec_lt n 10) [
  | yes p ↦ pad_digits_small k n p
  | no p ↦ rw (print_snoc n (omega arith)) (pad_start_snoc (suc k) (print (n / 10)) (48 + n % 10))
]

-- The padded digits are those before the point and the last `k`.
pad_digits-split :
    (k n : ℕ) → pad_start (suc k) (print n) ≡ print (without_last k n) ++ last_digits k n
unfolding last_digits without_last
pad_digits-split zero n = rw append-nil (pad_start_short 1 (print n) (length-print-pos n))
pad_digits-split (suc k) n = rw (pad_digits_snoc, pad_digits-split k (n / 10), append_assoc)

cut :
    (n : ℕ) (s t : Text)
    → length t ≡ n
    → take (length (s ++ t) - n) (s ++ t) ++ dot ∷ drop (length (s ++ t) - n) (s ++ t)
      ≡ s ++ dot ∷ t
cut n s t h =
    let before : length (s ++ t) - n ≡ length s = omega (arith, length-append {0} s t) in
    rw (before, take-append, drop-append)

-- The text of a formatted number: the whole part, the point, and the digits behind it.
pub format_decimal-suc :
    (n k : ℕ)
    → format_decimal n (suc k) ≡ print (without_last (suc k) n) ++ dot ∷ last_digits (suc k) n
unfolding format_decimal
format_decimal-suc n k =
    rw (format_decimal, add-one, pad_digits-split (suc k) n)
      (cut (suc k) (print (without_last (suc k) n)) (last_digits (suc k) n)
        (length-last_digits (suc k) n))

-- The digits without the point spell the number.
pub big_int-parts : (k n : ℕ) → big_int (print (without_last k n) ++ last_digits k n) ≡ n
big_int-parts k n =
    rw (← pad_digits-split k n) (big_int-pad_start (suc k) (print n) ∙ big_int-print n)

pub all_digits-append :
    (s t : Text) → all_digits s ≡ true → all_digits t ≡ true → all_digits (s ++ t) ≡ true
unfolding all_digits
all_digits-append [] t h k = k
all_digits-append (c ∷ s) t h k = ground (arith, all_digits-append s t)

all_digits_one : (d : ℕ) → d < 10 → all_digits ((48 + d) ∷ []) ≡ true
unfolding all_digits
all_digits_one d h = ground arith

pub all_digits-print : (n : ℕ) → all_digits (print n) ≡ true
all_digits-print =
    digit_induction (λ n. all_digits (print n) ≡ true)
      (λ n h. rw (print_small n h) (all_digits_one n h))
      λ n h ih.
        rw (print_snoc n h)
          (all_digits-append (print (n / 10)) _ ih (all_digits_one (n % 10) (omega arith)))

pub all_digits-last_digits : (k n : ℕ) → all_digits (last_digits k n) ≡ true
unfolding last_digits
all_digits-last_digits zero n = unfold all_digits in refl
all_digits-last_digits (suc k) n =
    all_digits-append (last_digits k (n / 10)) _ (all_digits-last_digits k (n / 10))
      (all_digits_one (n % 10) (omega arith))

pub split_digits : (s : Text) → all_digits s ≡ true → split dot s ≡ s ∷ []
unfolding split all_digits
split_digits [] h = refl
split_digits (c ∷ s) h = ground (arith, split_digits s)

pub split_at_dot : (s t : Text) → all_digits s ≡ true → split dot (s ++ dot ∷ t) ≡ s ∷ split dot t
unfolding split all_digits
split_at_dot [] t h = refl
split_at_dot (c ∷ s) t h = ground (arith, split_at_dot s t)

is_rest_of_fraction : (s : Text) → is_fraction s ≡ true → is_rest s ≡ true
unfolding is_rest
is_rest_of_fraction [] h = refl
is_rest_of_fraction (c ∷ s) h = ground arith

is_rest-digit : (d : ℕ) (s : Text) → d < 10 → is_rest s ≡ true → is_rest ((48 + d) ∷ s) ≡ true
unfolding is_rest
is_rest-digit d s h k = ground arith

is_decimal_small :
    (n : ℕ) (s : Text) → n < 10 → 1 ≤ n → is_rest s ≡ true → is_decimal ((48 + n) ∷ s) ≡ true
unfolding is_decimal
is_decimal_small n s h p k = ground arith

is_decimal-print-pos :
    (n : ℕ) → 1 ≤ n → (s : Text) → is_rest s ≡ true → is_decimal (print n ++ s) ≡ true
is_decimal-print-pos =
    digit_induction (λ n. 1 ≤ n → (s : Text) → is_rest s ≡ true → is_decimal (print n ++ s) ≡ true)
      (λ n h p s k. rw (print_small n h) (is_decimal_small n s h p k))
      λ n h ih p s k.
        rw (print_snoc n h, append_assoc)
          (ih (omega arith) ((48 + n % 10) ∷ s) (is_rest-digit (n % 10) s (omega arith) k))

-- A printed number is a whole part that `isDecimal` accepts.
pub is_decimal-print : (n : ℕ) (s : Text) → is_fraction s ≡ true → is_decimal (print n ++ s) ≡ true
is_decimal-print zero s k = rw (print_small 0 (omega arith)) (unfold is_decimal in k)
is_decimal-print (suc n) s k =
    is_decimal-print-pos (suc n) (omega arith) s (is_rest_of_fraction s k)

is_fraction-last_digits : (k n : ℕ) → is_fraction (dot ∷ last_digits (suc k) n) ≡ true
unfolding is_fraction
is_fraction-last_digits k n =
    ground (arith, all_digits-last_digits (suc k) n, length-last_digits (suc k) n)

pub read-format_decimal :
    (n k : ℕ) → read (format_decimal n k) ≡ record { coefficient = n; scale = k }
read-format_decimal n zero =
    unfold read format_decimal whole_part fraction_part in
    rw (split_digits (print n) (all_digits-print n), append-nil, big_int-print)
read-format_decimal n (suc k) =
    unfold read whole_part fraction_part in
    rw (
      format_decimal-suc,
      split_at_dot _ _ (all_digits-print (without_last (suc k) n)),
      split_digits _ (all_digits-last_digits (suc k) n),
      big_int-parts,
      length-last_digits,
    )

pub is_decimal-format_decimal : (n k : ℕ) → is_decimal (format_decimal n k) ≡ true
is_decimal-format_decimal n zero =
    unfold format_decimal in
    rw (← append-nil (print n)) (is_decimal-print n [] (unfold is_fraction in refl))
is_decimal-format_decimal n (suc k) =
    rw format_decimal-suc
      (is_decimal-print (without_last (suc k) n) _ (is_fraction-last_digits k n))

-- Any coefficient formatted at any scale is parsed as the same coefficient at the same scale.
pub parse_decimal-format_decimal :
    (n k : ℕ) → parse_decimal (format_decimal n k) ≡ ok (record { coefficient = n; scale = k })
unfolding parse_decimal
parse_decimal-format_decimal n k = rw (is_decimal-format_decimal, read-format_decimal)
