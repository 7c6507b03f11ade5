-- ===== src/Objects/Decimals/Digits.antt =====
-- What decimal strings spell, digit by digit: the order of texts of digits is that of the numbers.
use oati.Prelude.{
  ℕ, zero, suc, ◌+◌, ◌-◌, ◌*◌, ◌^◌, ◌≤◌, ◌<◌, true, false, [], ◌∷◌, ◌++◌, ◌≡◌, refl, ◌∙◌, length,
  replicate, length-append, length-replicate, eqb, if◌then◌else◌, List, Text, ◌==◌, arith, split,
  get_or, Bool-cases, inl, inr, append_assoc,
}
use native.Mathlib.Nat.{pow-suc, pow-zero}
use oati.Evaluator.Decimal.{
  dot, is_digit, all_digits, is_fraction, is_rest, is_decimal, big_int_from, big_int, whole_part,
  fraction_part, less, greater, sign,
}
use oati.Evaluator.Decimal.Format.{split_digits, big_int_from-append, all_digits-append}
use oati.Objects.Decimals.{text_above, pad_end, text_sign}

-- Digits behind a smaller number spell a smaller number.
below :
    (s t : Text) (m n : ℕ)
    → length s ≡ length t
    → all_digits s ≡ true
    → m < n
    → big_int_from m s < big_int_from n t
unfolding big_int_from all_digits
below [] [] m n h d l = l
below (c ∷ s) (e ∷ t) m n h d l =
    let small : c - 48 ≤ 9 = ground arith in
    below s t (m * 10 + (c - 48)) (n * 10 + (e - 48)) (omega arith) (ground arith) (omega arith)
below [] (e ∷ t) m n h d l = absurd (omega arith)
below (c ∷ s) [] m n h d l = absurd (omega arith)

-- Texts of as many digits are ordered as the numbers that they spell.
pub text_sign-sign :
    (s t : Text) (n : ℕ)
    → length s ≡ length t
    → all_digits s ≡ true
    → all_digits t ≡ true
    → text_sign s t ≡ sign (big_int_from n s) (big_int_from n t)
unfolding text_sign text_above sign big_int_from all_digits ◌==◌
text_sign-sign [] [] n h d e = ground arith
text_sign-sign (b ∷ s) (c ∷ t) n h d e = ground (
  arith,
  text_sign-sign s t (n * 10 + (b - 48)),
  below s t (n * 10 + (b - 48)) (n * 10 + (c - 48)),
  below t s (n * 10 + (c - 48)) (n * 10 + (b - 48)),
)
text_sign-sign [] (c ∷ t) n h d e = absurd (omega arith)
text_sign-sign (b ∷ s) [] n h d e = absurd (omega arith)

-- More digits behind a number that is not 0 spell the greater number.
longer :
    (s t : Text) (n : ℕ)
    → length t ≤ length s
    → all_digits t ≡ true
    → 1 ≤ n
    → big_int_from 0 t < big_int_from n s
unfolding big_int_from
longer [] [] n h d l = l
longer (c ∷ s) t n h d l = elim (Bool-cases (eqb (length t) (suc (length s)))) [
  | inl same ↦ below t (c ∷ s) 0 n (ground arith) d (omega arith)
  | inr shorter ↦ longer s t (n * 10 + (c - 48)) (ground arith) d (omega arith)
]
longer [] (e ∷ t) n h d l = absurd (omega arith)

-- The comparison of texts with the same beginning is that of their ends.
pub text_sign-append :
    (w v s t : Text)
    → length w ≡ length v
    → text_sign (w ++ s) (v ++ t)
      ≡ (if w == v then text_sign s t else if text_above w v then greater else less)
unfolding text_sign text_above ◌==◌
text_sign-append [] [] s t h = refl
text_sign-append (b ∷ w) (c ∷ v) s t h = ground (arith, text_sign-append w v s t)
text_sign-append [] (c ∷ v) s t h = absurd (omega arith)
text_sign-append (b ∷ w) [] s t h = absurd (omega arith)

-- The parts of a decimal string are digits.
digits_of_fraction :
    (s : Text)
    → is_fraction s ≡ true
    → (all_digits (whole_part s) ≡ true) × (all_digits (fraction_part s) ≡ true)
unfolding is_fraction whole_part fraction_part split all_digits
digits_of_fraction [] h = (refl, refl)
digits_of_fraction (c ∷ s) h = ground (arith, split_digits s)

parts_cons :
    (c : ℕ) (s : Text)
    → eqb c dot ≡ false
    → (whole_part (c ∷ s) ≡ c ∷ whole_part s) × (fraction_part (c ∷ s) ≡ fraction_part s)
unfolding whole_part fraction_part split
parts_cons c s h =
    elim (split dot s)
      as (λ parts.
        (get_or
            (if eqb c dot
              then [] ∷ parts
              else elim parts as (λ x. List Text) [ [] ↦ (c ∷ []) ∷ [] | p ∷ ps ↦ (c ∷ p) ∷ ps ])
            0 []
          ≡ c ∷ get_or parts 0 [])
        × (get_or
              (if eqb c dot
                then [] ∷ parts
                else elim parts as (λ x. List Text) [ [] ↦ (c ∷ []) ∷ [] | p ∷ ps ↦ (c ∷ p) ∷ ps ])
              1 []
            ≡ get_or parts 1 [])) [ [] ↦ rw h (refl, refl) | p ∷ ps ↦ rw h (refl, refl) ]

digits_of_rest :
    (s : Text)
    → is_rest s ≡ true
    → (all_digits (whole_part s) ≡ true) × (all_digits (fraction_part s) ≡ true)
unfolding is_rest whole_part fraction_part split all_digits
digits_of_rest [] h = (refl, refl)
digits_of_rest (c ∷ s) h = elim (Bool-cases (is_digit c)) [
  | inl digit ↦ ground (arith, digits_of_rest s, parts_cons c s)
  | inr other ↦ digits_of_fraction (c ∷ s) (ground arith)
]

-- A decimal string: its parts are digits, and a whole part of two or more does not start with 0.
pub record IsParted (s : Text) : Type 0 where
  pub whole : all_digits (whole_part s) ≡ true
  pub fraction : all_digits (fraction_part s) ≡ true
  pub some_digit : 1 ≤ length (whole_part s)
  pub leading : 2 ≤ length (whole_part s) → b'1' ≤ get_or (whole_part s) 0 0

whole_of_fraction : (s : Text) → is_fraction s ≡ true → whole_part s ≡ []
unfolding is_fraction whole_part split
whole_of_fraction [] h = refl
whole_of_fraction (c ∷ s) h = ground arith

pub parted : (s : Text) → is_decimal s ≡ true → IsParted s
unfolding is_decimal
parted [] h = cc
parted (c ∷ s) h = elim (Bool-cases (eqb c b'0')) [
  | inl nought ↦
      let (w, f) = parts_cons c s (ground arith) in
      let (_, digits) = digits_of_fraction s (ground arith) in
      let none_left : whole_part s ≡ [] = whole_of_fraction s (ground arith) in
      record {
        whole = unfold all_digits is_digit in rw (w, none_left) (ground arith);
        fraction = rw f digits;
        some_digit = rw w (omega arith);
        leading = rw (w, none_left) (λ h. absurd (omega arith));
      }
  | inr other ↦
      let (w, f) = parts_cons c s (unfold is_digit in ground arith) in
      let (front, digits) = digits_of_rest s (ground arith) in
      record {
        whole = unfold all_digits is_digit in rw w (ground arith);
        fraction = rw f digits;
        some_digit = rw w (omega arith);
        leading = rw w (λ _. unfold is_digit in ground arith);
      }
]

big_int_from-zeros : (n k : ℕ) → big_int_from n (replicate k b'0') ≡ n * 10 ^ k
unfolding big_int_from
big_int_from-zeros n zero = rw pow-zero (omega arith)
big_int_from-zeros n (suc k) = rw pow-suc (omega (arith, big_int_from-zeros (n * 10 + 0) k))

-- Zeros behind the digits scale the number.
pub big_int-pad_end :
    (w f : Text) (m : ℕ) → big_int (w ++ pad_end m f) ≡ big_int (w ++ f) * 10 ^ (m - length f)
unfolding pad_end big_int
big_int-pad_end w f m = rw (← append_assoc) (
    big_int_from-append 0 (w ++ f) (replicate (m - length f) b'0')
    ∙ big_int_from-zeros (big_int (w ++ f)) (m - length f))

zeros_are_digits : (k : ℕ) → all_digits (replicate k b'0') ≡ true
unfolding all_digits is_digit
zeros_are_digits zero = refl
zeros_are_digits (suc k) = zeros_are_digits k

pub pad_end-digits : (m : ℕ) (f : Text) → all_digits f ≡ true → all_digits (pad_end m f) ≡ true
unfolding pad_end
pad_end-digits m f h = all_digits-append f _ h (zeros_are_digits (m - length f))

pub length-pad_end : (m : ℕ) (f : Text) → length f ≤ m → length (pad_end m f) ≡ m
unfolding pad_end
length-pad_end m f h = omega (
  arith,
  length-append {0} f (replicate (m - length f) b'0'),
  length-replicate {A = ℕ} (m - length f) b'0',
)

-- The longer of two whole parts is the greater, whatever as many digits follow them.
pub longer_whole :
    (w v p q : Text)
    → length v < length w
    → length q ≡ length p
    → all_digits (v ++ q) ≡ true
    → b'1' ≤ get_or w 0 0
    → big_int (v ++ q) < big_int (w ++ p)
unfolding big_int big_int_from
longer_whole [] v p q h k d l = absurd (omega arith)
longer_whole (c ∷ w) v p q h k d l =
    longer (w ++ p) (v ++ q) (0 * 10 + (c - 48))
      (omega (arith, length-append {0} w p, length-append {0} v q)) d (omega arith)

pub sign_below : (a b : ℕ) → a < b → (sign a b ≡ less) × (sign b a ≡ greater)
unfolding sign
sign_below a b h = ground arith
