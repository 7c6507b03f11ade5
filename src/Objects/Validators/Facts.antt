-- ===== src/Objects/Validators/Facts.antt =====
-- What the objects are that the validators of index.ts find valid.
use oati.Prelude.{
  ◌∙◌, sym, ℕ, ◌*◌, ◌≤◌, Bool, true, false, not, none, some, List, [], ◌∷◌, ◌++◌, ◌≡◌, ◌≢◌, Option,
  refl, all, Text, text, ==_iff, arith, Bool-cases, inl, inr,
}
use oati.Prelude.Ints.{ℤ, pos, negsuc, leb_ℤ}
use oati.Evaluator.Decimal.{
  Decimal, is_decimal, read, at_most_zero, above_zero, Sign, compare_aligned,
}
use oati.Evaluator.Decimal.Value.{AtMost, SameValue, AtMost-of_sign, SameValue-of_sign}
use oati.Objects.Decimals.{compare_decimal_text, multiply_decimal_text, is_safe}
use oati.Objects.Decimals.Agree.{compare_decimal_text_of, read-multiply_decimal_text}
use oati.Objects.Terms.{PurchaseMandate, CommerceReceipt, CommerceReceiptTerms}
use oati.Objects.Validators.{
  messages, result, validate_receipt_core, commerce_issues, commerce_tests, commerce_limits,
  validate_commerce_receipt, above, differs, digest_differs, commerce_profile_test,
}

abbrev pub silent : (Bool × Text) → Bool
silent e = not e.0

-- No message was pushed: no test was true.
pub silent_of_valid :
    (tests : List (Bool × Text)) → (result (messages tests)).valid ≡ true → all silent tests ≡ true
unfolding messages result
silent_of_valid [] h = refl
silent_of_valid ((test, message) ∷ tests) h = ground (arith, silent_of_valid tests)

not_above_of : (s : Sign) → above_zero s ≡ false → at_most_zero s ≡ true
not_above_of s h = ground arith

-- A comparison that is not above zero is an order of decimal strings.
pub AtMost-of_not_above :
    (s t : Text)
    → is_decimal s ≡ true
    → is_decimal t ≡ true
    → above (compare_decimal_text s t) ≡ false
    → AtMost (read s) (read t)
AtMost-of_not_above s t h k l =
    AtMost-of_sign (read s) (read t)
      (not_above_of (compare_aligned (read s) (read t)) (rw (compare_decimal_text_of s t h k) at l))

-- The price of `n` units.
abbrev times : Decimal → ℕ → Decimal
times price n = record price { coefficient = price.coefficient * n }

-- The total of a receipt is its unit price, for a whole number of units.
pub record IsPriced (terms : CommerceReceiptTerms) : Type 0 where
  pub units : ℕ
  pub quantity : terms.quantity ≡ pos units
  pub some_unit : 1 ≤ units
  pub total : SameValue (read terms.total_amount) (times (read terms.unit_price) units)

product_vast :
    (price : Text) (n : ℕ)
    → is_safe n ≡ false
    → multiply_decimal_text price (pos n) ≡ text "invalid"
unfolding multiply_decimal_text
product_vast price n h = ground arith

compare_invalid : (s : Text) → compare_decimal_text s (text "invalid") ≡ none
unfolding compare_decimal_text text
compare_invalid s =
    let no_decimal : is_decimal (text "invalid") ≡ false = unfold is_decimal in refl in ground arith

-- The comparison with the product holds only where the product is a decimal string.
product_safe :
    (price total : Text) (n : ℕ)
    → is_decimal price ≡ true
    → differs (compare_decimal_text total (multiply_decimal_text price (pos n))) ≡ false
    → n ≤ 9007199254740991
product_safe price total n h d = elim (Bool-cases (is_safe n)) [
  | inl safe ↦ ground arith
  | inr vast ↦ absurd (
      let nan : differs (compare_decimal_text total (text "invalid")) ≡ false =
        rw (product_vast price n vast) at d in
      let unequal : true ≡ false = rw (compare_invalid total) at nan in ground arith)
]

SameValue-of_product :
    (price total : Text) (n : ℕ)
    → is_decimal price ≡ true
    → is_decimal total ≡ true
    → differs (compare_decimal_text total (multiply_decimal_text price (pos n))) ≡ false
    → SameValue (read total) (times (read price) n)
SameValue-of_product price total n h k d =
    let (good, product) = read-multiply_decimal_text price n h (product_safe price total n h d) in
    SameValue-of_sign (read total) (times (read price) n) (
      let known : differs
            (some (compare_aligned (read total) (read (multiply_decimal_text price (pos n)))))
          ≡ false =
        rw (compare_decimal_text_of total _ k good) at d in
      rw product at known)

priced_units :
    (price total : Text) (quantity : ℤ)
    → leb_ℤ (pos 1) quantity ≡ true
    → is_decimal price ≡ true
    → is_decimal total ≡ true
    → differs (compare_decimal_text total (multiply_decimal_text price quantity)) ≡ false
    → (n : ℕ) × (quantity ≡ pos n) × (1 ≤ n) × SameValue (read total) (times (read price) n)
priced_units price total (negsuc n) q h k d = cc
priced_units price total (pos n) q h k d =
    (n, refl, ground arith, SameValue-of_product price total n h k d)

IsPriced-of_tests :
    (terms : CommerceReceiptTerms) → all silent (commerce_tests terms) ≡ true → IsPriced terms
unfolding commerce_tests
IsPriced-of_tests terms h =
    let (n, q, l, e) =
      priced_units terms.unit_price terms.total_amount terms.quantity (ground arith) (ground arith)
        (ground arith) (ground arith) in
    record { units = n; quantity = q; some_unit = l; total = e }

pub silent-append :
    (xs ys : List (Bool × Text))
    → all silent (xs ++ ys) ≡ true
    → (all silent xs ≡ true) × (all silent ys ≡ true)
silent-append [] ys h = (refl, h)
silent-append (x ∷ xs) ys h = ground (arith, silent-append xs ys)

-- A receipt of a purchase against the Mandate that it names: the parties and the offer are those
-- of the Mandate, the total is exact, and quantity, price and total are inside its terms.
pub record Settles (id : Text) (terms : CommerceReceiptTerms) (mandate : PurchaseMandate)
    : Type 0 where
  pub mandate_id : id ≡ mandate.core.id
  pub merchant : terms.merchant_organisation_id ≡ mandate.commerce.merchant_organisation_id
  pub service : terms.service_id ≡ mandate.commerce.service_id
  pub offer : terms.offer_id ≡ mandate.commerce.offer_id
  pub currency : terms.currency ≡ mandate.commerce.currency
  pub terms_digest :
      (digest : Text)
      → mandate.commerce.terms_digest ≡ some digest
      → digest ≢ []
      → terms.terms_digest ≡ digest
  pub quantity : leb_ℤ terms.quantity mandate.commerce.max_quantity ≡ true
  pub unit_price : AtMost (read terms.unit_price) (read mandate.commerce.max_unit_price)
  pub total : AtMost (read terms.total_amount) (read mandate.commerce.max_total)
  pub priced : IsPriced terms

decimals_of_tests :
    (terms : CommerceReceiptTerms)
    → all silent (commerce_tests terms) ≡ true
    → (is_decimal terms.unit_price ≡ true) × (is_decimal terms.total_amount ≡ true)
unfolding commerce_tests
decimals_of_tests terms h = ground arith

same_digest :
    (limit : Option Text) (given digest : Text)
    → digest_differs limit given ≡ false
    → limit ≡ some digest
    → digest ≢ []
    → given ≡ digest
same_digest none given digest h e n = cc
same_digest (some []) given digest h e n = let empty : [] ≡ digest = cc in absurd (n (sym empty))
same_digest (some (c ∷ s)) given digest h e n =
    let same : given ≡ c ∷ s = (==_iff given (c ∷ s)).0 (ground arith) in
    let limit : c ∷ s ≡ digest = cc in same ∙ limit

Settles-of_limits :
    (id : Text) (terms : CommerceReceiptTerms) (mandate : PurchaseMandate)
    → is_decimal mandate.commerce.max_unit_price ≡ true
    → is_decimal mandate.commerce.max_total ≡ true
    → all silent (commerce_tests terms) ≡ true
    → all silent (commerce_limits (some mandate) id terms) ≡ true
    → Settles id terms mandate
unfolding commerce_limits
Settles-of_limits id terms mandate u t tests limits =
    let (unit, total) = decimals_of_tests terms tests in
    record {
      mandate_id = (==_iff _ _).0 (ground arith);
      merchant = (==_iff _ _).0 (ground arith);
      service = (==_iff _ _).0 (ground arith);
      offer = (==_iff _ _).0 (ground arith);
      currency = (==_iff _ _).0 (ground arith);
      terms_digest = λ digest e n. same_digest _ _ digest (ground arith) e n;
      quantity = ground arith;
      unit_price = AtMost-of_not_above terms.unit_price _ unit u (ground arith);
      total = AtMost-of_not_above terms.total_amount _ total t (ground arith);
      priced = IsPriced-of_tests terms tests;
    }

-- A Commerce receipt that is valid against a Mandate, whose price limits are decimal strings, names
-- that Mandate and its merchant, service, offer and currency, and its terms digest, if the Mandate has
-- one that is not empty; its quantity is a positive whole
-- number inside the Mandate's; its total is exactly the unit price times the quantity; and unit price
-- and total are at most those of the Mandate, as numbers.
pub validate_commerce_receipt-Settles :
    (receipt : CommerceReceipt) (terms : CommerceReceiptTerms) (mandate : PurchaseMandate)
    → receipt.commerce ≡ some terms
    → is_decimal mandate.commerce.max_unit_price ≡ true
    → is_decimal mandate.commerce.max_total ≡ true
    → (validate_commerce_receipt receipt (some mandate)).valid ≡ true
    → Settles receipt.core.mandate_id terms mandate
unfolding validate_commerce_receipt commerce_issues
validate_commerce_receipt-Settles receipt terms mandate given u t h =
    let issues = commerce_issues receipt.commerce (some mandate) receipt.core.mandate_id in
    let profile = commerce_profile_test receipt.core.profile in
    let core = validate_receipt_core receipt.core in
    let (_, later) =
      silent-append core (profile ++ issues) (silent_of_valid (core ++ profile ++ issues) h) in
    let (_, quiet) = silent-append profile issues later in
    let (tests, limits) =
      silent-append (commerce_tests terms)
        (commerce_limits (some mandate) receipt.core.mandate_id terms) (rw given at quiet) in
    Settles-of_limits _ terms mandate u t tests limits
