-- ===== src/Evaluator/Passed/Commerce.antt =====
-- What a purchase that passed `checkCommerce` satisfies.

use oati.Prelude.{
  Bool, true, false, [], ◌∷◌, Option, some, ◌≡◌, refl, All, text, ok, >>=-eq-ok, ok-injective, ap,
  sym, ◌∙◌, not, ◌&&◌,
}
use oati.Objects.{TransactionEnvelope}
use mathlib.Core.Bool.{false≢true}
use oati.Json.{Fields, object_at, get, to_text, print}
use oati.Evaluator.Types.{CommerceContext, Usage}
use oati.Evaluator.Reasons.{Reasons, report-eq-nil}
use oati.Evaluator.Conditions.{exceeds}
use oati.Evaluator.Commerce.{
  check_commerce_with, check_commerce_terms, commerce_required, report_mismatch, commerce_tests,
  has_commerce_reason, mismatch_tests, envelope_mismatch, total_invalid, sum_exceeds,
}

-- What a purchase that passed `checkCommerce` satisfies.
pub record CommercePassed (context : CommerceContext) (limits : Fields) (mismatch : Bool)
    (usage : Usage) : Type 0 where
  pub price : exceeds context.unit_price (to_text (get limits (text "max_unit_price"))) ≡ ok false
  pub total : total_invalid context ≡ ok false
  pub budget :
      sum_exceeds usage.amount context.total_amount (get limits (text "max_total")) ≡ ok false
  pub quantity :
      exceeds (print context.quantity) (to_text (get limits (text "max_quantity"))) ≡ ok false
  pub tests : All (λ t. t.0 ≡ false) (commerce_tests context limits usage false false false false)
  pub bound : mismatch ≡ false

unmatched :
    (mismatch : Bool) (r : Reasons)
    → r ≡ []
    → (mismatch && not (has_commerce_reason r)) ≡ false
    → mismatch ≡ false
unfolding has_commerce_reason
unmatched true r e h = absurd (false≢true (sym (rw e at h)))
unmatched false r e h = refl

report_mismatch-eq-nil :
    (mismatch : Bool) (r : Reasons)
    → report_mismatch mismatch r ≡ []
    → (r ≡ []) × (mismatch ≡ false)
report_mismatch-eq-nil mismatch r h =
    let (start, facts) =
      report-eq-nil (mismatch_tests mismatch r) r (unfold report_mismatch in h) in
    (start, unmatched mismatch r start facts.0)

check_commerce_terms-eq-nil :
    (context : CommerceContext) (limits : Fields) (mismatch : Bool) (usage : Usage) (r : Reasons)
    → check_commerce_terms context limits mismatch usage r ≡ ok []
    → (r ≡ []) × CommercePassed context limits mismatch usage
unfolding check_commerce_terms
check_commerce_terms-eq-nil context limits mismatch usage r h =
    let (price, p, h1) =
      >>=-eq-ok (exceeds context.unit_price (to_text (get limits (text "max_unit_price")))) _ h in
    let (total, q, h2) = >>=-eq-ok (total_invalid context) _ h1 in
    let (budget, s, h3) =
      >>=-eq-ok (sum_exceeds usage.amount context.total_amount (get limits (text "max_total"))) _
        h2 in
    let (quantity, t, h4) =
      >>=-eq-ok (exceeds (print context.quantity) (to_text (get limits (text "max_quantity")))) _
        h3 in
    let (none_after, bound) = report_mismatch-eq-nil mismatch _ (ok-injective h4) in
    let (start, f) =
      report-eq-nil (commerce_tests context limits usage price total budget quantity) r
        none_after in
    let later = f.1.1.1.1 in
    (
      start,
      record {
        price = p ∙ ap ok later.0;
        total = q ∙ ap ok later.1.0;
        budget = s ∙ ap ok later.1.1.0;
        quantity = t ∙ ap ok later.1.1.1.0;
        tests =
            (f.0, (f.1.0, (f.1.1.0, (f.1.1.1.0, (refl, (refl, (refl, (refl, later.1.1.1.1))))))));
        bound = bound;
      },
    )

-- The Commerce terms of an allowed request, where the profile is checked.
abbrev pub CommerceChecked :
    Option CommerceContext → Option Fields → TransactionEnvelope → Usage → Type 0
CommerceChecked (some context) (some limits) e u =
    CommercePassed context limits
      (envelope_mismatch (object_at e.extensions (text "commerce")) e context) u
CommerceChecked _ _ e u = ⊥

pub check_commerce_with-eq-nil :
    (c : Option CommerceContext) (l : Option Fields) (e : TransactionEnvelope) (u : Usage)
    (r : Reasons)
    → check_commerce_with c l e u r ≡ ok []
    → (r ≡ []) × CommerceChecked c l e u
unfolding check_commerce_with commerce_required
check_commerce_with-eq-nil (some c) (some l) e u r h = check_commerce_terms-eq-nil c l _ u r h
check_commerce_with-eq-nil _ _ e u r h =
    let (start, facts) =
      report-eq-nil ((true, text "COMMERCE_CONTEXT_REQUIRED") ∷ []) r (ok-injective h) in
    absurd (false≢true (sym facts.0))
