-- ===== src/Evaluator/Passed/Rwa.antt =====
-- What a mint that passed `checkRwa` satisfies.

use oati.Prelude.{
  ℕ, Bool, true, false, [], ◌∷◌, Option, some, ◌≡◌, refl, leb, All, Text, text, ok, >>=-eq-ok,
  ok-injective, ap, sym, ◌∙◌,
}
use oati.Objects.{TransactionEnvelope}
use mathlib.Core.Bool.{false≢true}
use oati.Json.{Fields, object_at, get}
use oati.Evaluator.Types.{RwaContext, Usage}
use oati.Evaluator.Reasons.{Reasons, report-eq-nil}
use oati.Evaluator.Conditions.{Runtime, timestamp, exceeds}
use oati.Evaluator.Commerce.{sum_exceeds}
use oati.Evaluator.Rwa.{
  check_rwa_with, check_rwa_terms, rwa_required, rwa_tests, rwa_envelope_mismatch, supply_exceeds,
  supply_differs,
}
use oati.Evaluator.Decimal.{add_decimal}

-- What a mint that passed `checkRwa` satisfies.
pub record RwaPassed (rt : Runtime) (context : RwaContext) (limits : Fields) (mismatch : Bool)
    (usage : Usage) (tracked : Bool) (now : ℕ) : Type 0 where
  pub until : ℕ
  pub valid : timestamp rt context.claim_valid_until ≡ ok until
  pub unexpired : leb until now ≡ false
  pub quantity :
      sum_exceeds usage.quantity context.quantity (get limits (text "max_quantity")) ≡ ok false
  pub resulting : Text
  pub added : add_decimal context.current_supply context.quantity ≡ ok resulting
  pub reserve : exceeds resulting context.reserve ≡ ok false
  pub maximum : supply_exceeds resulting context.maximum_supply ≡ ok false
  pub supply : supply_differs tracked usage.minted_supply context.current_supply ≡ ok false
  pub tests :
      All (λ t. t.0 ≡ false) (rwa_tests rt context limits usage false false false false false false)
  pub bound : mismatch ≡ false

check_rwa_terms-eq-nil :
    (rt : Runtime) (context : RwaContext) (limits : Fields) (mismatch : Bool) (usage : Usage)
    (tracked : Bool) (now : ℕ) (r : Reasons)
    → check_rwa_terms rt context limits mismatch usage tracked now r ≡ ok []
    → (r ≡ []) × RwaPassed rt context limits mismatch usage tracked now
unfolding check_rwa_terms
check_rwa_terms-eq-nil rt context limits mismatch usage tracked now r h =
    let (until, p, h1) = >>=-eq-ok (timestamp rt context.claim_valid_until) _ h in
    let (quantity, q, h2) =
      >>=-eq-ok (sum_exceeds usage.quantity context.quantity (get limits (text "max_quantity"))) _
        h1 in
    let (resulting, s, h3) = >>=-eq-ok (add_decimal context.current_supply context.quantity) _ h2 in
    let (reserve, t, h4) = >>=-eq-ok (exceeds resulting context.reserve) _ h3 in
    let (maximum, u, h5) = >>=-eq-ok (supply_exceeds resulting context.maximum_supply) _ h4 in
    let (supply, v, h6) =
      >>=-eq-ok (supply_differs tracked usage.minted_supply context.current_supply) _ h5 in
    let (start, f) =
      report-eq-nil
        (rwa_tests rt context limits usage mismatch (leb until now) quantity reserve maximum supply)
        r (ok-injective h6) in
    let g = f.1.1.1 in
    (
      start,
      record {
        until = until;
        valid = p;
        unexpired = f.1.1.0;
        quantity = q ∙ ap ok g.0;
        resulting = resulting;
        added = s;
        reserve = t ∙ ap ok g.1.0;
        maximum = u ∙ ap ok g.1.1.0;
        supply = v ∙ ap ok g.1.1.1.0;
        tests = (refl, (f.1.0, (refl, (refl, (refl, (refl, (refl, g.1.1.1.1)))))));
        bound = f.0;
      },
    )

-- The mint terms of an allowed request, where the profile is checked.
abbrev pub RwaChecked :
    Runtime → Option RwaContext → Option Fields → TransactionEnvelope → Usage → Bool → ℕ → Type 0
RwaChecked rt (some context) (some limits) e u tracked now =
    RwaPassed rt context limits
      (rwa_envelope_mismatch (object_at e.extensions (text "rwa")) e context) u tracked now
RwaChecked rt _ _ e u tracked now = ⊥

pub check_rwa_with-eq-nil :
    (rt : Runtime) (c : Option RwaContext) (l : Option Fields) (e : TransactionEnvelope) (u : Usage)
    (tracked : Bool) (now : ℕ) (r : Reasons)
    → check_rwa_with rt c l e u tracked now r ≡ ok []
    → (r ≡ []) × RwaChecked rt c l e u tracked now
unfolding check_rwa_with rwa_required
check_rwa_with-eq-nil rt (some c) (some l) e u tracked now r h =
    check_rwa_terms-eq-nil rt c l _ u tracked now r h
check_rwa_with-eq-nil rt _ _ e u tracked now r h =
    let (start, facts) =
      report-eq-nil ((true, text "RWA_CONTEXT_REQUIRED") ∷ []) r (ok-injective h) in
    absurd (false≢true (sym facts.0))
