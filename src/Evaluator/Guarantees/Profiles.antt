-- ===== src/Evaluator/Guarantees/Profiles.antt =====
-- What the purchase or the mint of an allowed request satisfies.
use oati.Prelude.{
  ℕ, ◌<◌, Bool, false, not, ◌&&◌, List, [], ◌∷◌, Option, none, some, ◌≡◌, refl, Text, text, ◌==◌,
  ==_iff, includes, Mem, Mem_of_includes, ok, arith, or_false,
}
use mathlib.Core.List.{mem-cons, not-mem-nil}
use mathlib.Core.Logic.Or
use oati.Json.{
  Json, str, Fields, get, object_at, string_array, strict_eq, identical, to_text, print,
}
use oati.Objects.{TransactionEnvelope}
use oati.Evaluator.Types.{Usage, CommerceContext, RwaContext, EvaluationRequest, EvaluationResult}
use oati.Evaluator.Conditions.{Runtime}
use oati.Evaluator.Consumption.{is_zero_text, normalized_usage}
use oati.Evaluator.Commerce.{is_text}
use oati.Evaluator.Rwa.{role_missing, supply_exceeds, below, number_of}
use oati.Evaluator.Authority.{is_some}
use oati.Evaluator.Passed.Commerce.{CommercePassed, CommerceChecked}
use oati.Evaluator.Passed.Rwa.{RwaPassed, RwaChecked}
use oati.Evaluator.Passed.Whole.{Allows, Allows-Passed}
use oati.Evaluator.Guarantees.Core.{not-false, timestamp-eq-ok}
use oati.Evaluator.Guarantees.Amounts.{
  IsTotal, Bounds, IsPriceOf, exceeds-Bounds, sum_exceeds-Bounds, total_invalid-IsPriceOf,
  add_decimal-IsTotal,
}

-- A purchase inside the Commerce terms of its Mandate.
pub record Purchase (terms : Fields) (c : CommerceContext) (used : Usage) : Type 0 where
  pub merchant : get terms (text "merchant_organisation_id") ≡ some (str c.merchant_organisation_id)
  pub service : get terms (text "service_id") ≡ some (str c.service_id)
  pub offer : get terms (text "offer_id") ≡ some (str c.offer_id)
  pub currency : get terms (text "currency") ≡ some (str c.currency)
  pub unit_price : Bounds c.unit_price (to_text (get terms (text "max_unit_price")))
  pub total : IsPriceOf c.unit_price c.quantity c.total_amount
  pub budget :
      (spent : Text) × IsTotal used.amount c.total_amount spent
      × Bounds spent (to_text (get terms (text "max_total")))
  pub quantity : Bounds (print c.quantity) (to_text (get terms (text "max_quantity")))
  pub new_key : includes used.idempotency_keys c.idempotency_key ≡ false

is_text-eq : (s : Text) (v : Option Json) → not (is_text s v) ≡ false → v ≡ some (str s)
unfolding strict_eq identical
is_text-eq s none h = cc
is_text-eq s (some (str t)) h = let same = (==_iff s t).0 (not-false _ h) in rw same
is_text-eq s (some v) h = cc

Purchase-of_passed :
    (terms : Fields) (c : CommerceContext) (u : Usage) (mismatch : Bool)
    → CommercePassed c terms mismatch u
    → Purchase terms c u
Purchase-of_passed terms c u mismatch p =
    let f = p.tests in
    record {
      merchant = is_text-eq c.merchant_organisation_id _ f.0;
      service = is_text-eq c.service_id _ f.1.0;
      offer = is_text-eq c.offer_id _ f.1.1.0;
      currency =
          is_text-eq c.currency _
            (or_false (not (is_text c.currency (get terms (text "currency"))))
              (not (is_zero_text u.amount) && not (u.currency == c.currency)) f.1.1.1.0).0;
      unit_price = exceeds-Bounds c.unit_price _ p.price;
      total = total_invalid-IsPriceOf c p.total;
      budget = sum_exceeds-Bounds u.amount c.total_amount _ p.budget;
      quantity = exceeds-Bounds (print c.quantity) _ p.quantity;
      new_key = f.1.1.1.1.1.1.1.1.1.0;
    }

-- A maximum that is given, and not empty, is not passed.
abbrev pub InsideMaximum : Text → Option Text → Type 0
InsideMaximum supply none = Unit
InsideMaximum supply (some []) = Unit
InsideMaximum supply (some (b ∷ s)) = Bounds supply (b ∷ s)

-- A mint inside its Mandate and its State Claim, at the time `now`.
pub record Mint (rt : Runtime) (terms : Fields) (c : RwaContext) (used : Usage) (tracked : Bool)
    (now : ℕ) : Type 0 where
  pub until : ℕ
  pub valid_until : rt.parse_date c.claim_valid_until ≡ some until
  pub unexpired : now < until
  pub quantity :
      (minted : Text) × IsTotal used.quantity c.quantity minted
      × Bounds minted (to_text (get terms (text "max_quantity")))
  pub resulting : Text
  pub supply : IsTotal c.current_supply c.quantity resulting
  pub reserve : Bounds resulting c.reserve
  pub maximum : InsideMaximum resulting c.maximum_supply
  pub approvals :
      below c.approval_count (number_of rt (get terms (text "minimum_approvals"))) ≡ false
  pub roles :
      (r : Text) → Mem r (string_array (get terms (text "required_roles"))) → Mem r c.approval_roles

held_role :
    (required held : List Text)
    → role_missing required held ≡ false
    → (r : Text) → Mem r required
    → Mem r held
unfolding role_missing
held_role [] held h r m = absurd (not-mem-nil m)
held_role (s ∷ required) held h r m =
    let (here, later) = or_false (not (includes held s)) (role_missing required held) h in
    Or.elim squash₁ (mem-cons.0 m) (λ e. rw e (Mem_of_includes held s (not-false _ here)))
      (held_role required held later r)

maximum_of :
    (supply : Text) (maximum : Option Text)
    → supply_exceeds supply maximum ≡ ok false
    → InsideMaximum supply maximum
unfolding supply_exceeds
maximum_of supply none h = tt
maximum_of supply (some []) h = tt
maximum_of supply (some (b ∷ s)) h = exceeds-Bounds supply (b ∷ s) h

Mint-of_passed :
    (rt : Runtime) (terms : Fields) (c : RwaContext) (u : Usage) (mismatch tracked : Bool) (now : ℕ)
    → RwaPassed rt c terms mismatch u tracked now
    → Mint rt terms c u tracked now
Mint-of_passed rt terms c u mismatch tracked now p =
    let f = p.tests.1.1.1.1.1.1.1 in
    record {
      until = p.until;
      valid_until = timestamp-eq-ok rt c.claim_valid_until p.valid;
      unexpired = let t = p.unexpired in ground arith;
      quantity = sum_exceeds-Bounds u.quantity c.quantity _ p.quantity;
      resulting = p.resulting;
      supply = add_decimal-IsTotal c.current_supply c.quantity p.added;
      reserve = exceeds-Bounds p.resulting c.reserve p.reserve;
      maximum = maximum_of p.resulting c.maximum_supply p.maximum;
      approvals = f.0;
      roles = held_role _ c.approval_roles f.1.0;
    }

commerce_terms :
    (c : Option CommerceContext) (l : Option Fields) (e : TransactionEnvelope) (u : Usage)
    (context : CommerceContext)
    → c ≡ some context
    → CommerceChecked c l e u
    → (terms : Fields) × (l ≡ some terms) × Purchase terms context u
commerce_terms (some c) (some terms) e u context same p =
    let same' : c ≡ context = cc in (terms, refl, rw same' at (Purchase-of_passed terms c u _ p))
commerce_terms none l e u context same p = cc
commerce_terms (some c) none e u context same p = absurd p

rwa_terms :
    (rt : Runtime) (c : Option RwaContext) (l : Option Fields) (e : TransactionEnvelope) (u : Usage)
    (tracked : Bool) (now : ℕ) (context : RwaContext)
    → c ≡ some context
    → RwaChecked rt c l e u tracked now
    → (terms : Fields) × (l ≡ some terms) × Mint rt terms context u tracked now
rwa_terms rt (some c) (some terms) e u tracked now context same p =
    let same' : c ≡ context = cc in
    (terms, refl, rw same' at (Mint-of_passed rt terms c u _ tracked now p))
rwa_terms rt none l e u tracked now context same p = cc
rwa_terms rt (some c) none e u tracked now context same p = absurd p

module _ (rt : Runtime) (q : EvaluationRequest) (res : EvaluationResult) where
  -- If the evaluator allows a request with a Commerce context, then the Mandate has Commerce terms
  -- that name the context's merchant, service, offer and currency; the unit price, the quantity and
  -- the recorded amount together with the total stand for at most what the terms set; the total is
  -- exactly the unit price times the quantity; and the idempotency key is not yet recorded.
  pub Allows-Purchase :
      Allows rt q res
      → (c : CommerceContext) → q.commerce ≡ some c
      → (terms : Fields) × (object_at q.mandate.extensions (text "commerce") ≡ some terms)
        × Purchase terms c (normalized_usage q.usage)
  Allows-Purchase h c e =
      let p = Allows-Passed rt q res h in
      commerce_terms q.commerce _ q.envelope (normalized_usage q.usage) c e (p.commerce (rw e))

  -- If the evaluator allows a request with an RWA context, then the Mandate has RWA terms; the State
  -- Claim is valid beyond the evaluation time; the recorded and the minted quantity together are at
  -- most the terms' `max_quantity`; the current supply and the minted quantity together are at most
  -- the reserve, and at most the maximum supply where one is given; the approvals are not below the
  -- terms' `minimum_approvals`, where that is a number; and every required role has approved.
  pub Allows-Mint :
      Allows rt q res
      → (c : RwaContext) → q.rwa ≡ some c
      → (now : ℕ) × (rt.parse_date q.evaluation_time ≡ some now)
        × (terms : Fields) × (object_at q.mandate.extensions (text "rwa") ≡ some terms)
        × Mint rt terms c (normalized_usage q.usage) (is_some q.usage.minted_supply) now
  Allows-Mint h c e =
      let p = Allows-Passed rt q res h in
      let (terms, named, minted) =
        rwa_terms rt q.rwa (object_at q.mandate.extensions (text "rwa")) q.envelope
          (normalized_usage q.usage) (is_some q.usage.minted_supply) p.now c e (p.rwa (rw e)) in
      (p.now, timestamp-eq-ok rt q.evaluation_time p.at, terms, named, minted)
