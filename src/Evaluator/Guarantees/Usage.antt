-- ===== src/Evaluator/Guarantees/Usage.antt =====
-- The usage that an allowed request proposes, and the limits it stays inside.
use oati.Prelude.{
  ◌+◌, ◌||◌, [], ◌∷◌, ◌++◌, Option, none, some, ◌≡◌, sym, ap, ◌∙◌, Text, ok, >>=-eq-ok,
  ok-injective, if◌then◌else◌,
}
use oati.Evaluator.Decimal.{add_decimal}
use oati.Evaluator.Types.{Usage, Delta, RwaContext, EvaluationRequest, EvaluationResult}
use oati.Evaluator.Reasons.{sort}
use oati.Evaluator.Conditions.{Runtime}
use oati.Evaluator.Consumption.{
  is_empty, normalized_usage, snapshot, effective_consumption, next_supply, apply_consumption,
}
use oati.Evaluator.Passed.Whole.{Allows, Allows-next_usage}
use oati.Evaluator.Guarantees.Amounts.{IsTotal, add_decimal-IsTotal}

-- The supply after the request: the Claim's current supply and what is minted, or as it was.
abbrev pub SupplyAfter : Option RwaContext → Text → Text → Type 0
SupplyAfter none before after = after ≡ before
SupplyAfter (some rwa) before after = IsTotal rwa.current_supply rwa.quantity after

-- `after` is `before` with `delta` added to it.
pub record Advanced (before : Usage) (delta : Delta) (rwa : Option RwaContext) (after : Usage)
    : Type 0 where
  pub calls : after.calls ≡ before.calls + delta.calls
  pub amount : IsTotal before.amount delta.amount after.amount
  pub currency :
      after.currency ≡ (if is_empty delta.currency then before.currency else delta.currency)
  pub quantity : IsTotal before.quantity delta.quantity after.quantity
  pub consumed : after.consumed ≡ (before.consumed || delta.consume)
  pub idempotency_keys : after.idempotency_keys ≡ (
      if is_empty delta.idempotency_key
      then before.idempotency_keys
      else sort (before.idempotency_keys ++ delta.idempotency_key ∷ []))
  pub minted_supply : SupplyAfter rwa before.minted_supply after.minted_supply

supply_after :
    (rwa : Option RwaContext) (before : Text) {after : Text}
    → next_supply rwa before ≡ ok after
    → SupplyAfter rwa before after
unfolding next_supply
supply_after none before h = sym (ok-injective h)
supply_after (some rwa) before h = add_decimal-IsTotal rwa.current_supply rwa.quantity h

pub apply_consumption-Advanced :
    (u : Usage) (d : Delta) (q : EvaluationRequest) {after : Usage}
    → apply_consumption u d q ≡ ok after
    → Advanced u d q.rwa after
unfolding apply_consumption
apply_consumption-Advanced u d q h =
    let (amount, a, h1) = >>=-eq-ok (add_decimal u.amount d.amount) _ h in
    let (quantity, b, h2) = >>=-eq-ok (add_decimal u.quantity d.quantity) _ h1 in
    let (supply, c, h3) = >>=-eq-ok (next_supply q.rwa u.minted_supply) _ h2 in
    let e = ok-injective h3 in
    record {
      calls = sym (ap (λ (v : Usage). v.calls) e);
      amount = rw (ap (λ (v : Usage). v.amount) e) at (add_decimal-IsTotal u.amount d.amount a);
      currency = sym (ap (λ (v : Usage). v.currency) e);
      quantity =
          rw (ap (λ (v : Usage). v.quantity) e) at (add_decimal-IsTotal u.quantity d.quantity b);
      consumed = sym (ap (λ (v : Usage). v.consumed) e);
      idempotency_keys = sym (ap (λ (v : Usage). v.idempotency_keys) e);
      minted_supply =
          rw (ap (λ (v : Usage). v.minted_supply) e) at (supply_after q.rwa u.minted_supply c);
    }

pub apply_consumption-amount :
    (u : Usage) (d : Delta) (q : EvaluationRequest) {after : Usage}
    → apply_consumption u d q ≡ ok after
    → add_decimal u.amount d.amount ≡ ok after.amount
unfolding apply_consumption
apply_consumption-amount u d q h =
    let (amount, a, h1) = >>=-eq-ok (add_decimal u.amount d.amount) _ h in
    let (quantity, b, h2) = >>=-eq-ok (add_decimal u.quantity d.quantity) _ h1 in
    let (supply, c, h3) = >>=-eq-ok (next_supply q.rwa u.minted_supply) _ h2 in
    a ∙ ap ok (ap (λ (v : Usage). v.amount) (ok-injective h3))

module _ (rt : Runtime) (q : EvaluationRequest) (res : EvaluationResult) where
  -- If the evaluator allows a request, then the usage that it proposes is the recorded usage (with
  -- "0", "" and so on where nothing is recorded) advanced by the effective consumption: the calls
  -- added, the amount and the quantity decimal strings for the exact sums, the consumption flag set
  -- if the request consumes the Mandate, a non-empty idempotency key added to the sorted keys, and
  -- the minted supply as it was or, with an RWA context, a decimal string for the exact sum of the
  -- current supply and the minted quantity.
  pub Allows-Advanced :
      Allows rt q res
      → (after : Usage) × (res.next_usage ≡ snapshot after)
        × Advanced (normalized_usage q.usage) (effective_consumption q) q.rwa after
  Allows-Advanced h =
      let (after, applied, same) = Allows-next_usage rt q res h in
      (
        after,
        same,
        apply_consumption-Advanced (normalized_usage q.usage) (effective_consumption q) q applied,
      )
