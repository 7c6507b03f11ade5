-- ===== src/Evaluator/Ledger.antt =====
-- A caller that keeps the usage of a Mandate: each evaluation starts from the usage that the last
-- one returned. What the sequence of its evaluations adds up to.
pub mod Single
pub mod Limits
use oati.Prelude.{
  ℕ, ◌+◌, ◌≤◌, Bool, true, false, not, ◌||◌, ◌&&◌, List, map, [], ◌∷◌, ◌++◌, Option, none, some,
  ◌≡◌, ◌≢◌, refl, sym, ap, ◌∙◌, Text, text, ◌==◌, ==_iff, includes, Result, ok, throw, All, any,
  arith, if◌then◌else◌, Bool-cases, inl, inr, or_false, and_parts, leb,
}
use mathlib.Core.Option.{some-injective}
use oati.Prelude.Ints.{ℤ, pos, leb_ℤ}
use oati.Json.{Json, num, str, Fields, end, get}
use oati.Objects.{AgentMandate}
use oati.Evaluator.Types.{
  UsageSnapshot, Usage, Delta, EvaluationRequest, EvaluationResult, Verdict, allow, deny,
}
use oati.Evaluator.Reasons.{sort}
use oati.Evaluator.Reasons.Order.{includes-sort, includes-append}
use oati.Evaluator.Conditions.{Runtime}
use oati.Evaluator.Consumption.{
  or_else, is_empty, normalized_usage, snapshot, effective_consumption,
}
use oati.Evaluator.Authority.{evaluate_authority, conclude, check_all}
use oati.Evaluator.Passed.Consumption.{ConsumptionPassed}
use oati.Evaluator.Passed.Whole.{Allows, Passed, Allows-Passed}
use oati.Evaluator.Guarantees.Amounts.{IsTotal}
use oati.Evaluator.Guarantees.Usage.{Advanced, Allows-Advanced}
use oati.Evaluator.Guarantees.Outcome.{denies-next_usage}

-- From the usage `start` of a Mandate, evaluations of requests under it lead to the usage `v`; those that allowed consumed the listed
-- amounts, the last first.
pub data Ledger (rt : Runtime) (m : AgentMandate) (start : UsageSnapshot)
    : List Delta → UsageSnapshot → Type 0 where
  opened : Ledger rt m start [] start
  accepted :
      {ds : List Delta} {v : UsageSnapshot}
      → Ledger rt m start ds v
      → (q : EvaluationRequest) (res : EvaluationResult) → q.mandate ≡ m
      → q.usage ≡ v
      → Allows rt q res
      → Ledger rt m start (effective_consumption q ∷ ds) res.next_usage
  refused :
      {ds : List Delta} {v : UsageSnapshot}
      → Ledger rt m start ds v
      → (q : EvaluationRequest) (res : EvaluationResult) → q.mandate ≡ m
      → q.usage ≡ v
      → evaluate_authority rt q ≡ ok res
      → res.decision ≡ deny
      → Ledger rt m start ds res.next_usage

abbrev pub total_calls : List Delta → ℕ
total_calls [] = 0
total_calls (d ∷ ds) = total_calls ds + d.calls

-- A consumption records the key `k`, which an empty one does not.
abbrev pub brings : Text → Delta → Bool
brings k d = not (is_empty d.idempotency_key) && (d.idempotency_key == k)

-- What is left when a sequence of decimal strings is added to the first, the last first: each sum is
-- exact.
abbrev pub Adds : Text → List Text → Text → Type 0
Adds start [] total = total ≡ start
Adds start (t ∷ ts) total = (before : Text) × Adds start ts before × IsTotal before t total

-- The last currency that a consumption named, or that at the start.
abbrev pub last_currency : Text → List Delta → Text
last_currency start [] = start
last_currency start (d ∷ ds) =
    let before = last_currency start ds in if is_empty d.currency then before else d.currency

-- The recorded usage is what was there at the start and what was consumed since.
pub record Reached (start : Usage) (ds : List Delta) (u : Usage) : Type 0 where
  pub calls : u.calls ≡ start.calls + total_calls ds
  pub amount : Adds start.amount (map (λ (d : Delta). d.amount) ds) u.amount
  pub currency : u.currency ≡ last_currency start.currency ds
  pub quantity : Adds start.quantity (map (λ (d : Delta). d.quantity) ds) u.quantity
  pub consumed : u.consumed ≡ (start.consumed || any (λ (d : Delta). d.consume) ds)
  pub keys :
      (k : Text)
      → includes u.idempotency_keys k ≡ (includes start.idempotency_keys k || any (brings k) ds)

pub start-Reached : (u : Usage) → Reached u [] u
start-Reached u = record {
  calls = omega arith;
  amount = refl;
  currency = refl;
  quantity = refl;
  consumed = ground arith;
  keys = λ k. ground arith;
}

keys_after :
    (before : List Text) (key k : Text)
    → includes (if is_empty key then before else sort (before ++ key ∷ [])) k
      ≡ ((not (is_empty key) && (key == k)) || includes before k)
unfolding includes
keys_after before [] k = refl
keys_after before (b ∷ key) k =
    ground
      (arith, includes-sort (before ++ (b ∷ key) ∷ []) k, includes-append before ((b ∷ key) ∷ []) k)

-- The usage that was returned, read again.
pub Reached-again :
    {start : Usage} {ds : List Delta} {u : Usage}
    → Reached start ds u
    → (s : UsageSnapshot) → s ≡ snapshot u
    → Reached start ds (normalized_usage s)
unfolding normalized_usage snapshot
Reached-again {start} {ds} {u} r s e = rw e (record {
  calls = r.calls;
  amount = r.amount;
  currency = r.currency;
  quantity = r.quantity;
  consumed = r.consumed;
  keys = λ k. includes-sort u.idempotency_keys k ∙ r.keys k;
})

pub Reached-after :
    {start : Usage} {ds : List Delta} {u : Usage}
    → Reached start ds u
    → (d : Delta) (q : EvaluationRequest) (after : Usage) → Advanced u d q.rwa after
    → Reached start (d ∷ ds) after
Reached-after {start} {ds} {u} r d q after a = record {
  calls = omega (arith, a.calls, r.calls);
  amount = (u.amount, r.amount, a.amount);
  currency =
      a.currency ∙ ap (λ (c : Text). if is_empty d.currency then c else d.currency) r.currency;
  quantity = (u.quantity, r.quantity, a.quantity);
  consumed = ground (arith, a.consumed, r.consumed);
  keys = λ k.
      let before = r.keys k in
      let new = keys_after u.idempotency_keys d.idempotency_key k in
      let same = ap (λ ks. includes ks k) a.idempotency_keys in ground (arith);
}

-- If evaluations that each start from the last returned usage lead from one usage to another, then
-- the calls recorded last are those at the start and those of the allowed requests; the amount and the
-- quantity recorded last are those at the start with the amounts and quantities of the allowed
-- requests added one after another, each sum exact; the currency is the last that an allowed request
-- named, or that at the start; the Mandate is
-- recorded as consumed exactly if it was at the start or an allowed request consumed it, and a
-- non-empty key is recorded exactly if it was at the start or an allowed request brought it.
pub Ledger-Reached :
    (rt : Runtime) (m : AgentMandate) (start : UsageSnapshot) (ds : List Delta) (v : UsageSnapshot)
    → Ledger rt m start ds v
    → Reached (normalized_usage start) ds (normalized_usage v)
Ledger-Reached rt m start [] v opened = start-Reached (normalized_usage start)
Ledger-Reached rt m start (d ∷ ds) v (accepted l q res _ e h) =
    let before = Ledger-Reached rt m start ds _ l in
    let (after, same, a) = Allows-Advanced rt q res h in
    Reached-again (Reached-after (rw (← e) at before) (effective_consumption q) q after a)
      res.next_usage same
Ledger-Reached rt m start ds v (refused l q res _ e h k) =
    let before = Ledger-Reached rt m start ds _ l in
    Reached-again (rw (← e) at before) res.next_usage (denies-next_usage rt q res h k)
