-- ===== src/Evaluator/Ledger/Limits.antt =====
-- The cumulative limits of a Mandate over a sequence of evaluations.
use oati.Prelude.{
  split, ◌+◌, not, Bool, true, false, List, [], ◌∷◌, Option, some, ◌≡◌, refl, sym, ap, ◌∙◌, Text,
  text, ==_iff, arith, ok, ◌>>=◌, >>=-eq-ok, ok-injective, Bool-cases, inl, inr,
}
use oati.Prelude.Ints.{ℤ, pos, leb_ℤ}
use oati.Json.{Json, num, str, end, get}
use oati.Objects.{AgentMandate}
use oati.Evaluator.Decimal.{big_int, read, add_decimal}
use oati.Evaluator.Decimal.Value.{AtMost-of_SameValue, SameValue-of_IsSum_zero}
use oati.Evaluator.Types.{UsageSnapshot, Usage, Delta, EvaluationRequest, EvaluationResult, deny}
use oati.Evaluator.Conditions.{Runtime, exceeds}
use oati.Evaluator.Consumption.{
  or_else, is_zero_text, normalized_usage, snapshot, effective_consumption, budget_tests, text_of,
  currency_differs,
}
use oati.Evaluator.Passed.Whole.{Allows, Allows-Passed, Allows-next_usage}
use oati.Evaluator.Guarantees.Amounts.{IsTotal, Bounds, exceeds-Bounds}
use oati.Evaluator.Guarantees.Usage.{apply_consumption-Advanced, apply_consumption-amount}
use oati.Evaluator.Guarantees.Outcome.{denies-next_usage}
use oati.Evaluator.Ledger.{Ledger, opened, accepted, refused, Ledger-Reached, total_calls}
use oati.Evaluator.Guarantees.Core.{not-false}
use oati.Evaluator.Authority.{evaluate_authority}

-- The decimal or the number that the Mandate's limits set for a key.
abbrev pub limit_of : AgentMandate → Text → Option Json
limit_of m key = get (or_else m.limits end) key

budget_parts :
    (max : Text) (currency : Option Text) (u : Usage) (d : Delta)
    → budget_tests (some max) currency u d ≡ ok (false, false)
    → is_zero_text d.amount ≡ false
    → (total : Text) × (add_decimal u.amount d.amount ≡ ok total)
      × (exceeds total max ≡ ok false)
      × (currency_differs currency u d ≡ false)
unfolding budget_tests
budget_parts max currency u d h e =
    let h0 = rw e at h in
    let (total, p, h1) =
      >>=-eq-ok (add_decimal u.amount d.amount)
        (λ total. do over ← exceeds total max; ok (currency_differs currency u d, over)) h0 in
    let (over, q, h2) =
      >>=-eq-ok (exceeds total max) (λ over. ok (currency_differs currency u d, over)) h1 in
    let both = ok-injective h2 in
    (total, p, q ∙ ap ok (ap (λ (t : Bool × Bool). t.1) both), ap (λ (t : Bool × Bool). t.0) both)

zero_read : ((read (text "0")).coefficient ≡ 0) × ((read (text "0")).scale ≡ 0)
unfolding text read big_int split
zero_read = (refl, refl)

zero_amount : (s total max : Text) → IsTotal s (text "0") total → Bounds s max → Bounds total max
zero_amount s total max t (s_decimal, max_decimal, h) = (
  t.decimal,
  max_decimal,
  AtMost-of_SameValue (read total) (read s) (read max)
      (SameValue-of_IsSum_zero (read s) (read (text "0")) (read total) zero_read.0 zero_read.1
        t.sum)
      h,
)

-- Under a Mandate with the budget `max`, an amount that is not "0" is added and compared with it.
module _ (rt : Runtime) (q : EvaluationRequest) (res : EvaluationResult) (max : Text)
    (limited : limit_of q.mandate (text "max_total") ≡ some (str max)) where
  spent :
      (h : Allows rt q res)
      → is_zero_text (effective_consumption q).amount ≡ false
      → Bounds (Allows-next_usage rt q res h).0.amount max
        × (currency_differs
              (text_of (limit_of q.mandate (text "currency")))
              (normalized_usage q.usage)
              (effective_consumption q)
            ≡ false)
  spent h e =
      let u = normalized_usage q.usage in
      let d = effective_consumption q in
      let (after, applied, _) = Allows-next_usage rt q res h in
      let passed = (Allows-Passed rt q res h).consumption.budget in
      let text_limit : text_of (limit_of q.mandate (text "max_total")) ≡ some max = rw limited in
      let (total, p, within, currency) = budget_parts max _ u d (rw text_limit at passed) e in
      let same : total ≡ after.amount =
        ok-injective (sym p ∙ apply_consumption-amount u d q applied) in
      (rw same at (exceeds-Bounds total max within), currency)

-- The invariant of one evaluation: a recorded amount inside the budget stays inside.
budget_kept :
    (rt : Runtime) (q : EvaluationRequest) (res : EvaluationResult) (max : Text)
    → limit_of q.mandate (text "max_total") ≡ some (str max)
    → Allows rt q res
    → Bounds (normalized_usage q.usage).amount max
    → Bounds (normalized_usage res.next_usage).amount max
unfolding normalized_usage snapshot
budget_kept rt q res max limited h before =
    let u = normalized_usage q.usage in
    let d = effective_consumption q in
    let (after, applied, same) = Allows-next_usage rt q res h in
    let total = (apply_consumption-Advanced u d q applied).amount in
    rw same (elim (Bool-cases (is_zero_text d.amount)) [
      | inl zero ↦
          let zeroed : d.amount ≡ text "0" = (==_iff d.amount (text "0")).0 zero in
          zero_amount u.amount after.amount max (rw zeroed at total) before
      | inr some_amount ↦ (spent rt q res max limited h some_amount).0
    ])

refused_amount :
    (rt : Runtime) (q : EvaluationRequest) (res : EvaluationResult)
    → evaluate_authority rt q ≡ ok res
    → res.decision ≡ deny
    → (normalized_usage res.next_usage).amount ≡ (normalized_usage q.usage).amount
unfolding normalized_usage snapshot
refused_amount rt q res h e =
    ap (λ (s : UsageSnapshot). or_else s.amount (text "0")) (denies-next_usage rt q res h e)

-- If evaluations under a Mandate whose limits name a decimal `max_total` each start from the last
-- returned usage, and the amount recorded at the start is at most `max_total`, then so is the amount
-- recorded last.
pub Ledger-within_budget :
    (rt : Runtime) (m : AgentMandate) (start : UsageSnapshot) (ds : List Delta) (v : UsageSnapshot)
    → Ledger rt m start ds v
    → (max : Text) → limit_of m (text "max_total") ≡ some (str max)
    → Bounds (normalized_usage start).amount max
    → Bounds (normalized_usage v).amount max
Ledger-within_budget rt m start [] v opened max limited b = b
Ledger-within_budget rt m start (d ∷ ds) v (accepted l q res k e h) max limited b =
    let before = Ledger-within_budget rt m start ds _ l max limited b in
    budget_kept rt q res max (rw k limited) h (rw e before)
Ledger-within_budget rt m start ds v (refused l q res k e h f) max limited b =
    let before = Ledger-within_budget rt m start ds _ l max limited b in
    let same = refused_amount rt q res h f in rw (same, e) before

-- If evaluations under a Mandate whose limits name a number `max_calls` each start from the last
-- returned usage, and the last of them was allowed, then the calls recorded at the start and those
-- of every allowed request together are at most `max_calls`.
pub Ledger-within_calls :
    (rt : Runtime) (m : AgentMandate) (start v : UsageSnapshot) (ds : List Delta)
    (q : EvaluationRequest) (res : EvaluationResult)
    → Ledger rt m start ds v
    → q.mandate ≡ m
    → q.usage ≡ v
    → Allows rt q res
    → (n : ℤ) → limit_of m (text "max_calls") ≡ some (num n)
    → leb_ℤ (pos ((normalized_usage start).calls + total_calls (effective_consumption q ∷ ds))) n
      ≡ true
Ledger-within_calls rt m start v ds q res l k e h n limited =
    let before = (Ledger-Reached rt m start ds v l).calls in
    let calls = (Allows-Passed rt q res h).consumption.calls in
    let d = effective_consumption q in
    let limit : limit_of q.mandate (text "max_calls") ≡ some (num n) = rw k limited in
    let within : not (leb_ℤ (pos ((normalized_usage q.usage).calls + d.calls)) n) ≡ false =
      rw limit at calls in
    let recorded : (normalized_usage q.usage).calls
        ≡ (normalized_usage start).calls + total_calls ds =
      rw e before in
    let total : (normalized_usage q.usage).calls + d.calls
        ≡ (normalized_usage start).calls + (total_calls ds + d.calls) =
      omega arith in
    rw (← total) (not-false _ within)
