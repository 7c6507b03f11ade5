-- ===== src/Evaluator/Ledger/Single.antt =====
-- No key is used twice and nothing is allowed after a consumption, over a sequence of evaluations.
use oati.Prelude.{◌||◌, ◌&&◌, not, false, List, [], ◌∷◌, ◌≡◌, sym, ◌∙◌, includes, any}
use oati.Objects.{AgentMandate}
use oati.Evaluator.Types.{UsageSnapshot, Usage, Delta}
use oati.Evaluator.Conditions.{Runtime}
use oati.Evaluator.Consumption.{is_empty, normalized_usage}
use oati.Evaluator.Passed.Consumption.{ConsumptionPassed}
use oati.Evaluator.Passed.Whole.{Allows-Passed}
use oati.Evaluator.Ledger.{Ledger, opened, accepted, refused, Reached, Ledger-Reached, brings}

-- Before each of the consumptions, listed with the last first, the Mandate was not consumed and
-- its key, unless empty, was new.
abbrev pub Single : Usage → List Delta → Type 0
Single start [] = Unit
Single start (d ∷ ds) =
    ((start.consumed || any (λ (e : Delta). e.consume) ds) ≡ false)
    × ((not (is_empty d.idempotency_key)
          && (includes start.idempotency_keys d.idempotency_key
              || any (brings d.idempotency_key) ds))
        ≡ false)
    × Single start ds

Single-cons :
    {start u : Usage} {ds : List Delta} (m : AgentMandate) (d : Delta)
    → Reached start ds u
    → ConsumptionPassed m u d
    → Single start ds
    → Single start (d ∷ ds)
Single-cons {start} {u} m d r p s =
    (sym r.consumed ∙ p.unconsumed, rw (r.keys d.idempotency_key) at p.fresh, s)

-- If evaluations that each start from the last returned usage lead from one usage to another, then
-- at each request that was allowed no earlier one had consumed the Mandate, which was not recorded
-- as consumed at the start, and its idempotency key, unless empty, was neither recorded at the
-- start nor brought by an earlier request that was allowed.
pub Ledger-Single :
    (rt : Runtime) (m : AgentMandate) (start : UsageSnapshot) (ds : List Delta) (v : UsageSnapshot)
    → Ledger rt m start ds v
    → Single (normalized_usage start) ds
Ledger-Single rt m start [] v opened = tt
Ledger-Single rt m start (d ∷ ds) v (accepted l q res _ e h) =
    let before = Ledger-Reached rt m start ds _ l in
    let passed = Allows-Passed rt q res h in
    Single-cons q.mandate d (rw (← e) at before) passed.consumption
      (Ledger-Single rt m start ds _ l)
Ledger-Single rt m start ds v (refused l q res _ e h k) = Ledger-Single rt m start ds _ l
