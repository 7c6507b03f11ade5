-- ===== src/Evaluator/Guarantees/Outcome.antt =====
-- How the reasons of an evaluation determine its result.
use oati.Prelude.{[], ◌∷◌, ◌≡◌, refl, ◌↔◌, ok, >>=-eq-ok, ok-injective}
use oati.Evaluator.Types.{
  Usage, Delta, UsageSnapshot, EvaluationRequest, EvaluationResult, Verdict, allow, deny,
}
use oati.Evaluator.Reasons.{Reasons, sort}
use oati.Evaluator.Reasons.Order.{Increasing, Distinct, report-Distinct, sort-Increasing}
use oati.Evaluator.Conditions.{Runtime}
use oati.Evaluator.Consumption.{
  normalized_usage, snapshot, effective_consumption, apply_consumption,
}
use oati.Evaluator.Authority.{check_all, conclude, evaluate_authority}
use oati.Evaluator.Kept.{core-Keeps, check_all-Keeps}

all-Distinct :
    (rt : Runtime) (q : EvaluationRequest) (u : Usage) (d : Delta) (r' : Reasons)
    → check_all rt q u d ≡ ok r'
    → Distinct r'
all-Distinct rt q u d r' h =
    let (now, _, first, core, keeps) = check_all-Keeps Distinct report-Distinct rt q u d r' h in
    keeps (core-Keeps Distinct report-Distinct rt q.mandate q.envelope now [] first core tt)

-- The usage of a result: as `applyConsumption` returns it, or as it was read.
abbrev pub NextUsage : EvaluationRequest → Verdict → UsageSnapshot → Type 0
NextUsage q allow next =
    (after : Usage) × (apply_consumption (normalized_usage q.usage) (effective_consumption q) q
      ≡ ok after)
    × (next ≡ snapshot after)
NextUsage q deny next = next ≡ snapshot (normalized_usage q.usage)

-- What a result is made of, its codes in strict order.
pub record Outcome (q : EvaluationRequest) (res : EvaluationResult) : Type 0 where
  pub ordered : Increasing res.reason_codes
  pub decided : (res.decision ≡ allow) ↔ (res.reason_codes ≡ [])
  pub mandate : res.mandate_id ≡ q.mandate.id
  pub transaction : res.transaction_id ≡ q.envelope.id
  pub usage : NextUsage q res.decision res.next_usage

Outcome-of_conclude :
    (q : EvaluationRequest) (r : Reasons) (res : EvaluationResult)
    → Increasing r
    → conclude q (normalized_usage q.usage) (effective_consumption q) r ≡ ok res
    → Outcome q res
unfolding conclude
Outcome-of_conclude q [] res i h =
    let u = normalized_usage q.usage in
    let d = effective_consumption q in
    let (next, applied, h1) = >>=-eq-ok (apply_consumption u d q) _ h in
    rw (← ok-injective h1) (record {
      ordered = tt;
      decided = ((λ e. refl), (λ e. refl));
      mandate = refl;
      transaction = refl;
      usage = (next, applied, refl);
    })
Outcome-of_conclude q (c ∷ cs) res i h = rw (← ok-injective h) (record {
  ordered = i;
  decided = ((λ e. cc), (λ e. cc));
  mandate = refl;
  transaction = refl;
  usage = refl;
})

-- If an evaluation returns a result, then its reason codes are in strictly increasing order of
-- their code units, so that no code is there twice; it allows exactly if there is no code; it names
-- the request's Mandate and Envelope; and its usage is the one that `applyConsumption` returns if it
-- allows, and the recorded usage with the defaults written out if it denies.
pub evaluate_authority-Outcome :
    (rt : Runtime) (q : EvaluationRequest) (res : EvaluationResult)
    → evaluate_authority rt q ≡ ok res
    → Outcome q res
unfolding evaluate_authority
evaluate_authority-Outcome rt q res h =
    let u = normalized_usage q.usage in
    let d = effective_consumption q in
    let (r, p, h1) = >>=-eq-ok (check_all rt q u d) _ h in
    Outcome-of_conclude q (sort r) res (sort-Increasing r (all-Distinct rt q u d r p)) h1

-- A refusal gives the usage that was read.
pub denies-next_usage :
    (rt : Runtime) (q : EvaluationRequest) (res : EvaluationResult)
    → evaluate_authority rt q ≡ ok res
    → res.decision ≡ deny
    → res.next_usage ≡ snapshot (normalized_usage q.usage)
denies-next_usage rt q res h e =
    let usage = (evaluate_authority-Outcome rt q res h).usage in rw e at usage
