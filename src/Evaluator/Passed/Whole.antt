-- ===== src/Evaluator/Passed/Whole.antt =====
-- Every check that a request which is allowed has passed.
use oati.Prelude.{
  ℕ, Bool, true, false, List, [], ◌∷◌, Option, none, some, ◌≡◌, refl, sym, ap, ◌∙◌, All, Text, text,
  Result, ok, >>=-eq-ok, ok-injective, ◌||◌, arith, if◌then◌else◌,
}
use mathlib.Core.Bool.{false≢true}
use oati.Json.{object_at}
use oati.Objects.{AgentMandate, commerce_profile, rwa_profile}
use oati.Evaluator.Types.{Usage, Delta, EvaluationRequest, EvaluationResult, allow}
use oati.Evaluator.Reasons.{Reasons, report-eq-nil, sort, insert}
use oati.Evaluator.Conditions.{Runtime, timestamp}
use oati.Evaluator.Delegation.{same_optional, set_text}
use oati.Evaluator.Consumption.{
  or_else, normalized_usage, snapshot, effective_consumption, check_consumption_context,
  check_consumption, apply_consumption, consumption_mismatch,
}
use oati.Evaluator.Commerce.{check_commerce}
use oati.Evaluator.Rwa.{check_rwa}
use oati.Evaluator.Authority.{
  core_tests, check_core, check_parent, check_commerce_profile, check_rwa_profile, check_all,
  conclude, evaluate_authority, is_some,
}
use oati.Evaluator.Passed.Core.{check_core-eq-nil}
use oati.Evaluator.Passed.Child.{ChildPassed, check_child_mandate-eq-nil}
use oati.Evaluator.Passed.Commerce.{CommerceChecked, check_commerce_with-eq-nil}
use oati.Evaluator.Passed.Rwa.{RwaChecked, check_rwa_with-eq-nil}
use oati.Evaluator.Passed.Consumption.{
  ConsumptionPassed, check_consumption-eq-nil, check_consumption_context-eq-nil,
}

-- The evaluation of the request returns `res`, and it allows.
abbrev pub Allows : Runtime → EvaluationRequest → EvaluationResult → Type 0
Allows rt request res = (evaluate_authority rt request ≡ ok res) × (res.decision ≡ allow)

abbrev pub ParentChecked : Runtime → AgentMandate → Option AgentMandate → ℕ → ℕ → Type 0
ParentChecked rt m none depth now = set_text m.parent_mandate ≡ false
ParentChecked rt m (some parent) depth now = ChildPassed rt m parent depth now

pub record Passed (rt : Runtime) (q : EvaluationRequest) : Type 0 where
  pub now : ℕ
  pub at : timestamp rt q.evaluation_time ≡ ok now
  pub from : ℕ
  pub until : ℕ
  pub starts : timestamp rt q.mandate.not_before ≡ ok from
  pub ends : timestamp rt q.mandate.expires_at ≡ ok until
  pub core : All (λ t. t.0 ≡ false) (core_tests q.mandate q.envelope now from until)
  pub parent : ParentChecked rt q.mandate q.parent_mandate (or_else q.delegation_depth 1) now
  pub context : consumption_mismatch q (effective_consumption q) q.consumption ≡ false
  pub consumption : ConsumptionPassed q.mandate (normalized_usage q.usage) (effective_consumption q)
  pub commerce :
      (is_some q.commerce || same_optional q.mandate.profile (some commerce_profile)) ≡ true
      → CommerceChecked q.commerce
          (object_at q.mandate.extensions (text "commerce"))
          q.envelope
          (normalized_usage q.usage)
  pub rwa :
      (is_some q.rwa || same_optional q.mandate.profile (some rwa_profile)) ≡ true
      → RwaChecked rt q.rwa
          (object_at q.mandate.extensions (text "rwa"))
          q.envelope
          (normalized_usage q.usage)
          (is_some q.usage.minted_supply)
          now

check_parent-eq-nil :
    (rt : Runtime) (m : AgentMandate) (p : Option AgentMandate) (depth now : ℕ) (r : Reasons)
    → check_parent rt m p depth now r ≡ ok []
    → (r ≡ []) × ParentChecked rt m p depth now
unfolding check_parent
check_parent-eq-nil rt m none depth now r h =
    let (start, f) =
      report-eq-nil ((set_text m.parent_mandate, text "PARENT_MANDATE_REQUIRED") ∷ []) r
        (ok-injective h) in
    (start, f.0)
check_parent-eq-nil rt m (some p) depth now r h = check_child_mandate-eq-nil rt m p depth now r h

-- A check that is made only if `b` holds.
gated {ℓ} :
    (b : Bool) (check : Result Reasons) (r : Reasons) {P : Type ℓ}
    → (check ≡ ok [] → (r ≡ []) × P)
    → (if b then check else ok r) ≡ ok []
    → (r ≡ []) × (b ≡ true → P)
gated true check r passed h = let (start, p) = passed h in (start, λ _. p)
gated false check r passed h = (ok-injective h, λ e. absurd (false≢true e))

check_commerce_profile-eq-nil :
    (q : EvaluationRequest) (u : Usage) (r : Reasons)
    → check_commerce_profile q u r ≡ ok []
    → (r ≡ [])
      × ((is_some q.commerce || same_optional q.mandate.profile (some commerce_profile)) ≡ true
          → CommerceChecked q.commerce
              (object_at q.mandate.extensions (text "commerce"))
              q.envelope
              u)
unfolding check_commerce_profile
check_commerce_profile-eq-nil q u r h =
    gated (is_some q.commerce || same_optional q.mandate.profile (some commerce_profile))
      (check_commerce q.mandate q.envelope q.commerce u r) r
      (λ e. check_commerce_with-eq-nil q.commerce _ q.envelope u r e) h

check_rwa_profile-eq-nil :
    (rt : Runtime) (q : EvaluationRequest) (u : Usage) (now : ℕ) (r : Reasons)
    → check_rwa_profile rt q u now r ≡ ok []
    → (r ≡ [])
      × ((is_some q.rwa || same_optional q.mandate.profile (some rwa_profile)) ≡ true
          → RwaChecked rt q.rwa
              (object_at q.mandate.extensions (text "rwa"))
              q.envelope
              u
              (is_some q.usage.minted_supply)
              now)
unfolding check_rwa_profile
check_rwa_profile-eq-nil rt q u now r h =
    gated (is_some q.rwa || same_optional q.mandate.profile (some rwa_profile))
      (check_rwa rt q.mandate q.envelope q.rwa u (is_some q.usage.minted_supply) now r) r
      (λ e. check_rwa_with-eq-nil rt q.rwa _ q.envelope u _ now r e) h

check_all-Passed :
    (rt : Runtime) (q : EvaluationRequest)
    → check_all rt q (normalized_usage q.usage) (effective_consumption q) ≡ ok []
    → Passed rt q
unfolding check_all
check_all-Passed rt q h =
    let usage = normalized_usage q.usage in
    let delta = effective_consumption q in
    let depth = or_else q.delegation_depth 1 in
    let (now, at, h1) = >>=-eq-ok (timestamp rt q.evaluation_time) _ h in
    let (r1, core, h2) = >>=-eq-ok (check_core rt q.mandate q.envelope now []) _ h1 in
    let (r2, parent, h3) =
      >>=-eq-ok (check_parent rt q.mandate q.parent_mandate depth now r1) _ h2 in
    let (r3, cons, h4) =
      >>=-eq-ok (check_consumption q.mandate usage delta (check_consumption_context q delta r2)) _
        h3 in
    let (r4, purchase, h5) = >>=-eq-ok (check_commerce_profile q usage r3) _ h4 in
    let (e4, rwa) = check_rwa_profile-eq-nil rt q usage now r4 h5 in
    let (e3, commerce) = check_commerce_profile-eq-nil q usage r3 (purchase ∙ ap ok e4) in
    let (e2', consumption) = check_consumption-eq-nil q.mandate usage delta _ (cons ∙ ap ok e3) in
    let (e2, context) = check_consumption_context-eq-nil q delta r2 e2' in
    let (e1, parents) =
      check_parent-eq-nil rt q.mandate q.parent_mandate depth now r1 (parent ∙ ap ok e2) in
    let (_, from, until, starts, ends, facts) =
      check_core-eq-nil rt q.mandate q.envelope now [] (core ∙ ap ok e1) in
    record {
      now = now;
      at = at;
      from = from;
      until = until;
      starts = starts;
      ends = ends;
      core = facts;
      parent = parents;
      context = context;
      consumption = consumption;
      commerce = commerce;
      rwa = rwa;
    }

insert-ne-nil : (s : Text) (ss : List Text) → insert s ss ≡ [] → ⊥
unfolding insert
insert-ne-nil s [] h = cc
insert-ne-nil s (t ∷ ts) h = ground arith

sort-eq-nil : (ss : List Text) → sort ss ≡ [] → ss ≡ []
unfolding sort
sort-eq-nil [] h = refl
sort-eq-nil (s ∷ ss) h = absurd (insert-ne-nil s (sort ss) h)

-- An allowed conclusion has no reason and the usage of `applyConsumption`.
conclude_allow :
    (q : EvaluationRequest) (u : Usage) (d : Delta) (r : Reasons) (res : EvaluationResult)
    → conclude q u d r ≡ ok res
    → res.decision ≡ allow
    → (r ≡ [])
      × (next : Usage) × (apply_consumption u d q ≡ ok next)
      × (res.next_usage ≡ snapshot next)
unfolding conclude
conclude_allow q u d [] res h e =
    let (next, p, h1) = >>=-eq-ok (apply_consumption u d q) _ h in
    (refl, next, p, ap (λ (x : EvaluationResult). x.next_usage) (sym (ok-injective h1)))
conclude_allow q u d (c ∷ cs) res h e =
    let denied = ap (λ (x : EvaluationResult). x.decision) (ok-injective h) in cc

module _ (rt : Runtime) (q : EvaluationRequest) (res : EvaluationResult) where
  -- An allowed request has passed every check.
  pub Allows-Passed : Allows rt q res → Passed rt q
  unfolding evaluate_authority
  Allows-Passed (h, e) =
      let (r, p, h1) =
        >>=-eq-ok (check_all rt q (normalized_usage q.usage) (effective_consumption q)) _ h in
      let (empty, _, _, _) =
        conclude_allow q (normalized_usage q.usage) (effective_consumption q) (sort r) res h1 e in
      check_all-Passed rt q (p ∙ ap ok (sort-eq-nil r empty))

  -- The proposed usage of an allowed request.
  pub Allows-next_usage :
      Allows rt q res
      → (next : Usage) × (apply_consumption (normalized_usage q.usage) (effective_consumption q) q
          ≡ ok next)
        × (res.next_usage ≡ snapshot next)
  unfolding evaluate_authority
  Allows-next_usage (h, e) =
      let (r, p, h1) =
        >>=-eq-ok (check_all rt q (normalized_usage q.usage) (effective_consumption q)) _ h in
      let (_, next, applied, same) =
        conclude_allow q (normalized_usage q.usage) (effective_consumption q) (sort r) res h1 e in
      (next, applied, same)
