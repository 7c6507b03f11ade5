-- ===== src/Evaluator/Kept.antt =====
-- What `report` keeps, every check of an evaluation keeps.
use oati.Prelude.{
  ℕ, Bool, true, false, List, [], ◌∷◌, Option, none, some, ◌≡◌, Text, text, Result, ok, ◌>>=◌,
  >>=-eq-ok, ok-injective, if◌then◌else◌,
}
use oati.Json.{Fields}
use oati.Objects.{AgentMandate, TransactionEnvelope}
use oati.Evaluator.Types.{Usage, Delta, CommerceContext, RwaContext, EvaluationRequest}
use oati.Evaluator.Reasons.{Reasons, report}
use oati.Evaluator.Conditions.{Runtime, timestamp}
use oati.Evaluator.Delegation.{check_child_mandate, check_profile_subset, check_profile_terms}
use oati.Evaluator.Consumption.{
  or_else, check_consumption_context, check_consumption, consumption_mismatch,
}
use oati.Evaluator.Commerce.{
  check_commerce, check_commerce_with, check_commerce_terms, commerce_required, report_mismatch,
  mismatch_tests, commerce_tests,
}
use oati.Evaluator.Rwa.{check_rwa, check_rwa_with, check_rwa_terms, rwa_required}
use oati.Evaluator.Authority.{
  check_core, check_parent, check_commerce_profile, check_rwa_profile, check_all,
}

module _ (P : Reasons → Type 0)
    (kept : (tests : List (Bool × Text)) (r : Reasons) → P r → P (report tests r)) where
  -- What holds of the codes before a check holds after it, if it does not throw.
  abbrev pub Keeps : (Reasons → Result Reasons) → Type 0
  Keeps check = (r r' : Reasons) → check r ≡ ok r' → P r → P r'

  plain-Keeps : (f : Reasons → Reasons) → ((r : Reasons) → P r → P (f r)) → Keeps (λ r. ok (f r))
  plain-Keeps f keeps r r' h d = let same : f r ≡ r' = ok-injective h in rw same at (keeps r d)

  report-Keeps : (tests : List (Bool × Text)) → Keeps (λ r. ok (report tests r))
  report-Keeps tests = plain-Keeps (report tests) (kept tests)

  -- A test that may throw before the report.
  bind-Keeps :
      {A : Type 0} (m : Result A) (k : A → Reasons → Result Reasons)
      → ((a : A) → Keeps (k a))
      → Keeps (λ r. do a ← m; k a r)
  bind-Keeps m k keeps r r' h d = let (a, _, e) = >>=-eq-ok m (λ a. k a r) h in keeps a r r' e d

  then-Keeps :
      (tests : List (Bool × Text)) (check : Reasons → Result Reasons)
      → Keeps check
      → Keeps (λ r. check (report tests r))
  then-Keeps tests check keeps r r' h d = keeps (report tests r) r' h (kept tests r d)

  gate-Keeps :
      (b : Bool) (check other : Reasons → Result Reasons)
      → Keeps check
      → Keeps other
      → Keeps (λ r. if b then check r else other r)
  gate-Keeps true check other keeps _ r r' h d = keeps r r' h d
  gate-Keeps false check other _ keeps r r' h d = keeps r r' h d

  same-Keeps : Keeps (λ r. ok r)
  same-Keeps = plain-Keeps (λ r. r) (λ r d. d)

  ruleset keeps_rules = (bind-Keeps, report-Keeps, gate-Keeps, same-Keeps)

  pub core-Keeps :
      (rt : Runtime) (m : AgentMandate) (e : TransactionEnvelope) (now : ℕ)
      → Keeps (check_core rt m e now)
  unfolding check_core
  core-Keeps rt m e now = search keeps_rules

  terms_keep : (cc pc cr pr : Option Fields) → Keeps (check_profile_terms cc pc cr pr)
  unfolding check_profile_terms
  terms_keep cc pc cr pr = search keeps_rules

  profile-Keeps : (child parent : AgentMandate) → Keeps (check_profile_subset child parent)
  unfolding check_profile_subset
  profile-Keeps child parent = search (keeps_rules, terms_keep)

  report_profile-Keeps :
      (child parent : AgentMandate) (tests : List (Bool × Text))
      → Keeps (λ r. check_profile_subset child parent (report tests r))
  report_profile-Keeps child parent tests =
      then-Keeps tests (check_profile_subset child parent) (profile-Keeps child parent)

  child-Keeps :
      (rt : Runtime) (child parent : AgentMandate) (depth now : ℕ)
      → Keeps (check_child_mandate rt child parent depth now)
  unfolding check_child_mandate
  child-Keeps rt child parent depth now = search (keeps_rules, report_profile-Keeps) depth 9

  parent-Keeps :
      (rt : Runtime) (m : AgentMandate) (p : Option AgentMandate) (depth now : ℕ)
      → Keeps (check_parent rt m p depth now)
  unfolding check_parent
  parent-Keeps rt m none depth now = search keeps_rules
  parent-Keeps rt m (some p) depth now = child-Keeps rt m p depth now

  consumption-Keeps : (m : AgentMandate) (u : Usage) (d : Delta) → Keeps (check_consumption m u d)
  unfolding check_consumption
  consumption-Keeps m u d = search keeps_rules

  context_keeps :
      (q : EvaluationRequest) (d : Delta) (r : Reasons) → P r → P (check_consumption_context q d r)
  unfolding check_consumption_context
  context_keeps q d r k =
      kept ((consumption_mismatch q d q.consumption, text "CONSUMPTION_CONTEXT_MISMATCH") ∷ []) r k

  mismatch_keeps : (mismatch : Bool) (r : Reasons) → P r → P (report_mismatch mismatch r)
  unfolding report_mismatch
  mismatch_keeps mismatch r d = kept (mismatch_tests mismatch r) r d

  commerce_report-Keeps :
      (c : CommerceContext) (l : Fields) (mismatch : Bool) (u : Usage)
      (price total budget quantity : Bool)
      → Keeps (λ r.
        ok (report_mismatch mismatch (report (commerce_tests c l u price total budget quantity) r)))
  commerce_report-Keeps c l mismatch u price total budget quantity =
      plain-Keeps
        (λ r.
          report_mismatch mismatch (report (commerce_tests c l u price total budget quantity) r))
        (λ r d.
          mismatch_keeps mismatch _ (kept (commerce_tests c l u price total budget quantity) r d))

  commerce_terms_keep :
      (c : CommerceContext) (l : Fields) (mismatch : Bool) (u : Usage)
      → Keeps (check_commerce_terms c l mismatch u)
  unfolding check_commerce_terms
  commerce_terms_keep c l mismatch u = search (keeps_rules, commerce_report-Keeps)

  commerce-Keeps :
      (c : Option CommerceContext) (l : Option Fields) (e : TransactionEnvelope) (u : Usage)
      → Keeps (check_commerce_with c l e u)
  unfolding check_commerce_with commerce_required
  commerce-Keeps (some c) (some l) e u = commerce_terms_keep c l _ u
  commerce-Keeps _ _ e u = search keeps_rules

  rwa_terms_keep :
      (rt : Runtime) (c : RwaContext) (l : Fields) (mismatch : Bool) (u : Usage) (tracked : Bool)
      (now : ℕ)
      → Keeps (check_rwa_terms rt c l mismatch u tracked now)
  unfolding check_rwa_terms
  rwa_terms_keep rt c l mismatch u tracked now = search keeps_rules depth 9

  rwa-Keeps :
      (rt : Runtime) (c : Option RwaContext) (l : Option Fields) (e : TransactionEnvelope)
      (u : Usage) (tracked : Bool) (now : ℕ)
      → Keeps (check_rwa_with rt c l e u tracked now)
  unfolding check_rwa_with rwa_required
  rwa-Keeps rt (some c) (some l) e u tracked now = rwa_terms_keep rt c l _ u tracked now
  rwa-Keeps rt _ _ e u tracked now = search keeps_rules

  commerce_profile-Keeps : (q : EvaluationRequest) (u : Usage) → Keeps (check_commerce_profile q u)
  unfolding check_commerce_profile check_commerce
  commerce_profile-Keeps q u = search (keeps_rules, commerce-Keeps)

  rwa_profile-Keeps :
      (rt : Runtime) (q : EvaluationRequest) (u : Usage) (now : ℕ)
      → Keeps (check_rwa_profile rt q u now)
  unfolding check_rwa_profile check_rwa
  rwa_profile-Keeps rt q u now = search (keeps_rules, rwa-Keeps)

  -- What every check after the first keeps.
  pub check_all-Keeps :
      (rt : Runtime) (q : EvaluationRequest) (u : Usage) (d : Delta) (r' : Reasons)
      → check_all rt q u d ≡ ok r'
      → (now : ℕ) × (timestamp rt q.evaluation_time ≡ ok now)
        × (first : Reasons) × (check_core rt q.mandate q.envelope now [] ≡ ok first)
        × (P first → P r')
  unfolding check_all
  check_all-Keeps rt q u d r' h =
      let depth = or_else q.delegation_depth 1 in
      let (now, at, h1) = >>=-eq-ok (timestamp rt q.evaluation_time) _ h in
      let (r1, core, h2) = >>=-eq-ok (check_core rt q.mandate q.envelope now []) _ h1 in
      let (r2, parent, h3) =
        >>=-eq-ok (check_parent rt q.mandate q.parent_mandate depth now r1) _ h2 in
      let (r3, cons, h4) =
        >>=-eq-ok (check_consumption q.mandate u d (check_consumption_context q d r2)) _ h3 in
      let (r4, purchase, h5) = >>=-eq-ok (check_commerce_profile q u r3) _ h4 in
      (
        now,
        at,
        r1,
        core,
        λ d1.
            let d2 = parent-Keeps rt q.mandate q.parent_mandate depth now r1 r2 parent d1 in
            let d3 = consumption-Keeps q.mandate u d _ r3 cons (context_keeps q d r2 d2) in
            let d4 = commerce_profile-Keeps q u r3 r4 purchase d3 in
            rwa_profile-Keeps rt q u now r4 r' h5 d4,
      )
