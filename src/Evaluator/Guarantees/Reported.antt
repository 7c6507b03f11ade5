-- ===== src/Evaluator/Guarantees/Reported.antt =====
-- A test of the Envelope against its Mandate that fails is reported and denies.
use oati.Prelude.{
  ◌≤◌, ◌<◌, ◌≢◌, Option, none, Mem, Mem_of_includes, text, ap, ℕ, Bool, true, false, ◌&&◌, List, [],
  ◌∷◌, some, ◌≡◌, refl, sym, ◌∙◌, Text, ◌==◌, ==_iff, includes, any, ok, >>=-eq-ok, ok-injective,
  Bool-cases, inl, inr, arith,
}
use oati.Objects.{MandateStatus, active, is_active, AgentMandate, TransactionEnvelope}
use oati.Evaluator.Types.{EvaluationRequest, EvaluationResult, deny}
use oati.Evaluator.Reasons.{Reasons, add, report, sort}
use oati.Evaluator.Reasons.Order.{includes-sort, includes-append}
use oati.Evaluator.Conditions.{Runtime, timestamp, violates_set}
use oati.Evaluator.Delegation.{same_optional}
use oati.Evaluator.Consumption.{normalized_usage, effective_consumption}
use oati.Evaluator.Authority.{
  is_some, core_tests, check_core, check_all, conclude, evaluate_authority,
}
use oati.Evaluator.Kept.{check_all-Keeps}

-- Some test for the code holds.
abbrev Fires : List (Bool × Text) → Text → Type 0
Fires tests code = any (λ (t : Bool × Text). t.0 && (t.1 == code)) tests ≡ true

abbrev Has : Text → Reasons → Type 0
Has code reasons = includes reasons code ≡ true

add-keeps : (code new : Text) (reasons : Reasons) → Has code reasons → Has code (add new reasons)
unfolding add
add-keeps code new reasons h = ground (arith, includes-append reasons (new ∷ []) code)

add-adds : (code : Text) (reasons : Reasons) → Has code (add code reasons)
unfolding add includes
add-adds code reasons = ground (arith, includes-append reasons (code ∷ []) code, ==_iff code code)

report-keeps :
    (code : Text) (tests : List (Bool × Text)) (reasons : Reasons)
    → Has code reasons
    → Has code (report tests reasons)
unfolding report
report-keeps code [] reasons h = h
report-keeps code ((true, new) ∷ rest) reasons h =
    report-keeps code rest (add new reasons) (add-keeps code new reasons h)
report-keeps code ((false, new) ∷ rest) reasons h = report-keeps code rest reasons h

report-reports :
    (code : Text) (tests : List (Bool × Text)) (reasons : Reasons)
    → Fires tests code
    → Has code (report tests reasons)
unfolding report
report-reports code [] reasons h = cc
report-reports code ((true, new) ∷ rest) reasons h = elim (Bool-cases (new == code)) [
  | inl same ↦
      let at : new ≡ code = (==_iff new code).0 same in
      report-keeps code rest (add new reasons) (rw at (add-adds code reasons))
  | inr differ ↦ report-reports code rest (add new reasons) (rw differ at h)
]
report-reports code ((false, new) ∷ rest) reasons h = report-reports code rest reasons h

-- A constraint does not let a value through.
abbrev pub Outside : Option (List Text) → Option Text → Type 0
Outside none actual = ⊥
Outside (some allowed) none = Unit
Outside (some allowed) (some []) = Unit
Outside (some allowed) (some (c ∷ s)) = ¬ Mem (c ∷ s) allowed

-- What may be wrong with the Mandate or with the Envelope under it, with its reason code.
pub data Fails (m : AgentMandate) (e : TransactionEnvelope) (now from until : ℕ)
    : Text → Type 0 where
  not_active : m.status ≢ active → Fails m e now from until (text "MANDATE_NOT_ACTIVE")
  too_early : now < from → Fails m e now from until (text "MANDATE_NOT_YET_ACTIVE")
  expired : until ≤ now → Fails m e now from until (text "MANDATE_EXPIRED")
  other_mandate : e.mandate_id ≢ m.id → Fails m e now from until (text "MANDATE_REFERENCE_MISMATCH")
  other_agent : e.agent_id ≢ m.subject → Fails m e now from until (text "SUBJECT_MISMATCH")
  other_action : ¬ Mem e.action m.actions → Fails m e now from until (text "ACTION_NOT_ALLOWED")
  other_resource :
      Outside m.resources (some e.resource) → Fails m e now from until (text "RESOURCE_NOT_ALLOWED")
  other_purpose : e.purpose ≢ some m.purpose → Fails m e now from until (text "PURPOSE_MISMATCH")
  other_counterparty :
      Outside m.counterparties e.counterparty
      → Fails m e now from until (text "COUNTERPARTY_NOT_ALLOWED")
  other_destination :
      Outside m.destinations e.destination
      → Fails m e now from until (text "DESTINATION_NOT_ALLOWED")
  other_profile :
      e.profile ≢ none → e.profile ≢ m.profile → Fails m e now from until (text "PROFILE_MISMATCH")

not_active_of : (s : MandateStatus) → s ≢ active → is_active s ≡ false
not_active_of active n = absurd (n refl)
not_active_of _ n = refl

unequal : (s t : Text) → s ≢ t → (s == t) ≡ false
unequal s t n = elim (Bool-cases (s == t)) [
  | inl same ↦ absurd (n ((==_iff s t).0 same))
  | inr differs ↦ differs
]

not_included : (ts : List Text) (t : Text) → ¬ Mem t ts → includes ts t ≡ false
not_included ts t n = elim (Bool-cases (includes ts t)) [
  | inl found ↦ absurd (n (Mem_of_includes ts t found))
  | inr missing ↦ missing
]

violates_of :
    (allowed : Option (List Text)) (actual : Option Text)
    → Outside allowed actual
    → violates_set allowed actual ≡ true
unfolding violates_set
violates_of none actual h = absurd h
violates_of (some ts) none h = refl
violates_of (some ts) (some []) h = refl
violates_of (some ts) (some (c ∷ s)) h = let missing = not_included ts (c ∷ s) h in ground arith

different : (s t : Option Text) → s ≢ t → same_optional s t ≡ false
different none none n = absurd (n refl)
different none (some t) n = refl
different (some s) none n = refl
different (some s) (some t) n = unequal s t (λ e. n (ap (λ (t : Text). some t) e))

given_profile : (s : Option Text) → s ≢ none → is_some s ≡ true
given_profile none n = absurd (n refl)
given_profile (some s) n = refl

same_code : (code : Text) → (code == code) ≡ true
same_code code = (==_iff code code).1 refl

-- The test of the code that names the failure holds.
Fires-of :
    (m : AgentMandate) (e : TransactionEnvelope) (now from until : ℕ) (code : Text)
    → Fails m e now from until code
    → Fires (core_tests m e now from until) code
Fires-of m e now from until _ (not_active n) =
    ground (arith, not_active_of m.status n, same_code (text "MANDATE_NOT_ACTIVE"))
Fires-of m e now from until _ (too_early h) =
    ground (arith, same_code (text "MANDATE_NOT_YET_ACTIVE"))
Fires-of m e now from until _ (expired h) = ground (arith, same_code (text "MANDATE_EXPIRED"))
Fires-of m e now from until _ (other_mandate n) =
    ground (arith, unequal e.mandate_id m.id n, same_code (text "MANDATE_REFERENCE_MISMATCH"))
Fires-of m e now from until _ (other_agent n) =
    ground (arith, unequal e.agent_id m.subject n, same_code (text "SUBJECT_MISMATCH"))
Fires-of m e now from until _ (other_action n) =
    ground (arith, not_included m.actions e.action n, same_code (text "ACTION_NOT_ALLOWED"))
Fires-of m e now from until _ (other_resource h) =
    ground
      (arith, violates_of m.resources (some e.resource) h, same_code (text "RESOURCE_NOT_ALLOWED"))
Fires-of m e now from until _ (other_purpose n) =
    ground (arith, different e.purpose (some m.purpose) n, same_code (text "PURPOSE_MISMATCH"))
Fires-of m e now from until _ (other_counterparty h) = ground (
  arith,
  violates_of m.counterparties e.counterparty h,
  same_code (text "COUNTERPARTY_NOT_ALLOWED"),
)
Fires-of m e now from until _ (other_destination h) =
    ground (
      arith,
      violates_of m.destinations e.destination h,
      same_code (text "DESTINATION_NOT_ALLOWED"),
    )
Fires-of m e now from until _ (other_profile n d) = ground (
  arith,
  given_profile e.profile n,
  different e.profile m.profile d,
  same_code (text "PROFILE_MISMATCH"),
)

timestamp_of : (rt : Runtime) (s : Text) {t : ℕ} → rt.parse_date s ≡ some t → timestamp rt s ≡ ok t
unfolding timestamp
timestamp_of rt s h = ground arith

core_reports :
    (rt : Runtime) (m : AgentMandate) (e : TransactionEnvelope) (now from until : ℕ)
    (first : Reasons) (code : Text)
    → check_core rt m e now [] ≡ ok first
    → rt.parse_date m.not_before ≡ some from
    → rt.parse_date m.expires_at ≡ some until
    → Fires (core_tests m e now from until) code
    → Has code first
unfolding check_core
core_reports rt m e now from until first code h a b f =
    let done : ok (report (core_tests m e now from until) []) ≡ ok first =
      rw (timestamp_of rt m.not_before a, timestamp_of rt m.expires_at b) at h in
    let same = ok-injective done in
    rw same at (report-reports code (core_tests m e now from until) [] f)

conclude-reports :
    (q : EvaluationRequest) (r : Reasons) (res : EvaluationResult) (code : Text)
    → conclude q (normalized_usage q.usage) (effective_consumption q) r ≡ ok res
    → Has code r
    → (includes res.reason_codes code ≡ true) × (res.decision ≡ deny)
unfolding conclude includes
conclude-reports q [] res code h k = cc
conclude-reports q (c ∷ cs) res code h k = let same = ok-injective h in rw (← same) (k, refl)

-- If an evaluation returns a result, and the evaluation time and the Mandate's period are timestamps,
-- then the result denies, and its reason codes have, whatever the later checks find:
-- MANDATE_NOT_ACTIVE if the Mandate is not active, MANDATE_NOT_YET_ACTIVE before its period and
-- MANDATE_EXPIRED from its end on; MANDATE_REFERENCE_MISMATCH or SUBJECT_MISMATCH if the Envelope
-- names another Mandate or another agent; ACTION_NOT_ALLOWED, RESOURCE_NOT_ALLOWED,
-- COUNTERPARTY_NOT_ALLOWED or DESTINATION_NOT_ALLOWED if that of the Envelope is not among those of
-- the Mandate, or is missing where the Mandate names some; PURPOSE_MISMATCH if the purposes differ; and
-- PROFILE_MISMATCH if the Envelope names a profile and the Mandate does not name the same.
pub evaluate_authority-reports :
    (rt : Runtime) (q : EvaluationRequest) (res : EvaluationResult) (now from until : ℕ)
    (code : Text)
    → evaluate_authority rt q ≡ ok res
    → rt.parse_date q.evaluation_time ≡ some now
    → rt.parse_date q.mandate.not_before ≡ some from
    → rt.parse_date q.mandate.expires_at ≡ some until
    → Fails q.mandate q.envelope now from until code
    → (includes res.reason_codes code ≡ true) × (res.decision ≡ deny)
unfolding evaluate_authority
evaluate_authority-reports rt q res now from until code h at starts ends f =
    let u = normalized_usage q.usage in
    let d = effective_consumption q in
    let (r, p, h1) = >>=-eq-ok (check_all rt q u d) _ h in
    let (now', at', first, core, keeps) =
      check_all-Keeps (Has code) (report-keeps code) rt q u d r p in
    let same : now' ≡ now = ok-injective (sym at' ∙ timestamp_of rt q.evaluation_time at) in
    let core' : check_core rt q.mandate q.envelope now [] ≡ ok first = rw same at core in
    let reported = keeps (
      core_reports rt q.mandate q.envelope now from until first code core' starts ends
        (Fires-of q.mandate q.envelope now from until code f)) in
    conclude-reports q (sort r) res code h1 (rw includes-sort reported)
