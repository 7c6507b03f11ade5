-- ===== src/Evaluator/Passed/Child.antt =====
-- What a child that passed `checkChildMandate` satisfies.

use oati.Prelude.{
  ℕ, true, false, [], ◌∷◌, Option, ◌≡◌, refl, All, text, ok, >>=-eq-ok, ok-injective, Bool-cases,
  inl, inr, ◌⊎◌, or_false, ap, ◌∙◌, ◌||◌,
}
use oati.Objects.{AgentMandate}
use oati.Json.{Fields, object_at}
use oati.Evaluator.Reasons.{Reasons, report-eq-nil}
use oati.Evaluator.Conditions.{Runtime}
use oati.Evaluator.Delegation.{
  check_child_mandate, check_profile_terms, check_profile_subset, commerce_amplified, rwa_amplified,
  parent_inactive, time_amplified, redelegation_amplified, child_tests, same_optional, set_text,
}

-- The child's profile terms are within its parent's, or neither names a profile.
abbrev pub ProfileNarrower : AgentMandate → AgentMandate → Type 0
ProfileNarrower child parent =
    ((same_optional child.profile parent.profile ≡ true)
      × (commerce_amplified (object_at child.extensions (text "commerce"))
            (object_at parent.extensions (text "commerce"))
          ≡ ok false)
      × (rwa_amplified (object_at child.extensions (text "rwa"))
            (object_at parent.extensions (text "rwa"))
          ≡ ok false))
    ⊎ ((set_text child.profile ≡ false) × (set_text parent.profile ≡ false))

check_profile_terms-eq-nil :
    (cc pc cr pr : Option Fields) (r : Reasons)
    → check_profile_terms cc pc cr pr r ≡ ok []
    → (r ≡ []) × (commerce_amplified cc pc ≡ ok false) × (rwa_amplified cr pr ≡ ok false)
unfolding check_profile_terms
check_profile_terms-eq-nil cc pc cr pr r h =
    let (c, p, h1) = >>=-eq-ok (commerce_amplified cc pc) _ h in
    let (w, q, h2) = >>=-eq-ok (rwa_amplified cr pr) _ h1 in
    let (start, facts) =
      report-eq-nil
        ((c, text "CHILD_COMMERCE_AMPLIFICATION") ∷ (w, text "CHILD_RWA_AMPLIFICATION") ∷ []) r
        (ok-injective h2) in
    (start, p ∙ ap ok facts.0, q ∙ ap ok facts.1.0)

check_profile_subset-eq-nil :
    (child parent : AgentMandate) (r : Reasons)
    → check_profile_subset child parent r ≡ ok []
    → (r ≡ []) × ProfileNarrower child parent
unfolding check_profile_subset
check_profile_subset-eq-nil child parent r h =
    elim (Bool-cases (same_optional child.profile parent.profile)) [
      | inl same ↦
          let (start, commerce, rwa) = check_profile_terms-eq-nil _ _ _ _ r (rw same at h) in
          (start, inl (same, commerce, rwa))
      | inr differ ↦
          let (start, facts) =
            report-eq-nil
              ((
                set_text child.profile || set_text parent.profile,
                text "CHILD_PROFILE_AMPLIFICATION",
              )
                ∷ [])
              r (ok-injective (rw differ at h)) in
          (start, inr (or_false (set_text child.profile) (set_text parent.profile) facts.0))
    ]

-- What a child that passed `checkChildMandate` satisfies.
pub record ChildPassed (rt : Runtime) (child parent : AgentMandate) (depth now : ℕ) : Type 0 where
  pub in_force : parent_inactive rt parent now ≡ ok false
  pub within_time : time_amplified rt child parent ≡ ok false
  pub within_depth : redelegation_amplified child.delegation parent.delegation depth ≡ ok false
  pub tests : All (λ t. t.0 ≡ false) (child_tests child parent depth false false false)
  pub profile : ProfileNarrower child parent

pub check_child_mandate-eq-nil :
    (rt : Runtime) (child parent : AgentMandate) (depth now : ℕ) (r : Reasons)
    → check_child_mandate rt child parent depth now r ≡ ok []
    → (r ≡ []) × ChildPassed rt child parent depth now
unfolding check_child_mandate
check_child_mandate-eq-nil rt child parent depth now r h =
    let (inactive, p, h1) = >>=-eq-ok (parent_inactive rt parent now) _ h in
    let (time, q, h2) = >>=-eq-ok (time_amplified rt child parent) _ h1 in
    let (redelegation, s, h3) =
      >>=-eq-ok (redelegation_amplified child.delegation parent.delegation depth) _ h2 in
    let (none_after, profile) = check_profile_subset-eq-nil child parent _ h3 in
    let (start, facts) =
      report-eq-nil (child_tests child parent depth inactive time redelegation) r none_after in
    let inactive_false : inactive ≡ false = facts.1.0 in
    let time_false : time ≡ false = facts.1.1.1.1.1.1.1.1.0 in
    let redelegation_false : redelegation ≡ false = facts.1.1.1.1.1.1.1.1.1.1.1.0 in
    (
      start,
      record {
        in_force = cc;
        within_time = cc;
        within_depth = cc;
        tests = (
          facts.0,
          (
            refl,
            (
              facts.1.1.0,
              (
                facts.1.1.1.0,
                (
                  facts.1.1.1.1.0,
                  (
                    facts.1.1.1.1.1.0,
                    (
                      facts.1.1.1.1.1.1.0,
                      (
                        facts.1.1.1.1.1.1.1.0,
                        (
                          refl,
                          (facts.1.1.1.1.1.1.1.1.1.0, (facts.1.1.1.1.1.1.1.1.1.1.0, (refl, tt))),
                        ),
                      ),
                    ),
                  ),
                ),
              ),
            ),
          ),
        );
        profile = profile;
      },
    )
