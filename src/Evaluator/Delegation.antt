-- ===== src/Evaluator/Delegation.antt =====
-- `checkChildMandate` and `checkProfileSubset` of evaluator.ts: a child Mandate may only narrow what
-- its parent grants.
use oati.Prelude.{
  ℕ, ◌-◌, Bool, true, false, not, ◌&&◌, ◌||◌, List, [], ◌∷◌, Option, none, some, ltb, leb,
  if◌then◌else◌, Text, text, ◌==◌, Result, ok, throw, type_error, ◌>>=◌,
}
use oati.Json.{Json, bool, Fields, get, object_at, string_array, strict_eq}
use oati.Objects.{AgentMandate, Delegation, is_active}
use oati.Evaluator.Reasons.{Reasons, report, first_true}
use oati.Evaluator.Conditions.{
  Runtime, timestamp, subset, constrained_subset, same_fields, number_at_most, number_at_least,
  decimal_at_most, narrower_object,
}

-- `===` and truth of an optional string
abbrev pub same_optional : Option Text → Option Text → Bool
same_optional none none = true
same_optional (some s) (some t) = s == t
same_optional _ _ = false

abbrev pub set_text : Option Text → Bool
set_text none = false
set_text (some []) = false
set_text (some t) = true

-- `a op b` of two timestamps
abbrev pub compare_times : Runtime → (ℕ → ℕ → Bool) → Text → Text → Result Bool
compare_times rt op a b = do x ← timestamp rt a; y ← timestamp rt b; ok (op x y)

-- `!(test)`
abbrev pub fails : Result Bool → Result Bool
fails test = do b ← test; ok (not b)

unfoldable pub parent_inactive : Runtime → AgentMandate → ℕ → Result Bool
unfolding first_true timestamp
parent_inactive rt parent now = first_true (
    ok (not (is_active parent.status))
    ∷ (do from ← timestamp rt parent.not_before; ok (ltb now from))
    ∷ (do until ← timestamp rt parent.expires_at; ok (leb until now))
    ∷ [])

unfoldable pub time_amplified : Runtime → AgentMandate → AgentMandate → Result Bool
unfolding first_true timestamp
time_amplified rt child parent = first_true (
    compare_times rt ltb child.not_before parent.not_before
    ∷ compare_times rt (λ c p. ltb p c) child.expires_at parent.expires_at
    ∷ [])

-- `!parent.delegation?.allowed || depth > parent.delegation.max_depth`
unfoldable pub delegation_refused : Option Delegation → ℕ → Bool
delegation_refused none depth = true
delegation_refused (some d) depth = not d.allowed || ltb d.max_depth depth

-- The child may delegate no further than the parent's remaining depth. Where the parent has no
-- `delegation`, reading its `max_depth` throws.
unfoldable pub redelegation_amplified : Option Delegation → Option Delegation → ℕ → Result Bool
redelegation_amplified none parent depth = ok false
redelegation_amplified (some c) (some p) depth =
    ok (c.allowed && ltb (p.max_depth - depth) c.max_depth)
redelegation_amplified (some c) none depth =
    if c.allowed
    then throw (type_error (text "Cannot read properties of undefined (reading 'max_depth')"))
    else ok false

abbrev pub commerce_identity : List Text
commerce_identity =
    text "merchant_organisation_id"
    ∷ text "service_id"
    ∷ text "offer_id"
    ∷ text "currency"
    ∷ text "billing_model"
    ∷ text "terms_digest"
    ∷ []

abbrev pub rwa_identity : List Text
rwa_identity =
    text "asset_id"
    ∷ text "state_claim_id"
    ∷ text "network"
    ∷ text "token_contract"
    ∷ text "operation"
    ∷ text "unit"
    ∷ []

unfoldable pub commerce_amplified : Option Fields → Option Fields → Result Bool
unfolding first_true same_fields decimal_at_most number_at_most
commerce_amplified child none = ok false
commerce_amplified none (some parent) = ok true
commerce_amplified (some child) (some parent) = first_true (
    ok (not (same_fields child parent commerce_identity))
    ∷ fails
        (decimal_at_most (get child (text "max_unit_price")) (get parent (text "max_unit_price")))
    ∷ fails (decimal_at_most (get child (text "max_total")) (get parent (text "max_total")))
    ∷ ok (not (number_at_most (get child (text "max_quantity")) (get parent (text "max_quantity"))))
    ∷ [])

abbrev pub is_true : Option Json → Bool
is_true v = strict_eq v (some (bool true))

unfoldable pub rwa_amplified : Option Fields → Option Fields → Result Bool
unfolding first_true same_fields decimal_at_most number_at_least subset strict_eq
rwa_amplified child none = ok false
rwa_amplified none (some parent) = ok true
rwa_amplified (some child) (some parent) =
    let required_parent = string_array (get parent (text "required_roles")) in
    let required_child = string_array (get child (text "required_roles")) in
    first_true (
      ok (not (same_fields child parent rwa_identity))
      ∷ fails (decimal_at_most (get child (text "max_quantity")) (get parent (text "max_quantity")))
      ∷ ok (
          not (
            number_at_least (get child (text "minimum_approvals"))
              (get parent (text "minimum_approvals"))))
      ∷ ok (not (subset required_parent required_child))
      ∷ ok (is_true (get parent (text "one_time")) && not (is_true (get child (text "one_time"))))
      ∷ [])

-- The profile terms of a child and its parent: Commerce, then RWA.
unfoldable pub check_profile_terms :
    (child_commerce parent_commerce child_rwa parent_rwa : Option Fields) → Reasons → Result Reasons
unfolding commerce_amplified rwa_amplified
check_profile_terms child_commerce parent_commerce child_rwa parent_rwa reasons = do
  commerce ← commerce_amplified child_commerce parent_commerce
  rwa ← rwa_amplified child_rwa parent_rwa
  ok (
      report
        ((commerce, text "CHILD_COMMERCE_AMPLIFICATION")
          ∷ (rwa, text "CHILD_RWA_AMPLIFICATION")
          ∷ [])
        reasons)

unfoldable pub check_profile_subset : AgentMandate → AgentMandate → Reasons → Result Reasons
unfolding check_profile_terms
check_profile_subset child parent reasons =
    if same_optional child.profile parent.profile
    then check_profile_terms (object_at child.extensions (text "commerce"))
        (object_at parent.extensions (text "commerce")) (object_at child.extensions (text "rwa"))
        (object_at parent.extensions (text "rwa")) reasons
    else ok (
        report
          ((set_text child.profile || set_text parent.profile, text "CHILD_PROFILE_AMPLIFICATION")
            ∷ [])
          reasons)

-- Each condition with its code, in the order of the source.
abbrev pub child_tests :
    AgentMandate → AgentMandate → ℕ → (inactive time redelegation : Bool) → List (Bool × Text)
child_tests child parent depth inactive time redelegation =
    (not (same_optional child.parent_mandate (some parent.id)), text "PARENT_MANDATE_MISMATCH")
    ∷ (inactive, text "PARENT_MANDATE_NOT_ACTIVE")
    ∷ (delegation_refused parent.delegation depth, text "DELEGATION_NOT_ALLOWED")
    ∷ (not (subset child.actions parent.actions), text "CHILD_ACTION_AMPLIFICATION")
    ∷ (
      not (constrained_subset child.resources parent.resources),
      text "CHILD_RESOURCE_AMPLIFICATION",
    )
    ∷ (
      not (constrained_subset child.counterparties parent.counterparties),
      text "CHILD_COUNTERPARTY_AMPLIFICATION",
    )
    ∷ (
      not (constrained_subset child.destinations parent.destinations),
      text "CHILD_DESTINATION_AMPLIFICATION",
    )
    ∷ (not (child.purpose == parent.purpose), text "CHILD_PURPOSE_AMPLIFICATION")
    ∷ (time, text "CHILD_TIME_AMPLIFICATION")
    ∷ (not (narrower_object child.limits parent.limits), text "CHILD_LIMIT_AMPLIFICATION")
    ∷ (not (narrower_object child.data_use parent.data_use), text "CHILD_DATA_USE_AMPLIFICATION")
    ∷ (redelegation, text "CHILD_DELEGATION_AMPLIFICATION")
    ∷ []

unfoldable pub check_child_mandate :
    Runtime → AgentMandate → AgentMandate → ℕ → ℕ → Reasons → Result Reasons
unfolding parent_inactive time_amplified redelegation_amplified check_profile_subset
check_child_mandate rt child parent depth now reasons = do
  inactive ← parent_inactive rt parent now
  time ← time_amplified rt child parent
  redelegation ← redelegation_amplified child.delegation parent.delegation depth
  check_profile_subset child parent
      (report (child_tests child parent depth inactive time redelegation) reasons)
