-- ===== src/Crypto/Trust.antt =====
-- `checkRevocation` and `validateTrustChain` of sdk/typescript/src/crypto.ts. The resolver is a
-- parameter: lookups of issuers and of revocations, which may fail.
pub mod Chain
use oati.Prelude.{
  ℕ, zero, suc, ◌+◌, ◌≤◌, ◌<◌, Bool, true, false, not, ◌&&◌, ◌||◌, List, [], ◌∷◌, ◌++◌, Option,
  none, some, ◌≡◌, refl, ltb, leb, eqb, if◌then◌else◌, Text, text, ◌==◌, includes, Result, ok,
  throw,
}
use oati.Crypto.Types.{
  TrustedIssuer, IssuerStatus, issuer_active, issuer_suspended, issuer_revoked, ProofStatus,
  verified, RevocationState, revocation_good, revocation_suspended, revocation_revoked,
  RevocationStatus, TrustResolver, Issues, issue,
}
use oati.Evaluator.Conditions.{Runtime}

abbrev pub present : Option Text → Bool
present none = false
present (some []) = false
present (some t) = true

-- `Number.isNaN(Date.parse(value))`
abbrev pub unparsed : Runtime → Text → Bool
unparsed rt s = elim (rt.parse_date s) [ none ↦ true | some t ↦ false ]

-- `Date.parse(value) <= limit`, which NaN fails
abbrev pub at_or_before : Runtime → Text → ℕ → Bool
at_or_before rt s limit = elim (rt.parse_date s) [ none ↦ false | some t ↦ leb t limit ]

abbrev pub standing_text : RevocationState → Text
standing_text revocation_good = text "good"
standing_text revocation_suspended = text "suspended"
standing_text revocation_revoked = text "revoked"

-- The code of a revoked target, by its place among the targets.
abbrev pub revoked_code : ℕ → Text
revoked_code zero = text "KEY_REVOKED"
revoked_code (suc zero) = text "ISSUER_REVOKED"
revoked_code (suc (suc n)) = text "DOCUMENT_REVOKED"

abbrev pub is_good : RevocationState → Bool
is_good revocation_good = true
is_good _ = false

-- `!status.effectiveAt || Date.parse(status.effectiveAt) <= now`
abbrev pub effective : Runtime → Option Text → ℕ → Bool
effective rt none now = true
effective rt (some []) now = true
effective rt (some at) now = at_or_before rt at now

-- `status.effectiveAt && Number.isNaN(Date.parse(status.effectiveAt))`
abbrev pub invalid_instant : Runtime → Option Text → Bool
invalid_instant rt none = false
invalid_instant rt (some []) = false
invalid_instant rt (some at) = unparsed rt at

unfoldable pub check_standing : Runtime → ℕ → ℕ → Text → Option RevocationStatus → Issues → Issues
unfolding issue
check_standing rt now index target none issues = issues
check_standing rt now index target (some status) issues =
    if invalid_instant rt status.effective_at
    then issue (text "REVOCATION_UNAVAILABLE")
        (text "revocation status for " ++ target ++ text " has an invalid effective time") issues
    else if not (is_good status.status) && effective rt status.effective_at now
    then issue (revoked_code index) (target ++ text " is " ++ standing_text status.status) issues
    else issues

-- The answer of the resolver, or its failure.
unfoldable pub check_answer :
    Runtime → ℕ → ℕ → Text → Result (Option RevocationStatus) → Issues → Issues
unfolding check_standing
check_answer rt now index target (ok status) issues =
    check_standing rt now index target status issues
check_answer rt now index target (throw e) issues =
    issue (text "REVOCATION_UNAVAILABLE")
      (text "revocation status for " ++ target ++ text " is unavailable") issues

unfoldable pub check_target : Runtime → TrustResolver → ℕ → ℕ → Text → Issues → Issues
unfolding check_answer
check_target rt resolver now index [] issues = issues
check_target rt resolver now index (c ∷ s) issues =
    check_answer rt now index (c ∷ s) (resolver.resolve_revocation (c ∷ s)) issues

-- The targets from the place `index` on.
unfoldable pub check_revocation_from : Runtime → TrustResolver → ℕ → ℕ → List Text → Issues → Issues
unfolding check_target
check_revocation_from rt resolver now index [] issues = issues
check_revocation_from rt resolver now index (t ∷ ts) issues =
    check_revocation_from rt resolver now (suc index) ts
      (check_target rt resolver now index t issues)

unfoldable pub check_revocation : Runtime → TrustResolver → List Text → ℕ → Issues → Issues
unfolding check_revocation_from
check_revocation rt resolver targets now issues =
    check_revocation_from rt resolver now 0 targets issues

abbrev pub is_issuer_active : IssuerStatus → Bool
is_issuer_active issuer_active = true
is_issuer_active _ = false

-- `issuer.proofStatus && issuer.proofStatus !== "verified"`
abbrev pub unproved : Option ProofStatus → Bool
unproved none = false
unproved (some verified) = false
unproved (some _) = true

-- `status !== "active" || revoked !== undefined && (Number.isNaN(revoked) || revoked <= now)`
unfoldable pub issuer_inactive : Runtime → TrustedIssuer → ℕ → Bool
issuer_inactive rt issuer now = not (is_issuer_active issuer.status) || elim issuer.revoked_at [
  | none ↦ false
  | some at ↦ (present (some at)) && (unparsed rt at || at_or_before rt at now)
]

-- Outside the period, with a tolerance of `skew` on both sides.
unfoldable pub outside_period : Runtime → TrustedIssuer → ℕ → ℕ → Bool
outside_period rt issuer now skew =
    elim issuer.valid_from [
      | none ↦ false
      | some from ↦
          present (some from)
          && elim (rt.parse_date from) [ none ↦ true | some t ↦ ltb (now + skew) t ]
    ]
    || elim issuer.valid_until [
      | none ↦ false
      | some until ↦
          present (some until)
          && elim (rt.parse_date until) [ none ↦ true | some t ↦ leb (t + skew) now ]
    ]

-- How the chain goes on from the lookup of an issuer: it ends with no issue of its own, fails with
-- one, or goes up to the parent.
pub data Upward : Type 0 where
  stop : Upward
  failed : Text → Text → Upward
  go_to : Text → Upward

unfoldable pub parent_of : Option Text → Upward
parent_of none = stop
parent_of (some []) = stop
parent_of (some (c ∷ s)) = go_to (c ∷ s)

unfoldable pub upward : Runtime → ℕ → ℕ → Text → Result (Option TrustedIssuer) → Upward
unfolding issuer_inactive outside_period parent_of
upward rt now skew current (throw e) =
    failed (text "ISSUER_NOT_TRUSTED") (text "issuer " ++ current ++ text " could not be resolved")
upward rt now skew current (ok none) = stop
upward rt now skew current (ok (some issuer)) =
    if unproved issuer.proof_status
    then stop
    else if issuer_inactive rt issuer now
    then failed (text "ISSUER_REVOKED") (text "issuer " ++ current ++ text " is not active")
    else if outside_period rt issuer now skew
    then failed (text "ISSUER_REVOKED")
        (text "issuer " ++ current ++ text " is outside its validity period")
    else parent_of issuer.parent

-- What stays the same along the chain.
pub record TrustPolicy : Type 0 where
  pub resolver : TrustResolver
  pub trust_anchors : List Text
  pub now : ℕ
  pub skew : ℕ

unfoldable pub chain_fails : Text → Issues → Option Text × Issues
unfolding issue
chain_fails start issues = (
  none,
  issue (text "ISSUER_NOT_TRUSTED")
      (text "issuer chain from " ++ start ++ text " does not reach a configured trust anchor")
      issues,
)

-- The loop, with the number of issuers it may still visit: `maxTrustDepth` (8 if not set) and one.
unfoldable pub follow_chain :
    Runtime → TrustPolicy → Text → ℕ → Text → List Text → Issues → Option Text × Issues
unfolding check_revocation upward chain_fails
follow_chain rt p start zero current visited issues = chain_fails start issues
follow_chain rt p start (suc n) current visited issues =
    let checked = check_revocation rt p.resolver ([] ∷ current ∷ []) p.now issues in
    if includes visited current
    then chain_fails start issues
    else if includes p.trust_anchors current
    then (some current, checked)
    else elim (upward rt p.now p.skew current (p.resolver.resolve_issuer current)) [
      | stop ↦ chain_fails start checked
      | failed code message ↦ (none, issue code message checked)
      | go_to parent ↦ follow_chain rt p start n parent (visited ++ current ∷ []) checked
    ]

-- `validateTrustChain`: the anchor that was reached, and the issues.
unfoldable pub validate_trust_chain :
    Runtime → TrustPolicy → Option ℕ → Text → Issues → Option Text × Issues
unfolding follow_chain
validate_trust_chain rt p none start issues = follow_chain rt p start 9 start [] issues
validate_trust_chain rt p (some max_depth) start issues =
    follow_chain rt p start (suc max_depth) start [] issues
