-- ===== src/Crypto/Trust/Chain.antt =====
-- What a chain of issuers that raised no issue satisfies.
use oati.Prelude.{
  ℕ, zero, suc, ◌+◌, ◌≤◌, ◌<◌, ◌||◌, true, ltb, leb, or_false, false, not, ◌&&◌, List, [], ◌∷◌,
  ◌++◌, Option, none, some, ◌≡◌, ◌≢◌, refl, sym, ap, Text, includes, Mem, Mem_of_includes, Result,
  ok, throw, ◌⊎◌, Bool-cases, inl, inr, arith,
}
use oati.Evaluator.Conditions.{Runtime}
use oati.Evaluator.Consumption.{or_else}
use oati.Crypto.Types.{
  IssuerStatus, issuer_active, issuer_suspended, issuer_revoked, ProofStatus, verified, invalid,
  unavailable, unknown, RevocationState, revocation_good, revocation_suspended, revocation_revoked,
  TrustedIssuer, RevocationStatus, Issues, issue,
}
use oati.Crypto.Trust.{
  present, unparsed, at_or_before, is_issuer_active, TrustPolicy, Upward, stop, failed, go_to,
  is_good, effective, invalid_instant, check_standing, check_answer, check_target,
  check_revocation_from, check_revocation, unproved, issuer_inactive, outside_period, parent_of,
  upward, chain_fails, follow_chain, validate_trust_chain,
}

-- An instant that is given is a date.
abbrev pub Dated : Runtime → Option Text → Type 0
Dated rt none = Unit
Dated rt (some []) = Unit
Dated rt (some (c ∷ s)) = (t : ℕ) × (rt.parse_date (c ∷ s) ≡ some t)

-- An instant is given, and it is later.
abbrev pub After : Runtime → Option Text → ℕ → Type 0
After rt none now = ⊥
After rt (some []) now = ⊥
After rt (some (c ∷ s)) now = (t : ℕ) × (rt.parse_date (c ∷ s) ≡ some t) × (now < t)

-- An instant that is given is at most, or later than, this one.
abbrev pub NotAfter : Runtime → Option Text → ℕ → Type 0
NotAfter rt none limit = Unit
NotAfter rt (some []) limit = Unit
NotAfter rt (some (c ∷ s)) limit = (t : ℕ) × (rt.parse_date (c ∷ s) ≡ some t) × (t ≤ limit)

abbrev pub AfterIfGiven : Runtime → Option Text → ℕ → ℕ → Type 0
AfterIfGiven rt none now skew = Unit
AfterIfGiven rt (some []) now skew = Unit
AfterIfGiven rt (some (c ∷ s)) now skew =
    (t : ℕ) × (rt.parse_date (c ∷ s) ≡ some t) × (now < t + skew)

abbrev pub Proved : Option ProofStatus → Type 0
Proved none = Unit
Proved (some status) = status ≡ verified

-- The issuer is proved and active, is not revoked by now, and is in its period, with the tolerance
-- `skew` on both sides.
pub record Good (rt : Runtime) (p : TrustPolicy) (issuer : TrustedIssuer) : Type 0 where
  pub proved : Proved issuer.proof_status
  pub active : issuer.status ≡ issuer_active
  pub unrevoked : AfterIfGiven rt issuer.revoked_at p.now 0
  pub begun : NotAfter rt issuer.valid_from (p.now + p.skew)
  pub unended : AfterIfGiven rt issuer.valid_until p.now p.skew

Dated-of : (rt : Runtime) (s : Option Text) → invalid_instant rt s ≡ false → Dated rt s
Dated-of rt none h = tt
Dated-of rt (some []) h = tt
Dated-of rt (some (c ∷ s)) h = ground arith

Unrevoked_of :
    (rt : Runtime) (status : RevocationState) (s : Option Text) (now : ℕ)
    → invalid_instant rt s ≡ false
    → (not (is_good status) && effective rt s now) ≡ false
    → (status ≡ revocation_good) ⊎ After rt s now
Unrevoked_of rt revocation_good s now h k = inl refl
Unrevoked_of rt revocation_suspended none now h k = cc
Unrevoked_of rt revocation_suspended (some []) now h k = cc
Unrevoked_of rt revocation_suspended (some (c ∷ s)) now h k = inr (ground arith)
Unrevoked_of rt revocation_revoked none now h k = cc
Unrevoked_of rt revocation_revoked (some []) now h k = cc
Unrevoked_of rt revocation_revoked (some (c ∷ s)) now h k = inr (ground arith)

pub Proved-of : (s : Option ProofStatus) → unproved s ≡ false → Proved s
Proved-of none h = tt
Proved-of (some verified) h = refl
Proved-of (some invalid) h = cc
Proved-of (some unavailable) h = cc
Proved-of (some unknown) h = cc

active_issuer : (s : IssuerStatus) → is_issuer_active s ≡ true → s ≡ issuer_active
active_issuer issuer_active h = refl
active_issuer issuer_suspended h = cc
active_issuer issuer_revoked h = cc

not_revoked :
    (rt : Runtime) (revoked : Option Text) (now : ℕ)
    → (elim revoked [
      | none ↦ false
      | some at ↦ (present (some at)) && (unparsed rt at || at_or_before rt at now)
    ])
      ≡ false
    → AfterIfGiven rt revoked now 0
not_revoked rt none now h = tt
not_revoked rt (some []) now h = tt
not_revoked rt (some (c ∷ s)) now h = ground arith

begun_of :
    (rt : Runtime) (from : Option Text) (limit : ℕ)
    → (elim from [
      | none ↦ false
      | some from ↦
          present (some from) && elim (rt.parse_date from) [ none ↦ true | some t ↦ ltb limit t ]
    ])
      ≡ false
    → NotAfter rt from limit
begun_of rt none limit h = tt
begun_of rt (some []) limit h = tt
begun_of rt (some (c ∷ s)) limit h = ground arith

unended_of :
    (rt : Runtime) (until : Option Text) (now skew : ℕ)
    → (elim until [
      | none ↦ false
      | some until ↦
          present (some until)
          && elim (rt.parse_date until) [ none ↦ true | some t ↦ leb (t + skew) now ]
    ])
      ≡ false
    → AfterIfGiven rt until now skew
unended_of rt none now skew h = tt
unended_of rt (some []) now skew h = tt
unended_of rt (some (c ∷ s)) now skew h = ground arith

Good-of :
    (rt : Runtime) (p : TrustPolicy) (i : TrustedIssuer)
    → unproved i.proof_status ≡ false
    → issuer_inactive rt i p.now ≡ false
    → outside_period rt i p.now p.skew ≡ false
    → Good rt p i
unfolding issuer_inactive outside_period
Good-of rt p i proved active period =
    let (status, revoked) = or_false (not (is_issuer_active i.status)) _ active in
    let (from, until) = or_false _ _ period in
    record {
      proved = Proved-of i.proof_status proved;
      active = active_issuer i.status (ground arith);
      unrevoked = not_revoked rt i.revoked_at p.now revoked;
      begun = begun_of rt i.valid_from (p.now + p.skew) from;
      unended = unended_of rt i.valid_until p.now p.skew until;
    }

-- The resolver answers, with no record or with one that is good or not yet effective.
abbrev pub Unrevoked : Runtime → ℕ → Option RevocationStatus → Type 0
Unrevoked rt now none = Unit
Unrevoked rt now (some s) =
    Dated rt s.effective_at × ((s.status ≡ revocation_good) ⊎ After rt s.effective_at now)

abbrev pub Clear : Runtime → TrustPolicy → Text → Type 0
Clear rt p [] = Unit
Clear rt p (c ∷ s) =
    (status : Option RevocationStatus) × (p.resolver.resolve_revocation (c ∷ s) ≡ ok status)
    × Unrevoked rt p.now status

-- From an issuer to a configured anchor over at most so many issuers, both ends counted: each issuer
-- is clear, and each below the anchor is resolved, proved, active and in its period.
pub data Reaches (rt : Runtime) (p : TrustPolicy) (anchor : Text) : ℕ → Text → Type 0 where
  anchored :
      {n : ℕ} → Mem anchor p.trust_anchors → Clear rt p anchor → Reaches rt p anchor (suc n) anchor
  through :
      {n : ℕ} (current next : Text) (issuer : TrustedIssuer)
      → Clear rt p current
      → p.resolver.resolve_issuer current ≡ ok (some issuer)
      → Good rt p issuer
      → issuer.parent ≡ some next
      → Reaches rt p anchor n next
      → Reaches rt p anchor (suc n) current

stop-ne-go_to : {t : Text} → stop ≢ go_to t
stop-ne-go_to h = cc

failed-ne-go_to : {c m t : Text} → failed c m ≢ go_to t
failed-ne-go_to h = cc

pub issue-ne-nil : (code message : Text) (issues : Issues) → issue code message issues ≢ []
unfolding issue
issue-ne-nil code message [] h = ground arith
issue-ne-nil code message (i ∷ is) h = ground arith

check_standing-eq-nil :
    (rt : Runtime) (now index : ℕ) (target : Text) (s : Option RevocationStatus) (issues : Issues)
    → check_standing rt now index target s issues ≡ []
    → (issues ≡ []) × Unrevoked rt now s
unfolding check_standing
check_standing-eq-nil rt now index target none issues h = (h, tt)
check_standing-eq-nil rt now index target (some s) issues h =
    elim (Bool-cases (invalid_instant rt s.effective_at)) [
      | inl bad ↦ absurd (issue-ne-nil _ _ issues (rw bad at h))
      | inr valid ↦ elim (Bool-cases (not (is_good s.status) && effective rt s.effective_at now)) [
        | inl revoked ↦ absurd (issue-ne-nil _ _ issues (rw (valid, revoked) at h))
        | inr clear ↦ (
          rw (valid, clear) at h,
          (
            Dated-of rt s.effective_at valid,
            Unrevoked_of rt s.status s.effective_at now valid clear,
          ),
        )
      ]
    ]

check_answer-eq-nil :
    (rt : Runtime) (p : TrustPolicy) (index c : ℕ) (s : Text)
    (answer : Result (Option RevocationStatus)) (issues : Issues)
    → p.resolver.resolve_revocation (c ∷ s) ≡ answer
    → check_answer rt p.now index (c ∷ s) answer issues ≡ []
    → (issues ≡ []) × Clear rt p (c ∷ s)
unfolding check_answer
check_answer-eq-nil rt p index c s (ok status) issues e h =
    let (start, clear) = check_standing-eq-nil rt p.now index (c ∷ s) status issues h in
    (start, (status, e, clear))
check_answer-eq-nil rt p index c s (throw error) issues e h = absurd (issue-ne-nil _ _ issues h)

pub check_target-eq-nil :
    (rt : Runtime) (p : TrustPolicy) (index : ℕ) (target : Text) (issues : Issues)
    → check_target rt p.resolver p.now index target issues ≡ []
    → (issues ≡ []) × Clear rt p target
unfolding check_target
check_target-eq-nil rt p index [] issues h = (h, tt)
check_target-eq-nil rt p index (c ∷ s) issues h =
    check_answer-eq-nil rt p index c s (p.resolver.resolve_revocation (c ∷ s)) issues refl h

check_revocation-eq-nil :
    (rt : Runtime) (p : TrustPolicy) (current : Text) (issues : Issues)
    → check_revocation rt p.resolver ([] ∷ current ∷ []) p.now issues ≡ []
    → (issues ≡ []) × Clear rt p current
unfolding check_revocation check_revocation_from check_target
check_revocation-eq-nil rt p current issues h = check_target-eq-nil rt p 1 current issues h

Upward-cases :
    (u : Upward)
    → (u ≡ stop) ⊎ ((c : Text) × (m : Text) × (u ≡ failed c m)) ⊎ ((t : Text) × (u ≡ go_to t))
Upward-cases stop = inl refl
Upward-cases (failed c m) = inr (inl (c, m, refl))
Upward-cases (go_to t) = inr (inr (t, refl))

-- What it takes to go up from an issuer.
record Passes (rt : Runtime) (p : TrustPolicy) (current next : Text) : Type 0 where
  issuer : TrustedIssuer
  resolved : p.resolver.resolve_issuer current ≡ ok (some issuer)
  good : Good rt p issuer
  up : issuer.parent ≡ some next

parent_of-go_to : (o : Option Text) (t : Text) → parent_of o ≡ go_to t → o ≡ some t
unfolding parent_of
parent_of-go_to none t h = cc
parent_of-go_to (some []) t h = cc
parent_of-go_to (some (c ∷ s)) t h = cc

upward-go_to :
    (rt : Runtime) (p : TrustPolicy) (current next : Text) (answer : Result (Option TrustedIssuer))
    → p.resolver.resolve_issuer current ≡ answer
    → upward rt p.now p.skew current answer ≡ go_to next
    → Passes rt p current next
unfolding upward
upward-go_to rt p current next (throw e) a h = cc
upward-go_to rt p current next (ok none) a h = cc
upward-go_to rt p current next (ok (some i)) a h = elim (Bool-cases (unproved i.proof_status)) [
  | inl bad ↦ absurd (stop-ne-go_to (rw bad at h))
  | inr proved ↦ elim (Bool-cases (issuer_inactive rt i p.now)) [
    | inl bad ↦ absurd (failed-ne-go_to (rw (proved, bad) at h))
    | inr active ↦ elim (Bool-cases (outside_period rt i p.now p.skew)) [
      | inl bad ↦ absurd (failed-ne-go_to (rw (proved, active, bad) at h))
      | inr in_period ↦ record {
        issuer = i;
        resolved = a;
        good = Good-of rt p i proved active in_period;
        up = parent_of-go_to i.parent next (rw (proved, active, in_period) at h);
      }
    ]
  ]
]

chain_fails-ne-nil :
    (start : Text) (issues : Issues) (r : Option Text) → chain_fails start issues ≡ (r, []) → ⊥
unfolding chain_fails
chain_fails-ne-nil start issues r h =
    issue-ne-nil _ _ issues (ap (λ (t : Option Text × Issues). t.1) h)

pub follow_chain-Reaches :
    (rt : Runtime) (p : TrustPolicy) (start : Text) (n : ℕ) (current : Text) (visited : List Text)
    (issues : Issues) (r : Option Text)
    → follow_chain rt p start n current visited issues ≡ (r, [])
    → (issues ≡ []) × (anchor : Text) × (r ≡ some anchor) × Reaches rt p anchor n current
unfolding follow_chain
follow_chain-Reaches rt p start zero current visited issues r h =
    absurd (chain_fails-ne-nil start issues r h)
follow_chain-Reaches rt p start (suc n) current visited issues r h =
    let checked = check_revocation rt p.resolver ([] ∷ current ∷ []) p.now issues in
    elim (Bool-cases (includes visited current)) [
      | inl seen ↦ absurd (chain_fails-ne-nil start issues r (rw seen at h))
      | inr new ↦ elim (Bool-cases (includes p.trust_anchors current)) [
        | inl anchor ↦
            let both : (some current, checked) ≡ (r, []) = rw (new, anchor) at h in
            let (start_nil, clear) =
              check_revocation-eq-nil rt p current issues
                (ap (λ (t : Option Text × Issues). t.1) both) in
            (
              start_nil,
              current,
              sym (ap (λ (t : Option Text × Issues). t.0) both),
              anchored (Mem_of_includes p.trust_anchors current anchor) clear,
            )
        | inr other ↦
            elim (Upward-cases
              (upward rt p.now p.skew current (p.resolver.resolve_issuer current))) [
                | inl e ↦
                    absurd
                      (chain_fails-ne-nil start checked r (rw (new, other, e, follow_chain) at h))
                | inr (inl (c, m, e)) ↦
                    let both : (none, issue c m checked) ≡ (r, []) =
                      rw (new, other, e, follow_chain) at h in
                    absurd (issue-ne-nil c m checked (ap (λ (t : Option Text × Issues). t.1) both))
                | inr (inr (next, e)) ↦
                    let (checked_nil, anchor, reached, chain) =
                      follow_chain-Reaches rt p start n next (visited ++ current ∷ []) checked r
                        (rw (new, other, e, follow_chain) at h) in
                    let (start_nil, clear) =
                      check_revocation-eq-nil rt p current issues checked_nil in
                    let passes = upward-go_to rt p current next _ refl e in
                    (
                      start_nil,
                      anchor,
                      reached,
                      through current next passes.issuer clear passes.resolved passes.good passes.up
                          chain,
                    )
              ]
      ]
    ]

-- If `validateTrustChain` raises no issue, then it returns a configured trust anchor that the parents
-- lead to over at most `maxTrustDepth` + 1 issuers (9 if it is not set), the start and the anchor
-- counted: for every issuer on the way, the anchor included, the resolver answers with no revocation or
-- with one that is good or takes effect later than now; and each below the anchor is resolved, its
-- proof status, if it has one, is verified, it is active, its revocation, if any, is later than now,
-- and it is in its period, whose start may be `skew` after now and whose end later than `skew` before.
pub validate_trust_chain-Reaches :
    (rt : Runtime) (p : TrustPolicy) (depth : Option ℕ) (start : Text) (r : Option Text)
    → validate_trust_chain rt p depth start [] ≡ (r, [])
    → (anchor : Text) × (r ≡ some anchor) × Reaches rt p anchor (suc (or_else depth 8)) start
unfolding validate_trust_chain
validate_trust_chain-Reaches rt p none start r h =
    let (_, anchor, reached, chain) = follow_chain-Reaches rt p start 9 start [] [] r h in
    (anchor, reached, chain)
validate_trust_chain-Reaches rt p (some depth) start r h =
    let (_, anchor, reached, chain) = follow_chain-Reaches rt p start (suc depth) start [] [] r h in
    (anchor, reached, chain)
