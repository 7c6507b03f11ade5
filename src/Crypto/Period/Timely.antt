-- ===== src/Crypto/Period/Timely.antt =====
-- What a proof and a document are whose times and signer raised no issue.
use oati.Prelude.{
  ℕ, ◌+◌, ◌≤◌, ◌<◌, Bool, true, false, [], ◌∷◌, Option, none, some, ◌≡◌, ◌↔◌, refl, ltb, leb, arith,
  Text, ==_iff, ◌⊎◌, inl, inr, Bool-cases,
}
use oati.Json.{Fields}
use oati.Evaluator.Conditions.{Runtime}
use oati.Crypto.Types.{Issues}
use oati.Crypto.Trust.Chain.{issue-ne-nil}
use oati.Crypto.Period.{
  issue_if, check_window, malformed_times, check_instants, check_proof_time, start_of, end_of,
  starts_late, ended, check_document_time, claimed_signer, unbound, check_signer_binding,
}

pub issue_if-eq-nil :
    (test : Bool) (code message : Text) (issues : Issues)
    → issue_if test code message issues ≡ []
    → (issues ≡ []) × (test ≡ false)
unfolding issue_if
issue_if-eq-nil true code message issues h = absurd (issue-ne-nil code message issues h)
issue_if-eq-nil false code message issues h = (h, refl)

-- The proof was created, at most `skew` in the future, and not longer ago than its greatest age and
-- `skew`, and it expires after it was created and later than `skew` ago.
pub record Timely (created expires now skew max_age : ℕ) : Type 0 where
  pub ordered : created < expires
  pub created_by_now : created ≤ now + skew
  pub unexpired : now < expires + skew
  pub recent : now ≤ max_age + skew + created

-- What a timestamp of the document that is given says of the present.
abbrev pub Started : Runtime → Option Text → ℕ → Type 0
Started rt none limit = Unit
Started rt (some s) limit = (t : ℕ) × (rt.parse_date s ≡ some t) × (t ≤ limit)

abbrev pub NotEnded : Runtime → Option Text → ℕ → ℕ → Type 0
NotEnded rt none now skew = Unit
NotEnded rt (some s) now skew = (t : ℕ) × (rt.parse_date s ≡ some t) × (now < t + skew)

abbrev pub BoundTo : Option Text → Text → Text → Type 0
BoundTo none controller issuer = Unit
BoundTo (some []) controller issuer = Unit
BoundTo (some (c ∷ s)) controller issuer = ((c ∷ s) ≡ controller) ⊎ ((c ∷ s) ≡ issuer)

check_window-Timely :
    (created expires now skew max_age : ℕ) (issues : Issues)
    → leb expires created ≡ false
    → check_window created expires now skew max_age issues ≡ []
    → (issues ≡ []) × Timely created expires now skew max_age
unfolding check_window
check_window-Timely created expires now skew max_age issues later h =
    let (h1, recent) = issue_if-eq-nil (ltb (max_age + skew + created) now) _ _ _ h in
    let (h2, unexpired) = issue_if-eq-nil (leb (expires + skew) now) _ _ _ h1 in
    let (start, begun) = issue_if-eq-nil (ltb (now + skew) created) _ _ _ h2 in
    (
      start,
      record {
        ordered = ground arith;
        created_by_now = ground arith;
        unexpired = ground arith;
        recent = ground arith;
      },
    )

malformed_times-ne-nil : (issues : Issues) → malformed_times issues ≡ [] → ⊥
unfolding malformed_times
malformed_times-ne-nil issues h = issue-ne-nil _ _ issues h

-- Both instants are read, and they are timely.
abbrev pub TimelyAt : Option ℕ → Option ℕ → ℕ → ℕ → ℕ → Type 0
TimelyAt (some created) (some expires) now skew max_age = Timely created expires now skew max_age
TimelyAt _ _ now skew max_age = ⊥

pub check_instants-TimelyAt :
    (created expires : Option ℕ) (now skew max_age : ℕ) (issues : Issues)
    → check_instants created expires now skew max_age issues ≡ []
    → (issues ≡ []) × TimelyAt created expires now skew max_age
unfolding check_instants
check_instants-TimelyAt (some c) (some e) now skew max_age issues h = elim (Bool-cases (leb e c)) [
  | inl bad ↦ absurd (malformed_times-ne-nil issues (rw bad at h))
  | inr later ↦ check_window-Timely c e now skew max_age issues later (rw later at h)
]
check_instants-TimelyAt _ _ now skew max_age issues h = absurd (malformed_times-ne-nil issues h)

pub starts_late-Started :
    (rt : Runtime) (s : Option Text) (now skew : ℕ)
    → starts_late rt s now skew ≡ false
    → Started rt s (now + skew)
unfolding starts_late
starts_late-Started rt none now skew h = tt
starts_late-Started rt (some s) now skew h = ground arith

pub ended-NotEnded :
    (rt : Runtime) (s : Option Text) (now skew : ℕ)
    → ended rt s now skew ≡ false
    → NotEnded rt s now skew
unfolding ended
ended-NotEnded rt none now skew h = tt
ended-NotEnded rt (some s) now skew h = ground arith

pub unbound-BoundTo :
    (s : Option Text) (controller issuer : Text)
    → unbound s controller issuer ≡ false
    → BoundTo s controller issuer
unbound-BoundTo none controller issuer h = tt
unbound-BoundTo (some []) controller issuer h = tt
unbound-BoundTo (some (c ∷ s)) controller issuer h =
    ground (arith, ==_iff (c ∷ s) controller, ==_iff (c ∷ s) issuer)

-- What the checks ask for.
abbrev pub AllTimely : Runtime → Fields → Option ℕ → Option ℕ → Text → Text → ℕ → ℕ → ℕ → Type 0
AllTimely rt document created expires controller issuer now skew max_age =
    TimelyAt created expires now skew max_age
    × Started rt (start_of document) (now + skew)
    × NotEnded rt (end_of document) now skew
    × BoundTo (claimed_signer document) controller issuer

times_timely :
    (rt : Runtime) (document : Fields) (created expires controller issuer : Text)
    (now skew max_age : ℕ)
    → check_signer_binding document controller issuer (
        check_document_time rt document now skew
          (check_proof_time rt created expires now skew max_age []))
      ≡ []
    → AllTimely rt document
        (rt.parse_date created)
        (rt.parse_date expires)
        controller
        issuer
        now
        skew
        max_age
unfolding check_signer_binding check_document_time check_proof_time
times_timely rt document created expires controller issuer now skew max_age h =
    let (h1, bound) =
      issue_if-eq-nil (unbound (claimed_signer document) controller issuer) _ _ _ h in
    let (h2, unended) = issue_if-eq-nil (ended rt (end_of document) now skew) _ _ _ h1 in
    let (h3, begun) = issue_if-eq-nil (starts_late rt (start_of document) now skew) _ _ _ h2 in
    let (_, timely) =
      check_instants-TimelyAt (rt.parse_date created) (rt.parse_date expires) now skew max_age []
        h3 in
    (
      timely,
      starts_late-Started rt (start_of document) now skew begun,
      ended-NotEnded rt (end_of document) now skew unended,
      unbound-BoundTo (claimed_signer document) controller issuer bound,
    )

timely_instants :
    (created expires : Option ℕ) (now skew max_age : ℕ)
    → TimelyAt created expires now skew max_age
    → check_instants created expires now skew max_age [] ≡ []
unfolding check_instants check_window issue_if
timely_instants (some c) (some e) now skew max_age t =
    let a = t.ordered in
    let b = t.created_by_now in let d = t.unexpired in let f = t.recent in ground arith
timely_instants none e now skew max_age t = absurd t
timely_instants (some c) none now skew max_age t = absurd t

Started-on_time :
    (rt : Runtime) (s : Option Text) (now skew : ℕ)
    → Started rt s (now + skew)
    → starts_late rt s now skew ≡ false
unfolding starts_late
Started-on_time rt none now skew h = refl
Started-on_time rt (some s) now skew (t, at, h) = rw (starts_late, at) (ground arith)

unended_yet :
    (rt : Runtime) (s : Option Text) (now skew : ℕ)
    → NotEnded rt s now skew
    → ended rt s now skew ≡ false
unfolding ended
unended_yet rt none now skew h = refl
unended_yet rt (some s) now skew (t, at, h) = rw (ended, at) (ground arith)

bound_not_unbound :
    (s : Option Text) (controller issuer : Text)
    → BoundTo s controller issuer
    → unbound s controller issuer ≡ false
bound_not_unbound none controller issuer h = refl
bound_not_unbound (some []) controller issuer h = refl
bound_not_unbound (some (c ∷ s)) controller issuer h =
    ground (arith, ==_iff (c ∷ s) controller, ==_iff (c ∷ s) issuer)

-- `checkProofTime`, `checkDocumentTime` and `checkSignerBinding`, one after another, raise no issue
-- exactly if the proof's instants are read, it expires after it was created, and at the present, with
-- the tolerance `skew`, it is created, unexpired and not older than its greatest age; the document,
-- where it names a start or an end, has started and has not ended, each a date, with the same
-- tolerance; and a signer that it names is the key's controller or issuer.
pub check_times-TimelyAt :
    (rt : Runtime) (document : Fields) (created expires controller issuer : Text)
    (now skew max_age : ℕ)
    → (check_signer_binding document controller issuer (
          check_document_time rt document now skew
            (check_proof_time rt created expires now skew max_age []))
        ≡ [])
      ↔ AllTimely rt document
          (rt.parse_date created)
          (rt.parse_date expires)
          controller
          issuer
          now
          skew
          max_age
unfolding check_signer_binding check_document_time check_proof_time
check_times-TimelyAt rt document created expires controller issuer now skew max_age = (
  times_timely rt document created expires controller issuer now skew max_age,
  λ (timely, started, unended, bound).
      let before : check_instants (rt.parse_date created) (rt.parse_date expires) now skew max_age
            []
          ≡ [] =
        timely_instants (rt.parse_date created) (rt.parse_date expires) now skew max_age timely in
      rw
        (
          before,
          Started-on_time rt (start_of document) now skew started,
          unended_yet rt (end_of document) now skew unended,
          bound_not_unbound (claimed_signer document) controller issuer bound,
        )
        (unfold issue_if in refl),
)
