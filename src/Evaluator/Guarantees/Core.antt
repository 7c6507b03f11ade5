-- ===== src/Evaluator/Guarantees/Core.antt =====
-- The Envelope of an allowed request lies inside its Mandate.
use oati.Prelude.{
  ℕ, ◌≤◌, ◌<◌, Bool, true, false, not, ◌&&◌, List, [], ◌∷◌, Mem, Option, none, some, ◌≡◌, refl, sym,
  ap, All, Text, ◌==◌, ==_iff, Mem_of_includes, ok, arith,
}
use oati.Objects.{AgentMandate, TransactionEnvelope, MandateStatus, active, is_active}
use oati.Evaluator.Types.{EvaluationRequest, EvaluationResult}
use oati.Evaluator.Conditions.{Runtime, timestamp, violates_set}
use oati.Evaluator.Delegation.{same_optional}
use oati.Evaluator.Authority.{core_tests, is_some}
use oati.Evaluator.Passed.Whole.{Allows, Allows-Passed}

-- A constraint that is present allows exactly its members; an absent value is none of them.
abbrev pub Within : Option (List Text) → Option Text → Type 0
Within none actual = Unit
Within (some allowed) none = ⊥
Within (some allowed) (some t) = Mem t allowed

-- The Mandate is active, and `now` lies in its period.
pub record InForce (rt : Runtime) (m : AgentMandate) (now : ℕ) : Type 0 where
  pub status : m.status ≡ active
  pub from : ℕ
  pub until : ℕ
  pub starts : rt.parse_date m.not_before ≡ some from
  pub ends : rt.parse_date m.expires_at ≡ some until
  pub begun : from ≤ now
  pub not_ended : now < until

-- A profile that is named is the Mandate's.
abbrev pub NamesProfile : Option Text → Option Text → Type 0
NamesProfile none mandate = Unit
NamesProfile (some p) mandate = mandate ≡ some p

-- The Envelope refers to the Mandate and stays inside its constraints.
pub record Covers (m : AgentMandate) (e : TransactionEnvelope) : Type 0 where
  pub mandate : e.mandate_id ≡ m.id
  pub agent : e.agent_id ≡ m.subject
  pub action : Mem e.action m.actions
  pub resource : Within m.resources (some e.resource)
  pub purpose : e.purpose ≡ some m.purpose
  pub counterparty : Within m.counterparties e.counterparty
  pub destination : Within m.destinations e.destination
  pub profile : NamesProfile e.profile m.profile

pub timestamp-eq-ok :
    (rt : Runtime) (s : Text) {t : ℕ} → timestamp rt s ≡ ok t → rt.parse_date s ≡ some t
unfolding timestamp
timestamp-eq-ok rt s h = ground arith

pub not-false : (b : Bool) → not b ≡ false → b ≡ true
not-false true h = refl
not-false false h = cc

pub active_of : (s : MandateStatus) → not (is_active s) ≡ false → s ≡ active
active_of s h = ground arith

pub same_text : (s t : Text) → not (s == t) ≡ false → s ≡ t
same_text s t h = (==_iff s t).0 (not-false (s == t) h)

pub same_optional-eq : (a b : Option Text) → same_optional a b ≡ true → a ≡ b
same_optional-eq none none h = refl
same_optional-eq (some a) (some b) h = ap some ((==_iff a b).0 h)
same_optional-eq _ _ h = cc

pub Within-of_test :
    (allowed : Option (List Text)) (t : Option Text)
    → violates_set allowed t ≡ false
    → Within allowed t
unfolding violates_set
Within-of_test none t h = tt
Within-of_test (some allowed) none h = ground arith
Within-of_test (some allowed) (some []) h = ground arith
Within-of_test (some allowed) (some (c ∷ s)) h = Mem_of_includes allowed (c ∷ s) (not-false _ h)

profile_of : (e m : Option Text) → (is_some e && not (same_optional e m)) ≡ false → NamesProfile e m
profile_of none m h = tt
profile_of (some e) m h = sym (same_optional-eq (some e) m (not-false _ h))

Covers-of_tests :
    (m : AgentMandate) (e : TransactionEnvelope) (now from until : ℕ)
    → All (λ t. t.0 ≡ false) (core_tests m e now from until)
    → Covers m e
Covers-of_tests m e now from until f =
    let g = f.1.1.1 in
    record {
      mandate = same_text e.mandate_id m.id g.0;
      agent = same_text e.agent_id m.subject g.1.0;
      action = Mem_of_includes m.actions e.action (not-false _ g.1.1.0);
      resource = Within-of_test m.resources (some e.resource) g.1.1.1.0;
      purpose = same_optional-eq e.purpose (some m.purpose) (not-false _ g.1.1.1.1.0);
      counterparty = Within-of_test m.counterparties e.counterparty g.1.1.1.1.1.0;
      destination = Within-of_test m.destinations e.destination g.1.1.1.1.1.1.0;
      profile = profile_of e.profile m.profile g.1.1.1.1.1.1.1.0;
    }

module _ (rt : Runtime) (q : EvaluationRequest) (res : EvaluationResult) where
  -- If the evaluator allows a request, then at the evaluation time the Mandate is active and inside
  -- its period.
  pub Allows-InForce :
      Allows rt q res
      → (now : ℕ) × (rt.parse_date q.evaluation_time ≡ some now) × InForce rt q.mandate now
  Allows-InForce h =
      let p = Allows-Passed rt q res h in
      (
        p.now,
        timestamp-eq-ok rt q.evaluation_time p.at,
        record {
          status = active_of q.mandate.status p.core.0;
          from = p.from;
          until = p.until;
          starts = timestamp-eq-ok rt q.mandate.not_before p.starts;
          ends = timestamp-eq-ok rt q.mandate.expires_at p.ends;
          begun = let t = p.core.1.0 in ground arith;
          not_ended = let t = p.core.1.1.0 in ground arith;
        },
      )

  -- If the evaluator allows a request, then its Envelope names the Mandate and the Mandate's subject,
  -- has the Mandate's purpose, an action that the Mandate lists, and a resource, a counterparty and
  -- a destination that are present and listed where the Mandate constrains them; and a profile that
  -- the Envelope names is the Mandate's.
  pub Allows-Covers : Allows rt q res → Covers q.mandate q.envelope
  Allows-Covers h =
      let p = Allows-Passed rt q res h in
      Covers-of_tests q.mandate q.envelope p.now p.from p.until p.core
