-- ===== src/Evaluator/Guarantees/Descent.antt =====
-- A chain of delegations, each accepted by an evaluation, never widens what its root grants.
use oati.Prelude.{Mem, some, ◌≡◌, Text}
use oati.Objects.{AgentMandate}
use oati.Evaluator.Types.{EvaluationRequest, EvaluationResult}
use oati.Evaluator.Conditions.{Runtime}
use oati.Evaluator.Passed.Whole.{Allows}
use oati.Evaluator.Guarantees.Narrower.{Inside, Ordered, Narrower}
use oati.Evaluator.Guarantees.Terms.{Bounded}
use oati.Evaluator.Guarantees.ProfileTerms.{ProfileInside}

-- A Mandate under which a request was allowed, from a root through parents that were themselves used
-- so.
pub data Descends (rt : Runtime) (root : AgentMandate) : AgentMandate → Type 0 where
  delegated :
      (q : EvaluationRequest) (res : EvaluationResult)
      → Allows rt q res
      → q.parent_mandate ≡ some root
      → Descends rt root q.mandate
  redelegated :
      {parent : AgentMandate}
      → Descends rt root parent
      → (q : EvaluationRequest) (res : EvaluationResult) → Allows rt q res
      → q.parent_mandate ≡ some parent
      → Descends rt root q.mandate

-- What the holder of a Mandate may do lies inside what another grants.
pub record NoWider (rt : Runtime) (m root : AgentMandate) : Type 0 where
  pub actions : (a : Text) → Mem a m.actions → Mem a root.actions
  pub resources : Inside m.resources root.resources
  pub counterparties : Inside m.counterparties root.counterparties
  pub destinations : Inside m.destinations root.destinations
  pub purpose : m.purpose ≡ root.purpose
  pub starts : Ordered rt root.not_before m.not_before
  pub ends : Ordered rt m.expires_at root.expires_at
  pub limits : Bounded m.limits root.limits
  pub data_use : Bounded m.data_use root.data_use
  pub profile : ProfileInside m root
