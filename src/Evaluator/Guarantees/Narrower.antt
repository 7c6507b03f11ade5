-- ===== src/Evaluator/Guarantees/Narrower.antt =====
-- What it means that one Mandate grants no more than another, and the comparison of their terms.
use oati.Prelude.{
  ℕ, ◌-◌, ◌≤◌, true, false, List, Mem, Mem_of_all, Option, none, some, ◌≡◌, Text, ◌⊎◌,
}
use oati.Objects.{AgentMandate, Delegation}
use oati.Evaluator.Conditions.{Runtime, constrained_subset}
use oati.Evaluator.Guarantees.Terms.{Bounded}
use oati.Evaluator.Guarantees.ProfileTerms.{ProfileInside}
use oati.Evaluator.Guarantees.Core.{Within, InForce}

-- Whatever the child's constraint lets through, the parent's does.
abbrev pub Inside : Option (List Text) → Option (List Text) → Type 0
Inside child parent = (t : Text) → Within child (some t) → Within parent (some t)

-- A delegation that is not allowed, or that goes no deeper.
abbrev pub Leaves : Option Delegation → ℕ → Type 0
Leaves none left = Unit
Leaves (some d) left = (d.allowed ≡ false) ⊎ (d.max_depth ≤ left)

-- Two timestamps in this order.
abbrev pub Ordered : Runtime → Text → Text → Type 0
Ordered rt s t =
    (x : ℕ) × (y : ℕ) × (rt.parse_date s ≡ some x) × (rt.parse_date t ≡ some y) × (x ≤ y)

-- The parent lets the child act at this depth, and the child passes on no more depth than is left.
pub record Delegated (child parent : Option Delegation) (depth : ℕ) : Type 0 where
  pub grant : Delegation
  pub granted : parent ≡ some grant
  pub allowed : grant.allowed ≡ true
  pub deep_enough : depth ≤ grant.max_depth
  pub left : Leaves child (grant.max_depth - depth)

pub record Narrower (rt : Runtime) (child parent : AgentMandate) (depth now : ℕ) : Type 0 where
  pub link : child.parent_mandate ≡ some parent.id
  pub parent_in_force : InForce rt parent now
  pub delegated : Delegated child.delegation parent.delegation depth
  pub actions : (a : Text) → Mem a child.actions → Mem a parent.actions
  pub resources : Inside child.resources parent.resources
  pub counterparties : Inside child.counterparties parent.counterparties
  pub destinations : Inside child.destinations parent.destinations
  pub purpose : child.purpose ≡ parent.purpose
  pub starts : Ordered rt parent.not_before child.not_before
  pub ends : Ordered rt child.expires_at parent.expires_at
  pub limits : Bounded child.limits parent.limits
  pub data_use : Bounded child.data_use parent.data_use
  pub profile : ProfileInside child parent

pub Inside-of_subset :
    (child parent : Option (List Text))
    → constrained_subset child parent ≡ true
    → Inside child parent
unfolding constrained_subset
Inside-of_subset child none h t w = tt
Inside-of_subset none (some ps) h t w = cc
Inside-of_subset (some cs) (some ps) h t w = Mem_of_all cs ps h t w
