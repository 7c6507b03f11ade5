-- ===== src/Prelude/Members.antt =====
-- `includes` of an array of strings decides membership.
use mathlib.Core.Logic.{inl, inr}
use mathlib.Core.Logic.Or
use mathlib.Core.Path.{◌≡◌, sym}
use mathlib.Core.Bool.{Bool, true}
use mathlib.Core.List.{List, [], ◌∷◌, Mem, mem-cons, not-mem-nil}
use native.Mathlib.Omega.{arith}
use oati.Prelude.Tests.{Bool-cases, and_parts}
use oati.Prelude.Lists.{all}
use oati.Prelude.Texts.{Text, ◌==◌, ==_iff, includes}

Bool-IsSet : IsSet Bool
Bool-IsSet = hlevel

includes_cons : (s t : Text) (ss : List Text) → includes ss t ≡ true → includes (s ∷ ss) t ≡ true
unfolding includes
includes_cons s t ss h = ground arith

pub Mem_of_includes : (ss : List Text) (t : Text) → includes ss t ≡ true → Mem t ss
unfolding includes
Mem_of_includes [] t h = cc
Mem_of_includes (s ∷ ss) t h = elim (Bool-cases (s == t)) [
  | inl same ↦ mem-cons.1 (Or.inl (sym ((==_iff s t).0 same)))
  | inr differ ↦ mem-cons.1 (Or.inr (Mem_of_includes ss t (rw differ at h)))
]

pub includes_of_Mem : (ss : List Text) (t : Text) → Mem t ss → includes ss t ≡ true
unfolding includes
includes_of_Mem [] t m = absurd (not-mem-nil m)
includes_of_Mem (s ∷ ss) t m =
    Or.elim (Bool-IsSet _ _) (mem-cons.0 m)
      (λ e. let same : (s == t) ≡ true = (==_iff s t).1 (sym e) in rw same)
      λ k. includes_cons s t ss (includes_of_Mem ss t k)

-- `every` item of one array is in the other.
pub Mem_of_all :
    (child parent : List Text)
    → all (includes parent) child ≡ true
    → (t : Text) → Mem t child
    → Mem t parent
Mem_of_all [] parent h t m = absurd (not-mem-nil m)
Mem_of_all (c ∷ child) parent h t m =
    let (here, later) = and_parts (includes parent c) (all (includes parent) child) h in
    Or.elim squash₁ (mem-cons.0 m) (λ e. rw e (Mem_of_includes parent c here))
      (Mem_of_all child parent later t)
