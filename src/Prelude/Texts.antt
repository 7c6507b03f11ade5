-- ===== src/Prelude/Texts.antt =====
-- A JavaScript string is the list of its UTF-16 code units. A literal of the source is `text "…"`;
-- the literals are ASCII, so their code points are their code units.
use Prim.Native.Char.{code}
use Prim.Native.String.{String}
use Prim.Native.Nat.{ℕ}
use mathlib.Core.Path.{◌≡◌, refl}
use mathlib.Core.Logic.{◌↔◌, ◌≢◌}
use mathlib.Core.Bool.{Bool, true, false, ◌&&◌, ◌||◌}
use mathlib.Core.List.{List, [], ◌∷◌, ◌++◌}
use native.Mathlib.Omega.{arith}
use oati.Prelude.Tests.{eqb, if◌then◌else◌}
use oati.Prelude.Lists.{All}

abbrev pub Text : Type 0
Text = List ℕ

unfoldable pub text : String → Text
text String.[] = []
text (String.◌∷◌ c s) = code c ∷ text s

infix 50 ◌==◌
unfoldable pub ◌==◌ : Text → Text → Bool
[] == [] = true
(a ∷ s) == (b ∷ t) = eqb a b && s == t
_ == _ = false

same_to : (s t : Text) → (s == t) ≡ true → s ≡ t
unfolding ◌==◌
same_to [] [] h = refl
same_to (a ∷ s) (b ∷ t) h = ground (arith, same_to s t)
same_to _ _ h = ground arith

pub ==_refl : (s : Text) → (s == s) ≡ true
unfolding ◌==◌
==_refl [] = refl
==_refl (a ∷ s) = ground (arith, ==_refl s)

-- `===` on strings decides equality.
pub ==_iff : (s t : Text) → ((s == t) ≡ true) ↔ (s ≡ t)
==_iff s t = (same_to s t, λ e. rw e (==_refl t))

-- `includes` of an array of strings.
unfoldable pub includes : List Text → Text → Bool
includes [] t = false
includes (s ∷ ss) t = s == t || includes ss t

-- `startsWith`
unfoldable pub starts_with : Text → Text → Bool
starts_with s [] = true
starts_with [] (p ∷ ps) = false
starts_with (c ∷ s) (p ∷ ps) = eqb c p && starts_with s ps

-- One more code unit in front of the first part.
extend : ℕ → List Text → List Text
extend c [] = (c ∷ []) ∷ []
extend c (p ∷ ps) = (c ∷ p) ∷ ps

-- `split` at one code unit.
unfoldable pub split : ℕ → Text → List Text
unfolding extend
split sep [] = [] ∷ []
split sep (c ∷ s) = let rest = split sep s in if eqb c sep then [] ∷ rest else extend c rest

-- Two literals of the source differ if their texts do.
pub ne_of_==-eq-false : (s t : Text) → (s == t) ≡ false → s ≡ t → ⊥
ne_of_==-eq-false s t h e = let same : (s == t) ≡ true = (==_iff s t).1 e in cc

-- A text without the separator is one part, and what stands in front of a separator is the first.
pub split_none : (sep : ℕ) (s : Text) → All (λ c. c ≢ sep) s → split sep s ≡ s ∷ []
unfolding split
split_none sep [] h = refl
split_none sep (c ∷ s) (h, k) =
    let other : eqb c sep ≡ false = ground arith in rw (other, split_none sep s k) refl

pub split_first :
    (sep : ℕ) (s t : Text) → All (λ c. c ≢ sep) s → split sep (s ++ (sep ∷ t)) ≡ s ∷ split sep t
unfolding split
split_first sep [] t h = let same : eqb sep sep ≡ true = ground arith in rw same refl
split_first sep (c ∷ s) t (h, k) =
    let other : eqb c sep ≡ false = ground arith in rw (other, split_first sep s t k) refl
