-- ===== src/Prelude/Ints.antt =====
-- Integers over the native numbers, under the library's names: the numbers of a JSON document.
use Prim.Native.Nat.{ℕ}
use mathlib.Core.Path.{◌≡◌, ap}
use mathlib.Core.Bool.{Bool, true, false}
use native.Mathlib.Omega.{arith}
use oati.Prelude.Tests.{leb, eqb}

-- `negsuc n` is -(n + 1).
pub data ℤ : Type 0 where
  pos : ℕ → ℤ
  negsuc : ℕ → ℤ

-- `a <= b` and `a === b`
abbrev pub leb_ℤ : ℤ → ℤ → Bool
leb_ℤ (pos a) (pos b) = leb a b
leb_ℤ (pos a) (negsuc b) = false
leb_ℤ (negsuc a) (pos b) = true
leb_ℤ (negsuc a) (negsuc b) = leb b a

abbrev pub eqb_ℤ : ℤ → ℤ → Bool
eqb_ℤ (pos a) (pos b) = eqb a b
eqb_ℤ (negsuc a) (negsuc b) = eqb a b
eqb_ℤ _ _ = false

pub leb_ℤ_refl : (a : ℤ) → leb_ℤ a a ≡ true
leb_ℤ_refl a = ground arith

pub leb_ℤ_trans : (a b c : ℤ) → leb_ℤ a b ≡ true → leb_ℤ b c ≡ true → leb_ℤ a c ≡ true
leb_ℤ_trans a b c h k = ground arith

pub eqb_ℤ-eq : (a b : ℤ) → eqb_ℤ a b ≡ true → a ≡ b
eqb_ℤ-eq (pos a) (pos b) h = let same : a ≡ b = ground arith in ap (λ (n : ℕ). pos n) same
eqb_ℤ-eq (negsuc a) (negsuc b) h = let same : a ≡ b = ground arith in ap (λ (n : ℕ). negsuc n) same
eqb_ℤ-eq _ _ h = cc
