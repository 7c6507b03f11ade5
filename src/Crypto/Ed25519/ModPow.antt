-- ===== src/Crypto/Ed25519/ModPow.antt =====
-- `modPow` is the power, reduced.
use oati.Prelude.{
  ℕ, zero, suc, ◌+◌, ◌*◌, ◌/◌, ◌%◌, ◌^◌, ◌≤◌, ◌<◌, Bool, true, false, ◌≡◌, refl, sym, ap, ◌∙◌,
  if◌then◌else◌, eqb, arith, Bool-cases, inl, inr,
}
use native.Mathlib.Nat.{
  pow-suc, pow-zero, mul-one, mul_assoc, mul_comm, mod-eq_of_lt, mul-add-mod_self_left, div-add-mod,
  mod-lt,
}
use oati.Crypto.Ed25519.{mod_pow_from, mod_pow}

-- A factor of a product may be reduced first.
mod-mul_left : (a b m : ℕ) → (a % m * b) % m ≡ (a * b) % m
mod-mul_left a b m = sym (
    ap (λ (n : ℕ). (n * b) % m) (sym (div-add-mod a m))
    ∙ ap (λ (n : ℕ). n % m) (omega arith)
    ∙ mul-add-mod_self_left m (a / m * b) (a % m * b))

mod-mul_right : (a b m : ℕ) → (a * (b % m)) % m ≡ (a * b) % m
mod-mul_right a b m = rw (mul_comm a (b % m), mul_comm a b) (mod-mul_left b a m)

mod-pow : (b e m : ℕ) → ((b % m) ^ e) % m ≡ b ^ e % m
mod-pow b zero m = rw (pow-zero, pow-zero) refl
mod-pow b (suc e) m =
    rw (pow-suc, pow-suc)
      (mod-mul_right ((b % m) ^ e) b m
        ∙ sym (mod-mul_left ((b % m) ^ e) b m)
        ∙ ap (λ (n : ℕ). (n * b) % m) (mod-pow b e m)
        ∙ mod-mul_left (b ^ e) b m)

reduced-pow : (x y q m : ℕ) → (x * (y % m) ^ q) % m ≡ (x * y ^ q) % m
reduced-pow x y q m =
    sym (mod-mul_right x ((y % m) ^ q) m)
    ∙ ap (λ (n : ℕ). (x * n) % m) (mod-pow y q m)
    ∙ mod-mul_right x (y ^ q) m

square-pow : (f q : ℕ) → (f * f) ^ q ≡ f ^ (q + q)
square-pow f zero = rw (pow-zero, pow-zero) refl
square-pow f (suc q) =
    let sum : suc q + suc q ≡ suc (suc (q + q)) = omega arith in
    rw (sum, pow-suc, pow-suc, pow-suc, square-pow f q, mul_assoc) refl

-- One turn of the loop: a factor goes to the result if the exponent is odd, and the exponent is halved.
turn :
    (r f n m : ℕ)
    → ((if eqb (suc n % 2) 1 then r * f % m else r) * (f * f % m) ^ (suc n / 2)) % m
      ≡ (r * f ^ suc n) % m
turn r f n m = elim (Bool-cases (eqb (suc n % 2) 1)) [
  | inl odd ↦
      let halves : suc n ≡ suc (suc n / 2 + suc n / 2) = ground arith in
      rw odd (
        reduced-pow (r * f % m) (f * f) (suc n / 2) m
        ∙ mod-mul_left (r * f) ((f * f) ^ (suc n / 2)) m
        ∙ ap (λ (x : ℕ). x % m)
            (rw (square-pow f (suc n / 2)) (
              mul_assoc r f (f ^ (suc n / 2 + suc n / 2))
              ∙ ap (λ (x : ℕ). r * x)
                  (mul_comm f _ ∙ sym (pow-suc f _) ∙ ap (λ (e : ℕ). f ^ e) (sym halves)))))
  | inr even ↦
      let halves : suc n ≡ suc n / 2 + suc n / 2 = ground arith in
      rw even (
        reduced-pow r (f * f) (suc n / 2) m
        ∙ ap (λ (x : ℕ). (r * x) % m)
            (square-pow f (suc n / 2) ∙ ap (λ (e : ℕ). f ^ e) (sym halves)))
]

kept_small : (test : Bool) (r f m : ℕ) → r < m → (if test then r * f % m else r) < m
kept_small true r f m h = mod-lt (r * f) (omega arith)
kept_small false r f m h = h

mod_pow_from-power :
    (turns result factor power m : ℕ)
    → power ≤ turns
    → result < m
    → mod_pow_from turns result factor power m ≡ (result * factor ^ power) % m
unfolding mod_pow_from
mod_pow_from-power zero r f zero m h k = rw (pow-zero, mul-one) (sym (mod-eq_of_lt k))
mod_pow_from-power zero r f (suc n) m h k = absurd (omega arith)
mod_pow_from-power (suc turns) r f zero m h k = rw (pow-zero, mul-one) (sym (mod-eq_of_lt k))
mod_pow_from-power (suc turns) r f (suc n) m h k =
    mod_pow_from-power turns _ (f * f % m) (suc n / 2) m (omega arith)
      (kept_small (eqb (suc n % 2) 1) r f m k)
    ∙ turn r f n m

-- The loop of `modPow` computes the power reduced by the modulus, for any base and exponent and a
-- modulus of at least 2: halving the exponent, as many turns as the exponent are enough.
pub mod_pow-power :
    (base exponent modulus : ℕ)
    → 2 ≤ modulus
    → mod_pow base exponent modulus ≡ base ^ exponent % modulus
unfolding mod_pow
mod_pow-power base exponent modulus h =
    mod_pow_from-power exponent 1 (base % modulus) exponent modulus (omega arith) (omega arith)
    ∙ reduced-pow 1 base exponent modulus
    ∙ ap (λ (x : ℕ). x % modulus) (omega arith)
