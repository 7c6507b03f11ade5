-- ===== src/Crypto/Ed25519.antt =====
-- `isValidEd25519PublicKey` of sdk/typescript/src/crypto.ts and its arithmetic: a `bigint` reduced by
-- `mod` is a natural number, and a difference is that of the remainders.
use oati.Prelude.{
  ℕ, zero, suc, ◌+◌, ◌-◌, ◌*◌, ◌/◌, ◌%◌, ◌^◌, ◌≤◌, ◌<◌, Bool, true, false, not, ◌&&◌, ◌||◌, Option,
  none, some, List, [], ◌∷◌, ◌≡◌, refl, if◌then◌else◌, ltb, leb, eqb, length, get_or, Text, arith,
}
pub mod ModPow
use oati.Crypto.Base64.{from_base64url}

-- The loop of `modPow`; every turn halves the exponent.
unfoldable pub mod_pow_from : ℕ → ℕ → ℕ → ℕ → ℕ → ℕ
mod_pow_from zero result factor power modulus = result
mod_pow_from (suc turns) result factor zero modulus = result
mod_pow_from (suc turns) result factor (suc n) modulus =
    mod_pow_from turns (if eqb (suc n % 2) 1 then result * factor % modulus else result)
      (factor * factor % modulus) (suc n / 2) modulus

-- `modPow`, for which as many turns as the exponent are enough
unfoldable pub mod_pow : ℕ → ℕ → ℕ → ℕ
unfolding mod_pow_from
mod_pow base exponent modulus = mod_pow_from exponent 1 (base % modulus) exponent modulus

unfoldable pub inverse : ℕ → ℕ → ℕ
unfolding mod_pow
inverse value modulus = mod_pow (value % modulus) (modulus - 2) modulus

-- `mod(a - b, modulus)`
unfoldable pub mod_sub : ℕ → ℕ → ℕ → ℕ
mod_sub a b modulus = (a + (modulus - b % modulus)) % modulus

unfoldable pub ed25519_p : ℕ
ed25519_p = 2 ^ 255 - 19

unfoldable pub ed25519_d : ℕ
unfolding mod_sub inverse
ed25519_d = mod_sub 0 (121665 * inverse 121666 ed25519_p) ed25519_p

unfoldable pub ed25519_i : ℕ
unfolding mod_pow
ed25519_i = mod_pow 2 ((ed25519_p - 1) / 4) ed25519_p

unfoldable pub add_edwards : ℕ × ℕ → ℕ × ℕ → ℕ × ℕ
unfolding inverse mod_sub
add_edwards (x1, y1) (x2, y2) =
    let factor = ed25519_d * x1 * x2 * y1 * y2 % ed25519_p in
    (
      (x1 * y2 + y1 * x2) * inverse (1 + factor) ed25519_p % ed25519_p,
      (y1 * y2 + x1 * x2) * inverse (mod_sub 1 factor ed25519_p) ed25519_p % ed25519_p,
    )

-- The bytes, least significant first, as a number.
unfoldable pub little_endian : List ℕ → ℕ
little_endian [] = 0
little_endian (b ∷ bytes) = b + 256 * little_endian bytes

-- `mod(x * x - x2, p) === 0`
unfoldable pub is_root : ℕ → ℕ → Bool
unfolding mod_sub
is_root x x2 = eqb (mod_sub (x * x) x2 ed25519_p) 0

-- The point of order 1, 2, 4 or 8 is refused.
unfoldable pub has_large_order : ℕ × ℕ → Bool
unfolding add_edwards
has_large_order point =
    let twice = add_edwards point point in
    let four_times = add_edwards twice twice in
    let (x, y) = add_edwards four_times four_times in not (eqb x 0) || not (eqb y 1)

unfoldable pub with_sign : ℕ → ℕ → ℕ → Bool
unfolding has_large_order
with_sign sign x y =
    let x' = if not (eqb (x % 2) sign) then ed25519_p - x else x in
    not (eqb x' 0 && eqb sign 1) && has_large_order (x', y)

unfoldable pub is_valid_point : ℕ → ℕ → Bool
unfolding inverse mod_sub mod_pow is_root with_sign
is_valid_point sign y =
    let y2 = y * y % ed25519_p in
    let x2 = mod_sub y2 1 ed25519_p * inverse (ed25519_d * y2 + 1) ed25519_p % ed25519_p in
    let candidate = mod_pow x2 ((ed25519_p + 3) / 8) ed25519_p in
    let x = if not (is_root candidate x2) then candidate * ed25519_i % ed25519_p else candidate in
    is_root x x2 && with_sign sign x y

unfoldable pub is_valid_bytes : List ℕ → Bool
unfolding little_endian is_valid_point
is_valid_bytes bytes =
    let y = little_endian bytes % 2 ^ 255 in
    eqb (length bytes) 32 && (ltb y ed25519_p && is_valid_point (get_or bytes 31 0 / 128) y)

abbrev valid_decoded : Option (List ℕ) → Bool
valid_decoded none = false
valid_decoded (some bytes) = is_valid_bytes bytes

-- `isValidEd25519PublicKey`
unfoldable pub is_valid_ed25519_public_key : Option Text → Bool
unfolding is_valid_bytes from_base64url
is_valid_ed25519_public_key none = false
is_valid_ed25519_public_key (some encoded) = valid_decoded (from_base64url encoded)
