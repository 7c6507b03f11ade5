-- ===== src/Crypto/Base64.antt =====
-- `base64url` and `fromBase64url` of sdk/typescript/src/crypto.ts, with what `btoa` and `atob` do.
-- `none` is an exception.
use oati.Prelude.{
  ℕ, ◌+◌, ◌-◌, ◌*◌, ◌/◌, ◌%◌, ◌<◌, ◌&&◌, Option, none, some, List, [], ◌∷◌, ◌≡◌, refl, ap,
  if◌then◌else◌, leb, ltb, eqb, All, Text, arith,
}

-- The character of six bits, and its bits.
unfoldable pub digit_char : ℕ → ℕ
digit_char n =
    if ltb n 26
    then 65 + n
    else if ltb n 52
    then 71 + n
    else if ltb n 62
    then n - 4
    else if eqb n 62
    then b'-'
    else b'_'

unfoldable pub digit_value : ℕ → Option ℕ
digit_value c =
    if leb 65 c && leb c 90
    then some (c - 65)
    else if leb 97 c && leb c 122
    then some (c - 71)
    else if leb 48 c && leb c 57
    then some (c + 4)
    else if eqb c b'-'
    then some 62
    else if eqb c b'_'
    then some 63
    else none

-- `base64url`, without padding
unfoldable pub base64url : List ℕ → Text
unfolding digit_char
base64url [] = []
base64url (a ∷ []) = digit_char (a / 4) ∷ digit_char (a % 4 * 16) ∷ []
base64url (a ∷ b ∷ []) =
    digit_char (a / 4) ∷ digit_char (a % 4 * 16 + b / 16) ∷ digit_char (b % 16 * 4) ∷ []
base64url (a ∷ b ∷ c ∷ bytes) =
    digit_char (a / 4)
    ∷ digit_char (a % 4 * 16 + b / 16)
    ∷ digit_char (b % 16 * 4 + c / 64)
    ∷ digit_char (c % 64)
    ∷ base64url bytes

-- The six bits of every character.
abbrev with_digit : Option ℕ → Option (List ℕ) → Option (List ℕ)
with_digit (some d) (some ds) = some (d ∷ ds)
with_digit _ _ = none

unfoldable pub digits_of : Text → Option (List ℕ)
unfolding digit_value
digits_of [] = some []
digits_of (c ∷ s) = with_digit (digit_value c) (digits_of s)

abbrev with_bytes : ℕ → ℕ → ℕ → Option (List ℕ) → Option (List ℕ)
with_bytes a b c none = none
with_bytes a b c (some bytes) = some (a ∷ b ∷ c ∷ bytes)

-- `atob` of the padded text: a single character is left over for no byte, and is refused.
unfoldable pub join_digits : List ℕ → Option (List ℕ)
join_digits [] = some []
join_digits (p ∷ []) = none
join_digits (p ∷ q ∷ []) = some ((p * 4 + q / 16) ∷ [])
join_digits (p ∷ q ∷ r ∷ []) = some ((p * 4 + q / 16) ∷ (q % 16 * 16 + r / 4) ∷ [])
join_digits (p ∷ q ∷ r ∷ s ∷ ds) =
    with_bytes (p * 4 + q / 16) (q % 16 * 16 + r / 4) (r % 4 * 64 + s) (join_digits ds)

abbrev joined : Option (List ℕ) → Option (List ℕ)
joined none = none
joined (some ds) = join_digits ds

-- `fromBase64url`, which refuses the empty text
unfoldable pub from_base64url : Text → Option (List ℕ)
unfolding digits_of join_digits
from_base64url [] = none
from_base64url (c ∷ s) = joined (digits_of (c ∷ s))

digit_value-digit_char : (n : ℕ) → n < 64 → digit_value (digit_char n) ≡ some n
unfolding digit_value digit_char
digit_value-digit_char n h = ground arith

abbrev pub IsByte : ℕ → Type 0
IsByte n = n < 256

-- The three bytes of four characters.
byte_one : (a b : ℕ) → a < 256 → b < 256 → a / 4 * 4 + (a % 4 * 16 + b / 16) / 16 ≡ a
byte_one a b h k = omega arith

byte_two :
    (a b c : ℕ)
    → b < 256
    → c < 256
    → (a % 4 * 16 + b / 16) % 16 * 16 + (b % 16 * 4 + c / 64) / 4 ≡ b
byte_two a b c h k = omega arith

byte_three : (b c : ℕ) → c < 256 → (b % 16 * 4 + c / 64) % 4 * 64 + c % 64 ≡ c
byte_three b c h = omega arith

four_digits :
    (a b c : ℕ) (ds : Option (List ℕ)) (bytes : List ℕ)
    → a < 256
    → b < 256
    → c < 256
    → joined ds ≡ some bytes
    → joined (
        with_digit (some (a / 4)) (
          with_digit
            (some (a % 4 * 16 + b / 16))
            (with_digit (some (b % 16 * 4 + c / 64)) (with_digit (some (c % 64)) ds))))
      ≡ some (a ∷ b ∷ c ∷ bytes)
unfolding join_digits
four_digits a b c none bytes ha hb hc h = cc
four_digits a b c (some ds) bytes ha hb hc h =
    rw (h, byte_one a b ha hb, byte_two a b c hb hc, byte_three b c hc) refl

joined_digits :
    (bytes : List ℕ) → All IsByte bytes → joined (digits_of (base64url bytes)) ≡ some bytes
unfolding base64url digits_of join_digits
joined_digits [] h = refl
joined_digits (a ∷ []) (ha, _) =
    rw
      (
        digit_value-digit_char (a / 4) (omega arith),
        digit_value-digit_char (a % 4 * 16) (omega arith),
      )
      (ap (λ (x : ℕ). some (x ∷ [])) (omega arith))
joined_digits (a ∷ b ∷ []) (ha, (hb, _)) =
    let second : b % 16 * 4 / 4 ≡ b % 16 = omega arith in
    rw
      (
        digit_value-digit_char (a / 4) (omega arith),
        digit_value-digit_char (a % 4 * 16 + b / 16) (omega arith),
        digit_value-digit_char (b % 16 * 4) (omega arith),
        byte_one a b ha hb,
      )
      (ap (λ (x : ℕ). some (a ∷ x ∷ [])) (omega arith))
joined_digits (a ∷ b ∷ c ∷ bytes) (ha, (hb, (hc, h))) =
    rw
      (
        digit_value-digit_char (a / 4) (omega arith),
        digit_value-digit_char (a % 4 * 16 + b / 16) (omega arith),
        digit_value-digit_char (b % 16 * 4 + c / 64) (omega arith),
        digit_value-digit_char (c % 64) (omega arith),
      )
      (four_digits a b c (digits_of (base64url bytes)) bytes ha hb hc (joined_digits bytes h))

-- Decoding the base64url text of any bytes, at least one, gives the bytes back.
pub from_base64url-base64url :
    (b : ℕ) (bytes : List ℕ)
    → All IsByte (b ∷ bytes)
    → from_base64url (base64url (b ∷ bytes)) ≡ some (b ∷ bytes)
unfolding from_base64url base64url
from_base64url-base64url b [] h = joined_digits (b ∷ []) h
from_base64url-base64url b (c ∷ []) h = joined_digits (b ∷ c ∷ []) h
from_base64url-base64url b (c ∷ d ∷ bytes) h = joined_digits (b ∷ c ∷ d ∷ bytes) h
