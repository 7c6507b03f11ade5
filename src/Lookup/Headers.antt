-- ===== src/Lookup/Headers.antt =====
-- What the client reads from the headers and the body of a response. Instants are milliseconds since
-- the earliest that a `Date` can hold.
use oati.Prelude.{
  ℕ, ◌+◌, ◌-◌, ◌*◌, ◌/◌, Bool, true, false, not, ◌&&◌, ◌||◌, Option, none, some, List, [], ◌∷◌,
  ◌++◌, if◌then◌else◌, leb, ltb, eqb, length, drop, any, Text, text, starts_with,
}
use oati.Prelude.Ints.{ℤ, pos}
use oati.Json.{Json}
use oati.Evaluator.Conditions.{Runtime}
use oati.Evaluator.Decimal.{is_digit, all_digits, big_int_from}
use oati.Lookup.Types.{
  RateLimitInfo, ErrorCode, bad_request, not_found, rate_limited, unavailable, LookupError,
}
use oati.Lookup.Options.{CacheOptions}

-- The language's runtime: dates and numbers, `JSON.parse`, a strict `TextDecoder`, and `toISOString`
-- of seconds since 1970. `none` is an exception.
pub record Platform : Type 0 where
  pub runtime : Runtime
  pub parse_json : Text → Option Json
  pub decode_utf8 : List ℕ → Option Text
  pub iso_string : ℕ → Option Text

-- How reading from the network stops early: an error, the client's timer, or the caller's signal.
pub data Interruption : Type 0 where
  refused timer signal : Interruption

-- The chunks of a body, and what stops it after them.
pub record Body : Type 0 where
  pub chunks : List (List ℕ)
  pub interrupted : Option Interruption

pub record Response : Type 0 where
  pub status : ℕ
  pub header : Text → Option Text
  pub body : Option Body

-- 1970-01-01T00:00:00Z, the instant 0 of the source
unfoldable pub epoch : ℕ
epoch = 8640000000000000

-- `\s`, and what `trim` removes
unfoldable pub is_space : ℕ → Bool
is_space c =
    (leb 9 c && leb c 13)
    || ((leb 8192 c && leb c 8202)
        || any (eqb c) (32 ∷ 160 ∷ 5760 ∷ 8232 ∷ 8233 ∷ 8239 ∷ 8287 ∷ 12288 ∷ 65279 ∷ []))

-- `value.trim() === ""`
unfoldable pub is_blank : Text → Bool
unfolding is_space
is_blank [] = true
is_blank (c ∷ s) = is_space c && is_blank s

unfoldable pub lower : Text → Text
lower [] = []
lower (c ∷ s) = (if leb 65 c && leb c 90 then c + 32 else c) ∷ lower s

-- `\w` of a text in lower case
unfoldable pub is_word : ℕ → Bool
unfolding is_digit
is_word c = (leb 97 c && leb c 122) || (is_digit c || eqb c b'_')

abbrev ends_word : Text → Bool
unfolding is_word
ends_word [] = true
ends_word (c ∷ s) = not (is_word c)

-- /\bno-store\b/, behind a character that is of a word or not
unfoldable pub has_no_store : Bool → Text → Bool
unfolding is_word text
has_no_store inside [] = false
has_no_store inside (c ∷ s) =
    (not inside && (starts_with (c ∷ s) (text "no-store") && ends_word (drop 8 (c ∷ s))))
    || has_no_store (is_word c) s

abbrev read_so_far : Option ℕ → ℕ
read_so_far none = 0
read_so_far (some n) = n

-- `(\d+)`: the number at the beginning, if there is one
unfoldable pub read_digits : Option ℕ → Text → Option ℕ
unfolding is_digit
read_digits n [] = n
read_digits n (c ∷ s) =
    let rest = read_digits (some (read_so_far n * 10 + (c - b'0'))) s in
    if is_digit c then rest else n

-- /\s*(?:s-maxage|max-age)=(\d+)/ at the beginning
unfoldable pub age_here : Text → Option ℕ
unfolding is_space read_digits text
age_here [] = none
age_here (c ∷ s) =
    let rest = age_here s in
    if is_space c
    then rest
    else if starts_with (c ∷ s) (text "s-maxage=")
    then read_digits none (drop 9 (c ∷ s))
    else if starts_with (c ∷ s) (text "max-age=")
    then read_digits none (drop 8 (c ∷ s))
    else none

abbrev or_other : Option ℕ → Option ℕ → Option ℕ
or_other none b = b
or_other (some a) b = some a

-- The same behind the first comma where it matches.
unfoldable pub age_after_comma : Text → Option ℕ
unfolding age_here
age_after_comma [] = none
age_after_comma (c ∷ s) =
    let rest = age_after_comma s in if eqb c b',' then or_other (age_here s) rest else rest

abbrev pub header_or_empty : Option Text → Text
header_or_empty none = []
header_or_empty (some s) = s

abbrev pub cache_control : Response → Text
cache_control response = header_or_empty (response.header (text "Cache-Control"))

unfoldable pub is_cacheable : Response → Bool
unfolding has_no_store lower
is_cacheable response = not (has_no_store false (lower (cache_control response)))

-- `cache === false ? 0 : negative ? cache.negativeTtlMs : cache.ttlMs`
abbrev fallback : Option CacheOptions → Bool → ℕ
fallback none negative = 0
fallback (some cache) true = cache.negative_ttl_ms
fallback (some cache) false = cache.ttl_ms

unfoldable pub expiry : Platform → ℕ → Response → Option CacheOptions → Bool → ℕ
unfolding is_cacheable age_here age_after_comma lower epoch
expiry platform now response cache negative =
    let control = lower (cache_control response) in
    if not (is_cacheable response)
    then epoch
    else elim (or_other (age_here control) (age_after_comma control)) [
      | some seconds ↦ now + seconds * 1000
      | none ↦
          elim (platform.runtime.parse_date (header_or_empty (response.header (text "Expires")))) [
            | none ↦ now + fallback cache negative
            | some expires ↦ expires
          ]
    ]

-- `Number(value)`, where it is a finite number that is not negative
abbrev count_of : Option ℤ → Option ℕ
count_of (some (pos n)) = some n
count_of _ = none

-- `retryAfter`: seconds, or those to a date
unfoldable pub retry_after_of : Platform → ℕ → Option Text → Option ℕ
retry_after_of platform now none = none
retry_after_of platform now (some value) = elim (count_of (platform.runtime.number_of_text value)) [
  | some seconds ↦ some seconds
  | none ↦ elim (platform.runtime.parse_date value) [
    | none ↦ none
    | some date ↦ some ((date - now + 999) / 1000)
  ]
]

unfoldable pub integer_header : Platform → Option Text → Option ℕ
unfolding is_blank
integer_header platform none = none
integer_header platform (some raw) =
    if is_blank raw then none else count_of (platform.runtime.number_of_text raw)

-- The text of a reset, where digits are seconds; `none` is an exception.
unfoldable pub reset_of : Platform → Option Text → Option (Option Text)
unfolding all_digits big_int_from
reset_of platform none = some none
reset_of platform (some []) = some none
reset_of platform (some (c ∷ s)) =
    if all_digits (c ∷ s)
    then elim (platform.iso_string (big_int_from 0 (c ∷ s))) [
      | none ↦ none
      | some t ↦ some (some t)
    ]
    else some (some (c ∷ s))

unfoldable pub rate_limit_info : Platform → ℕ → Response → Option RateLimitInfo
unfolding reset_of integer_header retry_after_of
rate_limit_info platform now response =
    elim (reset_of platform (response.header (text "X-RateLimit-Reset"))) [
      | none ↦ none
      | some reset ↦ some (record {
        limit = integer_header platform (response.header (text "X-RateLimit-Limit"));
        remaining = integer_header platform (response.header (text "X-RateLimit-Remaining"));
        reset_at = reset;
        retry_after = retry_after_of platform now (response.header (text "Retry-After"));
      })
    ]

abbrev pub plain_error_of : ErrorCode → Option ℕ → LookupError
plain_error_of code status = record {
  code = code;
  status = status;
  retry_after = none;
  rate_limit = none;
}

-- `responseError`
abbrev error_code : ℕ → ErrorCode
error_code status =
    if eqb status 400
    then bad_request
    else if eqb status 404
    then not_found
    else if eqb status 429
    then rate_limited
    else unavailable

unfoldable pub response_error : Response → RateLimitInfo → LookupError
response_error response rate_limit = record {
  code = error_code response.status;
  status = some response.status;
  retry_after = rate_limit.retry_after;
  rate_limit = some rate_limit;
}

-- How reading a body ends: with its bytes, beyond the maximum, or early.
pub data Reading : Type 0 where
  whole : List ℕ → Reading
  too_long : Reading
  broken : Interruption → Reading

abbrev ending : Option Interruption → List ℕ → Reading
ending none bytes = whole bytes
ending (some interruption) bytes = broken interruption

-- The loop of `readPayload`, after the bytes that have been read.
unfoldable pub read_chunks : ℕ → List (List ℕ) → Option Interruption → List ℕ → Reading
read_chunks maximum [] interrupted bytes = ending interrupted bytes
read_chunks maximum (chunk ∷ chunks) interrupted bytes =
    let rest = read_chunks maximum chunks interrupted (bytes ++ chunk) in
    if ltb maximum (length bytes + length chunk) then too_long else rest
