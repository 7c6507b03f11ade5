-- ===== src/Lookup/Request.antt =====
-- One request to a resolver, and its retries. The network is a parameter: what it answers to a
-- request, the clock, and whether the caller's signal is aborted, each after the requests and waits
-- that the call has made.
use oati.Prelude.{
  ℕ, zero, suc, ◌+◌, ◌-◌, ◌*◌, ◌^◌, min, Bool, true, false, ◌&&◌, Option, none, some, List, [], ◌∷◌,
  ◌++◌, if◌then◌else◌, ltb, leb, eqb, Text, text, range_error,
}
use oati.Prelude.Ints.{pos, negsuc}
use oati.Json.{Json, Fields}
use oati.Lookup.Types.{
  RateLimitInfo, ErrorCode, rate_limited, unavailable, invalid_response, timeout, cancelled,
  LookupError, lookup_error, other, Attempt, failed, got, CacheEntry, LookupOptions, Query,
}
use oati.Lookup.Options.{OatiLookupClient, Retries}
use oati.Lookup.Records.{is_public_record, answers, normalize_public_record}
use oati.Lookup.Headers.{
  Platform, Interruption, refused, timer, signal, Response, expiry, is_cacheable, rate_limit_info,
  response_error, plain_error_of, Reading, whole, too_long, broken, read_chunks,
}

pub data Payload : Type 0 where
  payload : Option Json → Payload
  rejected : Payload
  stopped : Interruption → Payload

abbrev parsed : Option Json → Payload
parsed none = rejected
parsed (some value) = payload (some value)

abbrev decoded : Platform → Option Text → Payload
decoded platform none = rejected
decoded platform (some []) = payload none
decoded platform (some (c ∷ s)) = parsed (platform.parse_json (c ∷ s))

unfoldable pub payload_of : Platform → Reading → Payload
payload_of platform (whole bytes) = decoded platform (platform.decode_utf8 bytes)
payload_of platform too_long = rejected
payload_of platform (broken interruption) = stopped interruption

-- `Number.isFinite(declared) && declared > maximum`, of a header; that of an absent one is 0
unfoldable pub declared_too_long : Platform → ℕ → Option Text → Bool
declared_too_long platform maximum none = false
declared_too_long platform maximum (some length) = elim (platform.runtime.number_of_text length) [
  | none ↦ false
  | some (pos n) ↦ ltb maximum n
  | some (negsuc n) ↦ false
]

-- `readPayload`
unfoldable pub read_payload : Platform → ℕ → Response → Payload
unfolding payload_of read_chunks declared_too_long
read_payload platform maximum response =
    if declared_too_long platform maximum (response.header (text "Content-Length"))
    then rejected
    else elim response.body [
      | none ↦ payload none
      | some body ↦ payload_of platform (read_chunks maximum body.chunks body.interrupted [])
    ]

-- The requests that a call has made, and how long it waited before each retry.
pub record World : Type 0 where
  pub requests : ℕ
  pub delays : List ℕ

pub record Request : Type 0 where
  pub resolver_url : Text
  pub query : Query
  pub if_none_match : Option Text

pub data Answer : Type 0 where
  interrupted : Interruption → Answer
  responded : Response → Answer

pub record Network : Type 0 where
  pub platform : Platform
  pub answer : World → Request → Answer
  pub now : World → ℕ
  pub aborted : World → Bool

-- What `requestOnce` returns.
pub record Answered : Type 0 where
  pub public_record : Fields
  pub expires_at : ℕ
  pub etag : Option Text
  pub rate_limit : RateLimitInfo
  pub revalidated : Bool
  pub cacheable : Bool

-- The error of an interrupted request
abbrev pub interruption_code : Interruption → ErrorCode
interruption_code signal = cancelled
interruption_code timer = timeout
interruption_code refused = unavailable

abbrev pub fail_with {ℓ} : {A : Type ℓ} → ErrorCode → Attempt A
fail_with code = failed (lookup_error (plain_error_of code none))

-- `{ ...cached.rateLimit, ...rateLimit }`
abbrev newer {ℓ} : {A : Type ℓ} → Option A → Option A → Option A
newer old none = old
newer old (some value) = some value

unfoldable pub merge_rate_limit : RateLimitInfo → RateLimitInfo → RateLimitInfo
merge_rate_limit old new = record {
  limit = newer old.limit new.limit;
  remaining = newer old.remaining new.remaining;
  reset_at = newer old.reset_at new.reset_at;
  retry_after = newer old.retry_after new.retry_after;
}

abbrev invalid_answer : Response → RateLimitInfo → LookupError
invalid_answer response rate_limit = record {
  code = invalid_response;
  status = some response.status;
  retry_after = none;
  rate_limit = some rate_limit;
}

-- A public record that was received, if it is the one that was asked for.
unfoldable pub accept :
    OatiLookupClient
    → Platform
    → ℕ
    → Query
    → Response
    → RateLimitInfo
    → Option Fields
    → Attempt Answered
unfolding expiry is_cacheable answers normalize_public_record
accept client platform now query response rate_limit none =
    failed (lookup_error (invalid_answer response rate_limit))
accept client platform now query response rate_limit (some item) =
    if answers query item
    then got (record {
      public_record = normalize_public_record item;
      expires_at = expiry platform now response client.cache_options false;
      etag = response.header (text "ETag");
      rate_limit = rate_limit;
      revalidated = false;
      cacheable = is_cacheable response;
    })
    else failed (lookup_error (invalid_answer response rate_limit))

abbrev pub is_ok : Response → Bool
is_ok response = leb 200 response.status && leb response.status 299

unfoldable pub decide :
    OatiLookupClient → Platform → ℕ → Query → Response → RateLimitInfo → Payload → Attempt Answered
unfolding accept is_public_record response_error
decide client platform now query response rate_limit (payload value) =
    if is_ok response
    then accept client platform now query response rate_limit
        (is_public_record platform.parse_json value)
    else failed (lookup_error (response_error response rate_limit))
decide client platform now query response rate_limit rejected =
    failed (lookup_error (plain_error_of invalid_response (some response.status)))
decide client platform now query response rate_limit (stopped interruption) =
    fail_with (interruption_code interruption)

-- The cache entry that a request may reuse, with its record if it has one.
abbrev pub paired : CacheEntry → Option Fields → Option (CacheEntry × Fields)
paired entry none = none
paired entry (some item) = some (entry, item)

abbrev pub cached_record : Option CacheEntry → Option (CacheEntry × Fields)
cached_record none = none
cached_record (some entry) = paired entry entry.public_record

abbrev pub etag_of : Option CacheEntry → Option Text
etag_of none = none
etag_of (some entry) = elim entry.etag [
  | none ↦ none
  | some [] ↦ none
  | some (c ∷ s) ↦ some (c ∷ s)
]

unfoldable pub fresh :
    OatiLookupClient → Platform → ℕ → Query → Response → RateLimitInfo → Attempt Answered
unfolding decide read_payload
fresh client platform now query response rate_limit =
    decide client platform now query response rate_limit
      (read_payload platform client.max_response_bytes response)

-- `304 Not Modified` confirms the entry.
unfoldable pub revalidate :
    OatiLookupClient
    → Platform
    → ℕ
    → Query
    → Response
    → RateLimitInfo
    → Option (CacheEntry × Fields)
    → Attempt Answered
unfolding fresh expiry is_cacheable merge_rate_limit
revalidate client platform now query response rate_limit none =
    fresh client platform now query response rate_limit
revalidate client platform now query response rate_limit (some (entry, item)) =
    if eqb response.status 304
    then got (record {
      public_record = item;
      expires_at = expiry platform now response client.cache_options false;
      etag = entry.etag;
      rate_limit = merge_rate_limit entry.rate_limit rate_limit;
      revalidated = true;
      cacheable = is_cacheable response;
    })
    else fresh client platform now query response rate_limit

-- An exception while the headers are read is one of the request.
unfoldable pub with_limits :
    OatiLookupClient
    → Platform
    → ℕ
    → Query
    → Option CacheEntry
    → Response
    → Option RateLimitInfo
    → Attempt Answered
unfolding revalidate
with_limits client platform now query cached response none = fail_with unavailable
with_limits client platform now query cached response (some rate_limit) =
    revalidate client platform now query response rate_limit (cached_record cached)

unfoldable pub receive :
    OatiLookupClient → Platform → ℕ → Query → Option CacheEntry → Answer → Attempt Answered
unfolding rate_limit_info with_limits
receive client platform now query cached (interrupted interruption) =
    fail_with (interruption_code interruption)
receive client platform now query cached (responded response) =
    with_limits client platform now query cached response (rate_limit_info platform now response)

abbrev pub request_of : Text → Query → Option CacheEntry → Request
request_of url query cached = record {
  resolver_url = url;
  query = query;
  if_none_match = etag_of cached;
}

abbrev pub requested : World → World
requested w = record w { requests = w.requests + 1 }

-- `options.timeoutMs === undefined ? … : positive(options.timeoutMs, "timeoutMs")`
abbrev pub timeout_refused : Option ℕ → Bool
timeout_refused (some zero) = true
timeout_refused _ = false

-- `requestOnce`
unfoldable pub request_once :
    OatiLookupClient
    → Network
    → Text
    → Query
    → LookupOptions
    → Option CacheEntry
    → World
    → Attempt Answered × World
unfolding receive
request_once client net url query options cached w =
    if timeout_refused options.timeout_ms
    then (failed (other (range_error (text "timeoutMs must be positive"))), w)
    else (
      receive client net.platform (net.now w) query cached
          (net.answer w (request_of url query cached)),
      requested w,
    )

-- `retryable`
abbrev pub retryable : ErrorCode → Bool
retryable rate_limited = true
retryable unavailable = true
retryable timeout = true
retryable _ = false

-- `retryDelay`, before the attempt of that number
unfoldable pub retry_delay : LookupError → ℕ → Retries → ℕ
retry_delay error attempt retry = elim error.retry_after [
  | some seconds ↦ min (seconds * 1000) retry.max_delay_ms
  | none ↦ min (retry.base_delay_ms * 2 ^ (attempt - 1)) retry.max_delay_ms
]

-- The error after which another attempt is made.
unfoldable pub transient : Attempt Answered → Option LookupError
transient (failed (lookup_error e)) = if retryable e.code then some e else none
transient _ = none

abbrev pub waited : World → ℕ → World
waited w ms = record w { delays = w.delays ++ ms ∷ [] }

-- What follows a request: its outcome stands, the wait is cancelled, or another attempt is made.
unfoldable pub again :
    (LookupError → Attempt Answered × World)
    → Attempt Answered
    → World
    → Option LookupError
    → Bool
    → Attempt Answered × World
again rest outcome w none aborted = (outcome, w)
again rest outcome w (some e) true = (fail_with cancelled, w)
again rest outcome w (some e) false = rest e

-- `requestWithRetry`, with the attempts that are left after this one
unfoldable pub request_with_retry :
    OatiLookupClient
    → Network
    → Text
    → Query
    → LookupOptions
    → Option CacheEntry
    → ℕ
    → ℕ
    → World
    → Attempt Answered × World
unfolding request_once again transient retry_delay
request_with_retry client net url query options cached zero attempt w =
    request_once client net url query options cached w
request_with_retry client net url query options cached (suc left) attempt w =
    let (outcome, w') = request_once client net url query options cached w in
    again
      (λ e.
        request_with_retry client net url query options cached left (suc attempt)
          (waited w' (retry_delay e (suc attempt) client.retries)))
      outcome w' (transient outcome) (net.aborted w')
