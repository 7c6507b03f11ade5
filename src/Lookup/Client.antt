-- ===== src/Lookup/Client.antt =====
-- `lookupSelectedDetailed`, the lookups that call it, and `lookupState`. A lookup returns its outcome,
-- the cache, and the requests and waits that it made. Only one lookup runs at a time.
pub mod Bounds
pub mod Effort
pub mod Matching
pub mod Sound
pub mod Failover
use oati.Prelude.{
  ℕ, zero, suc, ◌+◌, Bool, true, false, not, ◌&&◌, ◌||◌, Option, none, some, List, [], ◌∷◌,
  if◌then◌else◌, if_holds, ltb, Text, text, ◌==◌, includes,
}
use oati.Json.{Json, str, Fields, get}
use oati.Lookup.Types.{
  oati_record_types, RateLimitInfo, ErrorCode, bad_request, not_found, rate_limited, unavailable,
  invalid_response, timeout, cancelled, LookupError, Failure, lookup_error, other, Attempt, failed,
  got, CacheUse, hit, miss, revalidated, LookupResponse, LookupState, found, invalid_proof,
  unavailable_proof, unknown_proof, absent, no_resolver, CacheMode, default, reload, no_store,
  LookupOptions, CacheEntry, Query, by_id, by_target,
}
use oati.Lookup.Options.{OatiLookupClient, CacheOptions}
use oati.Lookup.Records.{one_of}
use oati.Lookup.Headers.{is_blank, plain_error_of}
use oati.Lookup.Request.{World, Network, Answered, fail_with, request_with_retry}
use oati.Lookup.Cache.{Cache, cache_key, find_entry, touch, store}

pub record After {ℓ} (Value : Type ℓ) : Type ℓ where
  pub outcome : Attempt Value
  pub cache : Cache
  pub world : World

-- `validateInput`
unfoldable pub invalid_input : Query → Bool
unfolding is_blank oati_record_types
invalid_input query = not (includes oati_record_types query.type) || is_blank query.value

abbrev pub may_store : CacheMode → Bool
may_store no_store = false
may_store _ = true

abbrev pub may_read : CacheMode → Bool
may_read default = true
may_read _ = false

-- `cached` of the source, where it may be served
unfoldable pub live_entry : CacheMode → ℕ → Option CacheEntry → Option CacheEntry
live_entry mode now none = none
live_entry mode now (some entry) =
    if may_read mode && ltb now entry.expires_at then some entry else none

abbrev pub not_found_hit : LookupError
not_found_hit = plain_error_of not_found (some 404)

-- A cached answer. Every entry that is stored has a record or is of one that was not found, so that
-- the case of neither is never reached.
abbrev pub served : CacheEntry → Option Fields → Attempt LookupResponse
served entry none = failed (lookup_error not_found_hit)
served entry (some item) = got (record {
  public_record = item;
  resolver_url = entry.resolver_url;
  cache = hit;
  rate_limit = entry.rate_limit;
})

unfoldable pub serve : CacheEntry → Attempt LookupResponse
serve entry =
    if entry.not_found
    then failed (lookup_error not_found_hit)
    else served entry entry.public_record

-- The entry that a request to a resolver may revalidate.
unfoldable pub reusable : CacheMode → Option CacheEntry → Text → Option CacheEntry
reusable mode none url = none
reusable mode (some entry) url =
    if may_store mode && entry.resolver_url == url then some entry else none

abbrev pub entry_of : Text → Answered → CacheEntry
entry_of url response = record {
  public_record = some response.public_record;
  not_found = false;
  expires_at = response.expires_at;
  etag = response.etag;
  resolver_url = url;
  rate_limit = response.rate_limit;
}

abbrev no_limits : RateLimitInfo
no_limits = record { limit = none; remaining = none; reset_at = none; retry_after = none }

abbrev limits_of : Option RateLimitInfo → RateLimitInfo
limits_of none = no_limits
limits_of (some limits) = limits

abbrev pub absence_of : CacheOptions → Text → ℕ → LookupError → CacheEntry
absence_of options url now e = record {
  public_record = none;
  not_found = true;
  expires_at = now + options.negative_ttl_ms;
  etag = none;
  resolver_url = url;
  rate_limit = limits_of e.rate_limit;
}

-- A record that is missing is remembered.
unfoldable pub store_absence :
    Option CacheOptions → CacheMode → Cache → Text → Text → ℕ → LookupError → Cache
unfolding store
store_absence none mode es key url now e = es
store_absence (some options) mode es key url now e =
    if may_store mode then store (some options) es key (absence_of options url now e) else es

unfoldable pub store_answer :
    Option CacheOptions → CacheMode → Cache → Text → Text → Answered → Cache
unfolding store
store_answer options mode es key url response =
    if may_store mode && response.cacheable
    then store options es key (entry_of url response)
    else es

abbrev pub response_of : Text → Answered → LookupResponse
response_of url response = record {
  public_record = response.public_record;
  resolver_url = url;
  cache = if response.revalidated then revalidated else miss;
  rate_limit = response.rate_limit;
}

-- What an error of a resolver means for the lookup.
pub data Reaction : Type 0 where
  give_up remember next_resolver : Reaction

abbrev pub reaction : ErrorCode → Reaction
reaction cancelled = give_up
reaction bad_request = give_up
reaction invalid_response = give_up
reaction not_found = remember
reaction _ = next_resolver

abbrev last_or_unavailable : Option LookupError → LookupError
last_or_unavailable none = plain_error_of unavailable none
last_or_unavailable (some e) = e

-- What follows an error of a resolver: the lookup ends, or it goes on with the next resolver.
unfoldable pub react_error :
    OatiLookupClient
    → Network
    → Query
    → LookupOptions
    → Text
    → Cache
    → (LookupError → After LookupResponse)
    → World
    → LookupError
    → Reaction
    → After LookupResponse
unfolding store_absence cache_key
react_error client net query options url es rest w e give_up = record {
  outcome = failed (lookup_error e);
  cache = es;
  world = w;
}
react_error client net query options url es rest w e remember = record {
  outcome = failed (lookup_error e);
  cache = store_absence client.cache_options options.cache es (cache_key query) url (net.now w) e;
  world = w;
}
react_error client net query options url es rest w e next_resolver = rest e

unfoldable pub react :
    OatiLookupClient
    → Network
    → Query
    → LookupOptions
    → Text
    → Cache
    → (LookupError → After LookupResponse)
    → World
    → Attempt Answered
    → After LookupResponse
unfolding store_answer react_error cache_key
react client net query options url es rest w (got response) = record {
  outcome = got (response_of url response);
  cache = store_answer client.cache_options options.cache es (cache_key query) url response;
  world = w;
}
react client net query options url es rest w (failed (other e)) = record {
  outcome = failed (other e);
  cache = es;
  world = w;
}
react client net query options url es rest w (failed (lookup_error e)) =
    react_error client net query options url es rest w e (reaction e.code)

-- The loop over the resolvers, with the last error.
unfoldable pub try_resolvers :
    OatiLookupClient
    → Network
    → Query
    → LookupOptions
    → Option CacheEntry
    → List Text
    → Option LookupError
    → Cache
    → World
    → After LookupResponse
unfolding react request_with_retry reusable
try_resolvers client net query options cached [] last es w = record {
  outcome = failed (lookup_error (last_or_unavailable last));
  cache = es;
  world = w;
}
try_resolvers client net query options cached (url ∷ urls) last es w =
    let (outcome, w') =
      request_with_retry client net url query options (reusable options.cache cached url)
        client.retries.max_retries 0 w in
    react client net query options url es
      (λ e. try_resolvers client net query options cached urls (some e) es w') w' outcome

abbrev pub start : World
start = record { requests = 0; delays = [] }

abbrev pub refuse : ErrorCode → Cache → After LookupResponse
refuse code es = record { outcome = fail_with code; cache = es; world = start }

-- The entry that may be served, or else the resolvers.
unfoldable pub serve_or_request :
    OatiLookupClient
    → Network
    → Query
    → LookupOptions
    → Cache
    → Option CacheEntry
    → After LookupResponse
unfolding serve try_resolvers find_entry touch cache_key
serve_or_request client net query options es (some entry) = record {
  outcome = serve entry;
  cache = touch es (cache_key query) entry;
  world = start;
}
serve_or_request client net query options es none =
    try_resolvers client net query options (find_entry es (cache_key query)) client.resolver_urls
      none es start

-- `lookupSelectedDetailed`
unfoldable pub lookup_selected_detailed :
    OatiLookupClient → Network → Query → LookupOptions → Cache → After LookupResponse
unfolding invalid_input live_entry serve_or_request find_entry cache_key
lookup_selected_detailed client net query options es =
    if invalid_input query
    then refuse bad_request es
    else if net.aborted start
    then refuse cancelled es
    else serve_or_request client net query options es
        (live_entry options.cache (net.now start) (find_entry es (cache_key query)))

-- A lookup is refused, or it is served or requested.
pub lookup_cases {κ} :
    (P : After LookupResponse → Type κ) (client : OatiLookupClient) (net : Network) (query : Query)
    (options : LookupOptions) (es : Cache)
    → P (refuse bad_request es)
    → P (refuse cancelled es)
    → P (
        serve_or_request client net query options es
          (live_entry options.cache (net.now start) (find_entry es (cache_key query))))
    → P (lookup_selected_detailed client net query options es)
unfolding lookup_selected_detailed
lookup_cases P client net query options es bad cancel served =
    if_holds P (invalid_input query) bad (if_holds P (net.aborted start) cancel served)

abbrev pub lookup_detailed :
    OatiLookupClient → Network → Text → Text → LookupOptions → Cache → After LookupResponse
lookup_detailed client net type id =
    lookup_selected_detailed client net (record { type = type; selector = by_id; value = id })

abbrev pub lookup_revocation_by_target_detailed :
    OatiLookupClient → Network → Text → LookupOptions → Cache → After LookupResponse
lookup_revocation_by_target_detailed client net target =
    lookup_selected_detailed client net
      (record { type = text "revocation"; selector = by_target; value = target })

-- `lookupState`, of the outcome of `lookupDetailed`
abbrev state_of_error : LookupError → Attempt LookupState
state_of_error e = elim e.code [
  | not_found ↦ got (absent e)
  | unavailable ↦ got (no_resolver e)
  | timeout ↦ got (no_resolver e)
  | rate_limited ↦ got (no_resolver e)
  | _ ↦ failed (lookup_error e)
]

unfoldable pub state_of : Attempt LookupResponse → Attempt LookupState
unfolding one_of
state_of (failed (other e)) = failed (other e)
state_of (failed (lookup_error e)) = state_of_error e
state_of (got response) =
    let proof = get response.public_record (text "proof_status") in
    got (
      if one_of (text "invalid" ∷ []) proof
      then invalid_proof response
      else if one_of (text "unavailable" ∷ []) proof
      then unavailable_proof response
      else if one_of (text "unknown" ∷ []) proof
      then unknown_proof response
      else found response)

unfoldable pub lookup_state :
    OatiLookupClient → Network → Text → Text → LookupOptions → Cache → Attempt LookupState × Cache
unfolding lookup_selected_detailed state_of
lookup_state client net type id options es =
    let after = lookup_detailed client net type id options es in
    (state_of after.outcome, after.cache)
