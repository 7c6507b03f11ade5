-- ===== src/Lookup/Client/Effort.antt =====
-- How many requests a lookup makes, and how long it waits.
use oati.Prelude.{
  ℕ, zero, suc, ◌+◌, ◌*◌, ◌≤◌, Bool, true, false, Option, none, some, List, [], ◌∷◌, length, All,
  All-append, Text, arith, if_holds,
}
use oati.Lookup.Types.{
  CacheEntry, LookupOptions, Query, Attempt, failed, got, lookup_error, other, LookupError,
  LookupResponse,
}
use oati.Lookup.Options.{OatiLookupClient, Retries}
use oati.Lookup.Request.{
  World, Network, Answered, retry_delay, request_once, request_with_retry, waited, again,
  timeout_refused,
}
use oati.Lookup.Cache.{Cache, cache_key, find_entry}
use oati.Lookup.Client.{
  After, Reaction, reaction, give_up, remember, next_resolver, react_error, react, try_resolvers,
  reusable, serve_or_request, lookup_selected_detailed, lookup_cases, start,
}

-- At most so many requests have been made, and no wait was longer than the limit.
pub record Effort (requests limit : ℕ) (w : World) : Type 0 where
  pub few : w.requests ≤ requests
  pub short : All (λ (d : ℕ). d ≤ limit) w.delays

retry_delay-le :
    (e : LookupError) (attempt : ℕ) (retry : Retries)
    → retry_delay e attempt retry ≤ retry.max_delay_ms
unfolding retry_delay
retry_delay-le e attempt retry = ground arith

more : (m n limit : ℕ) (w : World) → m ≤ n → Effort m limit w → Effort n limit w
more m n limit w h e = record { few = omega (arith, e.few); short = e.short }

waited-Effort :
    (n limit d : ℕ) (w : World) → d ≤ limit → Effort n limit w → Effort n limit (waited w d)
waited-Effort n limit d w h e = record {
  few = e.few;
  short = All-append (λ (d : ℕ). d ≤ limit) w.delays (d ∷ []) e.short (h, tt);
}

module _ (client : OatiLookupClient) (net : Network) (query : Query) (options : LookupOptions) where
  abbrev limit : ℕ
  limit = client.retries.max_delay_ms

  request_once-Effort :
      (url : Text) (cached : Option CacheEntry) (n : ℕ) (w : World)
      → Effort n limit w
      → Effort (n + 1) limit (request_once client net url query options cached w).1
  unfolding request_once
  request_once-Effort url cached n w h =
      if_holds (λ (a : Attempt Answered × World). Effort (n + 1) limit a.1)
        (timeout_refused options.timeout_ms) (more n (n + 1) limit w (omega arith) h)
        (record { few = omega (arith, h.few); short = h.short })

  again-Effort :
      (n : ℕ) (rest : LookupError → Attempt Answered × World) (outcome : Attempt Answered)
      (w : World) (failure : Option LookupError) (aborted : Bool)
      → Effort n limit w
      → ((e : LookupError) → Effort n limit (rest e).1)
      → Effort n limit (again rest outcome w failure aborted).1
  unfolding again
  again-Effort n rest outcome w none aborted h k = h
  again-Effort n rest outcome w (some e) true h k = h
  again-Effort n rest outcome w (some e) false h k = k e

  request_with_retry-Effort :
      (left : ℕ) (url : Text) (cached : Option CacheEntry) (attempt n : ℕ) (w : World)
      → Effort n limit w
      → Effort
          (n + suc left)
          limit
          (request_with_retry client net url query options cached left attempt w).1
  unfolding request_with_retry
  request_with_retry-Effort zero url cached attempt n w h = request_once-Effort url cached n w h
  request_with_retry-Effort (suc left) url cached attempt n w h =
      let made = request_once-Effort url cached n w h in
      again-Effort (n + suc (suc left)) _ _ _ _ _
        (more (n + 1) (n + suc (suc left)) limit _ (omega arith) made)
        λ e. more (n + 1 + suc left) (n + suc (suc left)) limit _ (omega arith) (
          request_with_retry-Effort left url cached (suc attempt) (n + 1) _
            (waited-Effort (n + 1) limit _ _ (retry_delay-le e (suc attempt) client.retries) made))

  abbrev per_resolver : ℕ
  per_resolver = suc client.retries.max_retries

  module _ (n : ℕ) (url : Text) (es : Cache) (rest : LookupError → After LookupResponse) (w : World)
      (h : Effort n limit w) where
    react_error-Effort :
        (e : LookupError) (r : Reaction)
        → Effort n limit (rest e).world
        → Effort n limit (react_error client net query options url es rest w e r).world
    unfolding react_error
    react_error-Effort e give_up k = h
    react_error-Effort e remember k = h
    react_error-Effort e next_resolver k = k

    react-Effort :
        (outcome : Attempt Answered)
        → ((e : LookupError) → Effort n limit (rest e).world)
        → Effort n limit (react client net query options url es rest w outcome).world
    unfolding react
    react-Effort (got response) k = h
    react-Effort (failed (other e)) k = h
    react-Effort (failed (lookup_error e)) k = react_error-Effort e (reaction e.code) (k e)

  try_resolvers-Effort :
      (urls : List Text) (cached : Option CacheEntry) (last : Option LookupError) (es : Cache)
      (n : ℕ) (w : World)
      → Effort n limit w
      → Effort
          (n + length urls * per_resolver)
          limit
          (try_resolvers client net query options cached urls last es w).world
  unfolding try_resolvers
  try_resolvers-Effort [] cached last es n w h =
      more n (n + 0 * per_resolver) limit w (omega arith) h
  try_resolvers-Effort (url ∷ urls) cached last es n w h =
      let tried =
        request_with_retry-Effort client.retries.max_retries url (reusable options.cache cached url)
          0 n w h in
      react-Effort (n + suc (length urls) * per_resolver) url es _ _
        (more (n + per_resolver) (n + suc (length urls) * per_resolver) limit _ (omega arith) tried)
        _
        λ e.
          more (n + per_resolver + length urls * per_resolver)
            (n + suc (length urls) * per_resolver) limit _ (omega arith)
            (try_resolvers-Effort urls cached (some e) es (n + per_resolver) _ tried)

  nothing_yet : (n : ℕ) → Effort n limit start
  nothing_yet n = record { few = omega arith; short = tt }

  serve_or_request-Effort :
      (entry : Option CacheEntry) (es : Cache)
      → Effort
          (length client.resolver_urls * per_resolver)
          limit
          (serve_or_request client net query options es entry).world
  unfolding serve_or_request
  serve_or_request-Effort (some entry) es = nothing_yet _
  serve_or_request-Effort none es =
      more (0 + length client.resolver_urls * per_resolver)
        (length client.resolver_urls * per_resolver) limit _ (omega arith)
        (try_resolvers-Effort client.resolver_urls (find_entry es (cache_key query)) none es 0 start
          (nothing_yet 0))

-- A lookup ends: it makes at most as many requests as the number of resolvers times one more than
-- `maxRetries`, and it never waits longer than `maxDelayMs` before a retry, whatever `Retry-After` a
-- resolver sends and whatever the network answers.
pub lookup_selected_detailed-Effort :
    (client : OatiLookupClient) (net : Network) (query : Query) (options : LookupOptions)
    (es : Cache)
    → Effort
        (length client.resolver_urls * suc client.retries.max_retries)
        client.retries.max_delay_ms
        (lookup_selected_detailed client net query options es).world
lookup_selected_detailed-Effort client net query options es =
    lookup_cases
      (λ (a : After LookupResponse).
        Effort (length client.resolver_urls * suc client.retries.max_retries)
          client.retries.max_delay_ms a.world)
      client net query options es (nothing_yet client net query options _)
      (nothing_yet client net query options _)
      (serve_or_request-Effort client net query options _ es)
