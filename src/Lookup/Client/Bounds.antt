-- ===== src/Lookup/Client/Bounds.antt =====
-- The cache of a client never outgrows its options.
use oati.Prelude.{
  ℕ, ◌≤◌, ◌<◌, Bool, not, Option, none, some, List, [], ◌∷◌, ◌≡◌, refl, length, length-append, keep,
  if_holds, Text, ◌==◌, arith,
}
use oati.Lookup.Types.{
  CacheEntry, LookupOptions, Query, Attempt, failed, got, lookup_error, other, LookupError,
  CacheMode, LookupResponse,
}
use oati.Lookup.Options.{OatiLookupClient, CacheOptions}
use oati.Lookup.Request.{World, Network, Answered}
use oati.Lookup.Cache.{
  Cache, cache_key, find_entry, delete_entry, touch, evict, store, clear_cache,
  clear_revocation_target_cache,
}
use oati.Lookup.Client.{
  After, Reaction, reaction, react_error, serve_or_request, give_up, remember, next_resolver, react,
  try_resolvers, store_answer, store_absence, live_entry, lookup_selected_detailed, lookup_cases,
  start,
}

-- A call of the client, in the network as it then is.
pub data Operation : Type 0 where
  lookup : Network → Query → LookupOptions → Operation
  clear : Option Text → Option Text → Operation
  clear_target : Option Text → Operation

unfoldable pub step : OatiLookupClient → Operation → Cache → Cache
unfolding lookup_selected_detailed clear_cache clear_revocation_target_cache
step client (lookup net query options) es =
    (lookup_selected_detailed client net query options es).cache
step client (clear type id) es = clear_cache es type id
step client (clear_target target) es = clear_revocation_target_cache es target

-- The cache after a sequence of calls.
unfoldable pub run : OatiLookupClient → List Operation → Cache → Cache
unfolding step
run client [] es = es
run client (call ∷ calls) es = run client calls (step client call es)

-- The greatest number of entries.
abbrev pub capacity : Option CacheOptions → ℕ
capacity none = 0
capacity (some options) = options.max_entries

length-keep-le : (p : (Text × CacheEntry) → Bool) (es : Cache) → length (keep p es) ≤ length es
length-keep-le p [] = omega arith
length-keep-le p (e ∷ es) = ground (arith, length-keep-le p es)

length-delete_found :
    (es : Cache) (key : Text) (entry : CacheEntry)
    → find_entry es key ≡ some entry
    → length (delete_entry es key) < length es
unfolding find_entry
length-delete_found [] key entry h = cc
length-delete_found ((k, e) ∷ es) key entry h =
    ground (arith, length-delete_found es key entry, length-keep-le (λ e. not (e.0 == key)) es)

length-touch_found :
    (es : Cache) (key : Text) (entry found : CacheEntry)
    → find_entry es key ≡ some found
    → length (touch es key entry) ≤ length es
unfolding touch
length-touch_found es key entry found h = omega (
  arith,
  length-delete_found es key found h,
  length-append (delete_entry es key) ((key, entry) ∷ []),
)

length-evict : (maximum : ℕ) (es : Cache) → length (evict maximum es) ≤ maximum
unfolding evict
length-evict maximum [] = omega arith
length-evict maximum (e ∷ es) = ground (arith, length-evict maximum es)

store-Bounded :
    (options : Option CacheOptions) (es : Cache) (key : Text) (entry : CacheEntry)
    → length es ≤ capacity options
    → length (store options es key entry) ≤ capacity options
unfolding store
store-Bounded none es key entry h = h
store-Bounded (some options) es key entry h = length-evict options.max_entries _

found_of_live :
    (mode : CacheMode) (now : ℕ) (cached : Option CacheEntry) (entry : CacheEntry)
    → live_entry mode now cached ≡ some entry
    → (found : CacheEntry) × (cached ≡ some found)
unfolding live_entry
found_of_live mode now none entry h = cc
found_of_live mode now (some found) entry h = (found, refl)

module _ (client : OatiLookupClient) (net : Network) (query : Query) (options : LookupOptions) where
  abbrev Bounded : Cache → Type 0
  Bounded es = length es ≤ capacity client.cache_options

  store_answer-Bounded :
      (es : Cache) (url : Text) (response : Answered)
      → Bounded es
      → Bounded (store_answer client.cache_options options.cache es (cache_key query) url response)
  unfolding store_answer
  store_answer-Bounded es url response h =
      if_holds Bounded _ (store-Bounded client.cache_options es (cache_key query) _ h) h

  store_absence-Bounded :
      (choice : Option CacheOptions) (es : Cache) (url : Text) (now : ℕ) (e : LookupError)
      → length es ≤ capacity choice
      → length (store_absence choice options.cache es (cache_key query) url now e) ≤ capacity choice
  unfolding store_absence
  store_absence-Bounded none es url now e h = h
  store_absence-Bounded (some choice) es url now e h =
      if_holds (λ (es : Cache). length es ≤ capacity (some choice)) _
        (store-Bounded (some choice) es (cache_key query) _ h) h

  module _ (url : Text) (es : Cache) (rest : LookupError → After LookupResponse) (w : World) where
    react_error-Bounded :
        (e : LookupError) (r : Reaction)
        → Bounded es
        → Bounded (rest e).cache
        → Bounded (react_error client net query options url es rest w e r).cache
    unfolding react_error
    react_error-Bounded e give_up h k = h
    react_error-Bounded e remember h k =
        store_absence-Bounded client.cache_options es url (net.now w) e h
    react_error-Bounded e next_resolver h k = k

    react-Bounded :
        (outcome : Attempt Answered)
        → Bounded es
        → ((e : LookupError) → Bounded (rest e).cache)
        → Bounded (react client net query options url es rest w outcome).cache
    unfolding react
    react-Bounded (got response) h k = store_answer-Bounded es url response h
    react-Bounded (failed (other e)) h k = h
    react-Bounded (failed (lookup_error e)) h k = react_error-Bounded e (reaction e.code) h (k e)

  try_resolvers-Bounded :
      (cached : Option CacheEntry) (urls : List Text) (last : Option LookupError) (es : Cache)
      (w : World)
      → Bounded es
      → Bounded (try_resolvers client net query options cached urls last es w).cache
  unfolding try_resolvers
  try_resolvers-Bounded cached [] last es w h = h
  try_resolvers-Bounded cached (url ∷ urls) last es w h =
      react-Bounded url es _ _ _ h λ e. try_resolvers-Bounded cached urls (some e) es _ h

  serve_or_request-Bounded :
      (es : Cache) (entry : Option CacheEntry)
      → live_entry options.cache (net.now start) (find_entry es (cache_key query)) ≡ entry
      → Bounded es
      → Bounded (serve_or_request client net query options es entry).cache
  unfolding serve_or_request
  serve_or_request-Bounded es none h k =
      try_resolvers-Bounded (find_entry es (cache_key query)) client.resolver_urls none es start k
  serve_or_request-Bounded es (some entry) h k =
      let (found, e) =
        found_of_live options.cache (net.now start) (find_entry es (cache_key query)) entry h in
      omega (arith, length-touch_found es (cache_key query) entry found e)

  lookup-Bounded :
      (es : Cache)
      → Bounded es
      → Bounded (lookup_selected_detailed client net query options es).cache
  lookup-Bounded es h =
      lookup_cases (λ (a : After LookupResponse). Bounded a.cache) client net query options es h h
        (serve_or_request-Bounded es _ refl h)

module _ (client : OatiLookupClient) where
  clear-Bounded :
      (es : Cache) (type id : Option Text)
      → length es ≤ capacity client.cache_options
      → length (clear_cache es type id) ≤ capacity client.cache_options
  unfolding clear_cache
  clear-Bounded es none id h = omega arith
  clear-Bounded es (some type) (some id) h = omega (arith, h, length-keep-le _ es)
  clear-Bounded es (some type) none h = omega (arith, h, length-keep-le _ es)

  clear_target-Bounded :
      (es : Cache) (target : Option Text)
      → length es ≤ capacity client.cache_options
      → length (clear_revocation_target_cache es target) ≤ capacity client.cache_options
  unfolding clear_revocation_target_cache
  clear_target-Bounded es none h = omega (arith, h, length-keep-le _ es)
  clear_target-Bounded es (some target) h = omega (arith, h, length-keep-le _ es)

  step-Bounded :
      (call : Operation) (es : Cache)
      → length es ≤ capacity client.cache_options
      → length (step client call es) ≤ capacity client.cache_options
  unfolding step
  step-Bounded (lookup net query options) es h = lookup-Bounded client net query options es h
  step-Bounded (clear type id) es h = clear-Bounded es type id h
  step-Bounded (clear_target target) es h = clear_target-Bounded es target h

-- Whatever calls are made of a client, lookups with any answers of the network and clearings of the
-- cache, a cache that is within the client's `maxEntries` stays within it, and a client without a
-- cache keeps it empty.
pub run-Bounded :
    (client : OatiLookupClient) (calls : List Operation) (es : Cache)
    → length es ≤ capacity client.cache_options
    → length (run client calls es) ≤ capacity client.cache_options
unfolding run
run-Bounded client [] es h = h
run-Bounded client (call ∷ calls) es h =
    run-Bounded client calls (step client call es) (step-Bounded client call es h)
