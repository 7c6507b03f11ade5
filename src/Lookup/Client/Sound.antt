-- ===== src/Lookup/Client/Sound.antt =====
-- Every call of a client keeps the cache sound, and a lookup in a sound cache answers its query.
use oati.Prelude.{
  ℕ, Bool, false, ◌&&◌, Option, none, some, List, [], ◌∷◌, ◌≡◌, refl, keep, All, All-append, Text,
  ◌==◌, arith, if_holds, Bool-cases, inl, inr, ltb, length,
}
use oati.Json.{Fields}
use oati.Lookup.Types.{
  ErrorCode, CacheEntry, LookupOptions, Query, Attempt, failed, got, lookup_error, other,
  LookupError, LookupResponse, bad_request, cancelled,
}
use oati.Lookup.Options.{OatiLookupClient, CacheOptions}
use oati.Lookup.Records.Asked.{Answers}
use oati.Lookup.Request.{World, Network, Answered}
use oati.Lookup.Cache.{
  Cache, cache_key, find_entry, delete_entry, touch, evict, store, clear_cache,
  clear_revocation_target_cache,
}
use oati.Lookup.Cache.Keys.{IsSupported}
use oati.Lookup.Client.{
  After, Reaction, reaction, react_error, give_up, remember, next_resolver, react, try_resolvers,
  store_answer, store_absence, live_entry, serve, served, not_found_hit, entry_of, absence_of,
  serve_or_request, lookup_selected_detailed, reusable, start, invalid_input, refuse, may_store,
  may_read,
}
use oati.Lookup.Client.Bounds.{Operation, lookup, clear, clear_target, step, run}
use oati.Lookup.Client.Matching.{
  IfGot, Fetched, RecordAnswers, EntryAnswers, CachedAnswers, Holds, request_with_retry-Fetched,
  find_entry-Answers,
}

keep-Holds : (p : (Text × CacheEntry) → Bool) (es : Cache) → All Holds es → All Holds (keep p es)
keep-Holds p [] h = tt
keep-Holds p (e ∷ es) (here, later) =
    if_holds (All Holds) (p e) {x = e ∷ keep p es} (here, keep-Holds p es later)
      (keep-Holds p es later)

evict-Holds : (maximum : ℕ) (es : Cache) → All Holds es → All Holds (evict maximum es)
unfolding evict
evict-Holds maximum [] h = tt
evict-Holds maximum (e ∷ es) (here, later) =
    if_holds (All Holds) (ltb maximum (length (e ∷ es))) {x = evict maximum es}
      (evict-Holds maximum es later) (here, later)

touch-Holds :
    (es : Cache) (key : Text) (entry : CacheEntry)
    → All Holds es
    → Holds (key, entry)
    → All Holds (touch es key entry)
unfolding touch
touch-Holds es key entry h k =
    All-append Holds (delete_entry es key) ((key, entry) ∷ []) (keep-Holds _ es h) (k, tt)

store-Holds :
    (options : Option CacheOptions) (es : Cache) (key : Text) (entry : CacheEntry)
    → All Holds es
    → Holds (key, entry)
    → All Holds (store options es key entry)
unfolding store
store-Holds none es key entry h k = h
store-Holds (some options) es key entry h k =
    evict-Holds options.max_entries _ (touch-Holds es key entry h k)

-- What a lookup returns answers its query, and the cache stays sound.
pub record Sound (query : Query) (a : After LookupResponse) : Type 0 where
  pub answered : IfGot (λ (r : LookupResponse). Answers query r.public_record) a.outcome
  pub sound : All Holds a.cache

module _ (client : OatiLookupClient) (net : Network) (query : Query) (options : LookupOptions)
    (supported : IsSupported query) where
  entry-Holds : (entry : CacheEntry) → EntryAnswers query entry → Holds (cache_key query, entry)
  entry-Holds entry h = (query, supported, refl, h)

  store_answer-Holds :
      (es : Cache) (url : Text) (response : Answered)
      → All Holds es
      → Answers query response.public_record
      → All Holds
          (store_answer client.cache_options options.cache es (cache_key query) url response)
  unfolding store_answer
  store_answer-Holds es url response h k =
      if_holds (All Holds) _
        (store-Holds client.cache_options es (cache_key query) (entry_of url response) h
          (entry-Holds (entry_of url response) k))
        h

  store_absence-Holds :
      (choice : Option CacheOptions) (es : Cache) (url : Text) (now : ℕ) (e : LookupError)
      → All Holds es
      → All Holds (store_absence choice options.cache es (cache_key query) url now e)
  unfolding store_absence
  store_absence-Holds none es url now e h = h
  store_absence-Holds (some choice) es url now e h =
      if_holds (All Holds) _
        (store-Holds (some choice) es (cache_key query) (absence_of choice url now e) h
          (entry-Holds (absence_of choice url now e) tt))
        h

  module _ (url : Text) (es : Cache) (rest : LookupError → After LookupResponse) (w : World) where
    react_error-Sound :
        (e : LookupError) (r : Reaction)
        → All Holds es
        → Sound query (rest e)
        → Sound query (react_error client net query options url es rest w e r)
    unfolding react_error
    react_error-Sound e give_up h k = record { answered = tt; sound = h }
    react_error-Sound e remember h k = record {
      answered = tt;
      sound = store_absence-Holds client.cache_options es url (net.now w) e h;
    }
    react_error-Sound e next_resolver h k = k

    react-Sound :
        (outcome : Attempt Answered)
        → All Holds es
        → IfGot (Fetched query) outcome
        → ((e : LookupError) → Sound query (rest e))
        → Sound query (react client net query options url es rest w outcome)
    unfolding react
    react-Sound (got response) h k l = record {
      answered = k;
      sound = store_answer-Holds es url response h k;
    }
    react-Sound (failed (other e)) h k l = record { answered = tt; sound = h }
    react-Sound (failed (lookup_error e)) h k l = react_error-Sound e (reaction e.code) h (l e)

  reusable-Answers :
      (cached : Option CacheEntry) (url : Text)
      → CachedAnswers query cached
      → CachedAnswers query (reusable options.cache cached url)
  unfolding reusable
  reusable-Answers none url h = tt
  reusable-Answers (some entry) url h =
      if_holds (CachedAnswers query) (may_store options.cache && entry.resolver_url == url)
        {x = some entry} {y = none} h tt

  try_resolvers-Sound :
      (urls : List Text) (cached : Option CacheEntry) (last : Option LookupError) (es : Cache)
      (w : World)
      → All Holds es
      → CachedAnswers query cached
      → Sound query (try_resolvers client net query options cached urls last es w)
  unfolding try_resolvers
  try_resolvers-Sound [] cached last es w h k = record { answered = tt; sound = h }
  try_resolvers-Sound (url ∷ urls) cached last es w h k =
      react-Sound url es _ _ _ h
        (request_with_retry-Fetched query client net options client.retries.max_retries 0 url _ w
          (reusable-Answers cached url k))
        λ e. try_resolvers-Sound urls cached (some e) es _ h k

  served-Answers :
      (entry : CacheEntry) (item : Option Fields)
      → RecordAnswers query item
      → IfGot (λ (r : LookupResponse). Answers query r.public_record) (served entry item)
  served-Answers entry none h = tt
  served-Answers entry (some item) h = h

  serve-Answers :
      (entry : CacheEntry)
      → EntryAnswers query entry
      → IfGot (λ (r : LookupResponse). Answers query r.public_record) (serve entry)
  unfolding serve
  serve-Answers entry h =
      if_holds (IfGot (λ (r : LookupResponse). Answers query r.public_record)) entry.not_found
        {x = failed (lookup_error not_found_hit)} tt (served-Answers entry entry.public_record h)

  live-Answers :
      (now : ℕ) (cached : Option CacheEntry)
      → CachedAnswers query cached
      → CachedAnswers query (live_entry options.cache now cached)
  unfolding live_entry
  live-Answers now none h = tt
  live-Answers now (some entry) h =
      if_holds (CachedAnswers query) (may_read options.cache && ltb now entry.expires_at)
        {x = some entry} {y = none} h tt

  serve_or_request-Sound :
      (entry : Option CacheEntry) (es : Cache)
      → All Holds es
      → CachedAnswers query entry
      → Sound query (serve_or_request client net query options es entry)
  unfolding serve_or_request
  serve_or_request-Sound none es h k =
      try_resolvers-Sound client.resolver_urls (find_entry es (cache_key query)) none es start h
        (find_entry-Answers es query supported h)
  serve_or_request-Sound (some entry) es h k = record {
    answered = serve-Answers entry k;
    sound = touch-Holds es (cache_key query) entry h (entry-Holds entry k);
  }

IsSupported-of : (query : Query) → invalid_input query ≡ false → IsSupported query
unfolding invalid_input
IsSupported-of query h = ground arith

refuse-Sound :
    (query : Query) (code : ErrorCode) (es : Cache) → All Holds es → Sound query (refuse code es)
refuse-Sound query code es h = record { answered = tt; sound = h }

-- A lookup by identifier or by revocation target, in a sound cache, whatever the resolvers send:
-- the record that it returns, fresh, revalidated or from the cache, has the type that was asked for
-- and the identifier that was asked for, or the target that was asked for and a known revocation
-- status; and the cache after it is sound again, so that the next lookup's record is right as well.
pub lookup_selected_detailed-Sound :
    (client : OatiLookupClient) (net : Network) (query : Query) (options : LookupOptions)
    (es : Cache)
    → All Holds es
    → Sound query (lookup_selected_detailed client net query options es)
unfolding lookup_selected_detailed
lookup_selected_detailed-Sound client net query options es h =
    elim (Bool-cases (invalid_input query)) [
      | inl bad ↦ rw bad (refuse-Sound query bad_request es h)
      | inr good ↦ rw good (
          if_holds (Sound query) (net.aborted start) {x = refuse cancelled es}
            (refuse-Sound query cancelled es h)
            (serve_or_request-Sound client net query options (IsSupported-of query good) _ es h (
              live-Answers client net query options (IsSupported-of query good) (net.now start) _
                (find_entry-Answers es query (IsSupported-of query good) h))))
    ]

clear-Holds :
    (es : Cache) (type id : Option Text) → All Holds es → All Holds (clear_cache es type id)
unfolding clear_cache
clear-Holds es none id h = tt
clear-Holds es (some type) (some id) h = keep-Holds _ es h
clear-Holds es (some type) none h = keep-Holds _ es h

clear_target-Holds :
    (es : Cache) (target : Option Text)
    → All Holds es
    → All Holds (clear_revocation_target_cache es target)
unfolding clear_revocation_target_cache
clear_target-Holds es none h = keep-Holds _ es h
clear_target-Holds es (some target) h = keep-Holds _ es h

step-Holds :
    (client : OatiLookupClient) (call : Operation) (es : Cache)
    → All Holds es
    → All Holds (step client call es)
unfolding step
step-Holds client (lookup net query options) es h =
    (lookup_selected_detailed-Sound client net query options es h).sound
step-Holds client (clear type id) es h = clear-Holds es type id h
step-Holds client (clear_target target) es h = clear_target-Holds es target h

run-Holds :
    (client : OatiLookupClient) (calls : List Operation) (es : Cache)
    → All Holds es
    → All Holds (run client calls es)
unfolding run
run-Holds client [] es h = h
run-Holds client (call ∷ calls) es h =
    run-Holds client calls (step client call es) (step-Holds client call es h)

-- Whatever calls have been made of a new client, lookups with any answers of the network and clearings
-- of the cache, a lookup by identifier or by revocation target that returns a record, fresh,
-- revalidated or cached, returns one of the type that was asked for and with the identifier that was
-- asked for, or of the revocation type with the target that was asked for and a known revocation
-- status.
pub run-Answers :
    (client : OatiLookupClient) (calls : List Operation) (net : Network) (query : Query)
    (options : LookupOptions)
    → IfGot
        (λ (r : LookupResponse). Answers query r.public_record)
        (lookup_selected_detailed client net query options (run client calls [])).outcome
run-Answers client calls net query options =
    (lookup_selected_detailed-Sound client net query options (run client calls [])
      (run-Holds client calls [] tt)).answered
