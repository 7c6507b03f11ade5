-- ===== src/Lookup/Client/Failover.antt =====
-- A lookup reaches the first resolver that answers.
use oati.Prelude.{
  false, Option, none, some, List, [], ◌∷◌, ◌++◌, ◌≡◌, refl, All, Text, ◌⊎◌, inl, inr,
}
use oati.Lookup.Types.{
  CacheEntry, LookupOptions, Query, Attempt, failed, got, lookup_error, LookupError, ErrorCode,
  unavailable, timeout, rate_limited, LookupResponse,
}
use oati.Lookup.Options.{OatiLookupClient}
use oati.Lookup.Request.{World, Network, Answered, request_with_retry}
use oati.Lookup.Cache.{Cache, cache_key, find_entry}
use oati.Lookup.Client.{
  reaction, next_resolver, react_error, react, try_resolvers, live_entry, serve_or_request,
  lookup_selected_detailed, reusable, start, invalid_input, response_of,
}

module _ (client : OatiLookupClient) (net : Network) (query : Query) (options : LookupOptions) where
  -- The outcome of a resolver, after what the lookup has done before.
  abbrev pub tried : Option CacheEntry → Text → World → Attempt Answered × World
  tried cached url w =
      request_with_retry client net url query options (reusable options.cache cached url)
        client.retries.max_retries 0 w

  -- The errors that mean that a resolver could not be asked.
  abbrev pub IsOutage : ErrorCode → Type 0
  IsOutage code = (code ≡ unavailable) ⊎ (code ≡ timeout) ⊎ (code ≡ rate_limited)

  -- A resolver that is down whenever it is asked, and one that always answers.
  abbrev pub IsDown : Option CacheEntry → Text → Type 0
  IsDown cached url =
      (w : World)
      → (e : LookupError) × ((tried cached url w).0 ≡ failed (lookup_error e)) × IsOutage e.code

  goes_on : (code : ErrorCode) → IsOutage code → reaction code ≡ next_resolver
  goes_on code (inl e) = rw e refl
  goes_on code (inr (inl e)) = rw e refl
  goes_on code (inr (inr e)) = rw e refl

  abbrev pub IsUp : Option CacheEntry → Text → Type 0
  IsUp cached url = (w : World) → (a : Answered) × ((tried cached url w).0 ≡ got a)

  -- The outcome is the answer of this resolver: its record, from its URL.
  abbrev pub ReturnedBy : Option CacheEntry → Text → Attempt LookupResponse → Type 0
  ReturnedBy cached url outcome =
      (w : World) × (a : Answered) × ((tried cached url w).0 ≡ got a)
      × (r : LookupResponse) × (outcome ≡ got r)
      × (r.public_record ≡ a.public_record)
      × (r.rate_limit ≡ a.rate_limit)
      × (r.resolver_url ≡ url)

  try_resolvers-Returned :
      (down : List Text) (url : Text) (up : List Text) (cached : Option CacheEntry)
      (last : Option LookupError) (es : Cache) (w : World)
      → All (IsDown cached) down
      → IsUp cached url
      → ReturnedBy cached url
          (try_resolvers client net query options cached (down ++ url ∷ up) last es w).outcome
  unfolding try_resolvers react
  try_resolvers-Returned [] url up cached last es w h k =
      let (a, answered) = k w in
      (w, a, answered, response_of url a, rw answered refl, refl, refl, refl)
  try_resolvers-Returned (first ∷ down) url up cached last es w (here, later) k =
      let (e, refused, outage) = here w in
      let on = goes_on e.code outage in
      rw (refused, on)
        (unfold react_error in
          try_resolvers-Returned down url up cached (some e) es (tried cached first w).1 later k)

  -- A lookup that is well formed and not cancelled, and for which no entry of the cache can be served,
  -- returns the record and the rate limits that the first resolver that is up answers, with its URL: if
  -- all resolvers before it fail as unavailable, with a timeout or with a rate limit, whenever they are
  -- asked, and it answers whenever it is asked.
  pub lookup_selected_detailed-Returned :
      (es : Cache) (down : List Text) (url : Text) (up : List Text)
      → client.resolver_urls ≡ down ++ url ∷ up
      → invalid_input query ≡ false
      → net.aborted start ≡ false
      → live_entry options.cache (net.now start) (find_entry es (cache_key query)) ≡ none
      → All (IsDown (find_entry es (cache_key query))) down
      → IsUp (find_entry es (cache_key query)) url
      → ReturnedBy
          (find_entry es (cache_key query))
          url
          (lookup_selected_detailed client net query options es).outcome
  unfolding lookup_selected_detailed serve_or_request
  lookup_selected_detailed-Returned es down url up resolvers input signal cold h k =
      rw (input, signal, cold, resolvers)
        (try_resolvers-Returned down url up (find_entry es (cache_key query)) none es start h k)
