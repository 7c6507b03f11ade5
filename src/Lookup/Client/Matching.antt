-- ===== src/Lookup/Client/Matching.antt =====
-- A lookup answers with the record that was asked for, from the network or from the cache.
use oati.Prelude.{
  ℕ, zero, suc, Bool, true, false, Option, none, some, [], ◌∷◌, ◌≡◌, eqb, ◌∙◌, All, Text, ◌==◌,
  ==_iff, if_holds, Bool-cases, inl, inr,
}
use oati.Json.{Fields}
use oati.Lookup.Types.{
  CacheEntry, LookupOptions, Query, Attempt, failed, got, lookup_error, LookupError, RateLimitInfo,
}
use oati.Lookup.Options.{OatiLookupClient}
use oati.Lookup.Records.{answers, is_public_record}
use oati.Lookup.Records.Asked.{Answers, Answers-of_answers, Answers-normalize}
use oati.Lookup.Headers.{Platform, Response, response_error}
use oati.Lookup.Request.{
  World, Network, Answer, interrupted, responded, Answered, Payload, payload, rejected, stopped,
  accept, decide, fresh, is_ok, cached_record, paired, with_limits, request_of, revalidate, receive,
  request_once, again, request_with_retry, timeout_refused,
}
use oati.Lookup.Cache.{Cache, cache_key, find_entry}
use oati.Lookup.Cache.Keys.{IsSupported, cache_key-injective}

-- What a call may end with: an error, or a value of which `P` holds.
abbrev pub IfGot {ℓ κ} : {A : Type ℓ} → (A → Type κ) → Attempt A → Type κ
IfGot P (failed e) = Unit
IfGot P (got a) = P a

module _ (query : Query) where
  abbrev pub Fetched : Answered → Type 0
  Fetched a = Answers query a.public_record

  abbrev pub RecordAnswers : Option Fields → Type 0
  RecordAnswers none = Unit
  RecordAnswers (some item) = Answers query item

  -- The record of the entry, if it has one, answers the query.
  abbrev pub EntryAnswers : CacheEntry → Type 0
  EntryAnswers entry = RecordAnswers entry.public_record

  abbrev PairAnswers : Option (CacheEntry × Fields) → Type 0
  PairAnswers none = Unit
  PairAnswers (some e) = Answers query e.1

  module _ (client : OatiLookupClient) (platform : Platform) (now : ℕ) (response : Response)
      (limits : RateLimitInfo) where
    accept-Fetched :
        (item : Option Fields)
        → IfGot Fetched (accept client platform now query response limits item)
    unfolding accept
    accept-Fetched none = tt
    accept-Fetched (some item) = elim (Bool-cases (answers query item)) [
      | inl asked ↦ rw asked (Answers-normalize query item (Answers-of_answers query item asked))
      | inr unasked ↦ rw unasked tt
    ]

    decide-Fetched :
        (p : Payload) → IfGot Fetched (decide client platform now query response limits p)
    unfolding decide
    decide-Fetched (payload value) =
        if_holds (IfGot Fetched) (is_ok response)
          {y = failed (lookup_error (response_error response limits))}
          (accept-Fetched (is_public_record platform.parse_json value)) tt
    decide-Fetched rejected = tt
    decide-Fetched (stopped i) = tt

    fresh-Fetched : IfGot Fetched (fresh client platform now query response limits)
    unfolding fresh
    fresh-Fetched = decide-Fetched _

    revalidate-Fetched :
        (cached : Option (CacheEntry × Fields))
        → PairAnswers cached
        → IfGot Fetched (revalidate client platform now query response limits cached)
    unfolding revalidate
    revalidate-Fetched none h = fresh-Fetched
    revalidate-Fetched (some (entry, item)) h = elim (Bool-cases (eqb response.status 304)) [
      | inl confirmed ↦ rw confirmed h
      | inr changed ↦ rw changed fresh-Fetched
    ]

  abbrev pub CachedAnswers : Option CacheEntry → Type 0
  CachedAnswers none = Unit
  CachedAnswers (some entry) = EntryAnswers entry

  paired-Answers :
      (entry : CacheEntry) (item : Option Fields)
      → RecordAnswers item
      → PairAnswers (paired entry item)
  paired-Answers entry none h = tt
  paired-Answers entry (some item) h = h

  cached_record-Answers :
      (cached : Option CacheEntry) → CachedAnswers cached → PairAnswers (cached_record cached)
  cached_record-Answers none h = tt
  cached_record-Answers (some entry) h = paired-Answers entry entry.public_record h

  module _ (client : OatiLookupClient) (net : Network) (options : LookupOptions) where
    with_limits-Fetched :
        (cached : Option CacheEntry) (now : ℕ) (response : Response) (limits : Option RateLimitInfo)
        → CachedAnswers cached
        → IfGot Fetched (with_limits client net.platform now query cached response limits)
    unfolding with_limits
    with_limits-Fetched cached now response none h = tt
    with_limits-Fetched cached now response (some limits) h =
        revalidate-Fetched client net.platform now response limits (cached_record cached)
          (cached_record-Answers cached h)

    receive-Fetched :
        (cached : Option CacheEntry) (now : ℕ) (a : Answer)
        → CachedAnswers cached
        → IfGot Fetched (receive client net.platform now query cached a)
    unfolding receive
    receive-Fetched cached now (interrupted i) h = tt
    receive-Fetched cached now (responded response) h = with_limits-Fetched cached now response _ h

    request_once-Fetched :
        (url : Text) (cached : Option CacheEntry) (w : World)
        → CachedAnswers cached
        → IfGot Fetched (request_once client net url query options cached w).0
    unfolding request_once
    request_once-Fetched url cached w h = elim (Bool-cases (timeout_refused options.timeout_ms)) [
      | inl bad ↦ rw bad tt
      | inr good ↦
          rw good
            (receive-Fetched cached (net.now w) (net.answer w (request_of url query cached)) h)
    ]

    again-Fetched :
        (rest : LookupError → Attempt Answered × World) (outcome : Attempt Answered) (w : World)
        (failure : Option LookupError) (aborted : Bool)
        → IfGot Fetched outcome
        → ((e : LookupError) → IfGot Fetched (rest e).0)
        → IfGot Fetched (again rest outcome w failure aborted).0
    unfolding again
    again-Fetched rest outcome w none aborted h k = h
    again-Fetched rest outcome w (some e) true h k = tt
    again-Fetched rest outcome w (some e) false h k = k e

    pub request_with_retry-Fetched :
        (left attempt : ℕ) (url : Text) (cached : Option CacheEntry) (w : World)
        → CachedAnswers cached
        → IfGot Fetched (request_with_retry client net url query options cached left attempt w).0
    unfolding request_with_retry
    request_with_retry-Fetched zero attempt url cached w h = request_once-Fetched url cached w h
    request_with_retry-Fetched (suc left) attempt url cached w h =
        again-Fetched _ _ _ _ _ (request_once-Fetched url cached w h)
          λ e. request_with_retry-Fetched left (suc attempt) url cached _ h

-- A cache entry is of some query of a supported type, whose key it stands under, and its record
-- answers that query.
abbrev pub Holds : (Text × CacheEntry) → Type 0
Holds (key, entry) = (q : Query) × IsSupported q × (cache_key q ≡ key) × EntryAnswers q entry

same_query : (q r : Query) → q.type ≡ r.type → q.selector ≡ r.selector → q.value ≡ r.value → q ≡ r
same_query q r t s v = λ i. record { type = t i; selector = s i; value = v i }

EntryAnswers-of_Holds :
    (query : Query) (key : Text) (entry : CacheEntry)
    → IsSupported query
    → key ≡ cache_key query
    → Holds (key, entry)
    → EntryAnswers query entry
EntryAnswers-of_Holds query key entry h e (q, supported, at, answers) =
    let (t, s, v) = cache_key-injective q query supported h (at ∙ e) in
    rw (← same_query q query t s v) answers

pub find_entry-Answers :
    (es : Cache) (query : Query)
    → IsSupported query
    → All Holds es
    → CachedAnswers query (find_entry es (cache_key query))
unfolding find_entry
find_entry-Answers [] query h k = tt
find_entry-Answers ((key, entry) ∷ es) query h (here, later) =
    elim (Bool-cases (key == cache_key query)) [
      | inl same ↦
          rw same
            (EntryAnswers-of_Holds query key entry h ((==_iff key (cache_key query)).0 same) here)
      | inr differ ↦ rw differ (find_entry-Answers es query h later)
    ]
