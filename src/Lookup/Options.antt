-- ===== src/Lookup/Options.antt =====
-- The constructor of `OatiLookupClient` and the tests of its options. Numbers are integers.
use oati.Prelude.{
  ℕ, suc, ◌||◌, Option, none, some, List, [], ◌∷◌, ◌++◌, if◌then◌else◌, Text, text, ◌==◌, Result,
  ok, throw, type_error, range_error, ◌>>=◌, eqb,
}
use oati.Prelude.Ints.{ℤ, pos, negsuc}

pub record LookupRetryOptions : Type 0 where
  pub max_retries : Option ℤ
  pub base_delay_ms : Option ℤ
  pub max_delay_ms : Option ℤ

pub record LookupCacheOptions : Type 0 where
  pub ttl_ms : Option ℤ
  pub negative_ttl_ms : Option ℤ
  pub max_entries : Option ℤ

-- `cache` is an object of options, absent, or `false`.
pub data CacheChoice : Type 0 where
  off : CacheChoice
  configured : LookupCacheOptions → CacheChoice

-- `fetch` and `headers` are passed on to the network.
pub record LookupClientOptions : Type 0 where
  pub resolver_urls : Option (List Text)
  pub base_url : Option Text
  pub timeout_ms : Option ℤ
  pub max_response_bytes : Option ℤ
  pub retry : LookupRetryOptions
  pub cache : CacheChoice

pub record Retries : Type 0 where
  pub max_retries : ℕ
  pub base_delay_ms : ℕ
  pub max_delay_ms : ℕ

pub record CacheOptions : Type 0 where
  pub ttl_ms : ℕ
  pub negative_ttl_ms : ℕ
  pub max_entries : ℕ

pub record OatiLookupClient : Type 0 where
  pub resolver_urls : List Text
  pub timeout_ms : ℕ
  pub max_response_bytes : ℕ
  pub retries : Retries
  pub cache_options : Option CacheOptions

-- `positive` and `positiveInteger`, and `nonNegative` and `nonNegativeInteger`, of an integer
unfoldable pub positive : ℤ → Text → Result ℕ
positive (pos (suc n)) name = ok (suc n)
positive _ name = throw (range_error (name ++ text " must be positive"))

unfoldable pub positive_integer : ℤ → Text → Result ℕ
positive_integer (pos (suc n)) name = ok (suc n)
positive_integer _ name = throw (range_error (name ++ text " must be a positive integer"))

unfoldable pub non_negative : ℤ → Text → Result ℕ
non_negative (pos n) name = ok n
non_negative (negsuc n) name = throw (range_error (name ++ text " must be non-negative"))

unfoldable pub non_negative_integer : ℤ → Text → Result ℕ
non_negative_integer (pos n) name = ok n
non_negative_integer (negsuc n) name =
    throw (range_error (name ++ text " must be a non-negative integer"))

abbrev or_default : Option ℤ → ℕ → ℤ
or_default none n = pos n
or_default (some value) n = value

-- `value.replace(/\/+$/, "")`
abbrev join_slash : ℕ → Text → Text
join_slash c [] = if eqb c b'/' then [] else c ∷ []
join_slash c (d ∷ s) = c ∷ d ∷ s

unfoldable pub strip_slashes : Text → Text
strip_slashes [] = []
strip_slashes (c ∷ s) = join_slash c (strip_slashes s)

-- `protocol` is that of `new URL(value)`, or `none` where that throws.
unfoldable pub normalize_resolver_url : (Text → Option Text) → Text → Result Text
unfolding strip_slashes
normalize_resolver_url protocol value = elim (protocol value) [
  | none ↦ throw (type_error (text "Invalid URL"))
  | some scheme ↦
      if (scheme == text "http:") || (scheme == text "https:")
      then ok (strip_slashes value)
      else throw (type_error (text "Resolver URLs must use HTTP or HTTPS"))
]

unfoldable pub normalize_all : (Text → Option Text) → List Text → Result (List Text)
unfolding normalize_resolver_url
normalize_all protocol [] = ok []
normalize_all protocol (url ∷ urls) = do
  first ← normalize_resolver_url protocol url
  rest ← normalize_all protocol urls
  ok (first ∷ rest)

unfoldable pub configured_urls : Option (List Text) → Option Text → List Text
configured_urls (some urls) base = urls
configured_urls none (some (c ∷ s)) = (c ∷ s) ∷ []
configured_urls none _ = text "https://api.intelliger.ai/oati/v1" ∷ []

unfoldable pub resolvers_of : (Text → Option Text) → List Text → Result (List Text)
unfolding normalize_all
resolvers_of protocol [] = throw (range_error (text "At least one resolver URL is required"))
resolvers_of protocol (url ∷ urls) = normalize_all protocol (url ∷ urls)

unfoldable pub retries_of : LookupRetryOptions → Result Retries
unfolding non_negative_integer positive
retries_of retry = do
  max_retries ← non_negative_integer (or_default retry.max_retries 2) (text "maxRetries")
  base_delay_ms ← positive (or_default retry.base_delay_ms 200) (text "baseDelayMs")
  max_delay_ms ← positive (or_default retry.max_delay_ms 5000) (text "maxDelayMs")
  ok (record {
    max_retries = max_retries;
    base_delay_ms = base_delay_ms;
    max_delay_ms = max_delay_ms;
  })

unfoldable pub cache_of : CacheChoice → Result (Option CacheOptions)
unfolding non_negative positive_integer
cache_of off = ok none
cache_of (configured cache) = do
  ttl_ms ← non_negative (or_default cache.ttl_ms 60000) (text "ttlMs")
  negative_ttl_ms ← non_negative (or_default cache.negative_ttl_ms 10000) (text "negativeTtlMs")
  max_entries ← positive_integer (or_default cache.max_entries 500) (text "maxEntries")
  ok (
      some
        (record { ttl_ms = ttl_ms; negative_ttl_ms = negative_ttl_ms; max_entries = max_entries }))

unfoldable pub new_client : (Text → Option Text) → LookupClientOptions → Result OatiLookupClient
unfolding configured_urls resolvers_of retries_of cache_of positive positive_integer
new_client protocol options = do
  urls ← resolvers_of protocol (configured_urls options.resolver_urls options.base_url)
  timeout_ms ← positive (or_default options.timeout_ms 10000) (text "timeoutMs")
  max_response_bytes ←
      positive_integer (or_default options.max_response_bytes 2097152) (text "maxResponseBytes")
  retries ← retries_of options.retry
  cache_options ← cache_of options.cache
  ok (record {
    resolver_urls = urls;
    timeout_ms = timeout_ms;
    max_response_bytes = max_response_bytes;
    retries = retries;
    cache_options = cache_options;
  })
