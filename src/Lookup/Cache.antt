-- ===== src/Lookup/Cache.antt =====
-- The cache of the client: a `Map`, as the list of its entries in order of insertion.
pub mod Keys
use oati.Prelude.{
  ℕ, zero, suc, Bool, true, false, not, ◌&&◌, Option, none, some, List, [], ◌∷◌, ◌++◌,
  if◌then◌else◌, ltb, length, drop, keep, ◌-◌, Text, text, ◌==◌, starts_with,
}
use oati.Lookup.Types.{CacheEntry, Query, Selector, by_id, by_target}
use oati.Lookup.Options.{CacheOptions}

abbrev pub Cache : Type 0
Cache = List (Text × CacheEntry)

abbrev pub selector_text : Selector → Text
selector_text by_id = text "id"
selector_text by_target = text "target"

-- `${type}\u0000${selector}\u0000${value}`
unfoldable pub cache_key : Query → Text
unfolding text
cache_key query = query.type ++ (0 ∷ (selector_text query.selector ++ (0 ∷ query.value)))

-- `cacheEntries.get(key)`
unfoldable pub find_entry : Cache → Text → Option CacheEntry
find_entry [] key = none
find_entry ((k, entry) ∷ es) key =
    let rest = find_entry es key in if k == key then some entry else rest

-- `cacheEntries.delete(key)`
abbrev pub delete_entry : Cache → Text → Cache
delete_entry es key = keep (λ e. not (e.0 == key)) es

-- `touch`: the entry becomes the last.
unfoldable pub touch : Cache → Text → CacheEntry → Cache
touch es key entry = delete_entry es key ++ (key, entry) ∷ []

-- `while (size > maxEntries)` the first entry is deleted; the keys are distinct.
unfoldable pub evict : ℕ → Cache → Cache
evict maximum [] = []
evict maximum (e ∷ es) =
    let rest = evict maximum es in if ltb maximum (length (e ∷ es)) then rest else e ∷ es

-- `store`
unfoldable pub store : Option CacheOptions → Cache → Text → CacheEntry → Cache
unfolding evict touch
store none es key entry = es
store (some options) es key entry = evict options.max_entries (touch es key entry)

abbrev type_prefix : Text → Text
type_prefix type = type ++ 0 ∷ []

-- `clearCache`
unfoldable pub clear_cache : Cache → Option Text → Option Text → Cache
unfolding cache_key
clear_cache es none id = []
clear_cache es (some type) (some id) =
    delete_entry es (cache_key (record { type = type; selector = by_id; value = id }))
clear_cache es (some type) none = keep (λ e. not (starts_with e.0 (type_prefix type))) es

abbrev revocation_query : Text → Query
revocation_query target = record { type = text "revocation"; selector = by_target; value = target }

-- `clearRevocationTargetCache`
unfoldable pub clear_revocation_target_cache : Cache → Option Text → Cache
unfolding cache_key
clear_revocation_target_cache es (some target) =
    delete_entry es (cache_key (revocation_query target))
clear_revocation_target_cache es none =
    keep (λ e. not (starts_with e.0 (cache_key (revocation_query [])))) es
