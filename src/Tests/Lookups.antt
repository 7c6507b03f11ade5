-- ===== src/Tests/Lookups.antt =====
-- The theorems on the lookup client, at a client of two resolvers, the first of which is down.
use oati.Prelude.{
  inl, ℕ, ◌≤◌, false, List, [], ◌∷◌, none, some, ◌≡◌, refl, arith, length, text, ◌==◌,
  if◌then◌else◌,
}
use oati.Json.{str, arr, obj, nil, cons, Fields, end, field}
use oati.Lookup.Types.{Query, by_id, LookupOptions, default, got, LookupResponse, found, miss}
use oati.Lookup.Options.{OatiLookupClient}
use oati.Lookup.Records.{put, is_public_record}
use oati.Lookup.Records.Asked.{Answers}
use oati.Lookup.Headers.{Platform}
use oati.Lookup.Request.{Network, Answer, responded}
use oati.Lookup.Client.{lookup_selected_detailed, state_of}
use oati.Lookup.Client.Bounds.{Operation, lookup, clear, run, run-Bounded}
use oati.Lookup.Client.Effort.{Effort, lookup_selected_detailed-Effort}
use oati.Lookup.Client.Matching.{IfGot}
use oati.Lookup.Client.Sound.{run-Answers}
use oati.Lookup.Cache.{cache_key, find_entry}
use oati.Lookup.Client.Failover.{ReturnedBy, lookup_selected_detailed-Returned}
use oati.Tests.Requests.{runtime, running}

abbrev agent : Fields
agent = field (text "type") (str (text "agent")) (
    field (text "id") (str (text "oati:agent:a")) (
      field (text "status") (str (text "active")) (
        field (text "issuer") (str (text "oati:issuer:acme")) (
          field (text "proof_status") (str (text "verified"))
            (field (text "public_attributes") (obj end) end)))))

abbrev platform : Platform
platform = record {
  runtime = runtime;
  parse_json = λ t. some (obj agent);
  decode_utf8 = λ bytes. some bytes;
  iso_string = λ seconds. some (text "2026-07-27T10:00:00.000Z");
}

abbrev respond : ℕ → Answer
respond status = responded (record {
  status = status;
  header = λ name. none;
  body = some (record { chunks = (1 ∷ []) ∷ (2 ∷ []) ∷ []; interrupted = none });
})

abbrev network : Network
network = record {
  platform = record platform { runtime = record runtime { parse_date = λ s. none } };
  answer = λ w r. if r.resolver_url == text "https://one" then respond 503 else respond 200;
  now = λ w. 20260727100000;
  aborted = λ w. false;
}

abbrev client : OatiLookupClient
client = record {
  resolver_urls = text "https://one" ∷ text "https://two" ∷ [];
  timeout_ms = 10000;
  max_response_bytes = 100;
  retries = record { max_retries = 1; base_delay_ms = 200; max_delay_ms = 5000 };
  cache_options = some (record { ttl_ms = 60000; negative_ttl_ms = 10000; max_entries = 2 });
}

abbrev query : Query
query = record { type = text "agent"; selector = by_id; value = text "oati:agent:a" }

abbrev options : LookupOptions
options = record { cache = default; timeout_ms = none }

abbrev calls : List Operation
calls = lookup network query options ∷ clear none none ∷ lookup network query options ∷ []

run-Bounded_example : length (run client calls []) ≤ 2
run-Bounded_example = run-Bounded client calls [] (omega arith)

run-Answers_example :
    IfGot
      (λ (r : LookupResponse). Answers query r.public_record)
      (lookup_selected_detailed client network query options (run client calls [])).outcome
run-Answers_example = run-Answers client calls network query options

lookup_selected_detailed-Effort_example :
    Effort 4 5000 (lookup_selected_detailed client network query options []).world
lookup_selected_detailed-Effort_example =
    lookup_selected_detailed-Effort client network query options []

lookup_selected_detailed-Returned_example :
    ReturnedBy client network query options
      (find_entry [] (cache_key query))
      (text "https://two")
      (lookup_selected_detailed client network query options []).outcome
unfolding running lookup_selected_detailed
lookup_selected_detailed-Returned_example =
    lookup_selected_detailed-Returned client network query options [] (text "https://one" ∷ [])
      (text "https://two") [] refl refl refl refl ((λ w. (_, refl, inl refl)), tt) λ w. (_, refl)

-- A record whose proof status is an array of one text is accepted, and reported as found.
abbrev odd : Fields
odd = put agent (text "proof_status") (some (arr (cons (str (text "invalid")) nil)))

abbrev odd_response : LookupResponse
odd_response = record {
  public_record = odd;
  resolver_url = text "https://two";
  cache = miss;
  rate_limit = record { limit = none; remaining = none; reset_at = none; retry_after = none };
}

odd_is_accepted : is_public_record (λ t. none) (some (obj odd)) ≡ some odd
unfolding running is_public_record put
odd_is_accepted = refl

odd_is_found : state_of (got odd_response) ≡ got (found odd_response)
unfolding running state_of put
odd_is_found = refl
