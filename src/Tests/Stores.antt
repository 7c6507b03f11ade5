-- ===== src/Tests/Stores.antt =====
-- The theorem on the usage that the middleware keeps, at a store of usage in memory.
use oati.Prelude.{Bool, true, false, ◌&&◌, some, List, [], ◌∷◌, if◌then◌else◌, Text, ◌==◌}
use native.Mathlib.Decide.{ℕ_discrete}
use oati.Evaluator.Types.{UsageSnapshot}
use oati.Middleware.Types.{got, Request, set_usage, Log, UsageStore, MiddlewareOptions, Handler}
use oati.Tests.Requests.{prior}
use oati.Tests.Gateway.{options, request, handler}

UsageSnapshot-discrete : Discrete UsageSnapshot
UsageSnapshot-discrete = hlevel ℕ_discrete

abbrev same_usage : UsageSnapshot → UsageSnapshot → Bool
same_usage a b = elim (UsageSnapshot-discrete a b) [ yes same ↦ true | no other ↦ false ]

-- What is stored for a Mandate; an update succeeds from that usage only.
unfoldable current : Log → Text → UsageSnapshot
current [] id = prior
current (set_usage used previous next ∷ log) id =
    if used == id && same_usage previous (current log id) then next else current log id
current (e ∷ log) id = current log id

abbrev store : UsageStore
store = record {
  load = λ log id. got (current log id);
  compare_and_set = λ log id previous next. got (same_usage previous (current log id));
}

abbrev stored_options : MiddlewareOptions
stored_options = record options { usage_store = some store }

-- The same request twice: the second one is a replay for the Mandate's usage.
abbrev requests : List (Request × Handler)
requests = (request, handler) ∷ (request, handler) ∷ []
