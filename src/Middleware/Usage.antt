-- ===== src/Middleware/Usage.antt =====
-- The usage that the store of the middleware has after any requests.
use oati.Prelude.{
  ℕ, Bool, true, false, ◌&&◌, some, List, [], ◌∷◌, ◌≡◌, if◌then◌else◌, Text, ◌==◌, ◌⊎◌,
}
use oati.Evaluator.Types.{UsageSnapshot, Delta, EvaluationRequest, EvaluationResult}
use oati.Evaluator.Consumption.{effective_consumption}
use oati.Evaluator.Conditions.{Runtime}
use oati.Evaluator.Passed.Whole.{Allows}
use oati.Middleware.Types.{
  Try, threw, got, Request, DocumentKind, stored_nonce, set_usage, Log, Host, UsageStore,
  MiddlewareOptions, Policy, Handler,
}
use oati.Middleware.Flow.{middleware}

abbrev pub is_done : Try Bool → Bool
is_done (got done) = done
is_done (threw failure) = false

-- The usage of a Mandate in a store: that of the last update that the store made.
unfoldable pub recorded : UsageStore → Text → UsageSnapshot → Log → UsageSnapshot
recorded store id start [] = start
recorded store id start (set_usage used previous next ∷ log) =
    if used == id && is_done (store.compare_and_set log used previous next)
    then next
    else recorded store id start log
recorded store id start (e ∷ log) = recorded store id start log

-- The log after the middleware answered the requests in turn.
unfoldable pub after_requests : Host → MiddlewareOptions → List (Request × Handler) → Log
after_requests host options [] = []
after_requests host options ((request, next) ∷ requests) =
    (middleware host options request next (after_requests host options requests)).2

-- Allowed evaluations under Mandates with this identifier lead from one usage to another, each from the
-- usage that the one before gave; the listed amounts were consumed, the last first.
pub data History (rt : Runtime) (id : Text) (start : UsageSnapshot)
    : List Delta → UsageSnapshot → Type 0 where
  begins : History rt id start [] start
  then_allowed :
      {ds : List Delta} {v : UsageSnapshot}
      → History rt id start ds v
      → (q : EvaluationRequest) (res : EvaluationResult) → q.mandate.id ≡ id
      → q.usage ≡ v
      → Allows rt q res
      → History rt id start (effective_consumption q ∷ ds) res.next_usage

module _ (host : Host) (options : MiddlewareOptions) (store : UsageStore) (id : Text)
    (start : UsageSnapshot) (stored_by : options.usage_store ≡ some store)
    (atomic : (log : Log) (previous next : UsageSnapshot)
      → store.compare_and_set log id previous next ≡ got true
      → previous ≡ recorded store id start log)
    (stores_nonce : (log : Log) (kind : DocumentKind) (request : Request) (policy : Policy)
      → options.verification_policy log kind request ≡ got policy
      → (state : Log) (key : Text) (expires now : ℕ)
      → ((policy.replay.check_and_store state key expires now).1 ≡ state)
        ⊎ ((policy.replay.check_and_store state key expires now).1
            ≡ stored_nonce key ∷ state)) where
  abbrev Accounted : Log → Type 0
  Accounted log = (ds : List Delta) × History host.runtime id start ds (recorded store id start log)
