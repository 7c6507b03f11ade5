-- ===== src/Evaluator/Guarantees/NonAmplification.antt =====
-- A child Mandate under which a request is allowed grants no more than its parent.
use oati.Prelude.{◌>>=◌}
use oati.Objects.{Delegation}
use oati.Evaluator.Guarantees.Narrower.{Narrower}
