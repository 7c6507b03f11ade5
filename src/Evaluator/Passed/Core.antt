-- ===== src/Evaluator/Passed/Core.antt =====
-- What an Envelope that passed the tests of its Mandate satisfies.

use oati.Prelude.{ℕ, false, [], ◌≡◌, All, ok, >>=-eq-ok}
use oati.Objects.{AgentMandate, TransactionEnvelope}
use oati.Evaluator.Reasons.{Reasons, report-eq-nil}
use oati.Evaluator.Conditions.{Runtime, timestamp}
use oati.Evaluator.Authority.{core_tests, check_core}

-- The parts of a check that ended with no reason.
pub check_core-eq-nil :
    (rt : Runtime) (m : AgentMandate) (e : TransactionEnvelope) (now : ℕ) (r : Reasons)
    → check_core rt m e now r ≡ ok []
    → (r ≡ [])
      × (from : ℕ) × (until : ℕ) × (timestamp rt m.not_before ≡ ok from)
      × (timestamp rt m.expires_at ≡ ok until)
      × All (λ t. t.0 ≡ false) (core_tests m e now from until)
unfolding check_core
check_core-eq-nil rt m e now r h =
    let (from, p, h1) = >>=-eq-ok (timestamp rt m.not_before) _ h in
    let (until, q, h2) = >>=-eq-ok (timestamp rt m.expires_at) _ h1 in
    let (start, facts) = report-eq-nil (core_tests m e now from until) r (cc) in
    (start, from, until, p, q, facts)
