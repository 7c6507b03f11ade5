-- ===== src/Crypto/Verify/Effects.antt =====
-- What a verification does to the replay cache.
use oati.Prelude.{[], ◌∷◌, Option, none, some, Text, Result, ok, throw, ℕ}
use oati.Json.{Fields}
use oati.Crypto.Types.{VerificationKey, Issues}
use oati.Crypto.Proof.{OatiJwsProof}
use oati.Evaluator.Conditions.{Runtime}
use oati.Crypto.Verify.{
  Signatures, ReplayCache, VerificationPolicy, check_replay, verify_with, verify_parsed,
  verify_document,
}

module _ {State : Type 0} (rt : Runtime) (sigs : Signatures) (replay : ReplayCache State)
    (I : State → Type 0)
    (stores : (state : State) (key : Text) (expires now : ℕ)
      → I state
      → I (replay.check_and_store state key expires now).1) where
  check_replay-keeps :
      (policy : VerificationPolicy) (proof : OatiJwsProof) (issuer : Option Text) (issues : Issues)
      (state : State)
      → I state
      → I (check_replay rt sigs replay policy proof issuer issues state).1
  unfolding check_replay
  check_replay-keeps policy proof issuer [] state h = stores state _ _ _ h
  check_replay-keeps policy proof issuer (i ∷ issues) state h = h

  verify_with-keeps :
      (policy : VerificationPolicy) (document : Fields) (proof : OatiJwsProof) (issues : Issues)
      (state : State) (found : Result (Option VerificationKey))
      → I state
      → I (verify_with rt sigs replay policy document proof issues state found).1
  unfolding verify_with
  verify_with-keeps policy document proof issues state (throw e) h = h
  verify_with-keeps policy document proof issues state (ok none) h = h
  verify_with-keeps policy document proof issues state (ok (some key)) h =
      check_replay-keeps policy proof _ _ state h

  verify_parsed-keeps :
      (policy : VerificationPolicy) (document : Fields) (parsed : Option OatiJwsProof × Issues)
      (state : State)
      → I state
      → I (verify_parsed rt sigs replay policy document parsed state).1
  unfolding verify_parsed
  verify_parsed-keeps policy document (none, issues) state h = h
  verify_parsed-keeps policy document (some proof, issues) state h =
      verify_with-keeps policy document proof _ state _ h

  -- A verification keeps what its replay cache keeps.
  pub verify_document-keeps :
      (policy : VerificationPolicy) (document : Fields) (state : State)
      → I state
      → I (verify_document rt sigs replay policy document state).1
  unfolding verify_document
  verify_document-keeps policy document state h = verify_parsed-keeps policy document _ state h
