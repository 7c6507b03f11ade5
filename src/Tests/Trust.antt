-- ===== src/Tests/Trust.antt =====
-- The theorems on trust at a chain of two issuers and a replay cache.
use oati.Prelude.{
  ◌↔◌, false, List, [], ◌∷◌, Option, none, some, ◌≡◌, refl, arith, Text, text, ◌==◌, if◌then◌else◌,
  ok,
}
use oati.Crypto.Types.{TrustedIssuer, issuer_active, verified, revocation_revoked, TrustResolver}
use oati.Crypto.Trust.{TrustPolicy, validate_trust_chain}
use oati.Crypto.Trust.Chain.{Reaches, validate_trust_chain-Reaches}
use oati.Json.{str, Fields, end, field}
use oati.Crypto.Period.{check_signer_binding, check_document_time, check_proof_time}
use oati.Crypto.Period.Timely.{AllTimely, check_times-TimelyAt}
use oati.Crypto.Replay.{Call, check_and_store, after_calls, check_and_store-no_replay}
use oati.Tests.Requests.{runtime, running}

abbrev issuer : TrustedIssuer
issuer = record {
  id = text "oati:issuer:acme";
  parent = some (text "oati:issuer:root");
  status = issuer_active;
  valid_from = some (text "2026-01-01T00:00:00Z");
  valid_until = some (text "2027-01-01T00:00:00Z");
  revoked_at = none;
  proof_status = some verified;
}

-- A resolver that knows one issuer, and a revocation of another.
abbrev pub resolver : TrustResolver
resolver = record {
  resolve_key = λ id. ok none;
  resolve_issuer = λ id. if id == text "oati:issuer:acme" then ok (some issuer) else ok none;
  resolve_revocation = λ target.
      if target == text "oati:issuer:gone"
      then ok (some (record { target = target; status = revocation_revoked; effective_at = none }))
      else ok none;
}

abbrev pub policy : TrustPolicy
policy = record {
  resolver = resolver;
  trust_anchors = text "oati:issuer:root" ∷ [];
  now = 20260727100000;
  skew = 30;
}

validate_trust_chain-Reaches_example :
    (anchor : Text) × (some (text "oati:issuer:root") ≡ some anchor)
    × Reaches runtime policy anchor 9 (text "oati:issuer:acme")
unfolding running validate_trust_chain
validate_trust_chain-Reaches_example =
    validate_trust_chain-Reaches runtime policy none (text "oati:issuer:acme")
      (some (text "oati:issuer:root")) refl

-- An issuer that is no anchor and that the resolver does not know.
abbrev reached : Option Text
reached = (validate_trust_chain runtime policy none (text "oati:issuer:other") []).0

unknown_issuer : reached ≡ none
unfolding running validate_trust_chain
unknown_issuer = refl

abbrev other_calls : List Call
other_calls =
    record { key = text "b"; expires = 90; now = 20 }
    ∷ record { key = text "a"; expires = 70; now = 30 }
    ∷ []

check_and_store-no_replay_example :
    check_and_store
      (after_calls (check_and_store [] (text "a") 60 10).1 other_calls)
      (text "a")
      99
      59
    ≡ (false, after_calls (check_and_store [] (text "a") 60 10).1 other_calls)
unfolding check_and_store
check_and_store-no_replay_example =
    check_and_store-no_replay [] (text "a") 60 10 refl (omega arith) other_calls
      (omega arith, (omega arith, tt)) 99 59 (omega arith)

abbrev passport : Fields
passport = field (text "issuer") (str (text "oati:issuer:acme")) (
    field (text "issued_at") (str (text "2026-07-27T09:00:00Z"))
      (field (text "expires_at") (str (text "2026-08-27T09:00:00Z")) end))

check_times-TimelyAt_example :
    ((check_signer_binding passport (text "oati:org:acme") (text "oati:issuer:acme") (
        check_document_time runtime passport 20260727100000 30 (
          check_proof_time runtime
            (text "2026-07-27T09:59:00Z")
            (text "2026-07-27T10:02:00Z")
            20260727100000
            30
            5000
            [])))
      ≡ [])
    ↔ AllTimely runtime passport
        (some 20260727095900)
        (some 20260727100200)
        (text "oati:org:acme")
        (text "oati:issuer:acme")
        20260727100000
        30
        5000
unfolding running
check_times-TimelyAt_example =
    check_times-TimelyAt runtime passport (text "2026-07-27T09:59:00Z")
      (text "2026-07-27T10:02:00Z") (text "oati:org:acme") (text "oati:issuer:acme") 20260727100000
      30 5000
