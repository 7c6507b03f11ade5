-- ===== src/Middleware/Types.antt =====
-- The interfaces of sdk/typescript/src/middleware.ts, and its effects. What the surroundings answer
-- (the stores, the signer, the handler, the clock) may depend on what the middleware asked them
-- before, which is the log.
use oati.Prelude.{ℕ, Bool, Option, some, List, ◌∷◌, if◌then◌else◌, Text, ◌==◌, Result, ok, throw}
use oati.Json.{Json, Fields}
use oati.Objects.{AgentMandate, TransactionEnvelope}
use oati.Objects.Terms.{Outcome}
use oati.Evaluator.Types.{UsageSnapshot, Consumption, CommerceContext, RwaContext, EvaluationResult}
use oati.Evaluator.Conditions.{Runtime}
use oati.Lookup.Headers.{lower}
use oati.Crypto.Verify.{Signatures, ReplayCache, VerificationPolicy, VerificationResult}

-- An `OatiError` by its code, or any other value that is thrown. Messages reach no response.
pub data Thrown : Type 0 where
  oati_error : Text → Thrown
  other_error : Thrown

pub data Try {ℓ} (Value : Type ℓ) : Type ℓ where
  threw : Thrown → Try Value
  got : Value → Try Value

abbrev pub Headers : Type 0
Headers = Text → Option Text

-- `set`, whatever the case of the letters
unfoldable pub set_header : Text → Text → Headers → Headers
set_header name value headers n = if lower n == lower name then some value else headers n

-- A `Request`, with the parts of its URL.
pub record Request : Type 0 where
  pub method : Text
  pub pathname : Text
  pub search : Text
  pub headers : Headers
  pub body : List ℕ

pub data Body : Type 0 where
  json_body : Json → Body
  other_body : Text → Body

pub record Response : Type 0 where
  pub status : ℕ
  pub headers : Headers
  pub body : Body

-- `OatiDocumentKind`
pub data DocumentKind : Type 0 where
  envelope_kind mandate_kind parent_mandate_kind : DocumentKind

-- The documents as they were received.
pub record Documents : Type 0 where
  pub envelope : Fields
  pub mandate : Fields
  pub parent_mandate : Option Fields

-- `ExtractedOatiRequest` after its schemas were checked: the documents, and the objects that they are.
pub record Extracted : Type 0 where
  pub documents : Documents
  pub envelope : TransactionEnvelope
  pub mandate : AgentMandate
  pub parent_mandate : Option AgentMandate

pub record EvaluationExtensions : Type 0 where
  pub delegation_depth : Option ℕ
  pub consumption : Option Consumption
  pub commerce : Option CommerceContext
  pub rwa : Option RwaContext

pub record MiddlewareContext : Type 0 where
  pub request : Request
  pub envelope : TransactionEnvelope
  pub mandate : AgentMandate
  pub parent_mandate : Option AgentMandate
  pub correlation_id : Text
  pub transaction_id : Text
  pub envelope_verification : VerificationResult
  pub mandate_verification : VerificationResult
  pub parent_mandate_verification : Option VerificationResult
  pub evaluation : EvaluationResult

-- What the middleware did, last first.
pub data Event : Type 0 where
  stored_nonce : Text → Event
  loaded_usage : Text → Event
  set_usage : Text → UsageSnapshot → UsageSnapshot → Event
  called_handler : MiddlewareContext → Event
  signed_receipt emitted_receipt : Fields → Event
  made_uuid : Event

abbrev pub Log : Type 0
Log = List Event

-- A call that may throw; what it did stays done.
abbrev pub Action {ℓ} : Type ℓ → Type ℓ
Action Value = Log → Try Value × Log

infixl 5 ◌>>=◌ ◌>>◌
unfoldable pub ◌>>=◌ {κ ℓ} : {A : Type κ} {B : Type ℓ} → Action A → (A → Action B) → Action B
◌>>=◌ call rest log =
    let (result, log') = call log in
    elim result [ got value ↦ rest value log' | threw failure ↦ (threw failure, log') ]

abbrev pub ◌>>◌ {ℓ} : {B : Type ℓ} → Action (Unit {0}) → Action B → Action B
call >> rest = call >>= λ _. rest

abbrev pub pure {ℓ} : {A : Type ℓ} → A → Action A
pure value log = (got value, log)

abbrev pub raise {ℓ} : {A : Type ℓ} → Text → Action A
raise code log = (threw (oati_error code), log)

abbrev pub raise_if : Bool → Text → Action (Unit {0})
raise_if test code log = (if test then threw (oati_error code) else got tt, log)

abbrev pub lift {ℓ} : {A : Type ℓ} → Try A → Action A
lift result log = (result, log)

-- A question to the surroundings, and its entry in the log.
abbrev pub asks {ℓ} : {A : Type ℓ} → (Log → A) → Action A
asks answer log = (got (answer log), log)

abbrev pub tries {ℓ} : {A : Type ℓ} → (Log → Try A) → Event → Action A
tries answer event log = (answer log, event ∷ log)

-- `try { … } catch { return default }`
unfoldable pub try_or_else {ℓ} : {A : Type ℓ} → Action A → A → Action A
try_or_else call default log =
    let (result, log') = call log in
    elim result [ got value ↦ (got value, log') | threw failure ↦ (got default, log') ]

abbrev pub of_result {ℓ} : {A : Type ℓ} → Result A → Try A
of_result (ok value) = got value
of_result (throw e) = threw other_error

-- What comes from the runtime and from packages: Web Crypto, `toISOString`, `toUpperCase`, `trim`, and
-- the schemas, which give a document the type of its object.
pub record Host : Type 0 where
  pub runtime : Runtime
  pub signatures : Signatures
  pub sha256 : List ℕ → List ℕ
  pub to_iso_string : ℕ → Text
  pub to_upper_case : Text → Text
  pub trim : Text → Text
  pub random_uuid : Option (Log → Text)
  pub random_values : Option (Log → List ℕ)
  pub mandate_of : Fields → Try AgentMandate
  pub envelope_of : Fields → Try TransactionEnvelope
  pub check_receipt : Fields → Try (Unit {0})

pub record UsageStore : Type 0 where
  pub load : Log → Text → Try UsageSnapshot
  pub compare_and_set : Log → Text → UsageSnapshot → UsageSnapshot → Try Bool

-- A policy, whose replay cache has the log for its state.
pub record Policy : Type 0 where
  pub verification : VerificationPolicy
  pub replay : ReplayCache Log

pub record MiddlewareOptions : Type 0 where
  pub verification_policy : Log → DocumentKind → Request → Try Policy
  pub receipt_issuer : Text
  pub sign_receipt : Log → Fields → MiddlewareContext → Try Fields
  pub usage_store : Option UsageStore
  pub evaluation_extensions : Option (Log → Request → Extracted → Try EvaluationExtensions)
  pub extract : Option (Log → Request → Try Documents)
  pub emit_receipt : Option (Log → Fields → MiddlewareContext → Try (Unit {0}))
  pub now : Log → ℕ
  pub generate_correlation_id : Option (Log → Text)
  pub generate_receipt_id : Option (Log → Text → Text)
  pub policy_digest : Option Text
  pub max_header_bytes : Option ℕ
  pub require_request_digest : Option Bool
  pub max_body_bytes : Option ℕ
  pub allowed_receipt_outcome : Option Outcome

-- `OatiRequestHandler`
abbrev pub Handler : Type 0
Handler = Log → Request → MiddlewareContext → Try Response
