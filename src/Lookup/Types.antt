-- ===== src/Lookup/Types.antt =====
-- The interfaces of lookup.ts and the errors of errors.ts that it raises. A record is the JSON object
-- that a resolver sent, as `Fields`. A call of the client ends with a value, with an
-- `OatiLookupError`, or with an exception of another class.
use oati.Prelude.{ℕ, Bool, Option, List, [], ◌∷◌, Text, text, Error}
use oati.Json.{Fields}

unfoldable pub oati_record_types : List Text
oati_record_types =
    text "organisation"
    ∷ text "agent"
    ∷ text "passport"
    ∷ text "mandate"
    ∷ text "receipt"
    ∷ text "issuer"
    ∷ text "key"
    ∷ text "revocation"
    ∷ text "service"
    ∷ text "profile"
    ∷ []

pub record RateLimitInfo : Type 0 where
  pub limit : Option ℕ
  pub remaining : Option ℕ
  pub reset_at : Option Text
  pub retry_after : Option ℕ

-- The codes that the client uses, of `OatiErrorCode`.
pub data ErrorCode : Type 0 where
  bad_request not_found rate_limited unavailable invalid_response timeout cancelled : ErrorCode

-- An `OatiLookupError`; `details`, `cause` and the message are left out.
pub record LookupError : Type 0 where
  pub code : ErrorCode
  pub status : Option ℕ
  pub retry_after : Option ℕ
  pub rate_limit : Option RateLimitInfo

pub data Failure : Type 0 where
  lookup_error : LookupError → Failure
  other : Error → Failure

pub data Attempt {ℓ} (Value : Type ℓ) : Type ℓ where
  failed : Failure → Attempt Value
  got : Value → Attempt Value

infixl 6 ◌>>=◌
abbrev pub ◌>>=◌ {κ ℓ} : {A : Type κ} {B : Type ℓ} → Attempt A → (A → Attempt B) → Attempt B
failed failure >>= rest = failed failure
got value >>= rest = rest value

pub data CacheUse : Type 0 where
  hit miss revalidated : CacheUse

pub record LookupResponse : Type 0 where
  pub public_record : Fields
  pub resolver_url : Text
  pub cache : CacheUse
  pub rate_limit : RateLimitInfo

pub data LookupState : Type 0 where
  found invalid_proof unavailable_proof unknown_proof : LookupResponse → LookupState
  absent no_resolver : LookupError → LookupState

pub data CacheMode : Type 0 where
  default reload no_store : CacheMode

-- `signal` is the caller's, whose state the network tells.
pub record LookupOptions : Type 0 where
  pub cache : CacheMode
  pub timeout_ms : Option ℕ

pub record CacheEntry : Type 0 where
  pub public_record : Option Fields
  pub not_found : Bool
  pub expires_at : ℕ
  pub etag : Option Text
  pub resolver_url : Text
  pub rate_limit : RateLimitInfo

pub data Selector : Type 0 where
  by_id by_target : Selector

-- What is asked for: `type`, `selector` and `value`.
pub record Query : Type 0 where
  pub type : Text
  pub selector : Selector
  pub value : Text
