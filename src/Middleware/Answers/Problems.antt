-- ===== src/Middleware/Answers/Problems.antt =====
-- Problem documents that name their status, and what an answer is.
use oati.Prelude.{
  ℕ, true, Option, none, some, List, [], ◌∷◌, ◌≡◌, refl, sym, ap, ◌∙◌, ◌⊎◌, inl, inr, eqb, Text,
  text, ◌==◌, any,
}
use oati.Prelude.Ints.{pos}
use oati.Json.{num, obj, Fields, get}
use oati.Middleware.Types.{
  Thrown, Try, threw, got, Response, json_body, MiddlewareContext, Log, Action, pure, try_or_else,
  Host, MiddlewareOptions, Handler,
}
use oati.Middleware.Headers.{encode_oati_header}
use oati.Middleware.Receipts.{problem, denial, labelled, attach_receipt}
use oati.Objects.Terms.{outcome_failed}
use oati.Middleware.Flow.{outcome_of}
use oati.Middleware.Issued.{Receipted}
use oati.Middleware.Calls.{>>=-got, got-injective}

-- A document about a problem, which names the status that the response has.
pub record Stated (status : ℕ) (response : Response) : Type 0 where
  pub fields : Fields
  pub status_is : response.status ≡ status
  pub body_is : response.body ≡ json_body (obj fields)
  pub named : get fields (text "status") ≡ some (num (pos status))

pub problem-Stated :
    (failure : Thrown) (status : ℕ) (title : Text) (correlation_id transaction_id : Option Text)
    → Stated status (problem failure status title correlation_id transaction_id)
unfolding problem get text ◌==◌
problem-Stated failure status title correlation_id transaction_id = record {
  fields = _;
  status_is = refl;
  body_is = refl;
  named = refl;
}

pub denial-Stated :
    (context : MiddlewareContext) (status : ℕ) (code : Text) (receipt : Fields)
    → Stated status (denial context status code receipt)
unfolding denial get text ◌==◌
denial-Stated context status code receipt = record {
  fields = _;
  status_is = refl;
  body_is = refl;
  named = refl;
}

abbrev pub Refused : List ℕ → Response → Type 0
Refused statuses response =
    (status : ℕ) × (any (eqb status) statuses ≡ true) × Stated status response

unfoldable pub refusals : List ℕ
refusals = 400 ∷ 401 ∷ 403 ∷ 409 ∷ 503 ∷ []

unfoldable pub outages : List ℕ
outages = 401 ∷ 503 ∷ []

module _ (host : Host) (options : MiddlewareOptions) where
  -- What came of the handler's call, with its receipt.
  abbrev pub Follows : MiddlewareContext → Try Response → Response → Type 0
  Follows context (got downstream) response =
      (response.status ≡ downstream.status)
      × (response.body ≡ downstream.body)
      × Receipted host options context
          (outcome_of options.allowed_receipt_outcome downstream.status) response
  Follows context (threw failure) response =
      Stated 500 response × Receipted host options context outcome_failed response

  module _ (next : Handler) where
    abbrev pub Answer : Response → Option MiddlewareContext → Type 0
    Answer response none = Refused refusals response
    Answer response (some context) =
        ((log : Log) × Follows context (next log context.request context) response)
        ⊎ Refused outages response

    unfoldable pub Post : Try Response × Option MiddlewareContext × Log → Type 0
    Post (got response, called, log) = Answer response called
    Post (threw failure, called, log) = Unit {0}

pub attach_receipt-got :
    (host : Host) (response response' : Response) (receipt : Fields) (context : MiddlewareContext)
    (log log' : Log)
    → attach_receipt host response receipt context log ≡ (got response', log')
    → (response'.status ≡ response.status) × (response'.body ≡ response.body)
unfolding attach_receipt
attach_receipt-got host response response' receipt context log log' h =
    let (encoded, l1, _, h1) =
      >>=-got (encode_oati_header host receipt)
        (λ encoded. pure (labelled response receipt context encoded)) log log' response' h in
    let same : labelled response receipt context encoded ≡ response' =
      got-injective _ response' (ap (λ (r : Try Response × Log). r.0) h1) in
    (ap (λ (r : Response). r.status) (sym same), ap (λ (r : Response). r.body) (sym same))

pub try_or_else-got {ℓ} :
    {A : Type ℓ} (call : Action A) (default : A) (log log' : Log) (a : A)
    → try_or_else call default log ≡ (got a, log')
    → ((l : Log) × (call log ≡ (got a, l))) ⊎ (default ≡ a)
unfolding try_or_else
try_or_else-got {A} call default log log' a h = tried (call log) refl h
  where
    tried :
        (answer : Try A × Log)
        → call log ≡ answer
        → ◌≡◌ {A = Try A × Log}
            (elim answer.0 [
              | got value ↦ (got value, answer.1)
              | threw failure ↦ (got default, answer.1)
            ])
            (got a, log')
        → ((l : Log) × (call log ≡ (got a, l))) ⊎ (default ≡ a)
    tried (got b, l) e h = inl (l, e ∙ ap (λ (r : Try A × Log). (r.0, l)) h)
    tried (threw f, l) e h = inr (got-injective default a (ap (λ (r : Try A × Log). r.0) h))

pub same-Stated :
    (status : ℕ) (response response' : Response)
    → (response'.status ≡ response.status) × (response'.body ≡ response.body)
    → Stated status response
    → Stated status response'
same-Stated status response response' (s, b) h = record {
  fields = h.fields;
  status_is = s ∙ h.status_is;
  body_is = b ∙ h.body_is;
  named = h.named;
}
