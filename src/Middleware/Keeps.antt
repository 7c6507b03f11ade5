-- ===== src/Middleware/Keeps.antt =====
-- What the effects of the middleware keep: a predicate on the log that every event but an update of
-- the usage keeps, and that an update keeps where an evaluation allows it.
use oati.Prelude.{
  ℕ, Bool, true, false, Option, none, some, List, ◌∷◌, ◌++◌, ◌≡◌, refl, if◌then◌else◌, Text, text,
}
use oati.Json.{Fields}
use oati.Objects.Terms.{Outcome, denied, outcome_failed}
use oati.Middleware.Types.{
  Try, threw, got, Response, MiddlewareContext, Event, set_usage, called_handler, signed_receipt,
  emitted_receipt, made_uuid, Log, Action, ◌>>=◌, pure, tries, try_or_else, Host, MiddlewareOptions,
  Handler,
}
use oati.Middleware.Headers.{safe_uuid, uuid_of_bytes, encode_oati_header}
use oati.Middleware.Receipts.{issue_receipt, attach_receipt, receipt_response, receipt_id_of, emit}
use oati.Middleware.Flow.{Flow, after, answered, call_handler, refuse_with}

-- An event of any kind but `set_usage`.
abbrev pub is_other : Event → Bool
is_other (set_usage id previous next) = false
is_other _ = true

module _ (I : Log → Type 0) where
  pub then_keeps {κ ℓ} :
      {A : Type κ} {B : Type ℓ} (call : Action A) (rest : A → Action B) (log : Log)
      → I (call log).1
      → ((a : A) (log' : Log) → call log ≡ (got a, log') → I log' → I (rest a log').1)
      → I ((call >>= rest) log).1
  unfolding ◌>>=◌
  then_keeps {A} {B} call rest log h k = by_answer (call log) refl h
    where
      by_answer :
          (answer : Try A × Log)
          → call log ≡ answer
          → I answer.1
          → (let r : Try B × Log = elim answer.0 [
            | got value ↦ rest value answer.1
            | threw failure ↦ (threw failure, answer.1)
          ] in
              I r.1)
      by_answer (got a, log') e h = k a log' e h
      by_answer (threw f, log') e h = h

  pub after_keeps {ℓ} :
      {A : Type ℓ} (call : Action A) (rest : A → Flow) (log : Log)
      → I (call log).1
      → ((a : A) (log' : Log) → call log ≡ (got a, log') → I log' → I (rest a log').2)
      → I (after call rest log).2
  unfolding after
  after_keeps {A} call rest log h k = by_answer (call log) refl h
    where
      by_answer :
          (answer : Try A × Log)
          → call log ≡ answer
          → I answer.1
          → (let r : Try Response × Option MiddlewareContext × Log = elim answer.0 [
            | got value ↦ rest value answer.1
            | threw failure ↦ (threw failure, none, answer.1)
          ] in
              I r.2)
      by_answer (got a, log') e h = k a log' e h
      by_answer (threw f, log') e h = h

  pub try_or_else_keeps {ℓ} :
      {A : Type ℓ} (call : Action A) (default : A) (log : Log)
      → I (call log).1
      → I (try_or_else call default log).1
  unfolding try_or_else
  try_or_else_keeps {A} call default log h = by_answer (call log) h
    where
      by_answer :
          (answer : Try A × Log)
          → I answer.1
          → (let r : Try A × Log = elim answer.0 [
            | got value ↦ (got value, answer.1)
            | threw failure ↦ (got default, answer.1)
          ] in
              I r.1)
      by_answer (got a, log') h = h
      by_answer (threw f, log') h = h

  pub if_keeps :
      (test : Bool) (x y : Flow) (log : Log)
      → I (x log).2
      → (test ≡ false → I (y log).2)
      → I ((if test then x else y) log).2
  if_keeps true x y log h k = h
  if_keeps false x y log h k = k refl

module _ (host : Host) (options : MiddlewareOptions) (I : Log → Type 0)
    (other : (event : Event) (log : Log) → is_other event ≡ true → I log → I (event ∷ log)) where
  pub safe_uuid-keeps : (log : Log) → I log → I (safe_uuid host log).1
  unfolding safe_uuid
  safe_uuid-keeps log h = by_options host.random_uuid host.random_values
    where
      by_options :
          (uuid : Option (Log → Text)) (values : Option (Log → List ℕ))
          → (let r : Try Text × Log = elim uuid [
            | some random ↦ (got (random log), made_uuid ∷ log)
            | none ↦ uuid_of_bytes values log
          ] in
              I r.1)
      by_options (some random) values = other made_uuid log refl h
      by_options none (some values) = other made_uuid log refl h
      by_options none none = h

  receipt_id_of-keeps :
      (transaction_id : Text) (log : Log)
      → I log
      → I (receipt_id_of host options transaction_id log).1
  receipt_id_of-keeps transaction_id log h = by_option options.generate_receipt_id
    where
      by_option :
          (generator : Option (Log → Text → Text))
          → (let f : Action Text = elim generator [
            | none ↦ (do uuid ← safe_uuid host; pure (text "oati:receipt:" ++ uuid))
            | some generate ↦ λ log. (got (generate log transaction_id), log)
          ] in
              I (f log).1)
      by_option none =
          then_keeps I (safe_uuid host) (λ uuid. pure (text "oati:receipt:" ++ uuid)) log
            (safe_uuid-keeps log h) λ uuid l1 _ h1. h1
      by_option (some generate) = h

  emit-keeps :
      (receipt : Fields) (context : MiddlewareContext) (log : Log)
      → I log
      → I (emit options receipt context log).1
  emit-keeps receipt context log h = by_option options.emit_receipt
    where
      by_option :
          (emitter : Option (Log → Fields → MiddlewareContext → Try (Unit {0})))
          → (let f : Action (Unit {0}) = elim emitter [
            | none ↦ pure tt
            | some send ↦ tries (λ log. send log receipt context) (emitted_receipt receipt)
          ] in
              I (f log).1)
      by_option none = h
      by_option (some send) = other (emitted_receipt receipt) log refl h

  issue_receipt-keeps :
      (context : MiddlewareContext) (outcome : Outcome) (at : ℕ) (log : Log)
      → I log
      → I (issue_receipt host options context outcome at log).1
  unfolding issue_receipt
  issue_receipt-keeps context outcome at log h =
      then_keeps I _ _ log (receipt_id_of-keeps context.transaction_id log h) λ id l1 _ h1.
        then_keeps I _ _ l1 (other (signed_receipt _) l1 refl h1) λ receipt l2 _ h2.
          then_keeps I _ _ l2 h2 λ _ l3 _ h3. then_keeps I _ _ l3 h3 λ signed l4 _ h4.
            then_keeps I _ _ l4 h4 λ asked l5 _ h5.
              then_keeps I _ _ l5 h5
                λ _ l6 _ h6. then_keeps I _ _ l6 (emit-keeps receipt context l6 h6) λ _ l7 _ h7. h7

  attach_receipt-keeps :
      (response : Response) (receipt : Fields) (context : MiddlewareContext) (log : Log)
      → I log
      → I (attach_receipt host response receipt context log).1
  unfolding attach_receipt encode_oati_header
  attach_receipt-keeps response receipt context log h =
      then_keeps I _ _ log (then_keeps I _ _ log h λ canonical l _ k. k) λ encoded l1 _ h1. h1

  pub receipt_response-keeps :
      (context : MiddlewareContext) (outcome : Outcome) (status at : ℕ) (code : Text) (log : Log)
      → I log
      → I (receipt_response host options context outcome status at code log).1
  unfolding receipt_response
  receipt_response-keeps context outcome status at code log h =
      then_keeps I _ _ log (issue_receipt-keeps context outcome at log h)
        λ receipt l1 _ h1. attach_receipt-keeps _ receipt context l1 h1

  pub refuse_with-keeps :
      (context : MiddlewareContext) (status : ℕ) (code : Text) (log : Log)
      → I log
      → I (refuse_with host options context status code log).2
  unfolding refuse_with ◌>>=◌
  refuse_with-keeps context status code log h =
      receipt_response-keeps context denied status (options.now log) code log h

  answered-keeps :
      (context : MiddlewareContext) (result : Try Response) (log : Log)
      → I log
      → I (answered host options context result log).1
  unfolding answered
  answered-keeps context (threw f) log h = then_keeps I _ _ log h λ at l1 _ h1.
      receipt_response-keeps context outcome_failed 500 at (text "MIDDLEWARE_FORBIDDEN") l1 h1
  answered-keeps context (got response) log h = then_keeps I _ _ log h λ at l1 _ h1.
      then_keeps I _ _ l1 (issue_receipt-keeps context _ at l1 h1)
        λ receipt l2 _ h2. attach_receipt-keeps response receipt context l2 h2

  pub call_handler-keeps :
      (next : Handler) (context : MiddlewareContext) (log : Log)
      → I log
      → I (call_handler host options next context log).2
  unfolding call_handler
  call_handler-keeps next context log h =
      answered-keeps context _ _ (other (called_handler context) log refl h)
