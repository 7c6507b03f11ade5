-- ===== src/Middleware/Kept/Received.antt =====
-- Receiving a request keeps what its effects keep.
use oati.Prelude.{ℕ, true, Option, none, some, ◌∷◌, ◌≡◌, ap, Text, Bool-cases, inl, inr, ◌∙◌}
use oati.Json.{Json, null, bool, num, str, arr, obj, Fields}
use oati.Objects.{AgentMandate}
use oati.Middleware.Types.{
  Try, threw, got, Request, Documents, Extracted, Event, Log, Action, pure, Host, MiddlewareOptions,
}
use oati.Middleware.Headers.{
  non_empty, correlation, generated, decode_header, decode_parent, object_or_fail,
  extract_oati_headers,
}
use oati.Middleware.Flow.{documents_of, receive_request}
use oati.Middleware.Calls.{>>=-got}
use oati.Middleware.Keeps.{is_other, then_keeps, safe_uuid-keeps}

module _ (host : Host) (options : MiddlewareOptions) (I : Log → Type 0)
    (other : (event : Event) (log : Log) → is_other event ≡ true → I log → I (event ∷ log))
    (request : Request) where
  object_or_fail-keeps : (value : Option Json) (log : Log) → I log → I (object_or_fail value log).1
  object_or_fail-keeps none log h = h
  object_or_fail-keeps (some (obj fs)) log h = h
  object_or_fail-keeps (some null) log h = h
  object_or_fail-keeps (some (bool b)) log h = h
  object_or_fail-keeps (some (num n)) log h = h
  object_or_fail-keeps (some (str s)) log h = h
  object_or_fail-keeps (some (arr xs)) log h = h

  decode_header-keeps :
      (value : Option Text) (max_bytes : ℕ) (log : Log)
      → I log
      → I (decode_header host value max_bytes log).1
  unfolding decode_header
  decode_header-keeps none max_bytes log h = h
  decode_header-keeps (some value) max_bytes log h =
      then_keeps I _ _ log h
        λ _ l1 _ h1. then_keeps I _ _ l1 h1 λ _ l2 _ h2. object_or_fail-keeps _ l2 h2

  decode_parent-keeps :
      (value : Option Text) (max_bytes : ℕ) (log : Log)
      → I log
      → I (decode_parent host value max_bytes log).1
  decode_parent-keeps value max_bytes log h = elim (Bool-cases (non_empty value)) [
    | inl given ↦ rw given (
        then_keeps I (decode_header host value max_bytes) (λ parent. pure (some parent)) log
          (decode_header-keeps value max_bytes log h) λ parent l1 _ h1. h1)
    | inr missing ↦ rw missing h
  ]

  extract_oati_headers-keeps :
      (max_header_bytes : Option ℕ) (log : Log)
      → I log
      → I (extract_oati_headers host request max_header_bytes log).1
  unfolding extract_oati_headers
  extract_oati_headers-keeps max_header_bytes log h =
      then_keeps I _ _ log (decode_header-keeps _ _ log h) λ envelope l1 _ h1.
        then_keeps I _ _ l1 (decode_header-keeps _ _ l1 h1) λ mandate l2 _ h2.
          then_keeps I _ _ l2 (decode_parent-keeps _ _ l2 h2) λ parent l3 _ h3. h3

  documents_of-keeps : (log : Log) → I log → I (documents_of host options request log).1
  documents_of-keeps log h = by_option options.extract
    where
      by_option :
          (given : Option (Log → Request → Try Documents))
          → (let f : Action Documents = elim given [
            | none ↦ extract_oati_headers host request options.max_header_bytes
            | some extract ↦ λ log. (extract log request, log)
          ] in
              I (f log).1)
      by_option none = extract_oati_headers-keeps options.max_header_bytes log h
      by_option (some extract) = h

  pub receive_request-keeps : (log : Log) → I log → I (receive_request host options request log).1
  unfolding receive_request
  receive_request-keeps log h = then_keeps I _ _ log (documents_of-keeps log h) λ documents l1 _ h1.
      then_keeps I _ _ l1 h1 λ mandate l2 _ h2. then_keeps I _ _ l2 h2 λ envelope l3 _ h3.
        then_keeps I _ _ l3 h3 λ parent l4 _ h4. then_keeps I _ _ l4 h4 λ _ l5 _ h5. h5

  generated-keeps :
      (generator : Option (Log → Text)) (log : Log) → I log → I (generated host generator log).1
  generated-keeps none log h = safe_uuid-keeps host options I other log h
  generated-keeps (some generate) log h = h

  pub correlation-keeps :
      (value : Option Text) (generator : Option (Log → Text)) (log : Log)
      → I log
      → I (correlation host value generator log).1
  unfolding correlation
  correlation-keeps (some value) generator log h = then_keeps I _ _ log h λ _ l1 _ h1. h1
  correlation-keeps none generator log h =
      then_keeps I _ _ log (generated-keeps generator log h)
        λ value l1 _ h1. then_keeps I _ _ l1 h1 λ _ l2 _ h2. h2

or_received : Extracted → Try Extracted → Extracted
or_received default (threw f) = default
or_received default (got extracted) = extracted

-- The mandate of what was received is one that the schema gave.
pub mandate_received :
    (host : Host) (options : MiddlewareOptions) (request : Request) (log log' : Log)
    (extracted : Extracted)
    → receive_request host options request log ≡ (got extracted, log')
    → (document : Fields) × (host.mandate_of document ≡ got extracted.mandate)
unfolding receive_request or_received
mandate_received host options request log log' extracted h =
    let (documents, l1, _, h1) = >>=-got _ _ log log' extracted h in
    let (mandate, l2, is_mandate, h2) = >>=-got _ _ l1 log' extracted h1 in
    let (envelope, l3, _, h3) = >>=-got _ _ l2 log' extracted h2 in
    let (parent, l4, _, h4) = >>=-got _ _ l3 log' extracted h3 in
    let (_, l5, _, h5) = >>=-got _ _ l4 log' extracted h4 in
    let same : mandate ≡ extracted.mandate =
      ap (λ (r : Try Extracted × Log). (or_received extracted r.0).mandate) h5 in
    (
      documents.mandate,
      ap (λ (r : Try AgentMandate × Log). r.0) is_mandate ∙ ap (λ (m : AgentMandate). got m) same,
    )
