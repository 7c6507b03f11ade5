-- ===== src/Middleware/Issued.antt =====
-- The receipt that a response carries.
use oati.Prelude.{
  Bool, true, false, ℕ, Option, none, some, ◌≡◌, refl, sym, ap, ◌∙◌, Text, text, ◌==◌, ==_iff,
}
use oati.Json.{Fields, obj, get}
use oati.Canonical.{canonical_json}
use oati.Lookup.Headers.{lower}
use oati.Objects.Terms.{Outcome}
use oati.Crypto.Proof.{without, string_value}
use oati.Middleware.Types.{
  Try, got, Response, MiddlewareContext, Log, pure, raise_if, set_header, Host, MiddlewareOptions,
}
use oati.Middleware.Headers.{encode_oati_header, canonical_or_fail, receipt_id_header}
use oati.Middleware.Receipts.{receipt_draft, issue_receipt, labelled, attach_receipt}
use oati.Middleware.Calls.{>>=-got, got-injective, verified_of}

-- A receipt of the signer for this context and outcome, whose text without its proof is that of the
-- draft; the response has its identifier.
pub record Receipted (host : Host) (options : MiddlewareOptions) (context : MiddlewareContext)
    (outcome : Outcome) (response : Response) : Type 0 where
  pub id : Text
  pub at : ℕ
  pub receipt : Fields
  pub asked : Log
  pub signed :
      options.sign_receipt asked
        (without (receipt_draft host options context outcome at id) (text "oati_version"))
        context
      ≡ got receipt
  pub valid : host.check_receipt receipt ≡ got tt
  pub same_text :
      canonical_json (obj (without receipt (text "proof")))
      ≡ canonical_json (obj (receipt_draft host options context outcome at id))
  pub carried : response.headers receipt_id_header ≡ some (string_value (get receipt (text "id")))

canonical-got : (t : Option Text) (s : Text) → canonical_or_fail t ≡ got s → t ≡ some s
canonical-got none s h = cc
canonical-got (some t) s h = ap (λ (t : Text). some t) (got-injective t s h)

raise_if-got :
    (test : Bool) (code : Text) (log log' : Log) (u : Unit {0})
    → raise_if test code log ≡ (got u, log')
    → test ≡ false
raise_if-got true code log log' u h = cc
raise_if-got false code log log' u h = refl

answer_of {ℓ} : {A : Type ℓ} {r s : Try A × Log} → r ≡ s → r.0 ≡ s.0
answer_of h = ap (λ r. r.0) h

attach_receipt-carried :
    (host : Host) (response response' : Response) (receipt : Fields) (context : MiddlewareContext)
    (log log' : Log)
    → attach_receipt host response receipt context log ≡ (got response', log')
    → response'.headers receipt_id_header ≡ some (string_value (get receipt (text "id")))
unfolding attach_receipt labelled set_header lower text ◌==◌
attach_receipt-carried host response response' receipt context log log' h =
    let (encoded, l1, _, h1) =
      >>=-got (encode_oati_header host receipt)
        (λ encoded. pure (labelled response receipt context encoded)) log log' response' h in
    let same : labelled response receipt context encoded ≡ response' =
      got-injective _ response' (answer_of h1) in
    ap (λ (r : Response). r.headers receipt_id_header) (sym same)

pub issued-Receipted :
    (host : Host) (options : MiddlewareOptions) (context : MiddlewareContext) (outcome : Outcome)
    (at : ℕ) (receipt : Fields) (log log' : Log)
    → issue_receipt host options context outcome at log ≡ (got receipt, log')
    → (response response' : Response) (l l' : Log)
    → attach_receipt host response receipt context l ≡ (got response', l')
    → Receipted host options context outcome response'
unfolding issue_receipt
issued-Receipted host options context outcome at receipt log log' h response response' l l'
      attached =
    let (id, l1, _, h1) = >>=-got _ _ log log' receipt h in
    let (signed, l2, is_signed, h2) = >>=-got _ _ l1 log' receipt h1 in
    let (u, l3, valid, h3) = >>=-got _ _ l2 log' receipt h2 in
    let (signed_text, l4, text_is, h4) = >>=-got _ _ l3 log' receipt h3 in
    let (draft_text, l5, draft_is, h5) = >>=-got _ _ l4 log' receipt h4 in
    let (_, l6, equal, h6) = >>=-got _ _ l5 log' receipt h5 in
    let (_, l7, _, h7) = >>=-got _ _ l6 log' receipt h6 in
    let same : signed ≡ receipt = got-injective signed receipt (answer_of h7) in
    let texts : signed_text ≡ draft_text =
      (==_iff signed_text draft_text).0 (verified_of _ (raise_if-got _ _ l5 l6 _ equal)) in
    record {
      id = id;
      at = at;
      receipt = receipt;
      asked = l1;
      signed = answer_of is_signed ∙ ap (λ (r : Fields). got r) same;
      valid = rw (← same) (answer_of valid);
      same_text = rw (← same) (
          canonical-got _ signed_text (answer_of text_is)
          ∙ ap (λ (t : Text). some t) texts
          ∙ sym (canonical-got _ draft_text (answer_of draft_is)));
      carried = attach_receipt-carried host response response' receipt context l l' attached;
    }
