-- ===== src/Tests/Requests.antt =====
-- Requests after conformance/evaluator/cases.json, and a runtime that reads their timestamps.
use oati.Prelude.{
  true, false, [], ◌∷◌, none, some, text, if◌then◌else◌, keep, ◌==◌, includes, starts_with, split,
}
use oati.Prelude.Ints.{pos}
use oati.Json.{
  bool, num, str, arr, obj, nil, cons, end, field, get, object_at, string_array, string_of, truthy,
  print, to_text,
}
use oati.Objects.{AgentMandate, TransactionEnvelope, active, commerce_profile, rwa_profile}
use oati.Evaluator.Decimal.{is_digit, is_decimal, big_int, read}
use oati.Evaluator.Types.{
  UsageSnapshot, CommerceContext, RwaContext, mint, EvaluationRequest, commerce_fields, rwa_fields,
  operation_text,
}
use oati.Evaluator.Conditions.{Runtime, narrower_object, constrained_subset, violates_set}
use oati.Evaluator.Delegation.{delegation_refused}
use oati.Evaluator.Rwa.{number_of, role_missing}
use oati.Evaluator.Authority.{evaluate_authority}

-- Timestamps in UTC of one format are ordered as the numbers that their digits spell.
abbrev pub runtime : Runtime
runtime = record {
  parse_date = λ s. some (big_int (keep is_digit s));
  number_of_text = λ s. if is_decimal s then some (pos (big_int s)) else none;
}

abbrev pub parent : AgentMandate
parent = record {
  id = text "oati:mandate:parent:one";
  issuer = text "oati:org:buyer";
  subject = text "oati:agent:buyer:parent";
  sponsor = none;
  parent_mandate = none;
  purpose = text "procurement";
  actions = text "quote.read" ∷ text "order.create" ∷ [];
  resources = some (text "catalogue:a" ∷ text "catalogue:b" ∷ []);
  counterparties = some (text "oati:org:seller-a" ∷ text "oati:org:seller-b" ∷ []);
  destinations = some (text "system:buyer" ∷ []);
  limits = some (
      field (text "max_calls") (num (pos 10)) (
        field (text "max_total") (str (text "100.00"))
          (field (text "currency") (str (text "EUR")) end)));
  data_use = some (field (text "retention_seconds") (num (pos 3600)) end);
  delegation = some (record { allowed = true; max_depth = 1 });
  not_before = text "2026-07-27T08:00:00Z";
  expires_at = text "2026-07-27T18:00:00Z";
  status = active;
  profile = none;
  extensions = none;
  proof = none;
}

abbrev pub child : AgentMandate
child = record parent {
  id = text "oati:mandate:child:one";
  issuer = text "oati:agent:buyer:parent";
  subject = text "oati:agent:buyer:child";
  parent_mandate = some (text "oati:mandate:parent:one");
  actions = text "quote.read" ∷ [];
  resources = some (text "catalogue:a" ∷ []);
  counterparties = some (text "oati:org:seller-a" ∷ []);
  limits = some (
      field (text "max_calls") (num (pos 5)) (
        field (text "max_total") (str (text "25.00"))
          (field (text "currency") (str (text "EUR")) end)));
  data_use = some (field (text "retention_seconds") (num (pos 1800)) end);
  delegation = some (record { allowed = false; max_depth = 0 });
  not_before = text "2026-07-27T09:00:00Z";
  expires_at = text "2026-07-27T12:00:00Z";
}

abbrev pub envelope : TransactionEnvelope
envelope = record {
  id = text "oati:tx:child:one";
  agent_id = text "oati:agent:buyer:child";
  organisation_id = text "oati:org:buyer";
  mandate_id = text "oati:mandate:child:one";
  action = text "quote.read";
  resource = text "catalogue:a";
  purpose = some (text "procurement");
  destination = some (text "system:buyer");
  counterparty = some (text "oati:org:seller-a");
  protocol = none;
  commercial_profile = none;
  request_digest = none;
  issued_at = text "2026-07-27T09:59:00Z";
  nonce = text "child-evaluation-nonce-001";
  profile = none;
  extensions = none;
  proof = none;
}

abbrev pub prior : UsageSnapshot
prior = record {
  calls = some 1;
  amount = some (text "5.00");
  currency = some (text "EUR");
  quantity = some (text "0");
  consumed = some false;
  idempotency_keys = some (text "child-call-1" ∷ []);
  minted_supply = some (text "0");
}

abbrev pub child_request : EvaluationRequest
child_request = record {
  evaluation_time = text "2026-07-27T10:00:00Z";
  mandate = child;
  parent_mandate = some parent;
  delegation_depth = some 1;
  envelope = envelope;
  usage = prior;
  consumption = some (record {
    calls = some 1;
    amount = some (text "2.00");
    currency = some (text "EUR");
    quantity = some (text "0");
    idempotency_key = some (text "child-call-2");
    consume = none;
  });
  commerce = none;
  rwa = none;
}

abbrev pub commerce_context : CommerceContext
commerce_context = record {
  merchant_organisation_id = text "oati:org:acme-weather";
  service_id = text "oati:service:acme-weather:forecast";
  offer_id = text "forecast-eu-per-request-v1";
  currency = text "EUR";
  quantity = 3;
  unit_price = text "0.20";
  total_amount = text "0.60";
  idempotency_key = text "weather-purchase-001";
  terms_digest = some (text "sha256:terms-example-001");
}

abbrev pub purchase_mandate : AgentMandate
purchase_mandate = record child {
  parent_mandate = none;
  resources = none;
  counterparties = none;
  limits = none;
  profile = some commerce_profile;
  extensions = some (
      field (text "commerce")
        (obj (
          field (text "merchant_organisation_id") (str (text "oati:org:acme-weather")) (
            field (text "service_id") (str (text "oati:service:acme-weather:forecast")) (
              field (text "offer_id") (str (text "forecast-eu-per-request-v1")) (
                field (text "currency") (str (text "EUR")) (
                  field (text "max_unit_price") (str (text "0.25")) (
                    field (text "max_total") (str (text "10.00"))
                      (field (text "max_quantity") (num (pos 5)) end))))))))
        end);
}

abbrev pub commerce_request : EvaluationRequest
commerce_request = record child_request {
  mandate = purchase_mandate;
  parent_mandate = none;
  consumption = none;
  commerce = some commerce_context;
}

abbrev pub rwa_context : RwaContext
rwa_context = record {
  asset_id = text "oati:asset:example:eur-reserve-token";
  state_claim_id = text "oati:claim:example:reserve-20260727-0900";
  network = text "eip155:1";
  token_contract = text "0x1111";
  operation = mint;
  unit = text "EUR";
  quantity = text "250.00";
  reserve = text "1000.00";
  approval_count = 2;
  approval_roles = text "custodian" ∷ text "approver" ∷ [];
  current_supply = text "500.00";
  maximum_supply = some (text "1000.00");
  claim_valid_until = text "2026-07-27T11:30:00Z";
}

abbrev pub mint_mandate : AgentMandate
mint_mandate = record purchase_mandate {
  profile = some rwa_profile;
  extensions = some (
      field (text "rwa")
        (obj (
          field (text "asset_id") (str (text "oati:asset:example:eur-reserve-token")) (
            field (text "state_claim_id") (str (text "oati:claim:example:reserve-20260727-0900")) (
              field (text "network") (str (text "eip155:1")) (
                field (text "token_contract") (str (text "0x1111")) (
                  field (text "operation") (str (text "mint")) (
                    field (text "unit") (str (text "EUR")) (
                      field (text "max_quantity") (str (text "250.00")) (
                        field (text "one_time") (bool true) (
                          field (text "minimum_approvals") (num (pos 2)) (
                            field (text "required_roles") (arr (cons (str (text "custodian")) nil))
                              end)))))))))))
        end);
}

abbrev pub rwa_request : EvaluationRequest
rwa_request = record commerce_request {
  mandate = mint_mandate;
  usage = record prior { minted_supply = some (text "500.00") };
  commerce = none;
  rwa = some rwa_context;
}

-- What an evaluation computes with.
unfoldable pub running : Unit {0}
unfolding evaluate_authority text get role_missing object_at string_array string_of truthy print
    to_text ◌==◌ includes starts_with split narrower_object constrained_subset delegation_refused
    violates_set commerce_fields rwa_fields operation_text number_of commerce_profile rwa_profile
    is_decimal read big_int
running = tt
