-- ===== src/Tests/Objects.antt =====
-- The theorems on the validators and the decimals of the SDK's objects, at a purchase and a mint.
use oati.Prelude.{true, none, some, ◌≡◌, refl, arith, text, ok}
use oati.Prelude.Ints.{pos}
use oati.Json.{str}
use oati.Objects.{commerce_profile, rwa_profile}
use oati.Objects.Terms.{
  ActionReceipt, allow, succeeded, CommerceTerms, PurchaseMandate, CommerceReceiptTerms, fulfilled,
  CommerceReceipt, AssetStateClaim, reserve_balance, custodian, RwaMandateTerms, mint, AssetMandate,
}
use oati.Objects.Decimals.{compare_decimal_text, multiply_decimal_text}
use oati.Objects.Decimals.Agree.{or_nan, compare_decimal_text-agrees, multiply_decimal_text-agrees}
use oati.Objects.Validators.{validate_commerce_receipt}
use oati.Objects.Validators.Rwa.{validate_mint_mandate}
use oati.Objects.Validators.Facts.{Settles, validate_commerce_receipt-Settles}
use oati.Objects.Validators.MintFacts.{Mints, validate_mint_mandate-Mints}
use oati.Evaluator.Decimal.{compare_decimal, multiply_decimal}
use oati.Tests.Requests.{runtime, running, child}

compare_decimal_text-agrees_example :
    compare_decimal_text (text "10.50") (text "9.999")
    ≡ or_nan (compare_decimal (text "10.50") (text "9.999"))
compare_decimal_text-agrees_example = compare_decimal_text-agrees (text "10.50") (text "9.999")

multiply_decimal_text-agrees_example :
    multiply_decimal (text "10.05") 3 ≡ ok (multiply_decimal_text (text "10.05") (pos 3))
unfolding running
multiply_decimal_text-agrees_example =
    multiply_decimal_text-agrees (text "10.05") 3 refl (omega arith)

abbrev terms : CommerceTerms
terms = record {
  merchant_organisation_id = text "oati:org:seller-a";
  service_id = text "oati:service:catalogue";
  offer_id = text "offer-1";
  currency = text "EUR";
  max_unit_price = text "12.00";
  max_total = text "100";
  max_quantity = pos 5;
  billing_model = none;
  terms_digest = some (text "sha256:1");
}

abbrev purchase : PurchaseMandate
purchase = record { core = record child { profile = some commerce_profile }; commerce = terms }

abbrev sold : CommerceReceiptTerms
sold = record {
  merchant_organisation_id = text "oati:org:seller-a";
  service_id = text "oati:service:catalogue";
  offer_id = text "offer-1";
  currency = text "EUR";
  quantity = pos 3;
  unit_price = text "10.50";
  total_amount = text "31.5";
  fulfilment_status = fulfilled;
  terms_digest = text "sha256:1";
  billing_reference = none;
}

abbrev core_receipt : ActionReceipt
core_receipt = record {
  id = text "oati:receipt:1";
  transaction_id = text "oati:tx:1";
  agent_id = text "oati:agent:buyer:child";
  organisation_id = text "oati:org:buyer";
  mandate_id = text "oati:mandate:child:one";
  decision = allow;
  outcome = succeeded;
  occurred_at = text "2026-07-27T10:00:00Z";
  issuer = text "oati:org:seller-a";
  profile = some commerce_profile;
  extensions = none;
  proof = some (str (text "signature"));
  policy_digest = none;
  request_digest = none;
  response_digest = none;
  commercial_profile = none;
}

abbrev receipt : CommerceReceipt
receipt = record { core = core_receipt; commerce = some sold }

validate_commerce_receipt-Settles_example : Settles (text "oati:mandate:child:one") sold purchase
unfolding running validate_commerce_receipt
validate_commerce_receipt-Settles_example =
    validate_commerce_receipt-Settles receipt sold purchase refl refl refl refl

abbrev mint_terms : RwaMandateTerms
mint_terms = record {
  asset_id = text "oati:asset:fund";
  state_claim_id = text "oati:claim:1";
  network = text "eip155:1";
  token_contract = text "0x1";
  operation = mint;
  unit = text "EUR";
  max_quantity = text "1000.00";
  one_time = true;
  minimum_approvals = pos 2;
  required_roles = none;
}

abbrev mint_mandate : AssetMandate
mint_mandate = record { core = record child { profile = some rwa_profile }; rwa = some mint_terms }

abbrev claim : AssetStateClaim
claim = record {
  profile = rwa_profile;
  id = text "oati:claim:1";
  asset_id = text "oati:asset:fund";
  claim_type = reserve_balance;
  value = text "1000";
  unit = text "EUR";
  observed_at = text "2026-07-27T08:30:00Z";
  valid_until = text "2026-07-28T08:30:00Z";
  issuer = text "oati:org:custodian";
  issuer_role = custodian;
  evidence = record { uri = none; digest = text "sha256:2"; media_type = text "application/json" };
  proof = str (text "signature");
}

validate_mint_mandate-Mints_example : Mints runtime mint_mandate mint_terms claim 20260727100000
unfolding running validate_mint_mandate
validate_mint_mandate-Mints_example =
    validate_mint_mandate-Mints runtime mint_mandate mint_terms claim 20260727100000 20260727090000
      20260727120000 20260727083000 20260728083000 refl refl refl refl refl refl refl
