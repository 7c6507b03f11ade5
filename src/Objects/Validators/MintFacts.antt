-- ===== src/Objects/Validators/MintFacts.antt =====
-- What a Mandate and a State Claim are that `validateMintMandate` finds valid.
use oati.Prelude.{
  ℕ, ◌^◌, or_false, List, ◌≤◌, ◌<◌, true, false, not, Option, some, [], ◌∷◌, ◌++◌, ◌≡◌, ◌≢◌, refl,
  all, Text, text, ==_iff, arith, eqb, length,
}
use native.Mathlib.Nat.{lt_of_mul-lt-mul_right}
use oati.Prelude.Ints.{pos, leb_ℤ}
use oati.Evaluator.Conditions.{Runtime}
use oati.Evaluator.Decimal.{
  Decimal, Sign, less, equal, greater, at_most_zero, is_decimal, read, compare_aligned,
}
use oati.Evaluator.Decimal.Value.{AtMost, SignOf, compare_aligned-SignOf}
use oati.Objects.{MandateStatus, active, is_active}
use oati.Objects.Decimals.{compare_decimal_text}
use oati.Objects.Decimals.Agree.{compare_decimal_text_of}
use oati.Objects.Terms.{
  mint, reserve_balance, RwaOperation, ClaimType, RwaMandateTerms, AssetMandate, AssetStateClaim,
}
use oati.Objects.Validators.{at_most, later, by, validate_mandate_core}
use oati.Objects.Validators.Rwa.{
  is_mint, is_reserve, claim_tests, mint_tests, mint_issues, not_positive, rwa_profile_test,
  validate_mint_mandate,
}
use oati.Objects.Validators.Facts.{silent, silent_of_valid, silent-append, AtMost-of_not_above}

-- The Mandate allows one mint now, and the claim of the reserve that it names backs the quantity.
pub record Mints (rt : Runtime) (mandate : AssetMandate) (rwa : RwaMandateTerms)
    (claim : AssetStateClaim) (now : ℕ) : Type 0 where
  pub in_force : mandate.core.status ≡ active
  pub acting : mandate.core.actions ≢ []
  pub begun : (t : ℕ) × (rt.parse_date mandate.core.not_before ≡ some t) × (t ≤ now)
  pub live : (t : ℕ) × (rt.parse_date mandate.core.expires_at ≡ some t) × (now < t)
  pub operation : rwa.operation ≡ mint
  pub once : rwa.one_time ≡ true
  pub positive : 1 ≤ (read rwa.max_quantity).coefficient
  pub approvals : leb_ℤ (pos 1) rwa.minimum_approvals ≡ true
  pub claim_type : claim.claim_type ≡ reserve_balance
  pub asset : rwa.asset_id ≡ claim.asset_id
  pub claim_id : rwa.state_claim_id ≡ claim.id
  pub unit : rwa.unit ≡ claim.unit
  pub observed : (t : ℕ) × (rt.parse_date claim.observed_at ≡ some t) × (t ≤ now)
  pub unexpired : (t : ℕ) × (rt.parse_date claim.valid_until ≡ some t) × (now < t)
  pub reserve : AtMost (read rwa.max_quantity) (read claim.value)

-- A date that is valid, and is not after `now`, or is after it.
not_later :
    (date : Option ℕ) (t now : ℕ)
    → date ≡ some t
    → later date (some now) ≡ false
    → (t : ℕ) × (date ≡ some t) × (t ≤ now)
not_later date t now h k = (t, h, ground arith)

not_by :
    (date : Option ℕ) (t now : ℕ)
    → date ≡ some t
    → by date (some now) ≡ false
    → (t : ℕ) × (date ≡ some t) × (now < t)
not_by date t now h k = (t, h, ground arith)

above_zero_of :
    (x y : Decimal) (s : Sign)
    → y.coefficient ≡ 0
    → at_most_zero s ≡ false
    → SignOf s x y
    → 1 ≤ x.coefficient
above_zero_of x y greater z h k = lt_of_mul-lt-mul_right (10 ^ y.scale) (omega arith)
above_zero_of x y less z h k = cc
above_zero_of x y equal z h k = cc

nothing : (read (text "0")).coefficient ≡ 0
unfolding read text
nothing = refl

nought_is_decimal : is_decimal (text "0") ≡ true
unfolding is_decimal text
nought_is_decimal = refl

positive_of :
    (value : Text)
    → not_positive value ≡ false
    → (is_decimal value ≡ true) × (1 ≤ (read value).coefficient)
unfolding not_positive
positive_of value h =
    let (decimal, compared) =
      or_false (not (is_decimal value)) (at_most (compare_decimal_text value (text "0"))) h in
    let good : is_decimal value ≡ true = ground arith in
    let sign : at_most_zero (compare_aligned (read value) (read (text "0"))) ≡ false =
      rw (compare_decimal_text_of value (text "0") good nought_is_decimal) at compared in
    (good, above_zero_of _ _ _ nothing sign (compare_aligned-SignOf (read value) (read (text "0"))))

is_mint_iff : (o : RwaOperation) → is_mint o ≡ true → o ≡ mint
is_mint_iff mint h = refl
is_mint_iff _ h = ground arith

active_of : (s : MandateStatus) → is_active s ≡ true → s ≡ active
active_of active h = refl
active_of _ h = ground arith

is_reserve_iff : (c : ClaimType) → is_reserve c ≡ true → c ≡ reserve_balance
is_reserve_iff reserve_balance h = refl
is_reserve_iff _ h = ground arith

acting_of : (actions : List Text) → eqb (length actions) 0 ≡ false → actions ≢ []
acting_of [] h = cc
acting_of (a ∷ more) h = λ e. ground arith

module _ (rt : Runtime) (mandate : AssetMandate) (rwa : RwaMandateTerms) (claim : AssetStateClaim)
    (now begun live observed until : ℕ) (b : rt.parse_date mandate.core.not_before ≡ some begun)
    (l : rt.parse_date mandate.core.expires_at ≡ some live)
    (o : rt.parse_date claim.observed_at ≡ some observed)
    (u : rt.parse_date claim.valid_until ≡ some until) (value : is_decimal claim.value ≡ true) where
  Mints-of_tests :
      all silent (validate_mandate_core rt mandate.core now) ≡ true
      → all silent (mint_tests rwa) ≡ true
      → all silent (claim_tests rt rwa (some claim) now) ≡ true
      → Mints rt mandate rwa claim now
  unfolding validate_mandate_core mint_tests claim_tests
  Mints-of_tests core tests claims =
      let (decimal, positive) = positive_of rwa.max_quantity (ground arith) in
      record {
        in_force = active_of _ (ground arith);
        acting = acting_of _ (ground arith);
        begun = not_later _ begun now b (ground arith);
        live = not_by _ live now l (ground arith);
        operation = is_mint_iff _ (ground arith);
        once = ground arith;
        positive = positive;
        approvals = ground arith;
        claim_type = is_reserve_iff _ (ground arith);
        asset = (==_iff _ _).0 (ground arith);
        claim_id = (==_iff _ _).0 (ground arith);
        unit = (==_iff _ _).0 (ground arith);
        observed = not_later _ observed now o (ground arith);
        unexpired = not_by _ until now u (ground arith);
        reserve = AtMost-of_not_above rwa.max_quantity _ decimal value (ground arith);
      }

  -- A mint Mandate that is valid with a State Claim, where the four dates can be read and the value of
  -- the claim is a decimal string, is active, begun and unexpired, has an action, and allows one mint
  -- of a positive quantity with at least one approval; the claim is of a reserve balance, for the
  -- Mandate's asset, claim identifier and unit, observed by now and unexpired; and the quantity is at
  -- most the value of the claim, as numbers.
  pub validate_mint_mandate-Mints :
      mandate.rwa ≡ some rwa
      → (validate_mint_mandate rt mandate (some claim) now).valid ≡ true
      → Mints rt mandate rwa claim now
  unfolding validate_mint_mandate mint_issues
  validate_mint_mandate-Mints given h =
      let issues = mint_issues rt mandate.rwa (some claim) now in
      let profile = rwa_profile_test mandate.core.profile in
      let core = validate_mandate_core rt mandate.core now in
      let (quiet, later) =
        silent-append core (profile ++ issues) (silent_of_valid (core ++ profile ++ issues) h) in
      let (_, rest) = silent-append profile issues later in
      let (tests, claims) =
        silent-append (mint_tests rwa) (claim_tests rt rwa (some claim) now) (rw given at rest) in
      Mints-of_tests quiet tests claims
