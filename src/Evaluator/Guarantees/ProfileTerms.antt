-- ===== src/Evaluator/Guarantees/ProfileTerms.antt =====
-- What it means that the Commerce and RWA terms of one Mandate are no wider than those of another, and
-- what `commerceAmplified` and `rwaAmplified` check of it.
use oati.Prelude.{
  Bool, true, false, not, ◌&&◌, List, [], ◌∷◌, Mem, Mem_of_all, and_parts, ok-injective, throw,
  Option, none, some, ◌≡◌, refl, ◌∙◌, Text, text, ok, >>=-eq-ok, inl, inr, ◌⊎◌, Result,
}
use oati.Prelude.Ints.{ℤ, leb_ℤ, leb_ℤ_trans}
use oati.Json.{Json, bool, num, str, Fields, get, object_at, string_array, strict_eq, identical}
use oati.Objects.{AgentMandate}
use oati.Evaluator.Decimal.{read, compare_decimal, at_most_zero}
use oati.Evaluator.Decimal.Value.{AtMost, AtMost-of_sign, AtMost-trans}
use oati.Evaluator.Reasons.{first_true-eq-false}
use oati.Evaluator.Conditions.{
  same_fields, number_at_most, number_at_least, decimal_at_most, subset,
}
use oati.Evaluator.Delegation.{
  fails, is_true, commerce_identity, rwa_identity, commerce_amplified, rwa_amplified, set_text,
}
use oati.Evaluator.Passed.Child.{ProfileNarrower}
use oati.Evaluator.Guarantees.Core.{not-false, same_optional-eq}
use oati.Evaluator.Guarantees.Amounts.{Bounds, compared_parts}
use oati.Evaluator.Guarantees.Terms.{strict_eq-eq}

-- Both are decimal strings, and the first is at most the second.
abbrev pub DecimalInside : Option Json → Option Json → Type 0
DecimalInside c p = (s t : Text) × (c ≡ some (str s)) × (p ≡ some (str t)) × Bounds s t

-- Both are numbers, and the first is at most the second.
abbrev pub NumberInside : Option Json → Option Json → Type 0
NumberInside c p = (x y : ℤ) × (c ≡ some (num x)) × (p ≡ some (num y)) × (leb_ℤ x y ≡ true)

-- The child's terms are about the same offer, at no higher price, total or quantity.
pub record CommerceInside (c p : Fields) : Type 0 where
  pub merchant : get c (text "merchant_organisation_id") ≡ get p (text "merchant_organisation_id")
  pub service : get c (text "service_id") ≡ get p (text "service_id")
  pub offer : get c (text "offer_id") ≡ get p (text "offer_id")
  pub currency : get c (text "currency") ≡ get p (text "currency")
  pub billing_model : get c (text "billing_model") ≡ get p (text "billing_model")
  pub terms_digest : get c (text "terms_digest") ≡ get p (text "terms_digest")
  pub unit_price : DecimalInside (get c (text "max_unit_price")) (get p (text "max_unit_price"))
  pub total : DecimalInside (get c (text "max_total")) (get p (text "max_total"))
  pub quantity : NumberInside (get c (text "max_quantity")) (get p (text "max_quantity"))

-- The child's terms are about the same operation on the same asset, for no larger quantity; they ask
-- for at least the approvals and the roles that the parent's ask for, and are for one use if those are.
pub record RwaInside (c p : Fields) : Type 0 where
  pub asset : get c (text "asset_id") ≡ get p (text "asset_id")
  pub state_claim : get c (text "state_claim_id") ≡ get p (text "state_claim_id")
  pub network : get c (text "network") ≡ get p (text "network")
  pub token_contract : get c (text "token_contract") ≡ get p (text "token_contract")
  pub operation : get c (text "operation") ≡ get p (text "operation")
  pub unit : get c (text "unit") ≡ get p (text "unit")
  pub quantity : DecimalInside (get c (text "max_quantity")) (get p (text "max_quantity"))
  pub approvals : NumberInside (get p (text "minimum_approvals")) (get c (text "minimum_approvals"))
  pub roles :
      (role : Text)
      → Mem role (string_array (get p (text "required_roles")))
      → Mem role (string_array (get c (text "required_roles")))
  pub one_time :
      get p (text "one_time") ≡ some (bool true) → get c (text "one_time") ≡ some (bool true)

-- Terms that the parent has the child has too, and they lie inside.
abbrev pub TermsInside : (Fields → Fields → Type 0) → Option Fields → Option Fields → Type 0
TermsInside inside child none = Unit
TermsInside inside none (some p) = ⊥
TermsInside inside (some c) (some p) = inside c p

abbrev pub NoProfile : Option Text → Type 0
NoProfile none = Unit
NoProfile (some []) = Unit
NoProfile (some (c ∷ s)) = ⊥

-- The profile is the same, and the Commerce and RWA terms lie inside the parent's; or neither Mandate
-- names a profile.
abbrev pub ProfileInside : AgentMandate → AgentMandate → Type 0
ProfileInside child parent =
    ((child.profile ≡ parent.profile)
      × TermsInside CommerceInside (object_at child.extensions (text "commerce"))
          (object_at parent.extensions (text "commerce"))
      × TermsInside RwaInside (object_at child.extensions (text "rwa"))
          (object_at parent.extensions (text "rwa")))
    ⊎ (NoProfile child.profile × NoProfile parent.profile)

passes : (test : Result Bool) → fails test ≡ ok false → test ≡ ok true
passes (ok true) h = refl
passes (ok false) h = cc
passes (throw e) h = cc

decimal_at_most-inside : (c p : Option Json) → decimal_at_most c p ≡ ok true → DecimalInside c p
unfolding decimal_at_most
decimal_at_most-inside (some (str s)) (some (str t)) h =
    let (r, compared, at_most) = >>=-eq-ok (compare_decimal s t) (λ r. ok (at_most_zero r)) h in
    let (s_decimal, t_decimal, e) = compared_parts s t compared in
    (
      s,
      t,
      refl,
      refl,
      (s_decimal, t_decimal, AtMost-of_sign (read s) (read t) (rw e (ok-injective at_most))),
    )
decimal_at_most-inside _ _ h = cc

DecimalInside-of_test :
    (c p : Option Json) → fails (decimal_at_most c p) ≡ ok false → DecimalInside c p
DecimalInside-of_test c p h = decimal_at_most-inside c p (passes (decimal_at_most c p) h)

NumberInside-of_at_most : (c p : Option Json) → number_at_most c p ≡ true → NumberInside c p
unfolding number_at_most
NumberInside-of_at_most (some (num x)) (some (num y)) h = (x, y, refl, refl, h)
NumberInside-of_at_most _ _ h = cc

NumberInside-of_at_least : (c p : Option Json) → number_at_least c p ≡ true → NumberInside p c
unfolding number_at_least
NumberInside-of_at_least (some (num x)) (some (num y)) h = (y, x, refl, refl, h)
NumberInside-of_at_least _ _ h = cc

-- Properties that are the same in both.
abbrev Same : Fields → Fields → List Text → Type 0
Same c p [] = Unit
Same c p (k ∷ ks) = (get c k ≡ get p k) × Same c p ks

same_fields-Same : (c p : Fields) (ks : List Text) → same_fields c p ks ≡ true → Same c p ks
unfolding same_fields
same_fields-Same c p [] h = tt
same_fields-Same c p (k ∷ ks) h =
    let (here, later) = and_parts (strict_eq (get c k) (get p k)) (same_fields c p ks) h in
    (strict_eq-eq (get c k) (get p k) here, same_fields-Same c p ks later)

commerce_amplified-inside :
    (c p : Option Fields) → commerce_amplified c p ≡ ok false → TermsInside CommerceInside c p
unfolding commerce_amplified
commerce_amplified-inside c none h = tt
commerce_amplified-inside none (some p) h = cc
commerce_amplified-inside (some c) (some p) h =
    let tests =
      first_true-eq-false
        (ok (not (same_fields c p commerce_identity))
          ∷ fails (decimal_at_most (get c (text "max_unit_price")) (get p (text "max_unit_price")))
          ∷ fails (decimal_at_most (get c (text "max_total")) (get p (text "max_total")))
          ∷ ok (not (number_at_most (get c (text "max_quantity")) (get p (text "max_quantity"))))
          ∷ [])
        h in
    let same = same_fields-Same c p commerce_identity (not-false _ (ok-injective tests.0)) in
    record {
      merchant = same.0;
      service = same.1.0;
      offer = same.1.1.0;
      currency = same.1.1.1.0;
      billing_model = same.1.1.1.1.0;
      terms_digest = same.1.1.1.1.1.0;
      unit_price = DecimalInside-of_test _ _ tests.1.0;
      total = DecimalInside-of_test _ _ tests.1.1.0;
      quantity = NumberInside-of_at_most _ _ (not-false _ (ok-injective tests.1.1.1.0));
    }

one_time_kept :
    (c p : Option Json)
    → (is_true p && not (is_true c)) ≡ false
    → p ≡ some (bool true)
    → c ≡ some (bool true)
unfolding strict_eq identical
one_time_kept c p h e =
    let kept : not (is_true c) ≡ false = rw e at h in
    strict_eq-eq c (some (bool true)) (not-false (is_true c) kept)

rwa_amplified-inside :
    (c p : Option Fields) → rwa_amplified c p ≡ ok false → TermsInside RwaInside c p
unfolding rwa_amplified subset
rwa_amplified-inside c none h = tt
rwa_amplified-inside none (some p) h = cc
rwa_amplified-inside (some c) (some p) h =
    let tests =
      first_true-eq-false
        (ok (not (same_fields c p rwa_identity))
          ∷ fails (decimal_at_most (get c (text "max_quantity")) (get p (text "max_quantity")))
          ∷ ok (
              not (
                number_at_least (get c (text "minimum_approvals"))
                  (get p (text "minimum_approvals"))))
          ∷ ok (
              not (
                subset (string_array (get p (text "required_roles")))
                  (string_array (get c (text "required_roles")))))
          ∷ ok (is_true (get p (text "one_time")) && not (is_true (get c (text "one_time"))))
          ∷ [])
        h in
    let same = same_fields-Same c p rwa_identity (not-false _ (ok-injective tests.0)) in
    record {
      asset = same.0;
      state_claim = same.1.0;
      network = same.1.1.0;
      token_contract = same.1.1.1.0;
      operation = same.1.1.1.1.0;
      unit = same.1.1.1.1.1.0;
      quantity = DecimalInside-of_test _ _ tests.1.0;
      approvals = NumberInside-of_at_least _ _ (not-false _ (ok-injective tests.1.1.0));
      roles = λ role m.
          Mem_of_all (string_array (get p (text "required_roles")))
            (string_array (get c (text "required_roles")))
            (not-false _ (ok-injective tests.1.1.1.0)) role m;
      one_time = one_time_kept _ _ (ok-injective tests.1.1.1.1.0);
    }

NoProfile-of_test : (s : Option Text) → set_text s ≡ false → NoProfile s
NoProfile-of_test none h = tt
NoProfile-of_test (some []) h = tt
NoProfile-of_test (some (c ∷ s)) h = cc

pub ProfileInside-of_narrower :
    (child parent : AgentMandate) → ProfileNarrower child parent → ProfileInside child parent
ProfileInside-of_narrower child parent (inl (same, commerce, rwa)) = inl (
  same_optional-eq child.profile parent.profile same,
  commerce_amplified-inside _ _ commerce,
  rwa_amplified-inside _ _ rwa,
)
ProfileInside-of_narrower child parent (inr (unset, unset_parent)) =
    inr (NoProfile-of_test child.profile unset, NoProfile-of_test parent.profile unset_parent)

DecimalInside-trans :
    (a b c : Option Json) → DecimalInside a b → DecimalInside b c → DecimalInside a c
DecimalInside-trans a b c (s, t, at_s, at_t, (s_decimal, t_decimal, h))
      (t', u, at_t', at_u, (t_decimal', u_decimal, k)) =
    let same : t' ≡ t = cc in
    let k' : AtMost (read t) (read u) = rw same at k in
    (s, u, at_s, at_u, (s_decimal, u_decimal, AtMost-trans (read s) (read t) (read u) h k'))

NumberInside-trans : (a b c : Option Json) → NumberInside a b → NumberInside b c → NumberInside a c
NumberInside-trans a b c (x, y, at_x, at_y, h) (y', z, at_y', at_z, k) =
    let same : y' ≡ y = cc in
    let k' : leb_ℤ y z ≡ true = rw same at k in (x, z, at_x, at_z, leb_ℤ_trans x y z h k')

CommerceInside-trans :
    (a b c : Fields) → CommerceInside a b → CommerceInside b c → CommerceInside a c
CommerceInside-trans a b c h k = record {
  merchant = h.merchant ∙ k.merchant;
  service = h.service ∙ k.service;
  offer = h.offer ∙ k.offer;
  currency = h.currency ∙ k.currency;
  billing_model = h.billing_model ∙ k.billing_model;
  terms_digest = h.terms_digest ∙ k.terms_digest;
  unit_price = DecimalInside-trans _ _ _ h.unit_price k.unit_price;
  total = DecimalInside-trans _ _ _ h.total k.total;
  quantity = NumberInside-trans _ _ _ h.quantity k.quantity;
}

RwaInside-trans : (a b c : Fields) → RwaInside a b → RwaInside b c → RwaInside a c
RwaInside-trans a b c h k = record {
  asset = h.asset ∙ k.asset;
  state_claim = h.state_claim ∙ k.state_claim;
  network = h.network ∙ k.network;
  token_contract = h.token_contract ∙ k.token_contract;
  operation = h.operation ∙ k.operation;
  unit = h.unit ∙ k.unit;
  quantity = DecimalInside-trans _ _ _ h.quantity k.quantity;
  approvals = NumberInside-trans _ _ _ k.approvals h.approvals;
  roles = λ role m. h.roles role (k.roles role m);
  one_time = λ e. h.one_time (k.one_time e);
}

TermsInside-trans :
    (inside : Fields → Fields → Type 0)
    → ((a b c : Fields) → inside a b → inside b c → inside a c)
    → (a b c : Option Fields) → TermsInside inside a b
    → TermsInside inside b c
    → TermsInside inside a c
TermsInside-trans inside trans a b none h k = tt
TermsInside-trans inside trans a none (some c) h k = absurd k
TermsInside-trans inside trans none (some b) (some c) h k = absurd h
TermsInside-trans inside trans (some a) (some b) (some c) h k = trans a b c h k

pub ProfileInside-trans :
    (a b c : AgentMandate) → ProfileInside a b → ProfileInside b c → ProfileInside a c
ProfileInside-trans a b c (inl (same, commerce, rwa)) (inl (same', commerce', rwa')) = inl (
  same ∙ same',
  TermsInside-trans CommerceInside CommerceInside-trans _ _ _ commerce commerce',
  TermsInside-trans RwaInside RwaInside-trans _ _ _ rwa rwa',
)
ProfileInside-trans a b c (inl (same, _, _)) (inr (unset, unset')) = inr (rw same unset, unset')
ProfileInside-trans a b c (inr (unset, unset')) (inl (same, _, _)) = inr (unset, rw (← same) unset')
ProfileInside-trans a b c (inr (unset, _)) (inr (_, unset')) = inr (unset, unset')
