-- ===== src/Evaluator/Guarantees/Terms.antt =====
-- What it means that the terms of one Mandate (limits or data use) are no wider than those of another,
-- value by value, and what `narrowerObject` checks of it.
use oati.Prelude.{
  Bool, true, false, Option, none, some, ◌≡◌, refl, ap, Text, ==_iff, inl, inr, arith, and_parts,
  ◌⊎◌, Bool-cases, sym,
}
use oati.Prelude.Ints.{ℤ, leb_ℤ, leb_ℤ_trans, eqb_ℤ-eq}
use oati.Json.{
  Json, null, bool, num, str, arr, obj, Items, nil, cons, Fields, end, field, get, identical,
  strict_eq,
}
use oati.Evaluator.Decimal.{at_most_zero, is_decimal, read, compare_aligned}
use oati.Evaluator.Decimal.Value.{AtMost, AtMost-of_sign, AtMost-trans}
use oati.Evaluator.Conditions.{
  holds_item, all_held, narrower_value, narrower_fields, narrower_object,
}

-- The value is an item of the array.
abbrev pub Holds : Json → Items → Type 0
Holds v nil = ⊥
Holds v (cons w ws) = (v ≡ w) ⊎ Holds v ws

-- The child's value, if it has one, is no wider than the parent's: a number or a decimal string at most
-- the parent's, another text, a Boolean or null the same, an array whose items are the parent's, an
-- object that has a value no wider for each property of the parent's.
pub data NarrowValue : Option Json → Json → Type 0 where
  narrow_number : (c p : ℤ) → leb_ℤ c p ≡ true → NarrowValue (some (num c)) (num p)
  narrow_decimal :
      (c p : Text)
      → is_decimal c ≡ true
      → is_decimal p ≡ true
      → AtMost (read c) (read p)
      → NarrowValue (some (str c)) (str p)
  same_string : (p : Text) → is_decimal p ≡ false → NarrowValue (some (str p)) (str p)
  same_null : NarrowValue (some null) null
  same_bool : (b : Bool) → NarrowValue (some (bool b)) (bool b)
  narrow_array :
      (cs ps : Items)
      → ((v : Json) → Holds v cs → Holds v ps)
      → NarrowValue (some (arr cs)) (arr ps)
  narrow_object :
      (cs ps : Fields)
      → ((k : Text) (v : Json) → get ps k ≡ some v → NarrowValue (get cs k) v)
      → NarrowValue (some (obj cs)) (obj ps)

-- What the parent sets the child sets too, to a value no wider.
abbrev pub Bounded : Option Fields → Option Fields → Type 0
Bounded child none = Unit
Bounded none (some parent) = ⊥
Bounded (some child) (some parent) =
    (k : Text) (v : Json) → get parent k ≡ some v → NarrowValue (get child k) v

identical-eq : (v w : Json) → identical v w ≡ true → v ≡ w
unfolding identical
identical-eq null null h = refl
identical-eq (bool true) (bool true) h = refl
identical-eq (bool false) (bool false) h = refl
identical-eq (num a) (num b) h = ap (λ (n : ℤ). num n) (eqb_ℤ-eq a b h)
identical-eq (str s) (str t) h = ap (λ (s : Text). str s) ((==_iff s t).0 h)
identical-eq _ _ h = cc

pub strict_eq-eq : (v w : Option Json) → strict_eq v w ≡ true → v ≡ w
unfolding strict_eq
strict_eq-eq none none h = refl
strict_eq-eq (some v) (some w) h = let same : v ≡ w = identical-eq v w h in rw same
strict_eq-eq _ _ h = cc

no_value : (k : Text) {v : Json} → get end k ≡ some v → ⊥
unfolding get
no_value k e = cc

holds_item-Holds : (ps : Items) (v : Json) → holds_item ps v ≡ true → Holds v ps
unfolding holds_item
holds_item-Holds nil v h = cc
holds_item-Holds (cons w ws) v h = elim (Bool-cases (identical w v)) [
  | inl same ↦ let w_is : w ≡ v = identical-eq w v same in inl (sym w_is)
  | inr differs ↦ inr (holds_item-Holds ws v (rw differs at h))
]

all_held-Holds : (cs ps : Items) → all_held cs ps ≡ true → (v : Json) → Holds v cs → Holds v ps
unfolding all_held
all_held-Holds nil ps h v m = absurd m
all_held-Holds (cons c cs) ps h v m =
    let (here, later) = and_parts (holds_item ps c) (all_held cs ps) h in
    elim m [
      | inl same ↦ rw same (holds_item-Holds ps c here)
      | inr after ↦ all_held-Holds cs ps later v after
    ]

get_of :
    (ps : Fields) (k : Text) {v : Json} (j : Text) (w : Json)
    → get (field j w ps) k ≡ some v
    → ((j ≡ k) × (w ≡ v)) ⊎ (get ps k ≡ some v)
unfolding get
get_of ps k j w e = ground (arith, ==_iff j k)

narrow_text : (p : Text) (v : Option Json) → narrower_value (str p) v ≡ true → NarrowValue v (str p)
unfolding narrower_value
narrow_text p (some (str c)) h = elim (Bool-cases (is_decimal p)) [
  | inl decimal ↦
      let (c_decimal, at_most) =
        and_parts (is_decimal c) (at_most_zero (compare_aligned (read c) (read p)))
          (rw decimal at h) in
      narrow_decimal c p c_decimal decimal (AtMost-of_sign (read c) (read p) at_most)
  | inr other ↦ let same : c ≡ p = (==_iff c p).0 (rw other at h) in rw same (same_string p other)
]
narrow_text p _ h = cc

mutual
  unfolding narrower_value

  NarrowValue-of_test : (p : Json) (v : Option Json) → narrower_value p v ≡ true → NarrowValue v p
  NarrowValue-of_test (num p) (some (num c)) h = narrow_number c p h
  NarrowValue-of_test (num p) _ h = cc
  NarrowValue-of_test (str p) v h = narrow_text p v h
  NarrowValue-of_test (arr ps) (some (arr cs)) h = narrow_array cs ps (all_held-Holds cs ps h)
  NarrowValue-of_test (arr ps) _ h = cc
  NarrowValue-of_test (obj ps) (some (obj cs)) h =
      narrow_object cs ps (λ k v e. narrow_at ps cs h k v e)
  NarrowValue-of_test (obj ps) _ h = cc
  NarrowValue-of_test null v h = let same = strict_eq-eq v (some null) h in rw same same_null
  NarrowValue-of_test (bool b) v h =
      let same = strict_eq-eq v (some (bool b)) h in rw same (same_bool b)

  narrow_at :
      (ps cs : Fields)
      → narrower_fields ps cs ≡ true
      → (k : Text) (v : Json) → get ps k ≡ some v
      → NarrowValue (get cs k) v
  narrow_at end cs h k v e = absurd (no_value k e)
  narrow_at (field j w fs) cs h k v e =
      let (here, later) = and_parts (narrower_value w (get cs j)) (narrower_fields fs cs) h in
      elim (get_of fs k j w e) [
        | inl (same_key, same) ↦ rw (← same_key, ← same) (NarrowValue-of_test w (get cs j) here)
        | inr after ↦ narrow_at fs cs later k v after
      ]

pub Bounded-of_narrower :
    (child parent : Option Fields) → narrower_object child parent ≡ true → Bounded child parent
unfolding narrower_object
Bounded-of_narrower child none h = tt
Bounded-of_narrower none (some ps) h = cc
Bounded-of_narrower (some cs) (some ps) h = λ k v e. narrow_at ps cs h k v e

after_number :
    (x : Option Json) (c p : ℤ) → leb_ℤ c p ≡ true → NarrowValue x (num c) → NarrowValue x (num p)
after_number _ c p h (narrow_number a _ k) = narrow_number a p (leb_ℤ_trans a c p k h)

after_decimal :
    (x : Option Json) (c p : Text)
    → is_decimal c ≡ true
    → is_decimal p ≡ true
    → AtMost (read c) (read p)
    → NarrowValue x (str c)
    → NarrowValue x (str p)
after_decimal _ c p d e h (narrow_decimal a _ a_decimal _ k) =
    narrow_decimal a p a_decimal e (AtMost-trans (read a) (read c) (read p) k h)
after_decimal _ c p d e h (same_string _ other) = cc

after_array :
    (x : Option Json) (cs ps : Items)
    → ((v : Json) → Holds v cs → Holds v ps)
    → NarrowValue x (arr cs)
    → NarrowValue x (arr ps)
after_array _ cs ps h (narrow_array ms _ k) = narrow_array ms ps (λ v m. h v (k v m))

after_object :
    (x : Option Json) (cs ps : Fields)
    → ((ms : Fields)
        → ((k : Text) (v : Json) → get cs k ≡ some v → NarrowValue (get ms k) v)
        → (k : Text) (v : Json) → get ps k ≡ some v
        → NarrowValue (get ms k) v)
    → NarrowValue x (obj cs)
    → NarrowValue x (obj ps)
after_object _ cs ps h (narrow_object ms _ k) = narrow_object ms ps (h ms k)

NarrowValue-trans :
    (x y : Option Json) (p : Json)
    → NarrowValue y p
    → ((v : Json) → y ≡ some v → NarrowValue x v)
    → NarrowValue x p
NarrowValue-trans x _ _ (narrow_number c p h) k = after_number x c p h (k (num c) refl)
NarrowValue-trans x _ _ (narrow_decimal c p d e h) k = after_decimal x c p d e h (k (str c) refl)
NarrowValue-trans x _ _ (same_string p other) k = k (str p) refl
NarrowValue-trans x _ _ same_null k = k null refl
NarrowValue-trans x _ _ (same_bool b) k = k (bool b) refl
NarrowValue-trans x _ _ (narrow_array cs ps h) k = after_array x cs ps h (k (arr cs) refl)
NarrowValue-trans x _ _ (narrow_object cs ps h) k =
    after_object x cs ps
      (λ ms l key v e. NarrowValue-trans (get ms key) (get cs key) v (h key v e) (λ w. l key w))
      (k (obj cs) refl)

pub Bounded-trans : (a b c : Option Fields) → Bounded a b → Bounded b c → Bounded a c
Bounded-trans a b none h k = tt
Bounded-trans a none (some c) h k = absurd k
Bounded-trans none (some b) (some c) h k = absurd h
Bounded-trans (some a) (some b) (some c) h k =
    λ key v e. NarrowValue-trans (get a key) (get b key) v (k key v e) (λ w. h key w)
