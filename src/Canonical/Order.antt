-- ===== src/Canonical/Order.antt =====
-- The order of keys, and that properties may be inserted in any order.
use oati.Prelude.{true, false, ◌≡◌, refl, sym, [], ◌∷◌, Text, ◌==◌, arith, Bool-cases, inl, inr}
use oati.Json.{Json, Fields, end, field}
use oati.Evaluator.Reasons.{text_lt}
use oati.Canonical.{insert_field, assign}

pub text_lt_asym : (s t : Text) → text_lt s t ≡ true → text_lt t s ≡ false
unfolding text_lt
text_lt_asym [] [] h = refl
text_lt_asym [] (b ∷ t) h = refl
text_lt_asym (a ∷ s) [] h = cc
text_lt_asym (a ∷ s) (b ∷ t) h = ground (arith, text_lt_asym s t)

pub text_lt_total : (s t : Text) → (s == t) ≡ false → text_lt s t ≡ false → text_lt t s ≡ true
unfolding text_lt ◌==◌
text_lt_total [] [] h k = cc
text_lt_total [] (b ∷ t) h k = cc
text_lt_total (a ∷ s) [] h k = refl
text_lt_total (a ∷ s) (b ∷ t) h k = ground (arith, text_lt_total s t)

pub text_lt_trans : (s t u : Text) → text_lt s t ≡ true → text_lt t u ≡ true → text_lt s u ≡ true
unfolding text_lt
text_lt_trans [] [] u h k = cc
text_lt_trans [] (b ∷ t) [] h k = cc
text_lt_trans [] (b ∷ t) (c ∷ u) h k = refl
text_lt_trans (a ∷ s) [] u h k = cc
text_lt_trans (a ∷ s) (b ∷ t) [] h k = cc
text_lt_trans (a ∷ s) (b ∷ t) (c ∷ u) h k = ground (arith, text_lt_trans s t u)

-- If `k` is below `j`, the property of `k` comes first, whichever is inserted first.
insert_below :
    (k j : Text) (v w : Json) (fs : Fields)
    → text_lt k j ≡ true
    → insert_field k v (insert_field j w fs) ≡ insert_field j w (insert_field k v fs)
unfolding insert_field
insert_below k j v w end h = ground (arith, text_lt_asym k j)
insert_below k j v w (field i u fs) h = ground (
  arith,
  insert_below k j v w fs h,
  text_lt_asym k j h,
  text_lt_asym i k,
  text_lt_asym i j,
  text_lt_trans i k j,
)

pub insert_comm :
    (k j : Text) (v w : Json) (fs : Fields)
    → (k == j) ≡ false
    → insert_field k v (insert_field j w fs) ≡ insert_field j w (insert_field k v fs)
insert_comm k j v w fs h = elim (Bool-cases (text_lt k j)) [
  | inl below ↦ insert_below k j v w fs below
  | inr above ↦ sym (insert_below j k w v fs (text_lt_total k j h above))
]

pub assign_comm :
    (k j : Text) (v w : Json) (fs : Fields)
    → (k == j) ≡ false
    → assign k v (assign j w fs) ≡ assign j w (assign k v fs)
unfolding assign
assign_comm k j v w fs h = ground (arith, insert_comm k j v w fs h)
