-- ===== src/Evaluator/Reasons/Order.antt =====
-- What `sort()` and `add` do to the members of a list of strings, and the order of the sorted list.
use oati.Prelude.{
  Bool, true, false, ◌||◌, List, [], ◌∷◌, ◌++◌, ◌≡◌, refl, Text, ◌==◌, ==_iff, includes, Bool-cases,
  inl, inr, or_false, arith,
}
use oati.Evaluator.Reasons.{Reasons, add, report, text_lt, insert, sort}

pub includes-insert :
    (s t : Text) (ss : List Text) → includes (insert s ss) t ≡ ((s == t) || includes ss t)
unfolding insert includes
includes-insert s t [] = ground arith
includes-insert s t (u ∷ us) = ground (arith, includes-insert s t us)

pub includes-sort : (ss : List Text) (t : Text) → includes (sort ss) t ≡ includes ss t
unfolding sort includes
includes-sort [] t = refl
includes-sort (s ∷ ss) t = ground (arith, includes-insert s t (sort ss), includes-sort ss t)

pub includes-append :
    (ss ts : List Text) (t : Text) → includes (ss ++ ts) t ≡ (includes ss t || includes ts t)
unfolding includes
includes-append [] ts t = refl
includes-append (s ∷ ss) ts t = ground (arith, includes-append ss ts t)

-- Every string is below the next.
abbrev Above : Text → List Text → Type 0
Above s [] = Unit
Above s (t ∷ ts) = text_lt s t ≡ true

abbrev pub Increasing : List Text → Type 0
Increasing [] = Unit
Increasing (s ∷ ss) = Above s ss × Increasing ss

-- No string occurs twice.
abbrev pub Distinct : List Text → Type 0
Distinct [] = Unit
Distinct (s ∷ ss) = (includes ss s ≡ false) × Distinct ss

text_lt_total : (s t : Text) → text_lt t s ≡ false → (t == s) ≡ false → text_lt s t ≡ true
unfolding text_lt ◌==◌
text_lt_total [] [] h k = cc
text_lt_total [] (b ∷ t) h k = refl
text_lt_total (a ∷ s) [] h k = cc
text_lt_total (a ∷ s) (b ∷ t) h k = ground (arith, text_lt_total s t)

Above-insert :
    (r s : Text) (ss : List Text) → text_lt r s ≡ true → Above r ss → Above r (insert s ss)
unfolding insert
Above-insert r s [] h k = h
Above-insert r s (t ∷ ts) h k = ground arith

insert-Increasing :
    (s : Text) (ss : List Text) → includes ss s ≡ false → Increasing ss → Increasing (insert s ss)
unfolding insert includes
insert-Increasing s [] h k = (tt, tt)
insert-Increasing s (t ∷ ts) h (above, rest) =
    let (differ, later) = or_false (t == s) (includes ts s) h in
    elim (Bool-cases (text_lt t s)) [
      | inl below ↦ rw below (Above-insert t s ts below above, insert-Increasing s ts later rest)
      | inr not_below ↦ rw not_below (text_lt_total s t not_below differ, (above, rest))
    ]

pub sort-Increasing : (ss : List Text) → Distinct ss → Increasing (sort ss)
unfolding sort
sort-Increasing [] h = tt
sort-Increasing (s ∷ ss) (new, rest) =
    insert-Increasing s (sort ss) (rw includes-sort new) (sort-Increasing ss rest)

Distinct-snoc :
    (ss : List Text) (c : Text) → includes ss c ≡ false → Distinct ss → Distinct (ss ++ c ∷ [])
unfolding includes
Distinct-snoc [] c h k = (refl, tt)
Distinct-snoc (s ∷ ss) c h (new, rest) =
    let (differ, later) = or_false (s == c) (includes ss c) h in
    (
      ground (arith, includes-append ss (c ∷ []) s, ==_iff c s, ==_iff s c),
      Distinct-snoc ss c later rest,
    )

add-Distinct : (code : Text) (reasons : Reasons) → Distinct reasons → Distinct (add code reasons)
unfolding add
add-Distinct code reasons h = elim (Bool-cases (includes reasons code)) [
  | inl there ↦ rw there h
  | inr new ↦ rw new (Distinct-snoc reasons code new h)
]

pub report-Distinct :
    (tests : List (Bool × Text)) (reasons : Reasons)
    → Distinct reasons
    → Distinct (report tests reasons)
unfolding report
report-Distinct [] reasons h = h
report-Distinct ((true, code) ∷ rest) reasons h =
    report-Distinct rest (add code reasons) (add-Distinct code reasons h)
report-Distinct ((false, code) ∷ rest) reasons h = report-Distinct rest reasons h
