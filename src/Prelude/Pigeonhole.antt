-- ===== src/Prelude/Pigeonhole.antt =====
-- Lists of distinct numbers, and the pigeonhole principle on them.
use Prim.Native.Nat.{ℕ, ◌+◌, ◌≤◌}
use mathlib.Core.Path.{◌≡◌, refl, sym, ap, ◌∙◌}
use mathlib.Core.Logic.{inl, inr}
use mathlib.Core.Bool.{true, false}
use mathlib.Core.List.{List, [], ◌∷◌}
use native.Mathlib.Omega.{arith}
use pddm.Prelude.Tests.{◌==◌, ==_iff, if◌then◌else◌, Bool-cases, ||-true, ||-true_right}
use pddm.Prelude.Lists.{length, contains}

abbrev pub Distinct : List ℕ → Type 0
Distinct [] = Unit {0}
Distinct (x ∷ xs) = (contains xs x ≡ false) × Distinct xs

erase : ℕ → List ℕ → List ℕ
erase x [] = []
erase x (y ∷ ys) = let rest = erase x ys in if y == x then ys else y ∷ rest

length-erase : (x : ℕ) (ys : List ℕ) → contains ys x ≡ true → length (erase x ys) + 1 ≡ length ys
unfolding erase
length-erase x [] h = cc
length-erase x (y ∷ ys) h = elim (Bool-cases (y == x)) [
  | inl same ↦ rw same (omega arith)
  | inr other ↦
      let h' : contains ys x ≡ true = ground arith in rw other (omega (arith, length-erase x ys h'))
]

contains-erase :
    (x z : ℕ) (ys : List ℕ)
    → (x == z) ≡ false
    → contains ys z ≡ true
    → contains (erase x ys) z ≡ true
unfolding erase
contains-erase x z [] n h = h
contains-erase x z (y ∷ ys) n h = elim (Bool-cases (y == x)) [
  | inl same ↦ rw same (ground arith)
  | inr other ↦ rw other (elim (||-true (y == z) (contains ys z) h) [
    | inl here ↦ rw here refl
    | inr there ↦ ||-true_right (y == z) _ (contains-erase x z ys n there)
  ])
]

pub contains-head : (x : ℕ) (xs : List ℕ) → contains (x ∷ xs) x ≡ true
contains-head x xs = rw ((==_iff x x).1 refl) refl

-- Distinct numbers that are all in a list are no more than it has.
pub Distinct-length_le :
    (xs ys : List ℕ)
    → Distinct xs
    → ((z : ℕ) → contains xs z ≡ true → contains ys z ≡ true)
    → length xs ≤ length ys
Distinct-length_le [] ys d h = omega arith
Distinct-length_le (x ∷ xs) ys d h =
    let inside = h x (contains-head x xs) in
    let rest =
      Distinct-length_le xs (erase x ys) d.1
        (λ z p. contains-erase x z ys (apart z p) (h z (||-true_right (x == z) _ p))) in
    omega (arith, rest, length-erase x ys inside)
  where
    apart : (z : ℕ) → contains xs z ≡ true → (x == z) ≡ false
    apart z p = elim (Bool-cases (x == z)) [
      | inr other ↦ other
      | inl same ↦
          let e : x ≡ z = (==_iff x z).0 same in
          let q : contains xs z ≡ false = ap (contains xs) (sym e) ∙ d.0 in cc
    ]
