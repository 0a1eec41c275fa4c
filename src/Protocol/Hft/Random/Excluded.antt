-- ===== src/Protocol/Hft/Random/Excluded.antt =====
-- What util/Random.h samples.
use mathlib.Core.Path.{subst}
use pddm.Prelude.{
  ℕ, zero, suc, ◌+◌, ◌-◌, ltb, ◌==◌, ◌≤◌, ◌<◌, ◌≡◌, refl, sym, ap, ◌∙◌, arith, true, false,
  Bool-cases, ==_iff, inl, inr, List, [], ◌∷◌, length,
}
use pddm.Protocol.Hft.Random.{
  Shuffling, iota, skip_less, set_intersection, resize, sample_range_excluding,
}

-- Strictly ascending, from `low` on and below `high`.
abbrev pub IsAscending : ℕ → ℕ → List ℕ → Type 0
IsAscending low high [] = Unit {0}
IsAscending low high (x ∷ xs) = (low ≤ x) × (x < high) × IsAscending (x + 1) high xs

intersection-none : (count first : ℕ) → set_intersection (iota first count) [] ≡ []
unfolding set_intersection iota skip_less
intersection-none zero first = refl
intersection-none (suc count) first = refl

skip_none : (x y : ℕ) (ys : List ℕ) → x ≤ y → skip_less x (y ∷ ys) ≡ y ∷ ys
unfolding skip_less
skip_none x y ys le = let e : ltb y x ≡ false = ground arith in rw e

-- The step at the head of the first range.
intersection-step :
    (x y : ℕ) (xs ys : List ℕ)
    → x ≤ y
    → set_intersection (x ∷ xs) (y ∷ ys)
      ≡ elim (x == y) [ true ↦ x ∷ set_intersection xs ys | false ↦ set_intersection xs (y ∷ ys) ]
unfolding set_intersection
intersection-step x y xs ys le =
    ap
      (λ skipped. elim skipped [
        | [] ↦ []
        | y ∷ rest ↦ elim (x == y) [
          | true ↦ x ∷ set_intersection xs rest
          | false ↦ set_intersection xs (y ∷ rest)
        ]
      ])
      (skip_none x y ys le)

-- A common head is taken, and a head of the second range that comes later is left.
intersection-head :
    (x : ℕ) (xs ys : List ℕ) → set_intersection (x ∷ xs) (x ∷ ys) ≡ x ∷ set_intersection xs ys
intersection-head x xs ys =
    intersection-step x x xs ys (omega arith) ∙ (let e = (==_iff x x).1 refl in rw e)

intersection-later :
    (x y : ℕ) (xs ys : List ℕ)
    → x < y
    → set_intersection (x ∷ xs) (y ∷ ys) ≡ set_intersection xs (y ∷ ys)
intersection-later x y xs ys lt =
    intersection-step x y xs ys (omega arith) ∙ (let e : (x == y) ≡ false = ground arith in rw e)

same_end : (first count high : ℕ) → high ≡ first + suc count → high ≡ first + 1 + count
same_end first count high e = omega arith

intersection :
    (count first high : ℕ) (xs : List ℕ)
    → high ≡ first + count
    → IsAscending first high xs
    → set_intersection (iota first count) xs ≡ xs
unfolding iota
intersection count first high [] e h = intersection-none count first
intersection zero first high (x ∷ xs) e (low, below, rest) =
    let absurd : ⊥ = omega arith in elim absurd [ ]
intersection (suc count) first high (x ∷ xs) e (low, below, rest) = elim (Bool-cases (first == x)) [
  | inl same ↦
      let e' : x ≡ first = sym ((==_iff first x).0 same) in
      let ascending : IsAscending (first + 1) high xs =
        subst (λ z. IsAscending (z + 1) high xs) e' rest in
      let tail = intersection count (first + 1) high xs (same_end first count high e) ascending in
      ap (λ z. set_intersection (first ∷ iota (first + 1) count) (z ∷ xs)) e'
      ∙ intersection-head first (iota (first + 1) count) xs
      ∙ ap (λ r. first ∷ r) tail
      ∙ ap (λ z. z ∷ xs) (sym e')
  | inr later ↦
      let lt : first < x = ground arith in
      rw (
        intersection-later first x (iota (first + 1) count) xs lt,
        intersection count (first + 1) high (x ∷ xs) (same_end first count high e)
            (omega arith, below, rest),
      )
]

resize_same : (n : ℕ) (xs : List ℕ) → length xs ≡ n → resize n xs ≡ xs
unfolding resize
resize_same zero [] e = refl
resize_same zero (x ∷ xs) e = let absurd : ⊥ = omega arith in elim absurd [ ]
resize_same (suc n) [] e = let absurd : ⊥ = omega arith in elim absurd [ ]
resize_same (suc n) (x ∷ xs) e = ap (λ rest. x ∷ rest) (resize_same n xs (omega arith))

module _ (random : Shuffling) where
  -- For a sorted list of distinct ids below `n` that are to be excluded from the range from 0 to `n`,
  -- and as many ids to sample as that list has, `sample_range_excluding` returns exactly the ids to
  -- exclude, in the order of the shuffle.
  pub sample-excluded :
      (n : ℕ) (exclude : List ℕ) (e : random.Engine)
      → IsAscending 0 n exclude
      → sample_range_excluding random 0 n exclude (length exclude) e ≡ random.shuffle exclude e
  unfolding sample_range_excluding
  sample-excluded n exclude e ascending =
      rw (intersection (n - 0) 0 n exclude (omega arith) ascending) (
        ap (λ ids. (ids, (random.shuffle exclude e).1))
          (resize_same (length exclude) (random.shuffle exclude e).0
            (random.length-shuffle exclude e)))
