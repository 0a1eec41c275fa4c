-- ===== src/Protocol/Hft/Random.antt =====
-- util/Random.h, `sample_range_excluding`, and std::sort, which HftProtocolState.cpp calls before it.
pub mod Excluded
use pddm.Prelude.{
  ℕ, zero, suc, ◌+◌, ◌-◌, leb, ltb, ◌==◌, ◌≡◌, if◌then◌else◌, true, false, List, [], ◌∷◌, ◌++◌,
  length, replicate, contains,
}

-- std::shuffle with std::mt19937: the elements in another order.
pub record Shuffling : Type 1 where
  pub Engine : Type 0
  pub shuffle : List ℕ → Engine → List ℕ × Engine
  pub length-shuffle : (xs : List ℕ) (e : Engine) → length (shuffle xs e).0 ≡ length xs
  pub contains-shuffle :
      (xs : List ℕ) (e : Engine) (x : ℕ) → contains (shuffle xs e).0 x ≡ contains xs x

-- std::sort, by insertion.
unfoldable pub insert : ℕ → List ℕ → List ℕ
insert x [] = x ∷ []
insert x (y ∷ ys) = let rest = insert x ys in if leb x y then x ∷ y ∷ ys else y ∷ rest

unfoldable pub sort : List ℕ → List ℕ
unfolding insert
sort [] = []
sort (x ∷ xs) = insert x (sort xs)

-- std::iota over `count` elements.
unfoldable pub iota : ℕ → ℕ → List ℕ
iota first zero = []
iota first (suc count) = first ∷ iota (first + 1) count

-- std::set_intersection: the steps over the second range that leave the first as it is, and the others.
unfoldable pub skip_less : ℕ → List ℕ → List ℕ
skip_less x [] = []
skip_less x (y ∷ ys) = let rest = skip_less x ys in if ltb y x then rest else y ∷ ys

unfoldable pub set_intersection : List ℕ → List ℕ → List ℕ
unfolding skip_less
set_intersection [] ys = []
set_intersection (x ∷ xs) ys = elim (skip_less x ys) [
  | [] ↦ []
  | y ∷ rest ↦ elim (x == y) [
    | true ↦ x ∷ set_intersection xs rest
    | false ↦ set_intersection xs (y ∷ rest)
  ]
]

-- std::vector::resize, to `n` elements.
unfoldable pub resize : ℕ → List ℕ → List ℕ
resize zero xs = []
resize (suc n) [] = 0 ∷ resize n []
resize (suc n) (x ∷ xs) = x ∷ resize n xs

module _ (random : Shuffling) where
  open random use {Engine, shuffle}

  unfoldable pub sample_range_excluding : ℕ → ℕ → List ℕ → ℕ → Engine → List ℕ × Engine
  unfolding iota set_intersection resize
  sample_range_excluding range_begin range_end exclude_values number_to_sample engine =
      let range = iota range_begin (range_end - range_begin) in
      let filtered_range = set_intersection range exclude_values in
      let (shuffled, engine') = shuffle filtered_range engine in
      (resize number_to_sample shuffled, engine')
