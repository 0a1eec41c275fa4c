-- ===== src/Simulation/Network/Setup.antt =====
-- The maps from ids to clients with which simulation/Network.cpp is set up.
pub mod Finish
use pddm.Prelude.{
  ℕ, zero, suc, ◌+◌, ltb, ltb→lt, ◌==◌, ==_iff, ◌≤◌, ◌<◌, ◌≡◌, refl, sym, ap, ◌∙◌, arith,
  if◌then◌else◌, Bool, true, false, Bool-cases, inl, inr, Option, none, some, List, [], ◌∷◌, All,
}
use pddm.Simulation.Network.{emplace_client}

module _ {ℓ} {A : Type ℓ} where
  -- The first entry with a key.
  abbrev pub first_of : ℕ → List (ℕ × A) → Option A
  first_of id [] = none
  first_of id ((key, a) ∷ rest) = if key == id then some a else first_of id rest

  -- A first choice, and a second one.
  abbrev pub or_else : Option A → Option A → Option A
  or_else (some a) second = some a
  or_else none second = second

  -- Entries emplaced one after another.
  abbrev pub emplace_all : List (ℕ × A) → List (ℕ × A) → List (ℕ × A)
  emplace_all [] map = map
  emplace_all ((id, a) ∷ rest) map = emplace_all rest (emplace_client id a map)

  -- The keys ascend, from `low` on.
  abbrev pub IsMap : ℕ → List (ℕ × A) → Type 0
  IsMap low [] = Unit {0}
  IsMap low ((key, a) ∷ rest) = (low ≤ key) × IsMap (key + 1) rest

  below-none : (low id : ℕ) (map : List (ℕ × A)) → IsMap low map → id < low → first_of id map ≡ none
  below-none low id [] sorted lt = refl
  below-none low id ((key, a) ∷ rest) (le, sorted) lt =
      let other : (key == id) ≡ false = ground arith in
      rw other (below-none (key + 1) id rest sorted (omega arith))

  emplace-IsMap :
      (low id : ℕ) (a : A) (map : List (ℕ × A))
      → IsMap low map
      → low ≤ id
      → IsMap low (emplace_client id a map)
  unfolding emplace_client
  emplace-IsMap low id a [] sorted le = (le, tt)
  emplace-IsMap low id a ((key, b) ∷ rest) (le', sorted) le = elim (Bool-cases (id == key)) [
    | inl same ↦ rw same (le', sorted)
    | inr other ↦ rw other (elim (Bool-cases (ltb id key)) [
      | inl before ↦ let lt = ltb→lt id key before in rw before (le, (omega arith, sorted))
      | inr after ↦
          let later : key + 1 ≤ id = ground arith in
          rw after (le', emplace-IsMap (key + 1) id a rest sorted later)
    ])
  ]

  or_else-none : (o : Option A) → or_else o none ≡ o
  or_else-none none = refl
  or_else-none (some a) = refl

  or_else_assoc : (o p q : Option A) → or_else (or_else o p) q ≡ or_else o (or_else p q)
  or_else_assoc none p q = refl
  or_else_assoc (some a) p q = refl

  -- An entry that is there is left, whatever is emplaced.
  first_of-emplace :
      (low id j : ℕ) (a : A) (map : List (ℕ × A))
      → IsMap low map
      → first_of j (emplace_client id a map)
        ≡ or_else (first_of j map) (if id == j then some a else none)
  unfolding emplace_client
  first_of-emplace low id j a [] sorted = refl
  first_of-emplace low id j a ((key, b) ∷ rest) (le, sorted) = elim (Bool-cases (id == key)) [
    | inl same ↦ rw same (elim (Bool-cases (key == j)) [
      | inl found ↦ rw found refl
      | inr not_found ↦
          let other : (id == j) ≡ false = ground arith in
          rw (not_found, other) (sym (or_else-none (first_of j rest)))
    ])
    | inr other ↦ rw other (elim (Bool-cases (ltb id key)) [
      | inl before ↦ rw before (elim (Bool-cases (id == j)) [
        | inl new ↦
            let not_found : (key == j) ≡ false = ground arith in
            let lt : j < key + 1 = ground arith in
            rw (new, not_found, below-none (key + 1) j rest sorted lt) refl
        | inr not_new ↦ rw not_new (sym (or_else-none (first_of j ((key, b) ∷ rest))))
      ])
      | inr after ↦ rw after (elim (Bool-cases (key == j)) [
        | inl found ↦ rw found refl
        | inr not_found ↦ rw not_found (first_of-emplace (key + 1) id j a rest sorted)
      ])
    ])
  ]

  -- Of several entries for a key, the first one is kept.
  pub first_of-emplace_all :
      (j : ℕ) (entries map : List (ℕ × A))
      → IsMap 0 map
      → first_of j (emplace_all entries map) ≡ or_else (first_of j map) (first_of j entries)
  first_of-emplace_all j [] map sorted = sym (or_else-none (first_of j map))
  first_of-emplace_all j ((id, a) ∷ rest) map sorted =
      first_of-emplace_all j rest (emplace_client id a map)
        (emplace-IsMap 0 id a map sorted (omega arith))
      ∙ ap (λ o. or_else o (first_of j rest)) (first_of-emplace 0 id j a map sorted)
      ∙ or_else_assoc (first_of j map) (if id == j then some a else none) (first_of j rest)
      ∙ ap (or_else (first_of j map)) (entry (id == j) a (first_of j rest))
    where
      entry :
          (b : Bool) (a : A) (o : Option A)
          → or_else (if b then some a else none) o ≡ (if b then some a else o)
      entry true a o = refl
      entry false a o = refl

  pub emplace_all-IsMap :
      (entries map : List (ℕ × A)) → IsMap 0 map → IsMap 0 (emplace_all entries map)
  emplace_all-IsMap [] map sorted = sorted
  emplace_all-IsMap ((id, a) ∷ rest) map sorted =
      emplace_all-IsMap rest (emplace_client id a map)
        (emplace-IsMap 0 id a map sorted (omega arith))

  module _ (bound : ℕ) where
    emplace-below :
        (id : ℕ) (a : A) (map : List (ℕ × A))
        → id < bound
        → All (λ e. e.0 < bound) map
        → All (λ e. e.0 < bound) (emplace_client id a map)
    unfolding emplace_client
    emplace-below id a [] lt h = (lt, tt)
    emplace-below id a ((key, b) ∷ rest) lt (h, hs) = elim (Bool-cases (id == key)) [
      | inl same ↦ rw same (h, hs)
      | inr other ↦ rw other (elim (Bool-cases (ltb id key)) [
        | inl before ↦ rw before (lt, (h, hs))
        | inr after ↦ rw after (h, emplace-below id a rest lt hs)
      ])
    ]

    pub emplace_all-below :
        (entries map : List (ℕ × A))
        → All (λ e. e.0 < bound) entries
        → All (λ e. e.0 < bound) map
        → All (λ e. e.0 < bound) (emplace_all entries map)
    emplace_all-below [] map h k = k
    emplace_all-below ((id, a) ∷ rest) map (h, hs) k =
        emplace_all-below rest (emplace_client id a map) hs (emplace-below id a map h k)
