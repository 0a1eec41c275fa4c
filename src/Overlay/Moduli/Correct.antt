-- ===== src/Overlay/Moduli/Correct.antt =====
-- The search of the table of moduli.
use mathlib.Core.List.{Memᴰ}
use mathlib.Core.List.Memᴰ
use pddm.Prelude.{
  ℕ, ◌≤◌, ◌<◌, ◌≡◌, refl, inl, inr, arith, ltb, leb, ◌&&◌, ◌==◌, Bool, true, some, List, [], ◌∷◌,
  Bool-cases,
}
use pddm.Overlay.Moduli.{lower_bound, valid_prime_moduli, get_valid_prime_modulus}

-- Increasing from `low` on, and the last element is `top`.
rises : ℕ → ℕ → List ℕ → Bool
rises low top [] = low == top
rises low top (p ∷ rest) = ltb low p && rises p top rest

valid_prime_moduli-rises : rises 1 24317 valid_prime_moduli ≡ true
unfolding rises valid_prime_moduli
valid_prime_moduli-rises = refl

rises-le : (low top : ℕ) (ps : List ℕ) → rises low top ps ≡ true → low ≤ top
unfolding rises
rises-le low top [] h = ground arith
rises-le low top (p ∷ rest) h = ground (arith, rises-le p top rest)

rises-mem : (low top q : ℕ) (ps : List ℕ) → rises low top ps ≡ true → Memᴰ q ps → low < q
unfolding rises
rises-mem low top q [] h m = absurd (Memᴰ.not-nil m)
rises-mem low top q (p ∷ rest) h m = elim (Memᴰ.cases_cons m) [
  | inl e ↦ ground arith
  | inr later ↦ ground (arith, rises-mem p top q rest (ground arith) later)
]

lower_bound-least :
    (low top bound : ℕ) (ps : List ℕ)
    → rises low top ps ≡ true
    → low < bound
    → bound ≤ top
    → (p : ℕ) × (lower_bound ps bound ≡ some p)
      × Memᴰ p ps
      × (bound ≤ p)
      × (p ≤ top)
      × ((q : ℕ) → Memᴰ q ps → bound ≤ q → p ≤ q)
unfolding rises lower_bound
lower_bound-least low top bound [] h l t = absurd (ground arith)
lower_bound-least low top bound (p ∷ rest) h l t =
    let rest_rises : rises p top rest ≡ true = ground arith in
    elim (Bool-cases (leb bound p)) [
      | inl found ↦ (
        p,
        rw found,
        Memᴰ.head refl,
        ground arith,
        rises-le p top rest rest_rises,
        λ q m b. elim (Memᴰ.cases_cons m) [
          | inl e ↦ omega arith
          | inr later ↦ omega (arith, rises-mem p top q rest rest_rises later)
        ],
      )
      | inr less ↦
          let past : p < bound = ground arith in
          let (r, e, m, b, u, least) = lower_bound-least p top bound rest rest_rises past t in
          (
            r,
            rw less e,
            Memᴰ.tail m,
            b,
            u,
            λ q n c. elim (Memᴰ.cases_cons n) [
              | inl same ↦ absurd (omega arith)
              | inr later ↦ least q later c
            ],
          )
    ]

-- For 2 ≤ bound ≤ 24317 the function returns a modulus of the table, the least that is not less than
-- the bound, and it is at most 24317.
pub get_valid_prime_modulus-least :
    (bound : ℕ)
    → 2 ≤ bound
    → bound ≤ 24317
    → (p : ℕ) × (get_valid_prime_modulus bound ≡ some p)
      × Memᴰ p valid_prime_moduli
      × (bound ≤ p)
      × (p ≤ 24317)
      × ((q : ℕ) → Memᴰ q valid_prime_moduli → bound ≤ q → p ≤ q)
unfolding get_valid_prime_modulus
get_valid_prime_modulus-least bound low high =
    lower_bound-least 1 24317 bound valid_prime_moduli valid_prime_moduli-rises low high
