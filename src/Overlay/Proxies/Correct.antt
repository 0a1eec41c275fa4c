-- ===== src/Overlay/Proxies/Correct.antt =====
-- The proxies of `pick_proxies`, group by group.
use native.Mathlib.Nat.{div-add-mod, mul-le-mul_left}
use pddm.Prelude.{
  ℕ, zero, suc, ◌+◌, ◌-◌, ◌*◌, ◌≤◌, ◌<◌, ◌≡◌, ◌≢◌, refl, ap, arith, ltb, List, [], ◌∷◌, ◌++◌,
  length, length-append, false,
}
use pddm.Overlay.Groups.{standard_group_size, second_last_group_size, aggregation_group_for}
use pddm.Overlay.Groups.Partition.{
  aggregation_group_for_unique, in_inner, in_second_last, in_last, inner, exact, gs_bounds,
  second_bounds,
}
use pddm.Overlay.Proxies.{
  Uniform, picked, random_int_exclude, pick_between, pick_full_groups, pick_proxies,
}

-- The elements from index `k` on satisfy `P` at their index.
abbrev pub AllFrom : (ℕ → ℕ → Type 0) → ℕ → List ℕ → Type 0
AllFrom P k [] = Unit {0}
AllFrom P k (x ∷ xs) = P k x × AllFrom P (k + 1) xs

module _ (u : Uniform) where
  pick_between_bounds :
      (node low high : ℕ) (e : u.Engine)
      → low < high
      → let r = (pick_between u node low high e).0 in (low ≤ r) × (r ≤ high) × (r ≢ node)
  unfolding pick_between random_int_exclude
  pick_between_bounds node low high e h = ground (
    arith,
    u.draw_low low high e,
    u.draw_high low high e,
    u.draw_low low (high - 1) e,
    u.draw_high low (high - 1) e,
  )

AllFrom-append :
    (P : ℕ → ℕ → Type 0) (k j : ℕ) (xs ys : List ℕ)
    → k + length xs ≡ j
    → AllFrom P k xs
    → AllFrom P j ys
    → AllFrom P k (xs ++ ys)
AllFrom-append P k j [] ys e p q = let same : j ≡ k = omega arith in rw same at q
AllFrom-append P k j (x ∷ xs) ys e p q = (p.0, AllFrom-append P (k + 1) j xs ys (omega arith) p.1 q)

-- What is asked of the proxy at index `k`: another node, of group `k`.
abbrev pub IsProxy : ℕ → ℕ → ℕ → ℕ → ℕ → Type 0
IsProxy g m node k x = (x < m) × (aggregation_group_for x g m ≡ k) × (x ≢ node)

module _ (u : Uniform) (g m node : ℕ) (two : 2 ≤ g) (sizes : 2 ≤ standard_group_size g m) where
  abbrev gs : ℕ
  gs = standard_group_size g m

  abbrev second : ℕ
  second = second_last_group_size g m

  enough : g ≤ m
  unfolding standard_group_size
  enough = omega (arith, mul-le-mul_left g sizes, div-add-mod m g)

  first_below : (g - 2) * gs + 2 * gs ≡ g * gs
  first_below = exact g m two enough (g - 2) (omega arith)

  second_low : 2 ≤ second
  second_low = omega (arith, second_bounds g m two enough, gs_bounds g m two enough)

  second_last_IsProxy :
      (x : ℕ)
      → (g - 2) * gs ≤ x
      → x ≤ (g - 2) * gs + (second - 1)
      → x ≢ node
      → IsProxy g m node (g - 2) x
  second_last_IsProxy x low high other =
      let inside =
        in_second_last g m two enough (g - 2) x (omega arith) (omega (arith, first_below))
          (omega (arith, first_below, second_low)) in
      (
        omega (
          arith,
          first_below,
          second_low,
          gs_bounds g m two enough,
          second_bounds g m two enough,
        ),
        aggregation_group_for_unique g m two enough (g - 2) x (omega arith) inside,
        other,
      )

  last_IsProxy :
      (x : ℕ)
      → (g - 2) * gs + (second - 1) + 1 ≤ x
      → x ≤ m - 1
      → x ≢ node
      → IsProxy g m node (g - 1) x
  last_IsProxy x low high other =
      let below : x < m = omega (arith, enough) in
      let inside =
        in_last g m two enough (g - 1) x (omega arith) below
          (omega (arith, first_below, second_bounds g m two enough, gs_bounds g m two enough)) in
      (below, aggregation_group_for_unique g m two enough (g - 1) x (omega arith) inside, other)

  full_groups :
      (rounds k : ℕ) (e : u.Engine)
      → rounds + k + 2 ≡ g
      → AllFrom (IsProxy g m node) k (pick_full_groups u rounds k node gs e).0
        × (length (pick_full_groups u rounds k node gs e).0 ≡ rounds)
  unfolding pick_full_groups
  full_groups zero k e h = (tt, refl)
  full_groups (suc rounds) k e h =
      let (low, high, other) =
        pick_between_bounds u node (k * gs) (k * gs + (gs - 1)) e (omega arith) in
      let x = (pick_between u node (k * gs) (k * gs + (gs - 1)) e).0 in
      let e' = (pick_between u node (k * gs) (k * gs + (gs - 1)) e).1 in
      let inside = in_inner g m two enough k x (omega arith) low (omega arith) in
      let (rest, len) = full_groups rounds (k + 1) e' (omega arith) in
      (
        (
          (
            omega (arith, inner g m two enough k (omega arith), gs_bounds g m two enough),
            aggregation_group_for_unique g m two enough k x (omega arith) inside,
            other,
          ),
          rest,
        ),
        ap suc len,
      )

  abbrev first : ℕ
  first = (g - 2) * gs

  last_low : first + (second - 1) + 1 < m - 1
  last_low =
      omega (arith, first_below, second_low, second_bounds g m two enough, gs_bounds g m two enough)

  module _ (e : u.Engine) where
    full : List ℕ × u.Engine
    full = pick_full_groups u (g - 2) 0 node gs e

    second_last_pick : ℕ × u.Engine
    second_last_pick = pick_between u node first (first + (second - 1)) full.1

    last_pick : ℕ × u.Engine
    last_pick = pick_between u node (first + (second - 1) + 1) (m - 1) second_last_pick.1

    abbrev all_picks : List ℕ
    all_picks = full.0 ++ second_last_pick.0 ∷ last_pick.0 ∷ []

    pick_proxies-picked : pick_proxies u node g m e ≡ picked all_picks last_pick.1
    unfolding pick_proxies full second_last_pick last_pick
    pick_proxies-picked =
        let no_throw : ltb gs 2 ≡ false = ground arith in
        let inside : ltb g 2 ≡ false = ground arith in rw (no_throw, inside)

    all_picks-IsProxy : (length all_picks ≡ g) × AllFrom (IsProxy g m node) 0 all_picks
    unfolding full second_last_pick last_pick
    all_picks-IsProxy =
        let (all_full, len) = full_groups (g - 2) 0 e (omega arith) in
        let (low₁, high₁, other₁) =
          pick_between_bounds u node first (first + (second - 1)) full.1
            (omega (arith, second_low)) in
        let (low₂, high₂, other₂) =
          pick_between_bounds u node (first + (second - 1) + 1) (m - 1) second_last_pick.1
            last_low in
        let two_last : AllFrom (IsProxy g m node) (g - 2) (second_last_pick.0 ∷ last_pick.0 ∷ []) =
          (
            second_last_IsProxy second_last_pick.0 low₁ high₁ other₁,
            (rw next_index (last_IsProxy last_pick.0 low₂ high₂ other₂), tt),
          ) in
        (
          omega (arith, length-append full.0 (second_last_pick.0 ∷ last_pick.0 ∷ []), len),
          AllFrom-append (IsProxy g m node) 0 (g - 2) full.0 _ (omega (arith, len)) all_full
              two_last,
        )
      where
        next_index : g - 2 + 1 ≡ g - 1
        next_index = omega arith

-- With at least two groups of at least two nodes each, `pick_proxies` returns one proxy for each group,
-- in the order of the groups: the proxy at index k is a meter of group k, and not the node itself.
pub pick_proxies_one_per_group :
    (u : Uniform) (g m node : ℕ) (e : u.Engine)
    → 2 ≤ g
    → 2 ≤ standard_group_size g m
    → (proxies : List ℕ) × (e' : u.Engine) × (pick_proxies u node g m e ≡ picked proxies e')
      × (length proxies ≡ g)
      × AllFrom (IsProxy g m node) 0 proxies
pick_proxies_one_per_group u g m node e two sizes =
    let (len, proxies) = all_picks-IsProxy u g m node two sizes e in
    (_, _, pick_proxies-picked u g m node two sizes e, len, proxies)
