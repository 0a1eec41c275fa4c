-- ===== src/Overlay/Groups/Partition.antt =====
-- The groups as runs of ids.
use native.Mathlib.Nat.{div-add-mod, mod-lt, mul-le-mul_right}
use pddm.Prelude.{
  ℕ, ◌+◌, ◌-◌, ◌*◌, ◌/◌, ◌≤◌, ◌<◌, ◌≡◌, ap, ◌∙◌, ◌⊎◌, ◌↔◌, inl, inr, arith, ◌==◌, if◌then◌else◌,
}
use pddm.Overlay.Groups.{
  standard_group_size, second_last_group_size, aggregation_group_for, last_group_first_id,
}

-- The specification: the first id and the size of group `k`. Groups before the second to last have
-- the standard size, the last two share what is left.
abbrev pub first_of_group : ℕ → ℕ → ℕ → ℕ
first_of_group k g m = if k + 1 == g then last_group_first_id g m else k * standard_group_size g m

abbrev pub size_of_group : ℕ → ℕ → ℕ → ℕ
size_of_group k g m =
    if k + 1 == g
    then m - last_group_first_id g m
    else if k + 2 == g
    then second_last_group_size g m
    else standard_group_size g m

abbrev pub InGroup : ℕ → ℕ → ℕ → ℕ → Type 0
InGroup k g m node =
    (first_of_group k g m ≤ node) × (node < first_of_group k g m + size_of_group k g m)

trichotomy : (a b : ℕ) → (a < b) ⊎ ((a ≡ b) ⊎ (b < a))
trichotomy a b = ground arith

module _ (g m : ℕ) (two : 2 ≤ g) (enough : g ≤ m) where
  pub gs_bounds : let gs = standard_group_size g m in (g * gs ≤ m) × (m < g * gs + g)
  unfolding standard_group_size
  gs_bounds = omega (arith, div-add-mod m g, mod-lt m {m = g})

  pub gs_pos : 1 ≤ standard_group_size g m
  gs_pos = grind (arith, gs_bounds)

  pub second_bounds :
      let gs = standard_group_size g m in
      let second = second_last_group_size g m in
      (2 * second ≤ 2 * gs + m - g * gs) × (2 * gs + m - g * gs ≤ 2 * second + 1)
  unfolding second_last_group_size
  second_bounds = omega (arith, gs_bounds)

  -- Division by the group size, and multiples of it compared with `g * gs`.
  quotient_bounds :
      (node : ℕ)
      → let gs = standard_group_size g m in (node / gs * gs ≤ node) × (node < node / gs * gs + gs)
  quotient_bounds node =
      omega (arith, div-add-mod node (standard_group_size g m), mod-lt node gs_pos)

  pub inner : (k : ℕ) → k + 2 < g → let gs = standard_group_size g m in k * gs + 3 * gs ≤ g * gs
  inner k h =
      omega (arith, mul-le-mul_right {m = k + 3} {n = g} (standard_group_size g m) (omega arith))

  outer : (k : ℕ) → g ≤ k + 2 → let gs = standard_group_size g m in g * gs ≤ k * gs + 2 * gs
  outer k h = omega (arith, mul-le-mul_right {m = g} {n = k + 2} (standard_group_size g m) h)

  pub exact : (k : ℕ) → k + 2 ≡ g → let gs = standard_group_size g m in k * gs + 2 * gs ≡ g * gs
  exact k h = omega (arith, ap (λ (t : ℕ). t * standard_group_size g m) h)

  apart : (a b : ℕ) → a < b → let gs = standard_group_size g m in a * gs + gs ≤ b * gs
  apart a b h =
      omega (arith, mul-le-mul_right {m = a + 1} {n = b} (standard_group_size g m) (omega arith))

  -- The three outcomes of `aggregation_group_for`, by the position of the id.
  group_cases :
      (node : ℕ)
      → let gs = standard_group_size g m in
        let second = second_last_group_size g m in
        let group = aggregation_group_for node g m in
        (node / gs + 2 < g) × (group ≡ node / gs)
        ⊎ ((g * gs ≤ node + 2 * gs) × (node + 2 * gs < g * gs + second) × (group + 2 ≡ g)
            ⊎ (g * gs + second ≤ node + 2 * gs) × (group + 1 ≡ g))
  unfolding aggregation_group_for
  group_cases node = ground (arith, quotient_bounds node, outer (node / standard_group_size g m))

  pub in_inner :
      (k node : ℕ)
      → k + 2 < g
      → let gs = standard_group_size g m in k * gs ≤ node → node < k * gs + gs → InGroup k g m node
  in_inner k node h p q = ground arith

  pub in_second_last :
      (k node : ℕ)
      → k + 2 ≡ g
      → let gs = standard_group_size g m in
        g * gs ≤ node + 2 * gs
        → node + 2 * gs < g * gs + second_last_group_size g m
        → InGroup k g m node
  in_second_last k node h p q = ground (arith, exact k h)

  pub in_last :
      (k node : ℕ)
      → k + 1 ≡ g
      → node < m
      → let gs = standard_group_size g m in
        g * gs + second_last_group_size g m ≤ node + 2 * gs → InGroup k g m node
  unfolding last_group_first_id
  in_last k node h n p = ground (arith, gs_bounds, second_bounds)

  pub InGroup-aggregation_group_for :
      (node : ℕ)
      → node < m
      → (aggregation_group_for node g m < g) × InGroup (aggregation_group_for node g m) g m node
  InGroup-aggregation_group_for node h = elim (group_cases node) [
    | inl (p, e) ↦
        (omega arith, rw e (in_inner _ node p (quotient_bounds node).0 (quotient_bounds node).1))
    | inr (inl (p, q, e)) ↦ (omega arith, in_second_last _ node e p q)
    | inr (inr (p, e)) ↦ (omega arith, in_last _ node e h p)
  ]

  inner_unique : (k node : ℕ) → k + 2 < g → InGroup k g m node → aggregation_group_for node g m ≡ k
  inner_unique k node h p =
      let q = node / standard_group_size g m in
      let here : (k * standard_group_size g m ≤ node)
          × (node < k * standard_group_size g m + standard_group_size g m) =
        ground arith in
      elim (group_cases node) [
        | inl (i, e) ↦ elim (trichotomy q k) [
          | inl less ↦ absurd (omega (arith, quotient_bounds node, apart q k less))
          | inr (inl same) ↦ e ∙ same
          | inr (inr more) ↦ absurd (omega (arith, quotient_bounds node, apart k q more))
        ]
        | inr (inl (i, _, e)) ↦ absurd (omega (arith, inner k h))
        | inr (inr (i, e)) ↦ absurd (omega (arith, inner k h))
      ]

  second_last_unique :
      (k node : ℕ) → k + 2 ≡ g → InGroup k g m node → aggregation_group_for node g m ≡ k
  second_last_unique k node h p =
      let q = node / standard_group_size g m in
      let here : (k * standard_group_size g m ≤ node)
          × (node < k * standard_group_size g m + second_last_group_size g m) =
        ground arith in
      elim (group_cases node) [
        | inl (i, e) ↦ absurd (omega (arith, quotient_bounds node, exact k h, inner q i))
        | inr (inl (i, _, e)) ↦ omega arith
        | inr (inr (i, e)) ↦ absurd (omega (arith, exact k h))
      ]

  last_unique : (k node : ℕ) → k + 1 ≡ g → InGroup k g m node → aggregation_group_for node g m ≡ k
  unfolding last_group_first_id
  last_unique k node h p =
      let q = node / standard_group_size g m in
      let here : g * standard_group_size g m + second_last_group_size g m
          ≤ node + 2 * standard_group_size g m =
        ground (arith, gs_bounds, second_bounds) in
      elim (group_cases node) [
        | inl (i, e) ↦ absurd (omega (arith, quotient_bounds node, inner q i))
        | inr (inl (i, j, e)) ↦ absurd (omega arith)
        | inr (inr (i, e)) ↦ omega arith
      ]

  pub aggregation_group_for_unique :
      (k node : ℕ) → k < g → InGroup k g m node → aggregation_group_for node g m ≡ k
  aggregation_group_for_unique k node h p = elim (place k h) [
    | inl i ↦ inner_unique k node i p
    | inr (inl e) ↦ second_last_unique k node e p
    | inr (inr e) ↦ last_unique k node e p
  ]
    where
      place : (k : ℕ) → k < g → (k + 2 < g) ⊎ ((k + 2 ≡ g) ⊎ (k + 1 ≡ g))
      place k h = ground arith

-- With at least two groups and no fewer meters than groups, `aggregation_group_for` is the partition of
-- the meters into runs of ids: its value is a group, and it is k exactly for the ids from the first
-- id of group k on, as many as the group's size. The groups before the second to last have the
-- standard size, and the last two have the sizes of `second_last_group_size` and what is left.
pub aggregation_group_for_iff :
    (g m k node : ℕ)
    → 2 ≤ g
    → g ≤ m
    → k < g
    → node < m
    → (aggregation_group_for node g m < g)
      × ((aggregation_group_for node g m ≡ k) ↔ InGroup k g m node)
aggregation_group_for_iff g m k node two enough h n =
    let (group, inside) = InGroup-aggregation_group_for g m two enough node n in
    (group, (λ e. rw e at inside, aggregation_group_for_unique g m two enough k node h))
