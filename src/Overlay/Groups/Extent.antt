-- ===== src/Overlay/Groups/Extent.antt =====
-- Every group of util/Overlay.cpp has a meter, and its meters are ids of meters.
use pddm.Prelude.{ℕ, ◌+◌, ◌≤◌, ◌<◌, ◌≡◌, ◌⊎◌, inl, inr, arith}
use pddm.Overlay.Groups.{last_group_first_id}
use pddm.Overlay.Groups.Partition.{
  first_of_group, size_of_group, gs_bounds, gs_pos, second_bounds, inner, exact,
}

position : (g k : ℕ) → k < g → (k + 2 < g) ⊎ ((k + 2 ≡ g) ⊎ (k + 1 ≡ g))
position g k h = ground arith

pub group_within :
    (g m k : ℕ)
    → 2 ≤ g
    → g ≤ m
    → k < g
    → (0 < size_of_group k g m) × (first_of_group k g m + size_of_group k g m ≤ m)
unfolding last_group_first_id
group_within g m k two enough h =
    let bounds = gs_bounds g m two enough in
    let positive = gs_pos g m two enough in
    let second = second_bounds g m two enough in
    elim (position g k h) [
      | inl i ↦ ground (arith, inner g m two enough k i)
      | inr (inl e) ↦ ground (arith, exact g m two enough k e)
      | inr (inr e) ↦ ground arith
    ]
