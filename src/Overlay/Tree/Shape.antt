-- ===== src/Overlay/Tree/Shape.antt =====
-- The parent and the children of a node, and the way up from it.
use mathlib.Core.Path.{subst}
use pddm.Prelude.{
  ℕ, zero, suc, Option-cases, ◌+◌, ◌-◌, ◌*◌, ◌/◌, ◌≤◌, ◌<◌, ◌≡◌, refl, sym, ap, ◌∙◌, ◌⊎◌, ◌↔◌, inl,
  inr, arith, ◌==◌, leb, if◌then◌else◌, Option, none, some,
}
use pddm.Overlay.Groups.{aggregation_group_for}
use pddm.Overlay.Groups.Partition.{
  first_of_group, size_of_group, InGroup, InGroup-aggregation_group_for,
  aggregation_group_for_unique,
}
use pddm.Overlay.Tree.{
  aggregation_tree_parent, aggregation_tree_children, group_extent, children_in,
}

-- The tree over `size` ids from `first` on, as a relation: `child` is a child of `node`.
abbrev pub IsChild : (first size node child : ℕ) → Type 0
IsChild first size node child =
    (child < first + size) × ((child + first ≡ 2 * node + 1) ⊎ (child + first ≡ 2 * node + 2))

-- The child of the tree over `size` ids from `first` on that is the `relative`-th of them, if it is
-- there.
abbrev pub child_at : (first size relative : ℕ) → Option ℕ
child_at first size relative = if leb size relative then none else some (relative + first)

-- The climb from a node to one of its ancestors, parent by parent.
pub data Climbs (g m : ℕ) : ℕ → ℕ → Type 0 where
  here : {node : ℕ} → Climbs g m node node
  up :
      {node above root : ℕ}
      → aggregation_tree_parent node g m ≡ some above
      → Climbs g m above root
      → Climbs g m node root

-- The arithmetic of `aggregation_tree_parent`, above the group's first id.
abbrev parent_above : ℕ → ℕ → Option ℕ
parent_above first node = if node == first then none else some ((node - first - 1) / 2 + first)

parent_above-child :
    (first node above : ℕ)
    → first ≤ node
    → parent_above first node ≡ some above
    → (first ≤ above)
      × (above < node)
      × ((node + first ≡ 2 * above + 1) ⊎ (node + first ≡ 2 * above + 2))
parent_above-child first node above h e = ground arith

child-parent_above :
    (first node child : ℕ)
    → first ≤ node
    → (child + first ≡ 2 * node + 1) ⊎ (child + first ≡ 2 * node + 2)
    → (first ≤ child) × (parent_above first child ≡ some node)
child-parent_above first node child h c = ground arith

parent_above-none : (first node : ℕ) → (parent_above first node ≡ none) ↔ (node ≡ first)
parent_above-none first node = ground arith

children_in_at :
    (first size j : ℕ)
    → j < size
    → children_in (j + first) (first, size)
      ≡ (child_at first size (2 * j + 1), child_at first size (2 * j + 2))
unfolding children_in
children_in_at first size j h = ground arith

module _ (g m : ℕ) (two : 2 ≤ g) (enough : g ≤ m) where
  extent :
      (node : ℕ)
      → let k = aggregation_group_for node g m in
        group_extent node g m ≡ (first_of_group k g m, size_of_group k g m)
  unfolding group_extent
  extent node = ground arith

  parent :
      (node : ℕ)
      → let first = first_of_group (aggregation_group_for node g m) g m in
        aggregation_tree_parent node g m ≡ parent_above first node
  unfolding aggregation_tree_parent
  parent node = refl

  -- The children of a node are those of the tree over its group.
  pub children-IsChild :
      (node child : ℕ)
      → node < m
      → let k = aggregation_group_for node g m in
        let children = aggregation_tree_children node g m in
        ((children.0 ≡ some child) ⊎ (children.1 ≡ some child))
        ↔ IsChild (first_of_group k g m) (size_of_group k g m) node child
  unfolding aggregation_tree_children
  children-IsChild node child h =
      rw (extent node, children_in)
        (ground (arith, InGroup-aggregation_group_for g m two enough node h))

  -- The children of the j-th node of a group, as ids.
  pub children_at :
      (k j : ℕ)
      → k < g
      → j < size_of_group k g m
      → let first = first_of_group k g m in
        let size = size_of_group k g m in
        aggregation_tree_children (j + first) g m
        ≡ (child_at first size (2 * j + 1), child_at first size (2 * j + 2))
  unfolding aggregation_tree_children
  children_at k j h inside =
      let first = first_of_group k g m in
      let same : aggregation_group_for (j + first) g m ≡ k =
        aggregation_group_for_unique g m two enough k (j + first) h (omega arith, omega arith) in
      rw (extent (j + first), same) (children_in_at first (size_of_group k g m) j inside)

  module _ (node : ℕ) (h : node < m) where
    abbrev k : ℕ
    k = aggregation_group_for node g m

    in_group : InGroup k g m node
    in_group = (InGroup-aggregation_group_for g m two enough node h).1

    -- A node in the same run of ids has the same group.
    same_group : (other : ℕ) → InGroup k g m other → aggregation_group_for other g m ≡ k
    same_group other p =
        aggregation_group_for_unique g m two enough k other
          (InGroup-aggregation_group_for g m two enough node h).0 p

    parent-IsChild :
        (above : ℕ)
        → aggregation_tree_parent node g m ≡ some above
        → InGroup k g m above
          × IsChild (first_of_group k g m) (size_of_group k g m) above node
          × (above < node)
    parent-IsChild above e =
        let (low, less, twice) =
          parent_above-child _ node above in_group.0 (sym (parent node) ∙ e) in
        ((low, omega (arith, in_group)), (in_group.1, twice), less)

    IsChild-parent :
        (child : ℕ)
        → IsChild (first_of_group k g m) (size_of_group k g m) node child
        → InGroup k g m child × (aggregation_tree_parent child g m ≡ some node)
    IsChild-parent child c =
        let (low, e) = child-parent_above _ node child in_group.0 c.1 in
        let inside : InGroup k g m child = (low, c.0) in
        (
          inside,
          parent child
              ∙ ap (λ j. parent_above (first_of_group j g m) child) (same_group child inside)
              ∙ e,
        )

  -- With at least two groups and no fewer meters than groups: a node is the parent of another exactly
  -- if that one is its left or its right child.
  pub parent_iff_child :
      (node child : ℕ)
      → node < m
      → child < m
      → let children = aggregation_tree_children node g m in
        ((children.0 ≡ some child) ⊎ (children.1 ≡ some child))
        ↔ (aggregation_tree_parent child g m ≡ some node)
  parent_iff_child node child h c = (
    λ e. (IsChild-parent node h child ((children-IsChild node child h).0 e)).1,
    λ e.
        let (inside, is_child, _) = parent-IsChild child c node e in
        let same = same_group child c node inside in
        (children-IsChild node child h).1 (rw same is_child),
  )

  root_iff :
      (node : ℕ)
      → (aggregation_tree_parent node g m ≡ none)
        ↔ (node ≡ first_of_group (aggregation_group_for node g m) g m)
  root_iff node =
      let (to, from) =
        parent_above-none (first_of_group (aggregation_group_for node g m) g m) node in
      (λ e. to (sym (parent node) ∙ e), λ e. parent node ∙ from e)

  climbs :
      (fuel node : ℕ)
      → node < fuel
      → node < m
      → Climbs g m node (first_of_group (aggregation_group_for node g m) g m)
  climbs zero node f h = absurd (omega arith)
  climbs (suc fuel) node f h = elim (Option-cases (aggregation_tree_parent node g m)) [
    | inl e ↦ subst (λ r. Climbs g m node r) ((root_iff node).0 e) here
    | inr (above, e) ↦
        let (inside, _, less) = parent-IsChild node h above e in
        let rest = climbs fuel above (omega arith) (omega arith) in
        up e (rw (same_group node h above inside) at rest)
  ]

  -- With at least two groups and no fewer meters than groups: climbing from any node, parent by
  -- parent, ends at the first id of its group, and exactly the first id of a group has no parent.
  pub tree_rooted :
      (node : ℕ)
      → node < m
      → let root = first_of_group (aggregation_group_for node g m) g m in
        Climbs g m node root × ((aggregation_tree_parent node g m ≡ none) ↔ (node ≡ root))
  tree_rooted node h = (climbs (suc node) node (omega arith) h, root_iff node)
