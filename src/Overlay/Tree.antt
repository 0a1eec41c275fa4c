-- ===== src/Overlay/Tree.antt =====
-- util/Overlay.cpp, the binary tree over the ids of an aggregation group. `none` stands for -1.
pub mod Shape
use pddm.Prelude.{ℕ, ◌+◌, ◌-◌, ◌*◌, ◌/◌, leb, ◌==◌, if◌then◌else◌, Option, none, some}
use pddm.Overlay.Groups.{
  standard_group_size, second_last_group_size, aggregation_group_for, last_group_first_id,
}

unfoldable pub aggregation_tree_parent : ℕ → ℕ → ℕ → Option ℕ
aggregation_tree_parent node_id num_groups num_meters =
    let group_size = standard_group_size num_groups num_meters in
    let group = aggregation_group_for node_id num_groups num_meters in
    let first_id =
      if group + 1 == num_groups
      then last_group_first_id num_groups num_meters
      else group * group_size in
    if node_id == first_id then none else some ((node_id - first_id - 1) / 2 + first_id)

-- The first id of the node's group and the size of the group, as the three branches set them.
unfoldable pub group_extent : ℕ → ℕ → ℕ → ℕ × ℕ
group_extent node_id num_groups num_meters =
    let group_size = standard_group_size num_groups num_meters in
    let group = aggregation_group_for node_id num_groups num_meters in
    if group + 1 == num_groups
    then (
      last_group_first_id num_groups num_meters,
      num_meters - last_group_first_id num_groups num_meters,
    )
    else if group + 2 == num_groups
    then (group * group_size, second_last_group_size num_groups num_meters)
    else (group * group_size, group_size)

children_in : ℕ → ℕ × ℕ → Option ℕ × Option ℕ
children_in node_id (first_id, group_size) =
    let right_child_relative = (node_id - first_id + 1) * 2 in
    let left_child_relative = right_child_relative - 1 in
    if leb group_size left_child_relative
    then (none, none)
    else if leb group_size right_child_relative
    then (some (left_child_relative + first_id), none)
    else (some (left_child_relative + first_id), some (right_child_relative + first_id))

unfoldable pub aggregation_tree_children : ℕ → ℕ → ℕ → Option ℕ × Option ℕ
unfolding children_in
aggregation_tree_children node_id num_groups num_meters =
    children_in node_id (group_extent node_id num_groups num_meters)
