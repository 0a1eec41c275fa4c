-- ===== src/Overlay/Groups.antt =====
-- util/Overlay.cpp, the aggregation groups: runs of consecutive ids, the last two uneven.
--
-- The C++ ints are numbers here. Where the source subtracts, both sides of the comparison have the
-- same term added instead, so that the test is that of the source for one group too, where
-- `num_groups - 2` is negative.
pub mod Partition
pub mod Extent
use pddm.Prelude.{ℕ, ◌+◌, ◌-◌, ◌*◌, ◌/◌, ltb, leb, ◌==◌, if◌then◌else◌, ◌&&◌}

unfoldable pub standard_group_size : ℕ → ℕ → ℕ
standard_group_size num_groups num_meters = num_meters / num_groups

unfoldable pub second_last_group_size : ℕ → ℕ → ℕ
second_last_group_size num_groups num_meters =
    let group_size = standard_group_size num_groups num_meters in
    let leftover_size = num_meters + group_size - num_groups * group_size in
    (group_size + leftover_size) / 2

unfoldable pub aggregation_group_for : ℕ → ℕ → ℕ → ℕ
aggregation_group_for node_id num_groups num_meters =
    let group_size = standard_group_size num_groups num_meters in
    let second_last_size = second_last_group_size num_groups num_meters in
    let group_num = node_id / group_size in
    let id_up = node_id + 2 * group_size in
    if leb num_groups (group_num + 2)
    then if leb (group_size * num_groups) id_up
        && ltb id_up (group_size * num_groups + second_last_size)
      then num_groups - 2
      else num_groups - 1
    else group_num

-- `(num_groups-2) * group_size + second_last_size`: the first id of the last group.
unfoldable pub last_group_first_id : ℕ → ℕ → ℕ
last_group_first_id num_groups num_meters =
    let group_size = standard_group_size num_groups num_meters in
    num_groups * group_size + second_last_group_size num_groups num_meters - 2 * group_size
