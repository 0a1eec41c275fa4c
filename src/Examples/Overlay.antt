-- ===== src/Examples/Overlay.antt =====
-- The functions of util/Overlay.cpp at concrete inputs.
use mathlib.Core.List.{Memᴰ}
use pddm.Prelude.{
  ℕ, ◌+◌, ◌%◌, ◌^◌, ◌≤◌, ◌<◌, ◌≡◌, refl, ◌⊎◌, ◌↔◌, arith, none, some, List, [], ◌∷◌, length,
}
use pddm.Overlay.ModPow.{mod_pow}
use pddm.Overlay.ModPow.Correct.{mod_pow-eq-pow, mod_pow_wraps}
use pddm.Overlay.Gossip.{target, predecessor, gossip_target, gossip_predecessor}
use pddm.Overlay.Gossip.Correct.{gossip_inverse}
use pddm.Overlay.Gossip.Memo.{IsMemo, target_of, predecessor_of, gossip-IsMemo}
use pddm.Overlay.Groups.{standard_group_size, second_last_group_size, aggregation_group_for}
use pddm.Overlay.Groups.Partition.{InGroup, first_of_group, aggregation_group_for_iff}
use pddm.Overlay.Tree.{aggregation_tree_parent, aggregation_tree_children}
use pddm.Overlay.Tree.Shape.{Climbs, parent_iff_child, tree_rooted}
use pddm.Overlay.Proxies.{Uniform, pick_proxies, picked}
use pddm.Overlay.Proxies.Correct.{AllFrom, IsProxy, pick_proxies_one_per_group}
use pddm.Overlay.Moduli.{valid_prime_moduli, get_valid_prime_modulus}
use pddm.Overlay.Moduli.Correct.{get_valid_prime_modulus-least}

mod_pow-eq-pow_example : mod_pow 7 100 1013 ≡ 7 ^ 100 % 1013
mod_pow-eq-pow_example =
    mod_pow-eq-pow 7 100 1013 (omega arith) (omega arith) (omega arith) (omega arith)

mod_pow_wraps_example : mod_pow 2 32 65539 ≡ 0
mod_pow_wraps_example = mod_pow_wraps 65539 (omega arith)

gossip_inverse_example :
    (target 7 5 11 ≡ (7 + 2 ^ 5) % 11)
    × (target 7 5 11 < 11)
    × (predecessor (target 7 5 11) 5 11 ≡ 7)
    × (predecessor 7 5 11 < 11)
    × (target (predecessor 7 5 11) 5 11 ≡ 7)
gossip_inverse_example =
    gossip_inverse 7 5 11 (omega arith) (omega arith) (omega arith) (omega arith)

gossip-IsMemo_example :
    ((gossip_target [] 7 5 11).1 ≡ target 7 5 11)
    × IsMemo target_of (gossip_target [] 7 5 11).0
    × ((gossip_predecessor [] 7 5 11).1 ≡ predecessor 7 5 11)
    × IsMemo predecessor_of (gossip_predecessor [] 7 5 11).0
gossip-IsMemo_example = gossip-IsMemo [] [] 7 5 11 tt tt

-- Three groups of 11 meters: 0 to 2, 3 to 6 and 7 to 10.
aggregation_group_for_iff_example :
    (aggregation_group_for 6 3 11 < 3) × ((aggregation_group_for 6 3 11 ≡ 1) ↔ InGroup 1 3 11 6)
aggregation_group_for_iff_example =
    aggregation_group_for_iff 3 11 1 6 (omega arith) (omega arith) (omega arith) (omega arith)

groups_of_eleven : (aggregation_group_for 6 3 11 ≡ 1) × (aggregation_group_for 7 3 11 ≡ 2)
unfolding aggregation_group_for second_last_group_size standard_group_size
groups_of_eleven = (refl, refl)

parent_iff_child_example :
    (((aggregation_tree_children 8 3 11).0 ≡ some 10)
      ⊎ ((aggregation_tree_children 8 3 11).1 ≡ some 10))
    ↔ (aggregation_tree_parent 10 3 11 ≡ some 8)
parent_iff_child_example =
    parent_iff_child 3 11 (omega arith) (omega arith) 8 10 (omega arith) (omega arith)

tree_rooted_example :
    let root = first_of_group (aggregation_group_for 10 3 11) 3 11 in
    Climbs 3 11 10 root × ((aggregation_tree_parent 10 3 11 ≡ none) ↔ (10 ≡ root))
tree_rooted_example = tree_rooted 3 11 (omega arith) (omega arith) 10 (omega arith)

-- A source of randomness that always draws the lower bound.
abbrev lowest : Uniform
lowest = record {
  Engine = Unit {0};
  draw = λ low high e. (low, e);
  draw_low = λ low high e h. omega arith;
  draw_high = λ low high e h. h;
}

eleven_in_three : 2 ≤ standard_group_size 3 11
unfolding standard_group_size
eleven_in_three = omega arith

pick_proxies_one_per_group_example :
    (proxies : List ℕ) × (e' : Unit {0}) × (pick_proxies lowest 3 3 11 tt ≡ picked proxies e')
    × (length proxies ≡ 3)
    × AllFrom (IsProxy 3 11 3) 0 proxies
pick_proxies_one_per_group_example =
    pick_proxies_one_per_group lowest 3 11 3 tt (omega arith) eleven_in_three

-- Node 3 is the lowest of its group: the last of the group is drawn in its place.
lowest_proxies : pick_proxies lowest 3 3 11 tt ≡ picked (0 ∷ 6 ∷ 7 ∷ []) tt
unfolding pick_proxies second_last_group_size standard_group_size
lowest_proxies = refl

get_valid_prime_modulus-least_example :
    (p : ℕ) × (get_valid_prime_modulus 1000 ≡ some p)
    × Memᴰ p valid_prime_moduli
    × (1000 ≤ p)
    × (p ≤ 24317)
    × ((q : ℕ) → Memᴰ q valid_prime_moduli → 1000 ≤ q → p ≤ q)
get_valid_prime_modulus-least_example =
    get_valid_prime_modulus-least 1000 (omega arith) (omega arith)
