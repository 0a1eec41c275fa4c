-- ===== src/Aggregation/Children.antt =====
-- How many children a meter waits for, and when it is done.
use pddm.Prelude.{
  ℕ, ◌+◌, ◌-◌, ◌≡◌, refl, if◌then◌else◌, true, Option, none, some, List, [], ◌∷◌, length, contains,
  arith, ◌↔◌,
}
use pddm.Messages.{QueryRequest}
use pddm.Overlay.Tree.{aggregation_tree_children}
use pddm.Aggregation.{new_state, initialize, done_receiving_from_children, is_missing}

-- The children that exist and are not known to have failed, as a list.
abbrev pub live : Option ℕ → List ℕ → List ℕ
live none failed = []
live (some child) failed = if contains failed child then [] else child ∷ []

abbrev pub live_children : ℕ → ℕ → ℕ → List ℕ → ℕ
live_children node groups meters failed =
    let children = aggregation_tree_children node groups meters in
    length (live children.0 failed) + length (live children.1 failed)

needed_lem :
    (a b : Option ℕ) (failed : List ℕ)
    → (if is_missing b failed
        then (if is_missing a failed then 2 - 1 else 2) - 1
        else (if is_missing a failed then 2 - 1 else 2))
      ≡ length (live a failed) + length (live b failed)
unfolding is_missing
needed_lem none none failed = refl
needed_lem none (some b) failed = ground arith
needed_lem (some a) none failed = ground arith
needed_lem (some a) (some b) failed = ground arith

-- A meter that is initialized for a query waits for as many messages as it has children in the tree
-- that are not among the failed meters; it has received none; and it is done exactly if there is no
-- such child.
pub waits_for_live_children :
    (node groups meters : ℕ) (query : QueryRequest) (n : ℕ) (failed : List ℕ)
    → let s = initialize (new_state node groups meters query) n failed in
      (s.children_needed ≡ live_children node groups meters failed)
      × (s.children_received_from ≡ 0)
      × (done_receiving_from_children s ≡ true ↔ live_children node groups meters failed ≡ 0)
unfolding initialize new_state done_receiving_from_children
waits_for_live_children node groups meters query n failed =
    let children = aggregation_tree_children node groups meters in
    let e = needed_lem children.0 children.1 failed in (e, refl, ground arith)
