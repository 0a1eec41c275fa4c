-- ===== src/Aggregation/Group.antt =====
-- A whole aggregation group: every meter waits for its children's messages, adds its own values, and
-- sends to its parent in the tree of util/Overlay.cpp, as TreeAggregationState.cpp has it.
pub mod Heap
pub mod Messages
pub mod Subtrees
pub mod Total
use pddm.Prelude.{
  ℕ, zero, suc, ◌+◌, ◌==◌, if◌then◌else◌, Bool, Option, none, some, List, [], ◌∷◌, ◌++◌,
}
use pddm.Messages.{QueryRequest, ValueContribution, AggregationMessage}
use pddm.Messages.Outcome.{Outcome, ok, assertion_failed, out_of_fuel, ◌>>=◌}
use pddm.Overlay.Tree.{aggregation_tree_children}
use pddm.Aggregation.{
  TreeAggregationState, new_state, initialize, done_receiving_from_children,
  compute_and_send_aggregate,
}
use pddm.Aggregation.Total.{handle_messages}

-- What a meter gets of a message that another one has sent to its parent.
abbrev pub delivered : ℕ → Option ℕ × AggregationMessage → List AggregationMessage
delivered node (none, sent) = []
delivered node (some to, sent) = if to == node then sent ∷ [] else []

abbrev pub from_child :
    (ℕ → Outcome (Option ℕ × AggregationMessage)) → ℕ → Option ℕ → Outcome (List AggregationMessage)
from_child sends node none = ok []
from_child sends node (some child) = do sent ← sends child; ok (delivered node sent)

-- A meter that waits for more messages sends nothing, which fails the run.
abbrev pub send_if_done :
    TreeAggregationState → List ValueContribution → Outcome (Option ℕ × AggregationMessage)
send_if_done s values =
    if done_receiving_from_children s
    then (do sent ← compute_and_send_aggregate s values; ok (sent.1, sent.2))
    else assertion_failed

module _ (g m : ℕ) (query : QueryRequest) (n : ℕ) where
  -- What a meter sends, and to whom, after its children have sent. `accepted` has the values of each
  -- meter, and `left_first` the order in which its children's messages arrive.
  unfoldable pub group_run :
      (ℕ → List ValueContribution) → (ℕ → Bool) → ℕ → ℕ → Outcome (Option ℕ × AggregationMessage)
  group_run accepted left_first zero node = out_of_fuel
  group_run accepted left_first (suc fuel) node = do
    let children = aggregation_tree_children node g m
    left ← from_child (group_run accepted left_first fuel) node children.0
    right ← from_child (group_run accepted left_first fuel) node children.1
    s ←
        handle_messages (initialize (new_state node g m query) n [])
          (if left_first node then left ++ right else right ++ left)
    send_if_done s (accepted node)
