-- ===== src/Aggregation.antt =====
-- TreeAggregationState.h and .cpp, with the sums of messaging/AggregationMessage.cpp.
pub mod Sums
pub mod Children
pub mod Total
pub mod Ends
pub mod Group
use pddm.Prelude.{
  ℕ, zero, suc, ◌+◌, ◌-◌, ◌==◌, leb, if◌then◌else◌, Bool, true, false, ◌||◌, Option, none, some,
  List, [], ◌∷◌, length, replicate, contains,
}
use pddm.Messages.{QueryRequest, ValueContribution, AggregationMessage, is_single_valued_query}
use pddm.Messages.FixedPoint.{◌+fp◌}
use pddm.Messages.Outcome.{Outcome, ok, out_of_range, assertion_failed, undefined, ◌>>=◌}
use pddm.Overlay.Tree.{aggregation_tree_parent, aggregation_tree_children}

-- AggregationMessage::add_value.
pub add_value : AggregationMessage → ℕ → ℕ → Outcome AggregationMessage
add_value message value num_contributors = elim message.body [
  | [] ↦ undefined
  | first ∷ rest ↦ ok (record message {
    num_contributors = message.num_contributors + num_contributors;
    body = (first +fp value) ∷ rest;
  })
]

-- std::transform with std::plus over two ranges of one length.
pub add_elements : List ℕ → List ℕ → List ℕ
add_elements (x ∷ xs) (y ∷ ys) = (x +fp y) ∷ add_elements xs ys
add_elements _ ys = ys

-- AggregationMessage::add_values.
pub add_values : AggregationMessage → List ℕ → ℕ → Outcome AggregationMessage
unfolding add_elements
add_values message values num_contributors =
    if length values == length message.body
    then ok (record message {
      num_contributors = message.num_contributors + num_contributors;
      body = add_elements values message.body;
    })
    else assertion_failed

-- The state. The intermediate message is a null pointer until `initialize`.
pub record TreeAggregationState : Type 0 where
  pub node_id : ℕ
  pub num_groups : ℕ
  pub num_meters : ℕ
  pub current_query : QueryRequest
  pub initialized : Bool
  pub children_received_from : ℕ
  pub children_needed : ℕ
  pub aggregation_intermediate : Option AggregationMessage

-- The constructor.
pub new_state : ℕ → ℕ → ℕ → QueryRequest → TreeAggregationState
new_state node_id num_groups num_meters query = record {
  node_id = node_id;
  num_groups = num_groups;
  num_meters = num_meters;
  current_query = query;
  initialized = false;
  children_received_from = 0;
  children_needed = 2;
  aggregation_intermediate = none;
}

-- `child == -1 || failed_meter_ids.find(child) != end()`.
pub is_missing : Option ℕ → List ℕ → Bool
is_missing none failed = true
is_missing (some child) failed = contains failed child

pub initialize : TreeAggregationState → ℕ → List ℕ → TreeAggregationState
unfolding is_missing
initialize s data_array_length failed_meter_ids =
    let children = aggregation_tree_children s.node_id s.num_groups s.num_meters in
    let left = if is_missing children.0 failed_meter_ids then 2 - 1 else 2 in
    record s {
      aggregation_intermediate = some (record {
        sender_id = s.node_id;
        num_contributors = 1;
        query_num = s.current_query.query_number;
        body = replicate data_array_length 0;
      });
      children_received_from = 0;
      children_needed = if is_missing children.1 failed_meter_ids then left - 1 else left;
      initialized = true;
    }

pub done_receiving_from_children : TreeAggregationState → Bool
done_receiving_from_children s = leb s.children_needed s.children_received_from

-- The message that a pointer points to.
abbrev pub deref : Option AggregationMessage → Outcome AggregationMessage
deref none = undefined
deref (some m) = ok m

-- vector::at(0) and vector::operator[](0).
abbrev pub at_front : List ℕ → Outcome ℕ
at_front [] = out_of_range
at_front (x ∷ xs) = ok x

abbrev pub front : List ℕ → Outcome ℕ
front [] = undefined
front (x ∷ xs) = ok x

-- The sum that `handle_message` adds a child's message to.
pub add_message : Bool → AggregationMessage → AggregationMessage → Outcome AggregationMessage
unfolding add_value add_values
add_message single intermediate message =
    if single
    then (do value ← at_front message.body; add_value intermediate value message.num_contributors)
    else add_values intermediate message.body message.num_contributors

pub handle_message : TreeAggregationState → AggregationMessage → Outcome TreeAggregationState
handle_message s message = do
  intermediate ← deref s.aggregation_intermediate
  sum ← add_message (is_single_valued_query s.current_query.request_type) intermediate message
  ok (record s {
    aggregation_intermediate = some sum;
    children_received_from = s.children_received_from + 1;
  })

-- One round of the loop over the accepted values.
pub add_contribution : Bool → AggregationMessage → ValueContribution → Outcome AggregationMessage
unfolding add_value add_values
add_contribution single intermediate contribution =
    if single
    then (do value ← front contribution.value.value; add_value intermediate value 1)
    else add_values intermediate contribution.value.value 1

pub add_contributions :
    Bool → AggregationMessage → List ValueContribution → Outcome AggregationMessage
add_contributions single intermediate [] = ok intermediate
add_contributions single intermediate (c ∷ rest) = do
  sum ← add_contribution single intermediate c
  add_contributions single sum rest

-- The state after the call, and what is sent: the message, and the parent (`none` is the utility).
pub compute_and_send_aggregate :
    TreeAggregationState
    → List ValueContribution
    → Outcome (TreeAggregationState × Option ℕ × AggregationMessage)
compute_and_send_aggregate s accepted_proxy_values = do
  intermediate ← deref s.aggregation_intermediate
  sum ←
      add_contributions (is_single_valued_query s.current_query.request_type) intermediate
        accepted_proxy_values
  let parent = aggregation_tree_parent s.node_id s.num_groups s.num_meters
  ok (record s { aggregation_intermediate = some sum }, parent, sum)
