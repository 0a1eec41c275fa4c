-- ===== src/Examples/Aggregation.antt =====
-- A meter of seven in one group that aggregates, with one child's message and one value of its own.
use pddm.Prelude.{
  ℕ, ◌+◌, ◌<◌, ◌≤◌, ◌≡◌, refl, true, none, List, [], ◌∷◌, length, ◌%◌, ◌^◌, ◌↔◌, ◌==◌, arith,
}
use pddm.Messages.{
  QueryType, QueryRequest, AggregationMessage, ValueContribution, is_single_valued_query,
}
use pddm.Messages.Outcome.{ok}
use pddm.Overlay.Tree.{aggregation_tree_parent}
use pddm.Aggregation.{
  TreeAggregationState, new_state, initialize, compute_and_send_aggregate,
  done_receiving_from_children,
}
use pddm.Aggregation.Sums.{get_or}
use pddm.Aggregation.Total.{
  handle_messages, messages_total, values_total, contributors_total, sent_aggregate,
}
use pddm.Overlay.Groups.Partition.{first_of_group, size_of_group}
use pddm.Aggregation.Group.{group_run}
use pddm.Aggregation.Group.Heap.{sum_below}
use pddm.Aggregation.Group.Total.{group_total}
use pddm.Aggregation.Children.{live_children, waits_for_live_children}

abbrev histogram : QueryRequest
histogram = record {
  request_type = QueryType.curr_usage_histogram;
  time_window = 10;
  query_number = 4;
}

abbrev from_child : AggregationMessage
from_child = record { sender_id = 3; num_contributors = 2; query_num = 4; body = 5 ∷ 7 ∷ [] }

abbrev accepted : ValueContribution
accepted = record {
  value = record { query_num = 4; value = 1 ∷ 2 ∷ []; proxies = 1 ∷ 5 ∷ [] };
  signature = [];
}

abbrev begun : TreeAggregationState
begun = initialize (new_state 1 2 14 histogram) 2 (4 ∷ [])

sent_aggregate_example :
    (s s' : TreeAggregationState) × (sent : AggregationMessage) × (handle_messages begun
        (from_child ∷ [])
      ≡ ok s)
    × (compute_and_send_aggregate s (accepted ∷ []) ≡ ok (s', aggregation_tree_parent 1 2 14, sent))
    × (s.children_received_from ≡ 1)
    × ((done_receiving_from_children s ≡ true) ↔ (live_children 1 2 14 (4 ∷ []) ≤ 1))
    × (s.children_needed ≡ begun.children_needed)
    × (sent.sender_id ≡ 1)
    × (sent.query_num ≡ 4)
    × (sent.num_contributors ≡ 1 + contributors_total (from_child ∷ []) + 1)
    × (length sent.body ≡ 2)
    × ((i : ℕ)
        → i < 2
        → get_or sent.body i 0 % 2 ^ 64
          ≡ (messages_total
                (is_single_valued_query QueryType.curr_usage_histogram)
                (from_child ∷ [])
                i
              + values_total
                  (is_single_valued_query QueryType.curr_usage_histogram)
                  (accepted ∷ [])
                  i)
            % 2 ^ 64)
unfolding is_single_valued_query
sent_aggregate_example =
    sent_aggregate 1 2 14 histogram 2 (4 ∷ []) (from_child ∷ []) (accepted ∷ []) (refl, tt)
      (refl, tt)

waits_for_live_children_example :
    (begun.children_needed ≡ live_children 1 2 14 (4 ∷ []))
    × (begun.children_received_from ≡ 0)
    × ((done_receiving_from_children begun ≡ true) ↔ (live_children 1 2 14 (4 ∷ []) ≡ 0))
waits_for_live_children_example = waits_for_live_children 1 2 14 histogram 2 (4 ∷ [])

-- Every meter has one value as a proxy, with its own id in the first column.
abbrev own_value : ℕ → List ValueContribution
own_value node =
    (record {
      value = record { query_num = 4; value = node ∷ 1 ∷ []; proxies = [] };
      signature = [];
    })
    ∷ []

-- Seven meters in two groups: the second has four meters.
group_total_example :
    (sent : AggregationMessage) × (group_run 2 7 histogram 2 own_value
        (λ node. node == 4)
        (size_of_group 1 2 7)
        (first_of_group 1 2 7)
      ≡ ok (none, sent))
    × (sent.sender_id ≡ first_of_group 1 2 7)
    × (sent.query_num ≡ 4)
    × (sent.num_contributors
        ≡ sum_below (λ j. 1 + length (own_value (j + first_of_group 1 2 7))) (size_of_group 1 2 7))
    × (length sent.body ≡ 2)
    × ((i : ℕ)
        → i < 2
        → get_or sent.body i 0 % 2 ^ 64
          ≡ sum_below
              (λ j.
                values_total
                  (is_single_valued_query QueryType.curr_usage_histogram)
                  (own_value (j + first_of_group 1 2 7))
                  i)
              (size_of_group 1 2 7)
            % 2 ^ 64)
unfolding is_single_valued_query
group_total_example =
    group_total 2 7 1 histogram 2 own_value (λ node. node == 4) (omega arith) (omega arith)
      (omega arith) (omega arith) (λ j h. (refl, tt))
