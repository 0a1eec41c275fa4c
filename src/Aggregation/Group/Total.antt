-- ===== src/Aggregation/Group/Total.antt =====
-- What the root of an aggregation group sends to the utility.
use pddm.Prelude.{ℕ, ◌+◌, ◌%◌, ◌^◌, ◌≤◌, ◌<◌, ◌≡◌, sym, ap, ◌∙◌, Bool, none, List, length, arith}
use pddm.Messages.{QueryRequest, ValueContribution, AggregationMessage, is_single_valued_query}
use pddm.Messages.Outcome.{ok}
use pddm.Overlay.Tree.{aggregation_tree_parent}
use pddm.Overlay.Tree.Shape.{tree_rooted}
use pddm.Overlay.Groups.Partition.{first_of_group, size_of_group, aggregation_group_for_unique}
use pddm.Aggregation.Sums.{get_or}
use pddm.Aggregation.Total.{values_total, ValuesFit}
use pddm.Aggregation.Group.{group_run}
use pddm.Overlay.Groups.Extent.{group_within}
use pddm.Aggregation.Group.Subtrees.{Sends, sends}
use pddm.Aggregation.Group.Heap.{sum_below, sum_from_root}

-- A whole aggregation group in which no meter has failed: each of its meters is initialized, waits for
-- its children's messages, which arrive in either order, adds its own accepted values, and sends to
-- its parent. If all values fit and the vectors are not empty, nothing throws, fails or waits for ever,
-- and the first meter of the group sends one message to the utility, whose columns are the sums of the
-- columns of all values of all meters of the group, each meter's counted once, modulo 2^64 and, for a
-- single-valued query, in the first column only. It counts one contributor for each meter and one for
-- each value.
pub group_total :
    (g m k : ℕ) (query : QueryRequest) (n : ℕ) (accepted : ℕ → List ValueContribution)
    (left_first : ℕ → Bool)
    → 2 ≤ g
    → g ≤ m
    → k < g
    → 0 < n
    → let first = first_of_group k g m in
      let size = size_of_group k g m in
      let single = is_single_valued_query query.request_type in
      ((j : ℕ) → j < size → ValuesFit single n (accepted (j + first)))
      → (sent : AggregationMessage) × (group_run g m query n accepted left_first size first
          ≡ ok (none, sent))
        × (sent.sender_id ≡ first)
        × (sent.query_num ≡ query.query_number)
        × (sent.num_contributors ≡ sum_below (λ j. 1 + length (accepted (j + first))) size)
        × (length sent.body ≡ n)
        × ((i : ℕ)
            → i < n
            → get_or sent.body i 0 % 2 ^ 64
              ≡ sum_below (λ j. values_total single (accepted (j + first)) i) size % 2 ^ 64)
unfolding Sends
group_total g m k query n accepted left_first two enough h pos fit =
    let first = first_of_group k g m in
    let size = size_of_group k g m in
    let single = is_single_valued_query query.request_type in
    let (positive, within) = group_within g m k two enough h in
    let (sent, runs, r) =
      sends g m two enough k h query n accepted left_first within pos fit size 0 (omega arith)
        positive in
    let zero_first : 0 + first ≡ first = omega arith in
    let no_parent = (tree_rooted g m two enough first (omega arith)).1 in
    let group = aggregation_group_for_unique g m two enough k first h (omega arith, omega arith) in
    (
      sent,
      ap (group_run g m query n accepted left_first size) (sym zero_first)
          ∙ runs
          ∙ ap (λ t. ok (aggregation_tree_parent t g m, sent)) zero_first
          ∙ ap (λ t. ok (t, sent)) (no_parent.1 (ap (λ l. first_of_group l g m) (sym group))),
      r.sender ∙ zero_first,
      r.numbered,
      r.counted ∙ sum_from_root (λ j. 1 + length (accepted (j + first))) size,
      r.sized,
      λ i b.
          r.columns i b
          ∙ ap (λ t. t % 2 ^ 64)
              (sum_from_root (λ j. values_total single (accepted (j + first)) i) size),
    )
